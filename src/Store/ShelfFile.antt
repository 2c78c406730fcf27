-- ===== src/Store/ShelfFile.antt =====
-- `zb_shelf_record` and `zb_shelf_forget` of src/store/shelf.c: load, change, save. The file of the shelf
-- is `path`, and `d.path_ok` also the copy of that name when it is saved; the outcomes of the system's calls are arguments.
pub mod Laws
use zhuzhbox_cli.Base.{Bool, true, false, not, Option, none, some, if◌then◌else◌, Bytes}
use zhuzhbox_cli.Error.{Status, is_ok, Outcome, done, fail}
use zhuzhbox_cli.Json.{CJson}
use zhuzhbox_cli.Store.Alloc.{Alloc}
use zhuzhbox_cli.Store.Atomic.{Files, Disk, atomic_write, read_file}
use zhuzhbox_cli.Store.Shelf.{Entry, Shelf, find, upsert, remove, load, save_text}

-- The outcomes of `fopen` and `fread` on the shelf's file, if it is there.
pub record Reads : Type 0 where
  pub open_ok : Bool
  pub read_ok : Bool

module _ (c : CJson) (m : Alloc) (r : Reads) (d : Disk) (path : Bytes) (blank : c.Text) where
  unfoldable pub load_file : Files c.Text → Outcome Shelf
  load_file fs =
      if not m.copy_ok
      then fail Status.nomem
      else load c m (read_file r.open_ok r.read_ok m.copy_ok fs path)

  unfoldable pub save_file : Files c.Text → Shelf → Files c.Text × Status
  save_file fs shelf = atomic_write d fs path blank (save_text c shelf)

  unfoldable pub save_upserted : Files c.Text → Shelf × Status → Files c.Text × Status
  save_upserted fs (shelf, rc) = if is_ok rc then save_file fs shelf else (fs, rc)

  unfoldable pub record_entry : Files c.Text → Entry → Files c.Text × Status
  unfolding save_upserted load_file save_file
  record_entry fs entry = elim (load_file fs) [
    | fail e ↦ (fs, e)
    | done shelf ↦ save_upserted fs (upsert m shelf entry)
  ]

  unfoldable pub save_removed : Files c.Text → Shelf × Bool → Files c.Text × Status
  save_removed fs (shelf, removed) = if removed then save_file fs shelf else (fs, Status.ok)

  unfoldable pub forget : Files c.Text → Bytes → Files c.Text × Status
  unfolding save_removed load_file save_file
  forget fs token = elim (load_file fs) [
    | fail e ↦ (fs, e)
    | done shelf ↦ save_removed fs (remove shelf token)
  ]

  -- What a later look-up in the file answers.
  unfoldable pub look_up : Files c.Text → Bytes → Option Entry
  unfolding load_file
  look_up fs token = elim (load_file fs) [ fail e ↦ none | done shelf ↦ find shelf token ]
