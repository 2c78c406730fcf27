-- ===== src/Store/ShelfFile/Laws.antt =====
-- A recorded upload is on the shelf that is read next.
use zhuzhbox_cli.Base.{
  ◌≡◌, refl, subst, true, false, ◌&&◌, ◌||◌, ℕ, if_holds, str_eq_iff, Option, none, some, arith,
  Bytes, str_eq, Bool-cases, inl, inr,
}
use zhuzhbox_cli.Error.{Status, is_ok, Outcome, done, fail}
use zhuzhbox_cli.Json.{CJson, CJsonLaws}
use zhuzhbox_cli.Store.Alloc.{Alloc}
use zhuzhbox_cli.Store.Atomic.{Files, taken, Disk, Attempt, find_temp}
use zhuzhbox_cli.Store.Atomic.Laws.{atomic_write_lem, find_temp-WasFree, WasFree}
use zhuzhbox_cli.Store.Shelf.{Entry, Shelf, upsert, save_text}
use zhuzhbox_cli.Store.Shelf.Encode.{normal}
use zhuzhbox_cli.Store.ShelfFile.{Reads, load_file, save_file, save_upserted, record_entry}

abbrev map_option : Option Entry → Option Entry
map_option none = none
map_option (some e) = some (normal e)

abbrev pub fine : Reads
fine = record { open_ok = true; read_ok = true }

abbrev pub shut : Reads
shut = record { open_ok = false; read_ok = true }

module _ (c : CJson) (laws : CJsonLaws c) (m : Alloc) (d : Disk) (path : Bytes)
    (blank : c.Text) where
  -- What was there stays, or all of it where the temporary file can be removed.
  save_upserted_other :
      (fs : Files c.Text) (shelf : Shelf) (rc : Status) (r : Reads) (other : Bytes) (i : ℕ)
      → d.path_ok ≡ true
      → d.mkdir_ok ≡ true
      → find_temp d fs 32 0 ≡ Attempt.created i
      → (d.remove_ok || taken c.Text fs other) ≡ true
      → (is_ok (save_upserted c m r d path blank fs (shelf, rc)).1 && str_eq path other) ≡ false
      → (save_upserted c m r d path blank fs (shelf, rc)).0 other ≡ fs other
  unfolding save_upserted save_file
  save_upserted_other fs shelf rc r other i named made at kept =
      let saved = atomic_write_lem d fs path other blank (save_text c shelf) i named made at in
      let free : fs (d.temp_name i) ≡ none =
        subst (WasFree d fs) at (find_temp-WasFree d fs 32 0) in
      if_holds
        (λ (x : Files c.Text × Status).
          (is_ok x.1 && str_eq path other) ≡ false → x.0 other ≡ fs other)
        (is_ok rc) _ _
        (λ e failed. elim (Bool-cases (str_eq (d.temp_name i) other)) [
          | inl same ↦
              let gone : fs other ≡ none =
                subst (λ n. fs n ≡ none) ((str_eq_iff (d.temp_name i) other).0 same) free in
              let removed : d.remove_ok ≡ true = ground (arith, kept, gone) in
              ground (arith, saved, removed, failed)
          | inr differs ↦ ground (arith, saved, differs, failed)
        ])
        (λ e failed. refl)

  -- Where the directory is there and one of the 32 attempts creates its temporary file, a failed
  -- `zb_shelf_record` changes no file that was there, and a successful one none but the shelf's; where the
  -- temporary file can be removed, neither adds a file.
  pub record_entry_other :
      (r : Reads) (fs : Files c.Text) (entry : Entry) (other : Bytes) (i : ℕ)
      → d.path_ok ≡ true
      → d.mkdir_ok ≡ true
      → find_temp d fs 32 0 ≡ Attempt.created i
      → (d.remove_ok || taken c.Text fs other) ≡ true
      → (is_ok (record_entry c m r d path blank fs entry).1 && str_eq path other) ≡ false
      → (record_entry c m r d path blank fs entry).0 other ≡ fs other
  unfolding record_entry
  record_entry_other r fs entry other i named made at kept =
      of_load (load_file c m r d path blank fs)
    where
      of_load :
          (o : Outcome Shelf)
          → let x : Files c.Text × Status = elim o [
            | fail e ↦ (fs, e)
            | done shelf ↦ save_upserted c m r d path blank fs (upsert m shelf entry)
          ] in
            (is_ok x.1 && str_eq path other) ≡ false → x.0 other ≡ fs other
      of_load (fail e) failed = refl
      of_load (done shelf) failed =
          let u = upsert m shelf entry in
          save_upserted_other fs u.0 u.1 r other i named made at kept failed
