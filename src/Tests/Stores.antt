-- ===== src/Tests/Stores.antt =====
-- The theorems on the stores at a shelf of one entry and a disk where the first temporary name is free.
use zhuzhbox_cli.Base.{
  ◌+◌, ◌≡◌, ◌⊎◌, true, false, not, none, some, [], ◌∷◌, arith, Bytes, codes, refl, All, ◌&&◌,
  if◌then◌else◌, str_eq, length,
}
use zhuzhbox_cli.Base.Int.{pos}
use zhuzhbox_cli.Base.Keyed.{is_key, Distinct}
use zhuzhbox_cli.Error.{Status, is_ok}
use zhuzhbox_cli.Json.{json_get_str}
use zhuzhbox_cli.Json.Concrete.{tree_json, tree_laws, Tree}
use zhuzhbox_cli.Store.Alloc.{Alloc}
use zhuzhbox_cli.Store.Atomic.{Files, Disk, Attempt, create_new, find_temp, atomic_write}
use zhuzhbox_cli.Store.Atomic.Laws.{replaced, atomic_write_lem, atomic_write_removes}
use zhuzhbox_cli.Store.Shelf
use zhuzhbox_cli.Store.Shelf.{Entry, Shelf, entry_json, take_entry, save_text, upsert}
use zhuzhbox_cli.Store.Shelf.Encode.{normal, entry_json-delete_token, take_entry-entry_json}
use zhuzhbox_cli.Store.Shelf.Laws.{upsert_lem, remove_lem}
use zhuzhbox_cli.Store.Shelf.Sort.{SortKey, cmp_of}
use zhuzhbox_cli.Store.Shelf.Sort.Laws.{Ordered, cmp_of-Ordered}
use zhuzhbox_cli.Store.ShelfFile.{record_entry}
use zhuzhbox_cli.Store.ShelfFile.Laws.{record_entry_other, fine}
use zhuzhbox_cli.Store.Sessions
use zhuzhbox_cli.Store.Sessions.{
  Session, Sessions, find_token, put, find_source, source_in, is_source, prune_stale, is_stale,
}
use zhuzhbox_cli.Store.Sessions.Laws.{put_lem, remove-find_token}
use zhuzhbox_cli.Store.Sessions.Prune.{is_past, live, prune_stale-live}

abbrev plenty : Alloc
plenty = record { copy_ok = true; grow_ok = true }

abbrev photo : Entry
photo = record {
  token = some (codes "abcdef");
  delete_token = some (codes "secret");
  kind = none;
  name = some (codes "a.png");
  size = 10;
  url = none;
  uploaded_at = none;
  expires_at = none;
}

abbrev other : Entry
other = record (photo) { token = some (codes "ghijkl") }

abbrev one_entry : Shelf
one_entry = record { entries = photo ∷ []; capacity = 16 }

abbrev disk : Disk
disk = record {
  path_ok = true;
  temp_name_ok = λ i. true;
  mkdir_ok = true;
  create_ok = λ i. true;
  write_ok = true;
  flush_ok = true;
  close_ok = true;
  rename_ok = true;
  remove_ok = true;
  temp_name = λ i. codes ".tmp";
}

abbrev target : Bytes
target = codes "shelf.json"

abbrev no_files : Files Tree
no_files = λ name. none

abbrev everywhere : Files Tree
everywhere = λ name. some (Tree.num (pos 1))

abbrev saved_files : Files Tree
saved_files = λ name. if str_eq name target then some (save_text tree_json one_entry) else none

upsert_lem_example :
    let (after, rc) = upsert plenty one_entry other in
    (Shelf.find after (codes "abcdef") ≡ (
      if is_ok rc && is_key other.token (codes "abcdef")
      then some other
      else Shelf.find one_entry (codes "abcdef")))
    × ((after ≡ one_entry) ⊎ (rc ≡ Status.ok))
upsert_lem_example = upsert_lem plenty one_entry other (codes "abcdef")

one-Distinct : Distinct Shelf.token_of (photo ∷ [])
one-Distinct = (λ e. cc, tt, tt)

remove_lem_example :
    let (after, removed) = Shelf.remove one_entry (codes "abcdef") in
    (Shelf.find after (codes "abcdef") ≡ (
      if str_eq (codes "abcdef") (codes "abcdef")
      then none
      else Shelf.find one_entry (codes "abcdef")))
    × (removed ≡ (elim (Shelf.find one_entry (codes "abcdef")) [ none ↦ false | some e ↦ true ]))
    × Distinct Shelf.token_of after.entries
remove_lem_example = remove_lem one_entry (codes "abcdef") (codes "abcdef") one-Distinct

entry_json-delete_token_example :
    json_get_str tree_json (some (entry_json tree_json photo false)) (codes "deleteToken") ≡ none
entry_json-delete_token_example = entry_json-delete_token tree_json tree_laws photo false

take_entry-entry_json_example :
    take_entry tree_json (entry_json tree_json photo true) ≡ normal photo
take_entry-entry_json_example = take_entry-entry_json tree_json tree_laws photo (omega arith)

-- A disk that cannot be flushed, where nothing can be removed either.
abbrev broken_disk : Disk
broken_disk = record (disk) { flush_ok = false; remove_ok = false }

disk_free : find_temp disk no_files 32 0 ≡ Attempt.created 0
unfolding find_temp create_new
disk_free = refl

broken_free : find_temp broken_disk no_files 32 0 ≡ Attempt.created 0
unfolding find_temp create_new
broken_free = refl

atomic_write_lem_example :
    let (after, rc) =
      atomic_write broken_disk no_files target (Tree.num (pos 0)) (Tree.num (pos 7)) in
    after (codes ".tmp") ≡ (
      if not (is_ok rc) && true && str_eq (codes ".tmp") (codes ".tmp")
      then some (Tree.num (pos 0))
      else replaced (is_ok rc) no_files target (Tree.num (pos 7)) (codes ".tmp"))
atomic_write_lem_example =
    atomic_write_lem broken_disk no_files target (codes ".tmp") (Tree.num (pos 0))
      (Tree.num (pos 7)) 0 refl refl broken_free

all_taken : find_temp disk everywhere 32 0 ≡ Attempt.none_created
unfolding find_temp create_new
all_taken = refl

atomic_write_removes_example :
    ((atomic_write disk everywhere target (Tree.num (pos 0)) (Tree.num (pos 7))).1 ≡ Status.io)
    × ((atomic_write disk everywhere target (Tree.num (pos 0)) (Tree.num (pos 7))).0 (codes ".tmp")
        ≡ (if str_eq (codes ".tmp") (codes ".tmp") then none else everywhere (codes ".tmp")))
atomic_write_removes_example =
    atomic_write_removes disk everywhere target (codes ".tmp") (Tree.num (pos 0)) (Tree.num (pos 7))
      refl refl all_taken

record_entry_other_example :
    (record_entry tree_json plenty fine disk target (Tree.num (pos 0)) no_files photo).0
      (codes "else")
    ≡ none
unfolding str_eq
record_entry_other_example =
    record_entry_other tree_json tree_laws plenty disk target (Tree.num (pos 0)) fine no_files photo
      (codes "else") 0 refl refl disk_free refl (ground arith)

abbrev session : Session
session = record {
  token = some (codes "abcdef");
  delete_token = none;
  source_path = some (codes "/tmp/a");
  filename = some (codes "a");
  mime_type = none;
  collection_token = none;
  size = 10;
  mtime = pos 5;
  chunk_size = 4;
  total_chunks = 3;
  sent = 0 ∷ [];
  updated_at = pos 9;
}

abbrev one_session : Sessions
one_session = record { items = session ∷ []; capacity = 8 }

session-Distinct : Distinct Sessions.token_of (session ∷ [])
session-Distinct = (λ e. cc, tt, tt)

put_lem_example :
    let (after, rc) = put plenty one_session session in
    (find_token after (codes "abcdef") ≡ (
      if is_ok rc && is_key session.token (codes "abcdef")
      then some session
      else find_token one_session (codes "abcdef")))
    × Distinct Sessions.token_of after.items
    × ((after ≡ one_session) ⊎ (rc ≡ Status.ok))
put_lem_example = put_lem plenty one_session session (codes "abcdef") session-Distinct

remove-find_token_example :
    let (after, removed) = Sessions.remove one_session (codes "abcdef") in
    (find_token after (codes "abcdef") ≡ (
      if str_eq (codes "abcdef") (codes "abcdef")
      then none
      else find_token one_session (codes "abcdef")))
    × (removed ≡ (elim (find_token one_session (codes "abcdef")) [ none ↦ false | some x ↦ true ]))
    × Distinct Sessions.token_of after.items
remove-find_token_example =
    remove-find_token one_session (codes "abcdef") (codes "abcdef") session-Distinct

found_source : find_source one_session (codes "/tmp/a") 10 (pos 5) ≡ some session
unfolding find_source source_in is_source str_eq
found_source = refl

prune_stale-live_example :
    let (after, removed) = prune_stale one_session (pos 100000) in
    (after.items ≡ live (pos 100000) (session ∷ []))
    × All (λ x. is_past (pos 100000) x ≡ false) after.items
    × (removed + length after.items ≡ 1)
prune_stale-live_example = prune_stale-live one_session (pos 100000)

cmp_of-Ordered_example : Ordered (cmp_of SortKey.by_size) photo other photo
cmp_of-Ordered_example = cmp_of-Ordered SortKey.by_size photo other photo
