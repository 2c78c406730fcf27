-- ===== src/Tests/Resumes.antt =====
-- The theorems on the file of the sessions at one interrupted upload, with its first and last chunk sent.
use zhuzhbox_cli.Base.{true, none, some, [], ◌∷◌, codes}
use zhuzhbox_cli.Base.Int.{pos}
use zhuzhbox_cli.Json.Concrete.{Tree}
use zhuzhbox_cli.Store.Alloc.{Alloc}
use zhuzhbox_cli.Store.Atomic.{Files, Disk}
use zhuzhbox_cli.Store.Sessions.{Session, Sessions}

abbrev enough : Alloc
enough = record { copy_ok = true; grow_ok = true }

abbrev good_disk : Disk
good_disk = record {
  path_ok = true;
  temp_name_ok = λ i. true;
  mkdir_ok = true;
  create_ok = λ i. true;
  write_ok = true;
  flush_ok = true;
  close_ok = true;
  rename_ok = true;
  remove_ok = true;
  temp_name = λ i. codes ".tmp";
}

abbrev nothing : Files Tree
nothing = λ name. none

abbrev interrupted : Session
interrupted = record {
  token = some (codes "abcdef");
  delete_token = none;
  source_path = some (codes "/tmp/a");
  filename = some (codes "a");
  mime_type = none;
  collection_token = none;
  size = 10;
  mtime = pos 5;
  chunk_size = 4;
  total_chunks = 3;
  sent = 5 ∷ [];
  updated_at = pos 9;
}

abbrev pending : Sessions
pending = record { items = interrupted ∷ []; capacity = 8 }
