-- ===== src/Store/SessionsFile.antt =====
-- The file of the upload sessions: `zb_sessions_load` and `zb_sessions_save` of src/store/sessions.c, over
-- the JSON of `Json`. `calloc_ok` is the outcome of the allocation of each bitmap.
pub mod Encode
pub mod RoundTrip
pub mod Resume
use zhuzhbox_cli.Base.{
  ℕ, zero, suc, ◌+◌, Bool, true, false, not, Option, none, some, List, [], ◌∷◌, ltb, if◌then◌else◌,
  Bytes, codes,
}
use zhuzhbox_cli.Base.Int.{ℤ, pos, eqb_ℤ}
use zhuzhbox_cli.Error.{Status, is_ok, Outcome, done, fail, ◌>>=◌}
use zhuzhbox_cli.Json.{
  CJson, json_get, json_get_str, json_as_u64, json_get_u64, json_get_i64, json_items,
  json_obj_set_str, json_obj_set_u64, json_obj_set_i64,
}
use zhuzhbox_cli.Store.Alloc.{Alloc}
use zhuzhbox_cli.Store.Atomic.{Files, Disk, atomic_write, read_file}
use zhuzhbox_cli.Store.Sessions.{
  Session, Sessions, no_sessions, session_alloc_bitmap, session_mark, session_has, put,
}

module _ (c : CJson) where
  abbrev or_zero : Option ℕ → ℕ
  or_zero none = 0
  or_zero (some n) = n

  abbrev or_pos0 : Option ℤ → ℤ
  or_pos0 none = pos 0
  or_pos0 (some v) = v

  -- What `parse_one` reads before the bitmap.
  unfoldable pub take_session : c.Node → Session
  take_session node = record {
    token = json_get_str c (some node) (codes "token");
    delete_token = json_get_str c (some node) (codes "deleteToken");
    source_path = json_get_str c (some node) (codes "sourcePath");
    filename = json_get_str c (some node) (codes "filename");
    mime_type = json_get_str c (some node) (codes "mimeType");
    collection_token = json_get_str c (some node) (codes "collectionToken");
    size = or_zero (json_get_u64 c (some node) (codes "size"));
    mtime = or_pos0 (json_get_i64 c (some node) (codes "mtime"));
    chunk_size = or_zero (json_get_u64 c (some node) (codes "chunkSize"));
    total_chunks = 0;
    sent = [];
    updated_at = or_pos0 (json_get_i64 c (some node) (codes "updatedAt"));
  }

  -- One item of `sentChunks`.
  unfoldable pub mark_sent : Session → c.Node → Session
  mark_sent session item = elim (json_as_u64 c (some item)) [
    | none ↦ session
    | some index ↦ (if ltb index session.total_chunks then session_mark session index else session)
  ]

  unfoldable pub mark_all : Session → List c.Node → Session
  unfolding mark_sent
  mark_all session [] = session
  mark_all session (item ∷ items) = mark_all (mark_sent session item) items

  unfoldable pub with_bitmap : Bool → Session → c.Node → Option ℕ → Outcome Session
  unfolding mark_all
  with_bitmap calloc_ok session node none = fail Status.proto
  with_bitmap calloc_ok session node (some total) =
      elim (session_alloc_bitmap calloc_ok session total) [
        | none ↦ fail Status.proto
        | some ready ↦
            done (mark_all ready (json_items c (json_get c (some node) (codes "sentChunks"))))
      ]

  abbrev has_token : Option Bytes → Bool
  has_token none = false
  has_token (some t) = true

  unfoldable pub parse_one : Alloc → Bool → c.Node → Outcome Session
  parse_one m calloc_ok node =
      if not (c.is_object node)
      then fail Status.proto
      else if not (has_token (json_get_str c (some node) (codes "token")))
      then fail Status.proto
      else if not m.copy_ok
      then fail Status.nomem
      else with_bitmap calloc_ok (take_session node) node
          (json_get_u64 c (some node) (codes "totalChunks"))

  -- A record that cannot be used is passed over.
  abbrev put_parsed : Alloc → Sessions → Outcome Session → Outcome Sessions
  put_parsed m s (done session) =
      let (after, rc) = put m s session in if is_ok rc then done after else fail rc
  put_parsed m s (fail Status.nomem) = fail Status.nomem
  put_parsed m s (fail rc) = done s

  unfoldable pub load_sessions : Alloc → Bool → Sessions → List c.Node → Outcome Sessions
  unfolding parse_one
  load_sessions m calloc_ok s [] = done s
  load_sessions m calloc_ok s (node ∷ nodes) =
      put_parsed m s (parse_one m calloc_ok node) >>= λ after. load_sessions m calloc_ok after nodes

  unfoldable pub version_ok : Option ℤ → Bool
  version_ok none = false
  version_ok (some v) = eqb_ℤ v (pos 1)

  unfoldable pub load_root : Alloc → Bool → c.Node → Outcome Sessions
  load_root m calloc_ok root =
      if not (c.is_object root)
      then fail Status.io
      else if not (version_ok (json_get_i64 c (some root) (codes "version")))
      then fail Status.io
      else load_sessions m calloc_ok no_sessions
          (json_items c (json_get c (some root) (codes "sessions")))

  unfoldable pub load_text : Alloc → Bool → c.Text → Outcome Sessions
  load_text m calloc_ok text =
      if c.is_empty text
      then done no_sessions
      else elim (c.parse text) [ none ↦ fail Status.io | some root ↦ load_root m calloc_ok root ]

  -- `zb_sessions_load`, from what `zb_read_file` gave: `none` is no file.
  unfoldable pub load : Alloc → Bool → Outcome (Option c.Text) → Outcome Sessions
  unfolding version_ok load_root load_text
  load m calloc_ok (fail e) = fail e
  load m calloc_ok (done none) = done no_sessions
  load m calloc_ok (done (some text)) = load_text m calloc_ok text

  -- The array `sentChunks`, from chunk `k` on.
  unfoldable pub sent_json : Session → c.Node → ℕ → ℕ → c.Node
  sent_json item sent zero k = sent
  sent_json item sent (suc left) k =
      sent_json item
        (if session_has item k
          then c.add_item_to_array sent (c.create_number (c.of_u64 k))
          else sent)
        left (k + 1)

  unfoldable pub session_json : Session → c.Node
  unfolding sent_json
  session_json item =
      let o1 = json_obj_set_str c c.create_object (codes "token") item.token in
      let o2 = json_obj_set_str c o1 (codes "deleteToken") item.delete_token in
      let o3 = json_obj_set_str c o2 (codes "sourcePath") item.source_path in
      let o4 = json_obj_set_str c o3 (codes "filename") item.filename in
      let o5 = json_obj_set_str c o4 (codes "mimeType") item.mime_type in
      let o6 = json_obj_set_str c o5 (codes "collectionToken") item.collection_token in
      let o7 = json_obj_set_u64 c o6 (codes "size") item.size in
      let o8 = json_obj_set_i64 c o7 (codes "mtime") item.mtime in
      let o9 = json_obj_set_u64 c o8 (codes "chunkSize") item.chunk_size in
      let o10 = json_obj_set_u64 c o9 (codes "totalChunks") item.total_chunks in
      let o11 = json_obj_set_i64 c o10 (codes "updatedAt") item.updated_at in
      c.add_item_to_object o11 (codes "sentChunks")
        (sent_json item c.create_array item.total_chunks 0)

  unfoldable pub sessions_json : List Session → c.Node → c.Node
  unfolding session_json
  sessions_json [] array = array
  sessions_json (item ∷ items) array =
      sessions_json items (c.add_item_to_array array (session_json item))

  -- The text that `zb_sessions_save` writes.
  unfoldable pub save_text : Sessions → c.Text
  unfolding sessions_json
  save_text s =
      let root = json_obj_set_i64 c c.create_object (codes "version") (pos 1) in
      c.print (c.add_item_to_object root (codes "sessions") (sessions_json s.items c.create_array))

module _ (c : CJson) (d : Disk) (path : Bytes) (blank : c.Text) where
  -- The file after it, and the status.
  unfoldable pub save : Files c.Text → Sessions → Files c.Text × Status
  save fs s = atomic_write d fs path blank (save_text c s)

  unfoldable pub load_file :
      Alloc → (calloc_ok open_ok read_ok : Bool) → Files c.Text → Outcome Sessions
  load_file m calloc_ok open_ok read_ok fs =
      if not m.copy_ok
      then fail Status.nomem
      else load c m calloc_ok (read_file open_ok read_ok m.copy_ok fs path)
