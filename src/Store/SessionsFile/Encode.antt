-- ===== src/Store/SessionsFile/Encode.antt =====
-- One session as JSON, and back: its fields, and its marks.
use zhuzhbox_cli.Base.{
  ℕ, zero, suc, ◌+◌, ◌^◌, ◌≤◌, ◌<◌, ◌≡◌, ◌≢◌, ◌∙◌, refl, sym, ap, true, Option, none, some, List,
  [], ◌∷◌, ◌++◌, if◌then◌else◌, Bytes, snoc, append_assoc, append-nil, arith, Bool-cases,
  Option-cases, inl, inr, codes, str_eq, replicate, ◌/◌, ltb,
}
use zhuzhbox_cli.Base.Int.{ℤ}
use zhuzhbox_cli.Error.{done}
use zhuzhbox_cli.Json.{
  CJson, CJsonLaws, max_exact_int, json_get, json_get_str, json_get_u64, json_get_i64, json_items,
  json_new_string, json_obj_set_str, json_obj_set_u64, json_obj_set_i64,
}
use zhuzhbox_cli.Json.Objects.{
  Items, build, item, distinct_keys, is_object-build, get_item-build, string_value-json_new_string,
  json_as_u64-create_number, IsExact, number_to_i64-of_i64,
}
use zhuzhbox_cli.Store.Alloc.{Alloc, Plenty}
use zhuzhbox_cli.Store.Sessions.{Session, session_alloc_bitmap, session_mark, session_has}
use zhuzhbox_cli.Store.SessionsFile.{
  take_session, mark_sent, mark_all, with_bitmap, parse_one, sent_json, session_json,
}
use zhuzhbox_cli.Upload.Bitmap.{alloc_bitmap}
use zhuzhbox_cli.Upload.Bitmap.Copy.{copy_bit, copy_bits}

-- What can be saved and read back: a token, numbers that a double holds, and a count of chunks that
-- `zb_session_alloc_bitmap` takes.
pub record IsSavable (s : Session) : Type 0 where
  pub token : s.token ≢ none
  pub size : s.size ≤ max_exact_int
  pub mtime : IsExact s.mtime
  pub chunk_size : s.chunk_size ≤ max_exact_int
  pub updated_at : IsExact s.updated_at
  pub some_chunks : 0 < s.total_chunks
  pub few_chunks : s.total_chunks ≤ 2 ^ 32

abbrev pub blank_of : ℕ → Bytes
blank_of total = replicate ((total + 7) / 8) 0

-- The session that is read for a session that was written.
abbrev pub reloaded : Session → Session
reloaded s = record s { sent = copy_bits s.sent (blank_of s.total_chunks) s.total_chunks 0 }

pub alloc_ok :
    (total : ℕ) → 0 < total → total ≤ 2 ^ 32 → alloc_bitmap true total ≡ some (blank_of total)
unfolding alloc_bitmap
alloc_ok total some_chunks few = ground arith

module _ (c : CJson) where
  abbrev fields : Session → Items c
  fields s =
      (codes "token", json_new_string c s.token)
      ∷ (codes "deleteToken", json_new_string c s.delete_token)
      ∷ (codes "sourcePath", json_new_string c s.source_path)
      ∷ (codes "filename", json_new_string c s.filename)
      ∷ (codes "mimeType", json_new_string c s.mime_type)
      ∷ (codes "collectionToken", json_new_string c s.collection_token)
      ∷ (codes "size", c.create_number (c.of_u64 s.size))
      ∷ (codes "mtime", c.create_number (c.of_i64 s.mtime))
      ∷ (codes "chunkSize", c.create_number (c.of_u64 s.chunk_size))
      ∷ (codes "totalChunks", c.create_number (c.of_u64 s.total_chunks))
      ∷ (codes "updatedAt", c.create_number (c.of_i64 s.updated_at))
      ∷ (codes "sentChunks", sent_json c s c.create_array s.total_chunks 0)
      ∷ []

  session_json-build : (s : Session) → session_json c s ≡ build c c.create_object (fields s)
  unfolding session_json json_obj_set_str json_obj_set_u64 json_obj_set_i64
  session_json-build s = refl

  fields-distinct_keys : (s : Session) → distinct_keys c (fields s) ≡ true
  unfolding str_eq
  fields-distinct_keys s = refl

  -- The numbers that stand in `sentChunks`.
  mark_nodes : Session → ℕ → ℕ → List c.Node
  mark_nodes s zero k = []
  mark_nodes s (suc left) k =
      let rest = mark_nodes s left (k + 1) in
      if session_has s k then c.create_number (c.of_u64 k) ∷ rest else rest

module _ (c : CJson) (laws : CJsonLaws c) where
  get_field :
      (s : Session) (key : Bytes)
      → json_get c (some (session_json c s)) key ≡ item c (fields c s) key
  get_field s key =
      rw (session_json-build c s)
        (get_item-build c laws (fields c s) key (fields-distinct_keys c s))

  get_str :
      (s : Session) (key : Bytes) (v : Option Bytes)
      → item c (fields c s) key ≡ some (json_new_string c v)
      → json_get_str c (some (session_json c s)) key ≡ v
  unfolding json_get_str
  get_str s key v at = rw (get_field s key ∙ at) (string_value-json_new_string c laws v)

  get_u64 :
      (s : Session) (key : Bytes) (n : ℕ)
      → item c (fields c s) key ≡ some (c.create_number (c.of_u64 n))
      → n ≤ max_exact_int
      → json_get_u64 c (some (session_json c s)) key ≡ some n
  unfolding json_get_u64
  get_u64 s key n at h = rw (get_field s key ∙ at) (json_as_u64-create_number c laws n h)

  get_i64 :
      (s : Session) (key : Bytes) (v : ℤ)
      → item c (fields c s) key ≡ some (c.create_number (c.of_i64 v))
      → IsExact v
      → json_get_i64 c (some (session_json c s)) key ≡ some v
  unfolding json_get_i64
  get_i64 s key v at h =
      rw (get_field s key ∙ at, laws.number_value-create (c.of_i64 v))
        (number_to_i64-of_i64 c laws v h)

  take_session-session_json :
      (s : Session)
      → IsSavable s
      → take_session c (session_json c s) ≡ record s { total_chunks = 0; sent = [] }
  unfolding take_session str_eq
  take_session-session_json s h = rw (
    get_str s (codes "token") s.token refl,
    get_str s (codes "deleteToken") s.delete_token refl,
    get_str s (codes "sourcePath") s.source_path refl,
    get_str s (codes "filename") s.filename refl,
    get_str s (codes "mimeType") s.mime_type refl,
    get_str s (codes "collectionToken") s.collection_token refl,
    get_u64 s (codes "size") s.size refl h.size,
    get_i64 s (codes "mtime") s.mtime refl h.mtime,
    get_u64 s (codes "chunkSize") s.chunk_size refl h.chunk_size,
    get_i64 s (codes "updatedAt") s.updated_at refl h.updated_at,
  )

  items-sent_json :
      (s : Session) (array : c.Node) (xs : List c.Node) (left k : ℕ)
      → c.items array ≡ some xs
      → c.items (sent_json c s array left k) ≡ some (xs ++ mark_nodes c s left k)
  unfolding sent_json mark_nodes
  items-sent_json s array xs zero k h = rw append-nil h
  items-sent_json s array xs (suc left) k h = elim (Bool-cases (session_has s k)) [
    | inl there ↦
        let number = c.create_number (c.of_u64 k) in
        rw there (
          items-sent_json s (c.add_item_to_array array number) (snoc xs number) left (k + 1)
            (laws.items-add array number xs h)
          ∙ ap some (append_assoc xs (number ∷ []) (mark_nodes c s left (k + 1))))
    | inr gap ↦ rw gap (items-sent_json s array xs left (k + 1) h)
  ]

  mark_sent-number :
      (session : Session) (k : ℕ)
      → k < session.total_chunks
      → session.total_chunks ≤ 2 ^ 32
      → mark_sent c session (c.create_number (c.of_u64 k)) ≡ session_mark session k
  unfolding mark_sent
  mark_sent-number session k below few =
      let inside : ltb k session.total_chunks ≡ true = ground arith in
      rw (json_as_u64-create_number c laws k (omega arith), inside, mark_sent) refl

  mark_all-mark_nodes :
      (s session : Session) (left k : ℕ)
      → k + left ≤ session.total_chunks
      → session.total_chunks ≤ 2 ^ 32
      → mark_all c session (mark_nodes c s left k)
        ≡ record session { sent = copy_bits s.sent session.sent left k }
  unfolding mark_all mark_nodes copy_bits session_has session_mark
  mark_all-mark_nodes s session zero k inside few = refl
  mark_all-mark_nodes s session (suc left) k inside few = elim (Bool-cases (session_has s k)) [
    | inl there ↦
        let rest = mark_nodes c s left (k + 1) in
        let number = c.create_number (c.of_u64 k) in
        let nodes : mark_nodes c s (suc left) k ≡ number ∷ rest = rw there refl in
        let bit : copy_bit s.sent session.sent k ≡ (session_mark session k).sent = rw there refl in
        ap (mark_all c session) nodes
        ∙ ap (λ z. mark_all c z rest) (mark_sent-number session k (omega arith) few)
        ∙ mark_all-mark_nodes s (session_mark session k) left (k + 1) (omega arith) few
        ∙ ap (λ b. record session { sent = copy_bits s.sent b left (k + 1) }) (sym bit)
    | inr gap ↦ rw gap (mark_all-mark_nodes s session left (k + 1) (omega arith) few)
  ]

  -- The items of `sentChunks` of a session that was written.
  sent_items :
      (s : Session)
      → json_items c (json_get c (some (session_json c s)) (codes "sentChunks"))
        ≡ mark_nodes c s s.total_chunks 0
  unfolding json_items str_eq
  sent_items s =
      rw
        (
          get_field s (codes "sentChunks"),
          items-sent_json s c.create_array [] s.total_chunks 0 laws.items-create,
        )
        refl

  session_alloc_ok :
      (s : Session) (total : ℕ)
      → 0 < total
      → total ≤ 2 ^ 32
      → session_alloc_bitmap true s total
        ≡ some (record s { sent = blank_of total; total_chunks = total })
  unfolding session_alloc_bitmap
  session_alloc_ok s total some_chunks few =
      rw (alloc_ok total some_chunks few, session_alloc_bitmap)

  with_bitmap-session_json :
      (s : Session)
      → IsSavable s
      → with_bitmap c true
          (take_session c (session_json c s))
          (session_json c s)
          (some s.total_chunks)
        ≡ done (reloaded s)
  unfolding with_bitmap
  with_bitmap-session_json s h =
      let few = h.few_chunks in
      let fresh : Session = record s { sent = blank_of s.total_chunks } in
      let taken = take_session c (session_json c s) in
      rw
        (
          session_alloc_ok taken s.total_chunks h.some_chunks few,
          with_bitmap,
          sent_items s,
          take_session-session_json s h,
        )
        (ap done (mark_all-mark_nodes s fresh s.total_chunks 0 (omega arith) few))

  pub parse_one-session_json :
      (m : Alloc) (s : Session)
      → Plenty m
      → IsSavable s
      → parse_one c m true (session_json c s) ≡ done (reloaded s)
  unfolding parse_one str_eq
  parse_one-session_json m s p h =
      let token = get_str s (codes "token") s.token refl in
      let total =
        get_u64 s (codes "totalChunks") s.total_chunks refl (omega (arith, h.few_chunks)) in
      let object : c.is_object (session_json c s) ≡ true =
        ap c.is_object (session_json-build c s)
        ∙ is_object-build c laws c.create_object (fields c s) laws.is_object-create in
      elim (Option-cases s.token) [
        | inl missing ↦ absurd (h.token missing)
        | inr (t, there) ↦ rw (object, token ∙ there, p.0, total) (with_bitmap-session_json s h)
      ]
