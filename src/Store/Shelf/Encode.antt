-- ===== src/Store/Shelf/Encode.antt =====
-- One entry as JSON, and back.
use zhuzhbox_cli.Base.{
  ◌≤◌, ◌≡◌, ◌∙◌, refl, ap, Bool, true, false, Option, none, some, [], ◌∷◌, if◌then◌else◌, Bytes,
  codes, str_eq,
}
use zhuzhbox_cli.Json.{
  CJson, CJsonLaws, max_exact_int, json_get, json_get_str, json_get_u64, json_new_string,
  json_obj_set_str, json_obj_set_u64,
}
use zhuzhbox_cli.Json.Objects.{
  Items, build, item, distinct_keys, is_object-build, get_item-build, string_value-json_new_string,
  json_as_u64-create_number,
}
use zhuzhbox_cli.Store.Shelf.{Entry, take_entry, usable, entry_json}

-- An entry is written with `"file"` for a kind that is NULL.
abbrev pub normal : Entry → Entry
normal e = record e { kind = some (elim e.kind [ none ↦ codes "file" | some k ↦ k ]) }

module _ (c : CJson) where
  abbrev fields : Entry → Bool → Items c
  fields e secret =
      (codes "token", json_new_string c e.token)
      ∷ (codes "kind", json_new_string c (normal e).kind)
      ∷ (codes "name", json_new_string c e.name)
      ∷ (codes "size", c.create_number (c.of_u64 e.size))
      ∷ (codes "url", json_new_string c e.url)
      ∷ (codes "uploadedAt", json_new_string c e.uploaded_at)
      ∷ (codes "expiresAt", json_new_string c e.expires_at)
      ∷ (if secret then (codes "deleteToken", json_new_string c e.delete_token) ∷ [] else [])

  entry_json-build :
      (e : Entry) (secret : Bool)
      → entry_json c e secret ≡ build c c.create_object (fields e secret)
  unfolding entry_json json_obj_set_str json_obj_set_u64
  entry_json-build e true = refl
  entry_json-build e false = refl

  fields-distinct_keys : (e : Entry) (secret : Bool) → distinct_keys c (fields e secret) ≡ true
  unfolding str_eq
  fields-distinct_keys e true = refl
  fields-distinct_keys e false = refl

module _ (c : CJson) (laws : CJsonLaws c) where
  get_entry :
      (e : Entry) (secret : Bool) (key : Bytes)
      → json_get c (some (entry_json c e secret)) key ≡ item c (fields c e secret) key
  get_entry e secret key =
      rw (entry_json-build c e secret)
        (get_item-build c laws (fields c e secret) key (fields-distinct_keys c e secret))

  -- The delete token is in the object exactly if the caller asked for it.
  pub entry_json-delete_token :
      (e : Entry) (secret : Bool)
      → json_get_str c (some (entry_json c e secret)) (codes "deleteToken")
        ≡ (if secret then e.delete_token else none)
  unfolding json_get_str str_eq
  entry_json-delete_token e true =
      rw (get_entry e true (codes "deleteToken"))
        (string_value-json_new_string c laws e.delete_token)
  entry_json-delete_token e false = rw (get_entry e false (codes "deleteToken"))

  get_entry_str :
      (e : Entry) (key : Bytes) (s : Option Bytes)
      → item c (fields c e true) key ≡ some (json_new_string c s)
      → json_get_str c (some (entry_json c e true)) key ≡ s
  unfolding json_get_str
  get_entry_str e key s at = rw (get_entry e true key ∙ at) (string_value-json_new_string c laws s)

  get_entry_size :
      (e : Entry)
      → e.size ≤ max_exact_int
      → json_get_u64 c (some (entry_json c e true)) (codes "size") ≡ some e.size
  unfolding json_get_u64 str_eq
  get_entry_size e h =
      rw (get_entry e true (codes "size")) (json_as_u64-create_number c laws e.size h)

  -- What is saved of an entry is read back: every field, but that a kind that is NULL comes back as
  -- "file". Sizes are exact up to 2^53.
  pub take_entry-entry_json :
      (e : Entry) → e.size ≤ max_exact_int → take_entry c (entry_json c e true) ≡ normal e
  unfolding take_entry str_eq
  take_entry-entry_json e h = rw (
    get_entry_str e (codes "token") e.token refl,
    get_entry_str e (codes "deleteToken") e.delete_token refl,
    get_entry_str e (codes "kind") (normal e).kind refl,
    get_entry_str e (codes "name") e.name refl,
    get_entry_size e h,
    get_entry_str e (codes "url") e.url refl,
    get_entry_str e (codes "uploadedAt") e.uploaded_at refl,
    get_entry_str e (codes "expiresAt") e.expires_at refl,
  )

  pub usable-entry_json :
      (e : Entry) (t : Bytes) → e.token ≡ some t → usable c (entry_json c e true) ≡ true
  unfolding usable str_eq
  usable-entry_json e t h = rw (
    ap c.is_object (entry_json-build c e true)
        ∙ is_object-build c laws c.create_object (fields c e true) laws.is_object-create,
    get_entry_str e (codes "token") e.token refl,
    h,
  )
