-- ===== src/Store/Shelf.antt =====
-- src/store/shelf.c and shelf.h: the uploads list. An absent string is NULL. `count` is the length of
-- `entries`, and a pointer into the array is the entry itself, or `none` for NULL.
pub mod Laws
pub mod Encode
pub mod RoundTrip
pub mod Sort
use zhuzhbox_cli.Base.{
  ℕ, ◌<◌, Bool, true, false, not, Option, none, some, List, [], ◌∷◌, ◌++◌, ltb, if◌then◌else◌,
  Bytes, codes, length, snoc, ◌==◌,
}
use zhuzhbox_cli.Base.Int.{ℤ, pos, eqb_ℤ}
use zhuzhbox_cli.Base.Keyed.{find_key, replace_key, remove_key}
use zhuzhbox_cli.Error.{Status, Outcome, done, fail, ◌>>=◌}
use zhuzhbox_cli.Json.{
  CJson, json_get, json_get_str, json_get_u64, json_get_i64, json_items, json_is_array,
  json_obj_set_str, json_obj_set_u64, json_obj_set_i64,
}
use zhuzhbox_cli.Store.Alloc.{Alloc, grow}

pub record Entry : Type 0 where
  pub token : Option Bytes
  pub delete_token : Option Bytes
  pub kind : Option Bytes
  pub name : Option Bytes
  pub size : ℕ
  pub url : Option Bytes
  pub uploaded_at : Option Bytes
  pub expires_at : Option Bytes

pub record Shelf : Type 0 where
  pub entries : List Entry
  pub capacity : ℕ

abbrev pub empty : Shelf
empty = record { entries = []; capacity = 0 }

abbrev pub token_of : Entry → Option Bytes
token_of e = e.token

-- `copy_entry`: the token is needed, and a copy that fails fails the whole.
unfoldable pub copy_entry : Alloc → Entry → Option Entry
copy_entry m e = elim e.token [ none ↦ none | some t ↦ (if m.copy_ok then some e else none) ]

unfoldable pub find : Shelf → Bytes → Option Entry
unfolding find_key
find shelf token = find_key token_of token shelf.entries

-- `reserve`; an entry takes 64 bytes.
unfoldable pub reserve : Alloc → Shelf → Outcome Shelf
unfolding grow
reserve m shelf =
    if ltb (length shelf.entries) shelf.capacity
    then done shelf
    else elim (grow m 16 64 shelf.capacity) [
      | none ↦ fail Status.nomem
      | some cap ↦ done (record shelf { capacity = cap })
    ]

abbrev append : Outcome Shelf → Shelf → Entry → Shelf × Status
append (fail e) old entry = (old, e)
append (done shelf) old entry = (record shelf { entries = snoc shelf.entries entry }, Status.ok)

-- `zb_shelf_upsert` past the test of the token.
unfoldable pub upsert_at : Alloc → Shelf → Entry → Bytes → Shelf × Status
upsert_at m shelf entry token = elim (copy_entry m entry) [
  | none ↦ (shelf, Status.nomem)
  | some copy ↦ elim (find shelf token) [
    | some existing ↦
        (record shelf { entries = replace_key token_of token copy shelf.entries }, Status.ok)
    | none ↦ append (reserve m shelf) shelf copy
  ]
]

unfoldable pub upsert : Alloc → Shelf → Entry → Shelf × Status
unfolding upsert_at
upsert m shelf entry = elim entry.token [
  | none ↦ (shelf, Status.proto)
  | some [] ↦ (shelf, Status.proto)
  | some (c ∷ cs) ↦ upsert_at m shelf entry (c ∷ cs)
]

unfoldable pub remove : Shelf → Bytes → Shelf × Bool
remove shelf token = elim (find shelf token) [
  | none ↦ (shelf, false)
  | some e ↦ (record shelf { entries = remove_key token_of token shelf.entries }, true)
]

module _ (c : CJson) where
  -- What the `TAKE` lines of `zb_shelf_load` read from one node.
  unfoldable pub take_entry : c.Node → Entry
  take_entry node = record {
    token = json_get_str c (some node) (codes "token");
    delete_token = json_get_str c (some node) (codes "deleteToken");
    kind = json_get_str c (some node) (codes "kind");
    name = json_get_str c (some node) (codes "name");
    size = elim (json_get_u64 c (some node) (codes "size")) [ none ↦ 0 | some n ↦ n ];
    url = json_get_str c (some node) (codes "url");
    uploaded_at = json_get_str c (some node) (codes "uploadedAt");
    expires_at = json_get_str c (some node) (codes "expiresAt");
  }

  -- A node that is no object, or has no token, is passed over.
  unfoldable pub usable : c.Node → Bool
  usable node =
      if c.is_object node
      then elim (json_get_str c (some node) (codes "token")) [ none ↦ false | some t ↦ true ]
      else false

  -- One round of the loop of `zb_shelf_load`.
  unfoldable pub load_node : Alloc → Shelf → c.Node → Outcome Shelf
  unfolding usable take_entry
  load_node m shelf node =
      if not (usable node)
      then done shelf
      else if not m.copy_ok
      then fail Status.nomem
      else reserve m shelf >>= λ s. done (record s { entries = snoc s.entries (take_entry node) })

  unfoldable pub load_nodes : Alloc → Shelf → List c.Node → Outcome Shelf
  unfolding load_node
  load_nodes m shelf [] = done shelf
  load_nodes m shelf (node ∷ nodes) = load_node m shelf node >>= λ s. load_nodes m s nodes

  -- `entries` has to be a list, if it is there.
  unfoldable pub entries_ok : Option c.Node → Bool
  entries_ok none = true
  entries_ok (some a) = json_is_array c a

  unfoldable pub version_ok : Option ℤ → Bool
  version_ok none = false
  version_ok (some v) = eqb_ℤ v (pos 1)

  unfoldable pub load_root : Alloc → c.Node → Outcome Shelf
  load_root m root =
      let entries = json_get c (some root) (codes "entries") in
      if not (c.is_object root)
      then fail Status.io
      else if not (version_ok (json_get_i64 c (some root) (codes "version")))
      then fail Status.io
      else if not (entries_ok entries)
      then fail Status.io
      else load_nodes m empty (json_items c entries)

  unfoldable pub load_text : Alloc → c.Text → Outcome Shelf
  load_text m text =
      if c.is_empty text
      then done empty
      else elim (c.parse text) [ none ↦ fail Status.io | some root ↦ load_root m root ]

  -- `zb_shelf_load`, from what `zb_read_file` gave: `none` is no file.
  unfoldable pub load : Alloc → Outcome (Option c.Text) → Outcome Shelf
  unfolding entries_ok version_ok load_root load_text
  load m (fail e) = fail e
  load m (done none) = done empty
  load m (done (some text)) = load_text m text

  -- `zb_shelf_entry_json`
  unfoldable pub entry_json : Entry → Bool → c.Node
  entry_json e include_delete_token =
      let kind : Bytes = elim e.kind [ none ↦ codes "file" | some k ↦ k ] in
      let o1 = json_obj_set_str c c.create_object (codes "token") e.token in
      let o2 = json_obj_set_str c o1 (codes "kind") (some kind) in
      let o3 = json_obj_set_str c o2 (codes "name") e.name in
      let o4 = json_obj_set_u64 c o3 (codes "size") e.size in
      let o5 = json_obj_set_str c o4 (codes "url") e.url in
      let o6 = json_obj_set_str c o5 (codes "uploadedAt") e.uploaded_at in
      let o7 = json_obj_set_str c o6 (codes "expiresAt") e.expires_at in
      if include_delete_token
      then json_obj_set_str c o7 (codes "deleteToken") e.delete_token
      else o7

  unfoldable pub entries_json : List Entry → c.Node → c.Node
  entries_json [] array = array
  entries_json (e ∷ es) array = entries_json es (c.add_item_to_array array (entry_json e true))

  -- The text that `zb_shelf_save` writes.
  unfoldable pub save_text : Shelf → c.Text
  unfolding entries_json
  save_text shelf =
      let root = json_obj_set_i64 c c.create_object (codes "version") (pos 1) in
      c.print
        (c.add_item_to_object root (codes "entries") (entries_json shelf.entries c.create_array))
