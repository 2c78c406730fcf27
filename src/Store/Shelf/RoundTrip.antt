-- ===== src/Store/Shelf/RoundTrip.antt =====
-- What `zb_shelf_save` writes, `zb_shelf_load` reads.
use zhuzhbox_cli.Base.{◌≤◌, ◌≡◌, ◌≢◌, true, none, List, [], ◌∷◌, codes}
use zhuzhbox_cli.Base.Int.{pos}
use zhuzhbox_cli.Error.{Outcome, done, fail}
use zhuzhbox_cli.Json.{CJson, CJsonLaws, max_exact_int}
use zhuzhbox_cli.Json.Objects.{Items}
use zhuzhbox_cli.Store.Alloc.{Alloc}
use zhuzhbox_cli.Store.Shelf.{Entry, Shelf, entry_json}
use zhuzhbox_cli.Store.Shelf.Encode.{normal}

-- What `zb_shelf_save` may rely on: every entry has a token, and an exact size.
abbrev pub IsSavable : Entry → Type 0
IsSavable e = (e.token ≢ none) × (e.size ≤ max_exact_int)

abbrev pub map_normal : List Entry → List Entry
map_normal [] = []
map_normal (e ∷ es) = normal e ∷ map_normal es

-- A load that succeeds, with these entries.
abbrev pub LoadsAs : Outcome Shelf → List Entry → Type 0
LoadsAs (fail e) es = ⊥
LoadsAs (done s) es = s.entries ≡ es

module _ (c : CJson) (laws : CJsonLaws c) where
  abbrev nodes : List Entry → List c.Node
  nodes [] = []
  nodes (e ∷ es) = entry_json c e true ∷ nodes es

  abbrev root_items : c.Node → Items c
  root_items array =
      (codes "version", c.create_number (c.of_i64 (pos 1))) ∷ (codes "entries", array) ∷ []
