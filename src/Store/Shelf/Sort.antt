-- ===== src/Store/Shelf/Sort.antt =====
-- The orders of the uploads list: the comparators and `zb_shelf_sort_entries` of src/store/shelf.c. An int
-- that a comparator returns is its sign. `qsort` is the C library's, an argument.
pub mod Laws
use zhuzhbox_cli.Base.{
  ℕ, zero, suc, Bool, true, false, not, Option, none, some, List, [], ◌∷◌, ltb, ◌==◌, if◌then◌else◌,
  Bytes, length,
}
use zhuzhbox_cli.Base.Int.{ℤ, pos, ltb_ℤ, eqb_ℤ}
use zhuzhbox_cli.Format.Time.{parse_iso8601}
use zhuzhbox_cli.Store.Shelf.{Entry, Shelf}

pub data Sign : Type 0 where
  below equal above : Sign

pub data SortKey : Type 0 where
  newest by_name by_size by_expiry : SortKey

abbrev pub or_else : Sign → Sign → Sign
or_else equal r = r
or_else r _ = r

-- `differ ? (less ? -1 : 1)`
abbrev pub three_way : Bool → Bool → Sign
three_way same less = if same then equal else if less then below else above

unfoldable pub strcmp : Bytes → Bytes → Sign
strcmp [] [] = equal
strcmp [] (b ∷ bs) = below
strcmp (a ∷ rest) [] = above
strcmp (a ∷ rest) (b ∷ bs) = or_else (three_way (a == b) (ltb a b)) (strcmp rest bs)

abbrev pub or_empty : Option Bytes → Bytes
or_empty none = []
or_empty (some s) = s

abbrev pub or_epoch : Option ℤ → ℤ
or_epoch none = pos 0
or_epoch (some t) = t

unfoldable pub entry_epoch : Option Bytes → ℤ
entry_epoch iso = or_epoch (parse_iso8601 iso)

abbrev pub cmp_token : Entry → Entry → Sign
cmp_token a b = strcmp (or_empty a.token) (or_empty b.token)

unfoldable pub cmp_newest : Entry → Entry → Sign
cmp_newest a b =
    let ta = entry_epoch a.uploaded_at in
    let tb = entry_epoch b.uploaded_at in
    or_else (three_way (eqb_ℤ ta tb) (ltb_ℤ tb ta)) (cmp_token a b)

unfoldable pub cmp_name : Entry → Entry → Sign
cmp_name a b = or_else (strcmp (or_empty a.name) (or_empty b.name)) (cmp_token a b)

unfoldable pub cmp_size : Entry → Entry → Sign
cmp_size a b = or_else (three_way (a.size == b.size) (ltb b.size a.size)) (cmp_token a b)

unfoldable pub cmp_expires : Entry → Entry → Sign
cmp_expires a b =
    let ta = entry_epoch a.expires_at in
    let tb = entry_epoch b.expires_at in
    or_else (three_way (eqb_ℤ ta tb) (ltb_ℤ ta tb)) (cmp_token a b)

unfoldable pub cmp_of : SortKey → Entry → Entry → Sign
unfolding cmp_newest cmp_name cmp_size cmp_expires
cmp_of SortKey.by_name a b = cmp_name a b
cmp_of SortKey.by_size a b = cmp_size a b
cmp_of SortKey.by_expiry a b = cmp_expires a b
cmp_of SortKey.newest a b = cmp_newest a b

unfoldable pub sort_entries :
    ((Entry → Entry → Sign) → List Entry → List Entry) → SortKey → Shelf → Shelf
unfolding cmp_of
sort_entries qsort key shelf =
    if ltb (length shelf.entries) 2
    then shelf
    else record shelf { entries = qsort (cmp_of key) shelf.entries }
