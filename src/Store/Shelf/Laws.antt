-- ===== src/Store/Shelf/Laws.antt =====
-- `zb_shelf_upsert` and `zb_shelf_remove` against `zb_shelf_find`.
use zhuzhbox_cli.Base.{
  ℕ, ◌*◌, ◌%◌, ◌^◌, ◌<◌, ◌≡◌, refl, true, false, ◌&&◌, Option, none, some, [], ◌∷◌, arith,
  if◌then◌else◌, Bytes, str_eq, Bool-cases, Option-cases, inl, inr, ◌⊎◌, length, snoc, ltb, ◌==◌,
}
use zhuzhbox_cli.Base.Keyed.{is_key, find_key, replace_key, Distinct}
use zhuzhbox_cli.Base.Keyed.Laws.{
  find_key-replace_key, find_key-snoc, find_key-none, find_key-gone, find_key-remove_key,
  Distinct-replace_key, Distinct-remove_key, Distinct-snoc,
}
use zhuzhbox_cli.Error.{Status, is_ok, done}
use zhuzhbox_cli.Store.Alloc.{Alloc}
use zhuzhbox_cli.Store.Shelf.{
  Entry, Shelf, token_of, copy_entry, find, reserve, upsert_at, upsert, remove,
}

-- Room is made without touching the entries.
reserve-entries :
    (m : Alloc) (shelf : Shelf) {s : Shelf} → reserve m shelf ≡ done s → s.entries ≡ shelf.entries
unfolding reserve
reserve-entries m shelf h = ground arith

pub reserve_ok :
    (m : Alloc) (shelf : Shelf)
    → m.grow_ok ≡ true
    → length shelf.entries < 2 ^ 50
    → (s : Shelf) × (reserve m shelf ≡ done s) × (s.entries ≡ shelf.entries)
unfolding reserve
reserve_ok m shelf ok small = elim (Bool-cases (ltb (length shelf.entries) shelf.capacity)) [
  | inl room ↦ (shelf, rw room, refl)
  | inr full ↦ (
    record shelf { capacity = if shelf.capacity == 0 then 16 else shelf.capacity * 2 % 2 ^ 64 },
    ground arith,
    refl,
  )
]

find-upsert_at :
    (m : Alloc) (shelf : Shelf) (entry : Entry) (key other : Bytes)
    → entry.token ≡ some key
    → find (upsert_at m shelf entry key).0 other ≡ (
        if is_ok (upsert_at m shelf entry key).1 && str_eq key other
        then some entry
        else find shelf other)
unfolding upsert_at copy_entry reserve find
find-upsert_at m shelf entry key other e = ground (
  arith,
  find_key-replace_key token_of key other entry shelf.entries e,
  find_key-snoc token_of key other entry shelf.entries e,
)

upsert_at_failed :
    (m : Alloc) (shelf : Shelf) (entry : Entry) (key : Bytes)
    → is_ok (upsert_at m shelf entry key).1 ≡ false
    → (upsert_at m shelf entry key).0 ≡ shelf
unfolding upsert_at copy_entry reserve
upsert_at_failed m shelf entry key h = ground arith

-- The three things that an upsert does to the entries.
upsert_at-entries :
    (m : Alloc) (shelf : Shelf) (entry : Entry) (key : Bytes)
    → entry.token ≡ some key
    → let after = (upsert_at m shelf entry key).0.entries in
      (after ≡ shelf.entries)
      ⊎ (after ≡ replace_key token_of key entry shelf.entries)
      ⊎ (find_key token_of key shelf.entries ≡ none) × (after ≡ snoc shelf.entries entry)
unfolding upsert_at copy_entry reserve find
upsert_at-entries m shelf entry key e = ground arith

upsert_at-Distinct :
    (m : Alloc) (shelf : Shelf) (entry : Entry) (key : Bytes)
    → entry.token ≡ some key
    → Distinct token_of shelf.entries
    → Distinct token_of (upsert_at m shelf entry key).0.entries
upsert_at-Distinct m shelf entry key e d = elim (upsert_at-entries m shelf entry key e) [
  | inl same ↦ rw same d
  | inr (inl replaced) ↦ rw replaced (Distinct-replace_key token_of key entry shelf.entries e d)
  | inr (inr (absent, added)) ↦ rw added (
      Distinct-snoc token_of key entry shelf.entries e
        (find_key-none token_of key shelf.entries absent) d)
]

data TokenCase (t : Option Bytes) : Type 0 where
  absent : t ≡ none → TokenCase t
  blank : t ≡ some [] → TokenCase t
  present : (c : ℕ) (cs : Bytes) → t ≡ some (c ∷ cs) → TokenCase t

token_case : (t : Option Bytes) → TokenCase t
token_case none = absent refl
token_case (some []) = blank refl
token_case (some (c ∷ cs)) = present c cs refl

is_ok-eq : (rc : Status) → is_ok rc ≡ true → rc ≡ Status.ok
is_ok-eq rc h = ground arith

unchanged_or_ok :
    (after before : Shelf) (rc : Status)
    → (is_ok rc ≡ false → after ≡ before)
    → (after ≡ before) ⊎ (rc ≡ Status.ok)
unchanged_or_ok after before rc h = elim (Bool-cases (is_ok rc)) [
  | inl good ↦ inr (is_ok-eq rc good)
  | inr bad ↦ inl (h bad)
]

-- An upsert that succeeds is seen by every look-up: the entry itself under its token, and the rest as
-- before. One that fails, for want of a token or of memory, leaves the shelf as it was.
pub upsert_lem :
    (m : Alloc) (shelf : Shelf) (entry : Entry) (other : Bytes)
    → let (after, rc) = upsert m shelf entry in
      (find after other
        ≡ (if is_ok rc && is_key entry.token other then some entry else find shelf other))
      × ((after ≡ shelf) ⊎ (rc ≡ Status.ok))
unfolding upsert
upsert_lem m shelf entry other = elim (token_case entry.token) [
  | absent e ↦ rw (e, upsert) (refl, inl refl)
  | blank e ↦ rw (e, upsert) (refl, inl refl)
  | present c cs e ↦
      let found = find-upsert_at m shelf entry (c ∷ cs) other e in
      let failed = upsert_at_failed m shelf entry (c ∷ cs) in
      (
        ground (arith, e, found),
        unchanged_or_ok (upsert m shelf entry).0 shelf (upsert m shelf entry).1
            (ground (arith, e, failed)),
      )
]

pub upsert-entries :
    (m : Alloc) (shelf : Shelf) (entry : Entry)
    → let after = (upsert m shelf entry).0.entries in
      (after ≡ shelf.entries)
      ⊎ ((key : Bytes) × (entry.token ≡ some key)
          × ((after ≡ replace_key token_of key entry shelf.entries)
              ⊎ (after ≡ snoc shelf.entries entry)))
unfolding upsert
upsert-entries m shelf entry = elim (token_case entry.token) [
  | absent e ↦ rw (e, upsert) (inl refl)
  | blank e ↦ rw (e, upsert) (inl refl)
  | present c cs e ↦
      let step : upsert m shelf entry ≡ upsert_at m shelf entry (c ∷ cs) = ground (arith, e) in
      rw step (elim (upsert_at-entries m shelf entry (c ∷ cs) e) [
        | inl same ↦ inl same
        | inr (inl replaced) ↦ inr (c ∷ cs, e, inl replaced)
        | inr (inr (gone, added)) ↦ inr (c ∷ cs, e, inr added)
      ])
]

-- Tokens stay distinct.
pub upsert-Distinct :
    (m : Alloc) (shelf : Shelf) (entry : Entry)
    → Distinct token_of shelf.entries
    → Distinct token_of (upsert m shelf entry).0.entries
unfolding upsert
upsert-Distinct m shelf entry d = elim (token_case entry.token) [
  | absent e ↦ rw (e, upsert) d
  | blank e ↦ rw (e, upsert) d
  | present c cs e ↦
      let step : upsert m shelf entry ≡ upsert_at m shelf entry (c ∷ cs) = ground (arith, e) in
      rw step (upsert_at-Distinct m shelf entry (c ∷ cs) e d)
]

-- An upsert of an entry with a token succeeds, unless memory runs out.
pub upsert_ok :
    (m : Alloc) (shelf : Shelf) (entry : Entry) (c : ℕ) (cs : Bytes)
    → entry.token ≡ some (c ∷ cs)
    → m.copy_ok ≡ true
    → m.grow_ok ≡ true
    → length shelf.entries < 2 ^ 50
    → (upsert m shelf entry).1 ≡ Status.ok
unfolding upsert upsert_at copy_entry reserve
upsert_ok m shelf entry c cs e copy_ok grow_ok small = ground (arith, e)

-- With distinct tokens, a removed token is on the shelf no more, and no other entry goes with it. The
-- result says whether there was one.
pub remove_lem :
    (shelf : Shelf) (token other : Bytes)
    → Distinct token_of shelf.entries
    → let (after, removed) = remove shelf token in
      (find after other ≡ (if str_eq token other then none else find shelf other))
      × (removed ≡ (elim (find shelf token) [ none ↦ false | some e ↦ true ]))
      × Distinct token_of after.entries
unfolding remove find
remove_lem shelf token other d = elim (Option-cases (find_key token_of token shelf.entries)) [
  | inl gone ↦
      rw (gone, remove)
        (
          find_key-gone token_of token other shelf.entries
              (find_key-none token_of token shelf.entries gone),
          refl,
          d,
        )
  | inr (e, there) ↦
      rw (there, remove)
        (
          find_key-remove_key token_of token other shelf.entries d,
          refl,
          Distinct-remove_key token_of token shelf.entries d,
        )
]
