-- ===== src/Json/Objects.antt =====
-- An object that is built key by key holds what was put under each key.
use zhuzhbox_cli.Base.{
  ℕ, suc, ◌≤◌, ◌≡◌, ◌∙◌, refl, Bool, true, not, ◌&&◌, Option, none, some, List, [], ◌∷◌,
  if◌then◌else◌, Bytes, str_eq, str_eq_iff, arith, Bool-cases, inl, inr, subst,
}
use zhuzhbox_cli.Base.Int.{ℤ, pos, negsuc}
use zhuzhbox_cli.Json.{
  CJson, CJsonLaws, max_exact_int, number_to_i64, json_get, json_as_u64, json_new_string,
}

-- An integer that a double holds exactly.
abbrev pub IsExact : ℤ → Type 0
IsExact (pos n) = n ≤ max_exact_int
IsExact (negsuc n) = suc n ≤ max_exact_int

module _ (c : CJson) where
  abbrev pub Items : Type 0
  Items = List (Bytes × c.Node)

  -- The object after each item is added in turn.
  abbrev pub build : c.Node → Items → c.Node
  build o [] = o
  build o ((k, v) ∷ fs) = build (c.add_item_to_object o k v) fs

  abbrev pub item : Items → Bytes → Option c.Node
  item [] key = none
  item ((k, v) ∷ fs) key = if str_eq k key then some v else item fs key

  abbrev pub fresh_key : Items → Bytes → Bool
  fresh_key [] key = true
  fresh_key ((k, v) ∷ fs) key = not (str_eq k key) && fresh_key fs key

  -- No key is written twice.
  abbrev pub distinct_keys : Items → Bool
  distinct_keys [] = true
  distinct_keys ((k, v) ∷ fs) = fresh_key fs k && distinct_keys fs

module _ (c : CJson) (laws : CJsonLaws c) where
  pub is_object-build :
      (o : c.Node) (fs : Items c) → c.is_object o ≡ true → c.is_object (build c o fs) ≡ true
  is_object-build o [] h = h
  is_object-build o ((k, v) ∷ fs) h =
      is_object-build (c.add_item_to_object o k v) fs (laws.is_object-add o k v h)

  get_item-build_fresh :
      (o : c.Node) (fs : Items c) (key : Bytes)
      → fresh_key c fs key ≡ true
      → c.get_item (build c o fs) key ≡ c.get_item o key
  get_item-build_fresh o [] key h = refl
  get_item-build_fresh o ((k, v) ∷ fs) key h =
      get_item-build_fresh (c.add_item_to_object o k v) fs key (ground arith)
      ∙ laws.get_item-add_other o k key v (ground arith)

  -- What an object of distinct keys answers.
  get_item-build_onto :
      (o : c.Node) (fs : Items c) (key : Bytes)
      → c.is_object o ≡ true
      → c.get_item o key ≡ none
      → distinct_keys c fs ≡ true
      → c.get_item (build c o fs) key ≡ item c fs key
  get_item-build_onto o [] key h e d = e
  get_item-build_onto o ((k, v) ∷ fs) key h e d = elim (Bool-cases (str_eq k key)) [
    | inl same ↦
        let k-key : k ≡ key = (str_eq_iff k key).0 same in
        rw same (
          subst
            (λ l.
              c.get_item o l ≡ none
              → fresh_key c fs k ≡ true
              → c.get_item (build c (c.add_item_to_object o k v) fs) l ≡ some v)
            k-key
            (λ e' f.
              get_item-build_fresh (c.add_item_to_object o k v) fs k f
              ∙ laws.get_item-add_self o k v h e')
            e (ground arith))
    | inr other ↦ rw other (
        get_item-build_onto (c.add_item_to_object o k v) fs key (laws.is_object-add o k v h)
          (laws.get_item-add_other o k key v other ∙ e) (ground arith))
  ]

  pub get_item-build :
      (fs : Items c) (key : Bytes)
      → distinct_keys c fs ≡ true
      → json_get c (some (build c c.create_object fs)) key ≡ item c fs key
  unfolding json_get
  get_item-build fs key d = rw (is_object-build c.create_object fs laws.is_object-create) (
      get_item-build_onto c.create_object fs key laws.is_object-create (laws.get_item-create key) d)

  pub string_value-json_new_string : (s : Option Bytes) → c.string_value (json_new_string c s) ≡ s
  unfolding json_new_string
  string_value-json_new_string none = laws.string_value-null
  string_value-json_new_string (some s) = laws.string_value-create s

  pub json_as_u64-create_number :
      (n : ℕ) → n ≤ max_exact_int → json_as_u64 c (some (c.create_number (c.of_u64 n))) ≡ some n
  unfolding json_as_u64
  json_as_u64-create_number n h =
      ground (arith, laws.number_value-create (c.of_u64 n), laws.integral-of_u64 n h)

  pub number_to_i64-of_i64 : (v : ℤ) → IsExact v → number_to_i64 c (c.of_i64 v) ≡ some v
  unfolding number_to_i64
  number_to_i64-of_i64 (pos n) h = ground (arith, laws.integral-of_pos n h)
  number_to_i64-of_i64 (negsuc n) h = ground (arith, laws.integral-of_negsuc n h)
