-- ===== src/Json.antt =====
-- src/util/json.c over cJSON. The library cJSON is a parameter: `CJson` holds the calls that json.c
-- makes, on values instead of pointers, and `CJsonLaws` what it documents of them. A node is added to a
-- container by value, so no node is shared. Allocation inside cJSON succeeds.
pub mod Concrete
pub mod Objects
use zhuzhbox_cli.Base.{
  ℕ, suc, ◌^◌, ◌≤◌, ◌≡◌, Bool, true, false, Option, none, some, List, [], ◌∷◌, leb, if◌then◌else◌,
  Bytes, str_eq, snoc,
}
use zhuzhbox_cli.Base.Int.{ℤ, pos, negsuc}

pub record CJson : Type 1 where
  pub Node : Type 0
  pub Double : Type 0
  -- The integer that a double is, if it is finite and has no fraction (`isfinite(v)`, `v == floor(v)`).
  pub integral : Double → Option ℤ
  -- The conversions `(double)v`.
  pub of_u64 : ℕ → Double
  pub of_i64 : ℤ → Double
  pub is_object : Node → Bool
  -- `cJSON_GetObjectItemCaseSensitive`: the first item of an object with this key.
  pub get_item : Node → Bytes → Option Node
  -- `valuestring` of a string, `valuedouble` of a number, the items of an array in order.
  pub string_value : Node → Option Bytes
  pub number_value : Node → Option Double
  pub items : Node → Option (List Node)
  pub create_object : Node
  pub create_array : Node
  pub create_null : Node
  pub create_string : Bytes → Node
  pub create_number : Double → Node
  pub add_item_to_object : Node → Bytes → Node → Node
  pub add_item_to_array : Node → Node → Node
  -- The contents of a file, and whether there are none.
  pub Text : Type 0
  pub is_empty : Text → Bool
  pub parse : Text → Option Node
  pub print : Node → Text

-- 2^53, `ZB_JSON_MAX_EXACT_INT`
abbrev pub max_exact_int : ℕ
max_exact_int = 2 ^ 53

pub record CJsonLaws (c : CJson) : Type 0 where
  pub integral-of_u64 : (n : ℕ) → n ≤ max_exact_int → c.integral (c.of_u64 n) ≡ some (pos n)
  pub integral-of_pos : (n : ℕ) → n ≤ max_exact_int → c.integral (c.of_i64 (pos n)) ≡ some (pos n)
  pub integral-of_negsuc :
      (n : ℕ) → suc n ≤ max_exact_int → c.integral (c.of_i64 (negsuc n)) ≡ some (negsuc n)
  pub is_object-create : c.is_object c.create_object ≡ true
  pub is_object-add :
      (o : c.Node) (k : Bytes) (v : c.Node)
      → c.is_object o ≡ true
      → c.is_object (c.add_item_to_object o k v) ≡ true
  pub get_item-create : (k : Bytes) → c.get_item c.create_object k ≡ none
  -- An item goes to the end, and a look-up gives the first with the key.
  pub get_item-add_self :
      (o : c.Node) (k : Bytes) (v : c.Node)
      → c.is_object o ≡ true
      → c.get_item o k ≡ none
      → c.get_item (c.add_item_to_object o k v) k ≡ some v
  pub get_item-add_other :
      (o : c.Node) (k l : Bytes) (v : c.Node)
      → str_eq k l ≡ false
      → c.get_item (c.add_item_to_object o k v) l ≡ c.get_item o l
  pub string_value-create : (s : Bytes) → c.string_value (c.create_string s) ≡ some s
  pub string_value-null : c.string_value c.create_null ≡ none
  pub number_value-create : (d : c.Double) → c.number_value (c.create_number d) ≡ some d
  pub items-create : c.items c.create_array ≡ some []
  pub items-add :
      (a v : c.Node) (xs : List c.Node)
      → c.items a ≡ some xs
      → c.items (c.add_item_to_array a v) ≡ some (snoc xs v)
  -- Printing loses nothing, and prints no empty text.
  pub parse-print : (n : c.Node) → c.parse (c.print n) ≡ some n
  pub is_empty-print : (n : c.Node) → c.is_empty (c.print n) ≡ false

module _ (c : CJson) where
  unfoldable pub number_to_u64 : c.Double → Option ℕ
  number_to_u64 v = elim (c.integral v) [
    | some (pos n) ↦ (if leb n max_exact_int then some n else none)
    | _ ↦ none
  ]

  unfoldable pub number_to_i64 : c.Double → Option ℤ
  number_to_i64 v = elim (c.integral v) [
    | some (pos n) ↦ (if leb n max_exact_int then some (pos n) else none)
    | some (negsuc n) ↦ (if leb (suc n) max_exact_int then some (negsuc n) else none)
    | none ↦ none
  ]

  abbrev bind : {A B : Type 0} → Option A → (A → Option B) → Option B
  bind none f = none
  bind (some a) f = f a

  -- `zb_json_get` of an object; the null pointer is `none`.
  unfoldable pub json_get : Option c.Node → Bytes → Option c.Node
  json_get none key = none
  json_get (some o) key = if c.is_object o then c.get_item o key else none

  unfoldable pub json_get_str : Option c.Node → Bytes → Option Bytes
  unfolding json_get
  json_get_str o key = bind (json_get o key) c.string_value

  unfoldable pub json_as_u64 : Option c.Node → Option ℕ
  unfolding number_to_u64
  json_as_u64 n = bind (bind n c.number_value) number_to_u64

  unfoldable pub json_get_u64 : Option c.Node → Bytes → Option ℕ
  unfolding json_get json_as_u64
  json_get_u64 o key = json_as_u64 (json_get o key)

  unfoldable pub json_get_i64 : Option c.Node → Bytes → Option ℤ
  unfolding json_get number_to_i64
  json_get_i64 o key = bind (bind (json_get o key) c.number_value) number_to_i64

  -- `zb_json_array_len` and `zb_json_at`, as the sequence that they walk: nothing for what is no array.
  unfoldable pub json_items : Option c.Node → List c.Node
  json_items none = []
  json_items (some a) = elim (c.items a) [ none ↦ [] | some xs ↦ xs ]

  unfoldable pub json_is_array : c.Node → Bool
  json_is_array a = elim (c.items a) [ none ↦ false | some xs ↦ true ]

  unfoldable pub json_new_string : Option Bytes → c.Node
  json_new_string none = c.create_null
  json_new_string (some s) = c.create_string s

  unfoldable pub json_obj_set_str : c.Node → Bytes → Option Bytes → c.Node
  unfolding json_new_string
  json_obj_set_str o key value = c.add_item_to_object o key (json_new_string value)

  unfoldable pub json_obj_set_u64 : c.Node → Bytes → ℕ → c.Node
  json_obj_set_u64 o key value = c.add_item_to_object o key (c.create_number (c.of_u64 value))

  unfoldable pub json_obj_set_i64 : c.Node → Bytes → ℤ → c.Node
  json_obj_set_i64 o key value = c.add_item_to_object o key (c.create_number (c.of_i64 value))
