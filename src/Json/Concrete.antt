-- ===== src/Json/Concrete.antt =====
-- A concrete tree that meets the laws of `CJson`: numbers are integers, and a file holds the tree itself.
use zhuzhbox_cli.Base.{
  ◌≡◌, refl, ap, Bool, true, false, Option, none, some, List, [], ◌∷◌, if◌then◌else◌, Bytes, str_eq,
  str_eq_self, snoc, arith,
}
use zhuzhbox_cli.Base.Int.{ℤ, pos}
use zhuzhbox_cli.Json.{CJson, CJsonLaws}

mutual
  pub data Tree : Type 0 where
    null : Tree
    num : ℤ → Tree
    str : Bytes → Tree
    arr : Items → Tree
    obj : Fields → Tree

  pub data Items : Type 0 where
    nil : Items
    cons : Tree → Items → Items

  pub data Fields : Type 0 where
    end : Fields
    field : Bytes → Tree → Fields → Fields

abbrev look : Fields → Bytes → Option Tree
look end key = none
look (field k v fs) key = if str_eq k key then some v else look fs key

abbrev put : Fields → Bytes → Tree → Fields
put end key new = field key new end
put (field k v fs) key new = field k v (put fs key new)

abbrev list : Items → List Tree
list nil = []
list (cons x xs) = x ∷ list xs

abbrev push : Items → Tree → Items
push nil v = cons v nil
push (cons x xs) v = cons x (push xs v)

list-push : (xs : Items) (v : Tree) → list (push xs v) ≡ snoc (list xs) v
list-push nil v = refl
list-push (cons x xs) v = ap (◌∷◌ x) (list-push xs v)

abbrev is_obj : Tree → Bool
is_obj (obj fs) = true
is_obj _ = false

abbrev get : Tree → Bytes → Option Tree
get (obj fs) key = look fs key
get _ key = none

abbrev add_field : Tree → Bytes → Tree → Tree
add_field (obj fs) key v = obj (put fs key v)
add_field t key v = t

abbrev add_item : Tree → Tree → Tree
add_item (arr xs) v = arr (push xs v)
add_item t v = t

abbrev text_of : Tree → Option Bytes
text_of (str s) = some s
text_of _ = none

abbrev number_of : Tree → Option ℤ
number_of (num n) = some n
number_of _ = none

abbrev items_of : Tree → Option (List Tree)
items_of (arr xs) = some (list xs)
items_of _ = none

abbrev pub tree_json : CJson
tree_json = record {
  Node = Tree;
  Double = ℤ;
  integral = λ v. some v;
  of_u64 = λ n. pos n;
  of_i64 = λ n. n;
  is_object = is_obj;
  get_item = get;
  string_value = text_of;
  number_value = number_of;
  items = items_of;
  create_object = obj end;
  create_array = arr nil;
  create_null = null;
  create_string = str;
  create_number = num;
  add_item_to_object = add_field;
  add_item_to_array = add_item;
  Text = Tree;
  is_empty = λ t. false;
  parse = λ t. some t;
  print = λ t. t;
}

look-put_self :
    (fs : Fields) (k : Bytes) (v : Tree) → look fs k ≡ none → look (put fs k v) k ≡ some v
look-put_self end k v h = rw (str_eq_self k)
look-put_self (field l w fs) k v h = ground (arith, look-put_self fs k v)

look-put_other :
    (fs : Fields) (k l : Bytes) (v : Tree) → str_eq k l ≡ false → look (put fs k v) l ≡ look fs l
look-put_other end k l v h = rw h
look-put_other (field m w fs) k l v h = ground (arith, look-put_other fs k l v)

is_obj-add : (o : Tree) (k : Bytes) (v : Tree) → is_obj o ≡ true → is_obj (add_field o k v) ≡ true
is_obj-add (obj fs) k v h = refl
is_obj-add _ k v h = cc

get-add_self :
    (o : Tree) (k : Bytes) (v : Tree)
    → is_obj o ≡ true
    → get o k ≡ none
    → get (add_field o k v) k ≡ some v
get-add_self (obj fs) k v h e = look-put_self fs k v e
get-add_self _ k v h e = cc

get-add_other :
    (o : Tree) (k l : Bytes) (v : Tree) → str_eq k l ≡ false → get (add_field o k v) l ≡ get o l
get-add_other (obj fs) k l v h = look-put_other fs k l v h
get-add_other _ k l v h = refl

items-add :
    (a v : Tree) (xs : List Tree)
    → items_of a ≡ some xs
    → items_of (add_item a v) ≡ some (snoc xs v)
items-add (arr ys) v xs e = cc (list-push ys v)
items-add _ v xs e = cc

pub tree_laws : CJsonLaws tree_json
tree_laws = record {
  integral-of_u64 = λ n h. refl;
  integral-of_pos = λ n h. refl;
  integral-of_negsuc = λ n h. refl;
  is_object-create = refl;
  is_object-add = is_obj-add;
  get_item-create = λ k. refl;
  get_item-add_self = get-add_self;
  get_item-add_other = get-add_other;
  string_value-create = λ s. refl;
  string_value-null = refl;
  number_value-create = λ d. refl;
  items-create = refl;
  items-add = items-add;
  parse-print = λ n. refl;
  is_empty-print = λ n. refl;
}
