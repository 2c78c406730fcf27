-- ===== src/Base/Keyed.antt =====
-- An array of records of which each has a key that may be NULL: the search, replacement and removal of
-- the first record with a given key, as the loops of store/shelf.c and store/sessions.c make them.
pub mod Laws
use Prim.Native.Nat.{ℕ, ◌+◌, ◌-◌, ◌≤◌, suc}
use mathlib.Core.Path.{◌≡◌, refl, ap, sym, ◌∙◌}
use mathlib.Core.Logic.{◌≢◌, ◌⊎◌, inl, inr}
use mathlib.Core.Bool.{Bool, true, false, ◌&&◌}
use mathlib.Core.List.{List, [], ◌∷◌, ◌++◌}
use mathlib.Core.Option.{Option, none, some}
use native.Mathlib.Omega.{arith}
use zhuzhbox_cli.Base.Tests.{if◌then◌else◌, Bool-cases}
use zhuzhbox_cli.Base.Strings.{Bytes, str_eq, str_eq_iff}
use zhuzhbox_cli.Base.Lists.{All, length}

-- `p != NULL && strcmp(p, key) == 0`
abbrev pub is_key : Option Bytes → Bytes → Bool
is_key none key = false
is_key (some k) key = str_eq k key

module _ {ℓ} {A : Type ℓ} (key_of : A → Option Bytes) where
  unfoldable pub find_key : Bytes → List A → Option A
  find_key key [] = none
  find_key key (x ∷ xs) = if is_key (key_of x) key then some x else find_key key xs

  unfoldable pub replace_key : Bytes → A → List A → List A
  replace_key key new [] = []
  replace_key key new (x ∷ xs) =
      if is_key (key_of x) key then new ∷ xs else x ∷ replace_key key new xs

  unfoldable pub remove_key : Bytes → List A → List A
  remove_key key [] = []
  remove_key key (x ∷ xs) = if is_key (key_of x) key then xs else x ∷ remove_key key xs

  -- No record of the list has this key.
  abbrev pub Lacks : Bytes → List A → Type 0
  Lacks key = All (λ x. is_key (key_of x) key ≡ false)

  abbrev pub Apart : Option Bytes → List A → Type 0
  Apart none xs = Unit
  Apart (some key) xs = Lacks key xs

  -- Every record has a key, and no two have the same.
  abbrev pub Distinct : List A → Type 0
  Distinct [] = Unit
  Distinct (x ∷ xs) = (key_of x ≢ none) × Apart (key_of x) xs × Distinct xs
