-- ===== src/Store/Alloc.antt =====
-- The outcomes of the allocations that one call makes: of the copies of its strings, and of the growth
-- of its array.
use zhuzhbox_cli.Base.{
  ℕ, ◌*◌, ◌/◌, ◌%◌, ◌-◌, ◌^◌, ◌≡◌, Bool, true, Option, none, some, ltb, ◌==◌, if◌then◌else◌,
}

pub record Alloc : Type 0 where
  pub copy_ok : Bool
  pub grow_ok : Bool

-- Every allocation succeeds.
abbrev pub Plenty : Alloc → Type 0
Plenty m = (m.copy_ok ≡ true) × (m.grow_ok ≡ true)

-- `cap != 0 ? cap * 2 : first`, refused if the block would exceed SIZE_MAX or `realloc` fails.
unfoldable pub grow : Alloc → ℕ → ℕ → ℕ → Option ℕ
grow m first item_size capacity =
    let cap = if capacity == 0 then first else capacity * 2 % 2 ^ 64 in
    if ltb ((2 ^ 64 - 1) / item_size) cap then none else if m.grow_ok then some cap else none
