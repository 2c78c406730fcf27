-- ===== src/Text/Buffer.antt =====
-- src/util/buf.c: the growing buffer. `bytes` are its first `len` bytes, so `len` is their number; the NUL
-- that follows them is in none of them. Sizes are size_t.
use native.Mathlib.Nat.{pow-suc, mul_comm, mul_assoc}
use zhuzhbox_cli.Base.{
  ℕ, zero, suc, ◌+◌, ◌-◌, ◌*◌, ◌/◌, ◌^◌, ◌≤◌, ◌<◌, ◌≡◌, ◌⊎◌, Bool, true, false, ◌++◌, ltb, leb,
  ◌==◌, if◌then◌else◌, Bytes, length, arith, inl, inr, Bool-cases, Option, none, some, ap, sym,
  subst, ◌∙◌,
}

pub record Buffer : Type 0 where
  pub bytes : Bytes
  pub cap : ℕ

abbrev pub size_max : ℕ
size_max = 2 ^ 64 - 1

-- The loop of `zb_buf_reserve`, on fuel.
unfoldable pub grow_cap : ℕ → ℕ → ℕ → Option ℕ
grow_cap zero need cap = none
grow_cap (suc fuel) need cap =
    let rest = grow_cap fuel need (cap * 2) in
    if leb need cap then some cap else if ltb (size_max / 2) cap then some need else rest

-- `zb_buf_reserve`: the buffer after it, and whether it returned 0.
unfoldable pub reserve : Bool → Buffer → ℕ → Buffer × Bool
unfolding grow_cap
reserve realloc_ok b extra =
    if ltb (size_max - 1 - length b.bytes) extra
    then (b, false)
    else if leb (length b.bytes + extra + 1) b.cap
    then (b, true)
    else elim (grow_cap 66 (length b.bytes + extra + 1) (if b.cap == 0 then 64 else b.cap)) [
      | none ↦ (b, false)
      | some cap ↦ (if realloc_ok then (record b { cap = cap }, true) else (b, false))
    ]

-- `zb_buf_append`
unfoldable pub append : Bool → Buffer → Bytes → Buffer × Bool
unfolding reserve
append realloc_ok b added =
    let (grown, fits) = reserve realloc_ok b (length added) in
    if fits then (record grown { bytes = b.bytes ++ added }, true) else (grown, false)

-- The capacity covers the bytes and the NUL, once there is a block, and is a size_t.
abbrev pub IsBuffer : Buffer → Type 0
IsBuffer b = ((b.cap ≡ 0) × (length b.bytes ≡ 0) ⊎ (length b.bytes < b.cap)) × (b.cap ≤ size_max)

-- Doubling from a positive capacity passes any size_t before the fuel runs out.
grow_cap_enough :
    (fuel need cap : ℕ)
    → 0 < cap
    → need ≤ size_max
    → 2 ^ 64 ≤ cap * 2 ^ fuel
    → (found : ℕ) × (grow_cap (suc fuel) need cap ≡ some found) × (need ≤ found)
unfolding grow_cap
grow_cap_enough zero need cap pos fits big = (cap, ground (arith, big), ground (arith, big))
grow_cap_enough (suc fuel) need cap pos fits big =
    let twice : 2 ^ 64 ≤ cap * 2 * 2 ^ fuel =
      subst (λ z. 2 ^ 64 ≤ z)
        (ap (λ z. cap * z) (pow-suc 2 fuel ∙ mul_comm (2 ^ fuel) 2)
          ∙ sym (mul_assoc cap 2 (2 ^ fuel)))
        big in
    let ih = grow_cap_enough fuel need (cap * 2) (omega arith) fits twice in
    elim (Bool-cases (leb need cap)) [
      | inl fine ↦ (cap, ground (arith, fine), ground (arith, fine))
      | inr short ↦ elim (Bool-cases (ltb (size_max / 2) cap)) [
        | inl last ↦ (need, ground (arith, short, last), omega arith)
        | inr again ↦
            let step : grow_cap (suc (suc fuel)) need cap ≡ grow_cap (suc fuel) need (cap * 2) =
              ground (arith, short, again) in
            (ih.0, step ∙ ih.1, ih.2)
      ]
    ]

grow_cap-size_max :
    (fuel need cap found : ℕ)
    → need ≤ size_max
    → cap ≤ size_max
    → grow_cap fuel need cap ≡ some found
    → found ≤ size_max
unfolding grow_cap
grow_cap-size_max zero need cap found fits small h = cc
grow_cap-size_max (suc fuel) need cap found fits small h =
    ground (arith, h, grow_cap-size_max fuel need (cap * 2) found fits)

-- A reserve fails only when the block cannot grow or the size is no size_t; what it gives has room for
-- the bytes, as many more, and the NUL. The bytes are the same in either case.
pub reserve-IsBuffer :
    (realloc_ok : Bool) (b : Buffer) (extra : ℕ)
    → IsBuffer b
    → let (after, fits) = reserve realloc_ok b extra in
      IsBuffer after
      × (after.bytes ≡ b.bytes)
      × (fits ≡ true → length after.bytes + extra < after.cap)
      × (realloc_ok ≡ true → length b.bytes + extra < size_max → fits ≡ true)
unfolding reserve
reserve-IsBuffer realloc_ok b extra h =
    let need = length b.bytes + extra + 1 in
    let start = (if b.cap == 0 then 64 else b.cap) in
    elim (Bool-cases (ltb (size_max - 1 - length b.bytes) extra)) [
      | inl huge ↦ ground (arith, huge)
      | inr fits ↦
          let big : 2 ^ 64 ≤ start * 2 ^ 65 = ground arith in
          let found = grow_cap_enough 65 need start (ground arith) (ground (arith, fits)) big in
          let small =
            grow_cap-size_max 66 need start found.0 (ground (arith, fits)) (ground arith) found.1 in
          ground (arith, fits, found.1, found.2, small)
    ]
