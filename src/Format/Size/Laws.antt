-- ===== src/Format/Size/Laws.antt =====
-- A size in whole units is read exactly.
use zhuzhbox_cli.Base.{
  ℕ, suc, ◌+◌, ◌-◌, ◌*◌, ◌^◌, ◌<◌, ◌≤◌, ◌≡◌, true, false, some, [], ◌∷◌, ◌++◌, ◌==◌, Bytes, codes,
  length, All, arith, refl, ap, ◌∙◌,
}
use zhuzhbox_cli.Format.Time.{is_digit}
use zhuzhbox_cli.Format.Size.{
  Doubles, DoublesLaws, multiplier, skip_blanks, whole_part, after_point, size_of, parse_size,
  bounded,
}
use zhuzhbox_cli.Text.Utf8.{streq_from, ascii_lower}

-- The units of a size, as they are written and what they stand for.
pub data SizeUnit : Type 0 where
  one_byte kib mib gib tib : SizeUnit

abbrev pub unit_text : SizeUnit → Bytes
unit_text SizeUnit.one_byte = []
unit_text SizeUnit.kib = codes "KiB"
unit_text SizeUnit.mib = codes "MiB"
unit_text SizeUnit.gib = codes "GiB"
unit_text SizeUnit.tib = codes "TiB"

abbrev pub unit_size : SizeUnit → ℕ
unit_size SizeUnit.one_byte = 1
unit_size SizeUnit.kib = 2 ^ 10
unit_size SizeUnit.mib = 2 ^ 20
unit_size SizeUnit.gib = 2 ^ 30
unit_size SizeUnit.tib = 2 ^ 40

abbrev pub IsDigit : ℕ → Type 0
IsDigit c = is_digit c ≡ true

-- The number that digits stand for, behind those that make `v`.
abbrev pub number_from : ℕ → Bytes → ℕ
number_from v [] = v
number_from v (c ∷ cs) = number_from (v * 10 + (c - 48)) cs

multiplier-unit_text : (u : SizeUnit) → multiplier (skip_blanks (unit_text u)) ≡ some (unit_size u)
unfolding multiplier skip_blanks streq_from ascii_lower
multiplier-unit_text SizeUnit.one_byte = refl
multiplier-unit_text SizeUnit.kib = refl
multiplier-unit_text SizeUnit.mib = refl
multiplier-unit_text SizeUnit.gib = refl
multiplier-unit_text SizeUnit.tib = refl

unit_grows : (u : SizeUnit) (n : ℕ) → n ≤ n * unit_size u
unit_grows SizeUnit.one_byte n = omega arith
unit_grows SizeUnit.kib n = omega arith
unit_grows SizeUnit.mib n = omega arith
unit_grows SizeUnit.gib n = omega arith
unit_grows SizeUnit.tib n = omega arith

number_from-ge : (v : ℕ) (ds : Bytes) → v ≤ number_from v ds
number_from-ge v [] = omega arith
number_from-ge v (c ∷ cs) = omega (arith, number_from-ge (v * 10 + (c - 48)) cs)

module _ (f : Doubles) (laws : DoublesLaws f) where
  after_unit :
      (u : SizeUnit) (value : f.Double) (digits : ℕ)
      → after_point f (whole_part f (unit_text u) value digits) ≡ (unit_text u, value, digits)
  unfolding whole_part after_point
  after_unit SizeUnit.one_byte value digits = refl
  after_unit SizeUnit.kib value digits = refl
  after_unit SizeUnit.mib value digits = refl
  after_unit SizeUnit.gib value digits = refl
  after_unit SizeUnit.tib value digits = refl

  whole_part-digits :
      (ds rest : Bytes) (v n : ℕ)
      → All IsDigit ds
      → number_from v ds ≤ 2 ^ 53
      → whole_part f (ds ++ rest) (f.of_u64 v) n
        ≡ whole_part f rest (f.of_u64 (number_from v ds)) (n + length ds)
  unfolding whole_part
  whole_part-digits [] rest v n h small =
      let e : n ≡ n + 0 = omega arith in ap (λ k. whole_part f rest (f.of_u64 v) k) e
  whole_part-digits (c ∷ cs) rest v n h small =
      let next = v * 10 + (c - 48) in
      let grown = number_from-ge next cs in
      let exact : f.plus (f.mul (f.of_u64 v) (f.of_u64 10)) (f.of_u64 (c - 48)) ≡ f.of_u64 next =
        ap (λ x. f.plus x (f.of_u64 (c - 48))) (laws.mul-of_u64 v 10 (omega arith))
        ∙ laws.plus-of_u64 (v * 10) (c - 48) (omega arith) in
      let count : n + 1 + length cs ≡ n + suc (length cs) = omega arith in
      rw (h.0, exact)
        (whole_part-digits cs rest next (n + 1) h.1 small
          ∙ ap (λ k. whole_part f rest (f.of_u64 (number_from next cs)) k) count)

  bounded-of_u64 : (n : ℕ) → n ≤ 2 ^ 53 → bounded f (f.of_u64 n) ≡ some n
  bounded-of_u64 n h =
      let low : f.less (f.of_u64 n) (f.of_u64 0) ≡ false =
        laws.less-of_u64 n 0 h (omega arith) ∙ ground arith in
      let high : f.less (f.of_u64 (2 ^ 53)) (f.of_u64 n) ≡ false =
        laws.less-of_u64 (2 ^ 53) n (omega arith) h ∙ ground arith in
      rw (laws.isfinite-of_u64 n h, low, high) (ap some (laws.to_u64-of_u64 n h))

  size_of-unit :
      (u : SizeUnit) (n digits : ℕ)
      → 0 < digits
      → n * unit_size u ≤ 2 ^ 53
      → size_of f (unit_text u, f.of_u64 n, digits) ≡ some (n * unit_size u)
  unfolding size_of
  size_of-unit u n digits some_digits small =
      let there : (digits == 0) ≡ false = ground arith in
      rw (there, multiplier-unit_text u)
        (ap (bounded f) (laws.mul-of_u64 n (unit_size u) small)
          ∙ bounded-of_u64 (n * unit_size u) small)

  -- A whole number of bytes, KiB, MiB, GiB or TiB is read as that number of bytes, up to 2^53.
  pub parse_size-exact :
      (c : ℕ) (cs : Bytes) (u : SizeUnit)
      → All IsDigit (c ∷ cs)
      → number_from 0 (c ∷ cs) * unit_size u ≤ 2 ^ 53
      → parse_size f (some (c ∷ (cs ++ unit_text u))) ≡ some (number_from 0 (c ∷ cs) * unit_size u)
  unfolding parse_size size_of
  parse_size-exact c cs u h small =
      let n = number_from 0 (c ∷ cs) in
      let value_small : n ≤ 2 ^ 53 = omega (arith, unit_grows u n, small) in
      let read = whole_part-digits (c ∷ cs) (unit_text u) 0 0 h value_small in
      let scan = ap (after_point f) read ∙ after_unit u (f.of_u64 n) (0 + suc (length cs)) in
      ap (size_of f) scan ∙ size_of-unit u n (0 + suc (length cs)) (omega arith) small
