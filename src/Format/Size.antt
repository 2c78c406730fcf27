-- ===== src/Format/Size.antt =====
-- `zb_parse_size` of src/format/bytes.c. The arithmetic of C's `double` is a parameter: `Doubles` holds the
-- operations that the code uses, and `DoublesLaws` that they are exact on integers up to 2^53.
pub mod Laws
use zhuzhbox_cli.Base.{
  ℕ, zero, ◌+◌, ◌-◌, ◌*◌, ◌^◌, ◌≤◌, ◌≡◌, Bool, true, false, not, ◌&&◌, ◌||◌, Option, none, some,
  List, [], ◌∷◌, ltb, ◌==◌, if◌then◌else◌, Bytes, codes,
}
use zhuzhbox_cli.Format.Time.{is_digit}
use zhuzhbox_cli.Text.Utf8.{streq_from}

pub record Doubles : Type 1 where
  pub Double : Type 0
  pub of_u64 : ℕ → Double
  -- The literal 0.1.
  pub tenth : Double
  pub plus : Double → Double → Double
  pub mul : Double → Double → Double
  pub div : Double → Double → Double
  pub less : Double → Double → Bool
  pub isfinite : Double → Bool
  -- `(uint64_t)v`
  pub to_u64 : Double → ℕ

pub record DoublesLaws (f : Doubles) : Type 0 where
  pub plus-of_u64 : (a b : ℕ) → a + b ≤ 2 ^ 53 → f.plus (f.of_u64 a) (f.of_u64 b) ≡ f.of_u64 (a + b)
  pub mul-of_u64 : (a b : ℕ) → a * b ≤ 2 ^ 53 → f.mul (f.of_u64 a) (f.of_u64 b) ≡ f.of_u64 (a * b)
  pub less-of_u64 : (a b : ℕ) → a ≤ 2 ^ 53 → b ≤ 2 ^ 53 → f.less (f.of_u64 a) (f.of_u64 b) ≡ ltb a b
  pub isfinite-of_u64 : (a : ℕ) → a ≤ 2 ^ 53 → f.isfinite (f.of_u64 a) ≡ true
  pub to_u64-of_u64 : (a : ℕ) → a ≤ 2 ^ 53 → f.to_u64 (f.of_u64 a) ≡ a

abbrev pub is_either : Bytes → Bytes → Bytes → Bytes → Bool
is_either s a b c = streq_from s a || streq_from s b || streq_from s c

unfoldable pub multiplier : Bytes → Option ℕ
multiplier [] = some 1
multiplier (c ∷ cs) =
    let s = c ∷ cs in
    if streq_from s (codes "b")
    then some 1
    else if is_either s (codes "k") (codes "kb") (codes "kib")
    then some 1024
    else if is_either s (codes "m") (codes "mb") (codes "mib")
    then some (1024 * 1024)
    else if is_either s (codes "g") (codes "gb") (codes "gib")
    then some (1024 * 1024 * 1024)
    else if is_either s (codes "t") (codes "tb") (codes "tib")
    then some (1024 * 1024 * 1024 * 1024)
    else none

unfoldable pub skip_blanks : Bytes → Bytes
skip_blanks [] = []
skip_blanks (c ∷ cs) = let rest = skip_blanks cs in if c == 32 then rest else c ∷ cs

module _ (f : Doubles) where
  -- What is left of the text, the value and the count of digits.
  abbrev Scan : Type 0
  Scan = Bytes × f.Double × ℕ

  unfoldable pub whole_part : Bytes → f.Double → ℕ → Scan
  whole_part [] value digits = ([], value, digits)
  whole_part (c ∷ cs) value digits =
      let rest =
        whole_part cs (f.plus (f.mul value (f.of_u64 10)) (f.of_u64 (c - 48))) (digits + 1) in
      if is_digit c then rest else (c ∷ cs, value, digits)

  unfoldable pub fraction : Bytes → f.Double → f.Double → ℕ → Scan
  fraction [] value scale digits = ([], value, digits)
  fraction (c ∷ cs) value scale digits =
      let rest =
        fraction cs (f.plus value (f.mul (f.of_u64 (c - 48)) scale)) (f.div scale (f.of_u64 10))
          (digits + 1) in
      if is_digit c then rest else (c ∷ cs, value, digits)

  unfoldable pub after_point : Scan → Scan
  unfolding fraction
  after_point ([], value, digits) = ([], value, digits)
  after_point (c ∷ cs, value, digits) =
      if c == 46 then fraction cs value f.tenth digits else (c ∷ cs, value, digits)

  abbrev bounded : f.Double → Option ℕ
  bounded value =
      if not (f.isfinite value) || f.less value (f.of_u64 0) || f.less (f.of_u64 (2 ^ 53)) value
      then none
      else some (f.to_u64 value)

  abbrev scaled : f.Double → Option ℕ → Option ℕ
  scaled value none = none
  scaled value (some factor) = bounded (f.mul value (f.of_u64 factor))

  unfoldable pub size_of : Scan → Option ℕ
  unfolding skip_blanks multiplier
  size_of (rest, value, digits) =
      if digits == 0 then none else scaled value (multiplier (skip_blanks rest))

  unfoldable pub parse_size : Option Bytes → Option ℕ
  unfolding whole_part after_point size_of
  parse_size none = none
  parse_size (some []) = none
  parse_size (some (c ∷ cs)) = size_of (after_point (whole_part (c ∷ cs) (f.of_u64 0) 0))
