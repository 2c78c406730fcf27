-- ===== src/Upload/Bitmap/Copy.antt =====
-- The marks of one bitmap set in another, chunk by chunk.
use zhuzhbox_cli.Base.{
  ℕ, zero, suc, ◌+◌, ◌/◌, ◌≤◌, ◌<◌, ◌≡◌, ◌&&◌, ◌||◌, arith, Bytes, if◌then◌else◌, Bool-cases, inl,
  inr, refl, ltb, leb, ◌==◌, length, ◌∙◌, ap,
}
use zhuzhbox_cli.Upload.Bitmap.{mark, has}
use zhuzhbox_cli.Upload.Bitmap.Laws.{AreBytes, mark-AreBytes, length-mark, has-mark}

-- What each round does to the bitmap.
abbrev pub copy_bit : Bytes → Bytes → ℕ → Bytes
copy_bit from to i = if has from i then mark to i else to

unfoldable pub copy_bits : Bytes → Bytes → ℕ → ℕ → Bytes
copy_bits from to zero i = to
copy_bits from to (suc left) i = copy_bits from (copy_bit from to i) left (i + 1)

pub copy_bit-AreBytes : (from to : Bytes) (i : ℕ) → AreBytes to → AreBytes (copy_bit from to i)
copy_bit-AreBytes from to i h = elim (Bool-cases (has from i)) [
  | inl there ↦ rw there (mark-AreBytes to i h)
  | inr gap ↦ rw gap h
]

pub length-copy_bit : (from to : Bytes) (i : ℕ) → length (copy_bit from to i) ≡ length to
length-copy_bit from to i = ground (arith, length-mark to i)

has-copy_bit :
    (from to : Bytes) (i k : ℕ)
    → AreBytes to
    → i / 8 < length to
    → has (copy_bit from to i) k ≡ (has to k || (i == k && has from i))
has-copy_bit from to i k h inside = ground (arith, has-mark to i k h inside)

pub has-copy_bits :
    (from to : Bytes) (left i k : ℕ)
    → AreBytes to
    → (i + left + 7) / 8 ≤ length to
    → has (copy_bits from to left i) k ≡ (has to k || (leb i k && ltb k (i + left) && has from k))
unfolding copy_bits
has-copy_bits from to zero i k h inside = ground arith
has-copy_bits from to (suc left) i k h inside =
    let same = length-copy_bit from to i in
    let ih =
      has-copy_bits from (copy_bit from to i) left (i + 1) k (copy_bit-AreBytes from to i h)
        (omega (arith, same)) in
    copy_step from to left i k ih (has-copy_bit from to i k h (omega arith))
  where
    copy_step :
        (from to : Bytes) (left i k : ℕ)
        → has (copy_bits from (copy_bit from to i) left (i + 1)) k
          ≡ (has (copy_bit from to i) k || (leb (i + 1) k && ltb k (i + 1 + left) && has from k))
        → has (copy_bit from to i) k ≡ (has to k || (i == k && has from i))
        → has (copy_bits from (copy_bit from to i) left (i + 1)) k
          ≡ (has to k || (leb i k && ltb k (i + suc left) && has from k))
    copy_step from to left i k ih one = elim (Bool-cases (i == k)) [
      | inl here ↦ let e : i ≡ k = ground arith in ground (arith, ih, one, here, e, ap (has from) e)
      | inr other ↦ ground (arith, ih, one, other)
    ]

pub copy_bits-AreBytes :
    (from to : Bytes) (left i : ℕ) → AreBytes to → AreBytes (copy_bits from to left i)
unfolding copy_bits
copy_bits-AreBytes from to zero i h = h
copy_bits-AreBytes from to (suc left) i h =
    copy_bits-AreBytes from (copy_bit from to i) left (i + 1) (copy_bit-AreBytes from to i h)

pub length-copy_bits :
    (from to : Bytes) (left i : ℕ) → length (copy_bits from to left i) ≡ length to
unfolding copy_bits
length-copy_bits from to zero i = refl
length-copy_bits from to (suc left) i =
    length-copy_bits from (copy_bit from to i) left (i + 1) ∙ length-copy_bit from to i
