-- ===== src/Text/Utf8.antt =====
-- src/util/str.c: comparison of strings without case, and text in UTF-8: its code points and its width. A
-- string is its bytes, and what is read beyond them is the NUL.
pub mod Laws
use Prim.Native.Nat.{bit_and, bit_or}
use zhuzhbox_cli.Base.{
  ℕ, zero, suc, ◌+◌, ◌-◌, ◌*◌, ◌≡◌, Bool, true, false, not, ◌&&◌, ◌||◌, Option, none, some, List,
  [], ◌∷◌, leb, ltb, ◌==◌, within, if◌then◌else◌, Bytes, length, drop, get_or,
}

unfoldable pub ascii_lower : ℕ → ℕ
ascii_lower c = if within 65 90 c then c - 65 + 97 else c

unfoldable pub streq_from : Bytes → Bytes → Bool
streq_from [] [] = true
streq_from (x ∷ xs) (y ∷ ys) =
    let rest = streq_from xs ys in if not (ascii_lower x == ascii_lower y) then false else rest
streq_from _ _ = false

-- `zb_streq_ci`
unfoldable pub streq_ci : Option Bytes → Option Bytes → Bool
unfolding streq_from
streq_ci none none = true
streq_ci (some a) (some b) = streq_from a b
streq_ci _ _ = false

-- `zb_str_ends_with_ci` of two strings.
unfoldable pub ends_with_ci : Bytes → Bytes → Bool
unfolding streq_from
ends_with_ci s suffix =
    if ltb (length s) (length suffix)
    then false
    else streq_from (drop (length s - length suffix) s) suffix

-- The continuation bytes from `i` on, of which there must be `left`; then the code point and the length
-- of the sequence.
unfoldable pub decode_from : Bytes → ℕ → ℕ → ℕ → ℕ × ℕ
decode_from s zero i cp = (cp, i)
decode_from s (suc left) i cp =
    let byte = get_or s i 0 in
    let rest = decode_from s left (i + 1) (bit_or (cp * 64) (bit_and byte 63)) in
    if not (bit_and byte 192 == 128) then (65533, 1) else rest

unfoldable pub utf8_decode : Bytes → ℕ × ℕ
unfolding decode_from
utf8_decode s =
    let c = get_or s 0 0 in
    if ltb c 128
    then (c, 1)
    else if bit_and c 224 == 192
    then decode_from s 1 1 (bit_and c 31)
    else if bit_and c 240 == 224
    then decode_from s 2 1 (bit_and c 15)
    else if bit_and c 248 == 240
    then decode_from s 3 1 (bit_and c 7)
    else (65533, 1)

-- The loops of `zb_utf8_len`, `zb_utf8_offset` and `zb_display_width`, on fuel: one round for each
-- sequence. `none` is fuel that ran out.
unfoldable pub len_from : ℕ → Bytes → ℕ → Option ℕ
len_from fuel [] n = some n
len_from zero (c ∷ cs) n = none
len_from (suc fuel) (c ∷ cs) n = len_from fuel (drop (utf8_decode (c ∷ cs)).1 (c ∷ cs)) (n + 1)

unfoldable pub utf8_len : Bytes → Option ℕ
unfolding len_from
utf8_len s = len_from (length s) s 0

unfoldable pub offset_from : ℕ → Bytes → ℕ → ℕ → Option ℕ
offset_from fuel [] left p = some p
offset_from fuel (c ∷ cs) zero p = some p
offset_from zero (c ∷ cs) (suc left) p = none
offset_from (suc fuel) (c ∷ cs) (suc left) p =
    let used = (utf8_decode (c ∷ cs)).1 in offset_from fuel (drop used (c ∷ cs)) left (p + used)

unfoldable pub utf8_offset : Bytes → ℕ → Option ℕ
unfolding offset_from
utf8_offset s n = offset_from (length s) s n 0

-- Combining marks and other code points of no width.
unfoldable pub is_combining : ℕ → Bool
is_combining cp =
    within 768 879 cp
    || within 1155 1161 cp
    || within 1425 1469 cp
    || within 1552 1562 cp
    || within 1611 1631 cp
    || within 3633 3642 cp
    || within 6832 6911 cp
    || within 7616 7679 cp
    || within 8400 8432 cp
    || within 65024 65039 cp
    || within 65056 65071 cp
    || cp == 8203
    || cp == 8204
    || cp == 8205
    || cp == 65279

-- CJK, Hangul, Kana, fullwidth forms, and the emoji planes.
unfoldable pub is_wide : ℕ → Bool
is_wide cp =
    within 4352 4447 cp
    || within 11904 12350 cp
    || within 12353 13311 cp
    || within 13312 19903 cp
    || within 19968 40959 cp
    || within 40960 42191 cp
    || within 44032 55203 cp
    || within 63744 64255 cp
    || within 65072 65135 cp
    || within 65280 65376 cp
    || within 65504 65510 cp
    || within 127744 128591 cp
    || within 128640 128767 cp
    || within 129280 129535 cp
    || within 131072 262141 cp

unfoldable pub cp_width : ℕ → ℕ
cp_width cp =
    if cp == 0
    then 0
    else if ltb cp 32 || (leb 127 cp && ltb cp 160)
    then 0
    else if is_combining cp
    then 0
    else if is_wide cp
    then 2
    else 1

unfoldable pub width_from : ℕ → Bytes → ℕ → Option ℕ
width_from fuel [] w = some w
width_from zero (c ∷ cs) w = none
width_from (suc fuel) (c ∷ cs) w =
    let (cp, used) = utf8_decode (c ∷ cs) in width_from fuel (drop used (c ∷ cs)) (w + cp_width cp)

unfoldable pub display_width : Bytes → Option ℕ
unfolding width_from
display_width s = width_from (length s) s 0
