-- ===== src/Text/Utf8/Laws.antt =====
-- Decoding never reads past the end of a string, so the walks over it end inside it.
use Prim.Native.Nat.{bit_and}
use zhuzhbox_cli.Base.{
  ℕ, zero, suc, ◌+◌, ◌*◌, ◌≤◌, ◌<◌, ◌≡◌, true, Option, none, some, [], ◌∷◌, ltb, ◌==◌, Bytes,
  length, drop, length-drop, get_or, arith, refl, Bool-cases, inl, inr, subst,
}
use zhuzhbox_cli.Text.Utf8.{
  decode_from, utf8_decode, len_from, utf8_len, offset_from, utf8_offset, cp_width, width_from,
  display_width,
}

get_or_end : (s : Bytes) (i : ℕ) → length s ≤ i → get_or s i 0 ≡ 0
get_or_end [] i h = refl
get_or_end (x ∷ xs) zero h = absurd (omega arith)
get_or_end (x ∷ xs) (suc i) h = get_or_end xs i (omega arith)

-- A continuation byte is inside the string.
continues-inside : (s : Bytes) (i : ℕ) → (bit_and (get_or s i 0) 192 == 128) ≡ true → i < length s
continues-inside s i h = elim (Bool-cases (ltb i (length s))) [
  | inl inside ↦ ground arith
  | inr past ↦
      let e = get_or_end s i (ground arith) in
      let wrong : (bit_and 0 192 == 128) ≡ true = subst (λ z. (bit_and z 192 == 128) ≡ true) e h in
      cc
]

decode_from-inside :
    (s : Bytes) (left i cp : ℕ)
    → 1 ≤ i
    → i ≤ length s
    → (1 ≤ (decode_from s left i cp).1) × ((decode_from s left i cp).1 ≤ length s)
unfolding decode_from
decode_from-inside s zero i cp pos h = (pos, h)
decode_from-inside s (suc left) i cp pos h = elim (Bool-cases (bit_and (get_or s i 0) 192 == 128)) [
  | inl more ↦
      rw more (
        decode_from-inside s left (i + 1) _ (omega arith)
          (omega (arith, continues-inside s i more)))
  | inr last ↦ rw last (omega arith, omega arith)
]

-- A sequence has at least one byte, and all its bytes are the string's.
pub utf8_decode-inside :
    (c : ℕ) (cs : Bytes)
    → (1 ≤ (utf8_decode (c ∷ cs)).1) × ((utf8_decode (c ∷ cs)).1 ≤ length (c ∷ cs))
unfolding utf8_decode
utf8_decode-inside c cs = ground (
  arith,
  decode_from-inside (c ∷ cs) 1 1 (bit_and c 31) (omega arith) (omega arith),
  decode_from-inside (c ∷ cs) 2 1 (bit_and c 15) (omega arith) (omega arith),
  decode_from-inside (c ∷ cs) 3 1 (bit_and c 7) (omega arith) (omega arith),
)

-- What is left after a sequence, and that it is shorter.
shorter :
    (fuel c : ℕ) (cs : Bytes)
    → length (c ∷ cs) ≤ suc fuel
    → length (drop (utf8_decode (c ∷ cs)).1 (c ∷ cs)) ≤ fuel
shorter fuel c cs h =
    let inside = utf8_decode-inside c cs in
    omega (arith, inside.0, length-drop (utf8_decode (c ∷ cs)).1 (c ∷ cs))

abbrev pub Within : Option ℕ → ℕ → ℕ → Type 0
Within none lo hi = ⊥
Within (some n) lo hi = (lo ≤ n) × (n ≤ hi)

widen : (o : Option ℕ) (lo hi lo' hi' : ℕ) → Within o lo hi → lo' ≤ lo → hi ≤ hi' → Within o lo' hi'
widen none lo hi lo' hi' h low high = h
widen (some n) lo hi lo' hi' h low high = (omega arith, omega arith)

len_from-Within :
    (fuel : ℕ) (s : Bytes) (n : ℕ) → length s ≤ fuel → Within (len_from fuel s n) n (n + length s)
unfolding len_from
len_from-Within fuel [] n h = (omega arith, omega arith)
len_from-Within zero (c ∷ cs) n h = absurd (omega arith)
len_from-Within (suc fuel) (c ∷ cs) n h =
    let rest = drop (utf8_decode (c ∷ cs)).1 (c ∷ cs) in
    let ih = len_from-Within fuel rest (n + 1) (shorter fuel c cs h) in
    let less = shorter (length cs) c cs (omega arith) in
    widen (len_from fuel rest (n + 1)) _ _ _ _ ih (omega arith) (omega (arith, less))

offset_from-Within :
    (fuel : ℕ) (s : Bytes) (left p : ℕ)
    → length s ≤ fuel
    → Within (offset_from fuel s left p) p (p + length s)
unfolding offset_from
offset_from-Within fuel [] left p h = (omega arith, omega arith)
offset_from-Within fuel (c ∷ cs) zero p h = (omega arith, omega arith)
offset_from-Within zero (c ∷ cs) (suc left) p h = absurd (omega arith)
offset_from-Within (suc fuel) (c ∷ cs) (suc left) p h =
    let used = (utf8_decode (c ∷ cs)).1 in
    let ih = offset_from-Within fuel (drop used (c ∷ cs)) left (p + used) (shorter fuel c cs h) in
    let inside = utf8_decode-inside c cs in
    let rest = length-drop used (c ∷ cs) in
    widen (offset_from fuel (drop used (c ∷ cs)) left (p + used)) _ _ _ _ ih (omega arith)
      (omega (arith, inside.0, inside.1, rest))

width_le : (cp : ℕ) → cp_width cp ≤ 2
unfolding cp_width
width_le cp = ground arith

width_from-Within :
    (fuel : ℕ) (s : Bytes) (w : ℕ)
    → length s ≤ fuel
    → Within (width_from fuel s w) w (w + 2 * length s)
unfolding width_from
width_from-Within fuel [] w h = (omega arith, omega arith)
width_from-Within zero (c ∷ cs) w h = absurd (omega arith)
width_from-Within (suc fuel) (c ∷ cs) w h =
    let used = (utf8_decode (c ∷ cs)).1 in
    let wide = width_le (utf8_decode (c ∷ cs)).0 in
    let ih =
      width_from-Within fuel (drop used (c ∷ cs)) (w + cp_width (utf8_decode (c ∷ cs)).0)
        (shorter fuel c cs h) in
    let inside = utf8_decode-inside c cs in
    let rest = length-drop used (c ∷ cs) in
    widen (width_from fuel (drop used (c ∷ cs)) (w + cp_width (utf8_decode (c ∷ cs)).0)) _ _ _ _ ih
      (omega arith) (omega (arith, inside.0, inside.1, rest, wide))

-- The walks over a string end: they count at most one code point and two columns for each byte, and an
-- offset is inside the string.
pub utf8_walks :
    (s : Bytes) (n : ℕ)
    → Within (utf8_len s) 0 (length s)
      × Within (utf8_offset s n) 0 (length s)
      × Within (display_width s) 0 (2 * length s)
unfolding utf8_len utf8_offset display_width
utf8_walks s n = (
  widen (utf8_len s) 0 (0 + length s) _ _ (len_from-Within (length s) s 0 (omega arith))
      (omega arith) (omega arith),
  widen (utf8_offset s n) 0 (0 + length s) _ _ (offset_from-Within (length s) s n 0 (omega arith))
      (omega arith) (omega arith),
  widen (display_width s) 0 (0 + 2 * length s) _ _ (width_from-Within (length s) s 0 (omega arith))
      (omega arith) (omega arith),
)
