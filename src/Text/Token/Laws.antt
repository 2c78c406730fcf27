-- ===== src/Text/Token/Laws.antt =====
-- The token in an address has the shape of one, and a token is its own address.
use zhuzhbox_cli.Base.{
  ℕ, ◌+◌, ◌≡◌, Bool, true, ◌&&◌, ◌||◌, Option, none, some, [], ◌∷◌, ◌++◌, leb, ◌==◌, Bytes, length,
  snoc, arith, Bool-cases, Option-cases, inl, inr, ap, ◌∙◌, append_assoc, append-nil, refl, sym,
  subst,
}
use zhuzhbox_cli.Text.Token.{
  is_token_char, is_token_from, is_token, skip_blanks, after_scheme, path_of, cut, all_token_chars,
  better, scan, extract_token,
}

abbrev is_shaped : Bytes → Bool
is_shaped s = leb 6 (length s) && leb (length s) 32 && all_token_chars s

is_token_from-is_shaped :
    (s : Bytes) (n : ℕ)
    → is_token_from s n ≡ (leb 6 (n + length s) && leb (n + length s) 32 && all_token_chars s)
unfolding is_token_from all_token_chars
is_token_from-is_shaped [] n = ground arith
is_token_from-is_shaped (c ∷ cs) n = ground (arith, is_token_from-is_shaped cs (n + 1))

-- A string is a token exactly when it has 6 to 32 characters, all of them letters or digits.
pub is_token-shape :
    (s : Bytes) → is_token (some s) ≡ (leb 6 (length s) && leb (length s) 32 && all_token_chars s)
unfolding is_token
is_token-shape s = ground (arith, is_token_from-is_shaped s 0)

abbrev IsShaped : Option Bytes → Type 0
IsShaped none = Unit
IsShaped (some s) = is_shaped s ≡ true

better-IsShaped :
    (segment : Bytes) (best : Option Bytes) → IsShaped best → IsShaped (better segment best)
unfolding better
better-IsShaped segment best h = elim (Bool-cases (is_shaped segment)) [
  | inl good ↦ rw (good, better) good
  | inr bad ↦ rw (bad, better) h
]

scan-IsShaped :
    (rest segment : Bytes) (best : Option Bytes) → IsShaped best → IsShaped (scan rest segment best)
unfolding scan
scan-IsShaped [] segment best h = better-IsShaped segment best h
scan-IsShaped (c ∷ cs) segment best h = elim (Bool-cases (c == 47 || c == 92)) [
  | inl sep ↦
      rw (sep, scan) (scan-IsShaped cs [] (better segment best) (better-IsShaped segment best h))
  | inr char ↦ rw (char, scan) (scan-IsShaped cs (snoc segment c) best h)
]

extract_token-IsShaped : (input : Option Bytes) → IsShaped (extract_token input)
unfolding extract_token
extract_token-IsShaped none = tt
extract_token-IsShaped (some input) = elim (Option-cases (path_of (skip_blanks input))) [
  | inl bare ↦ rw (bare, extract_token) tt
  | inr (p, path) ↦ rw (path, extract_token) (scan-IsShaped (cut p) [] none tt)
]

-- Whatever the input, what is taken out of it has the shape of a token.
pub extract_token-is_token :
    (input : Option Bytes) (s : Bytes) → extract_token input ≡ some s → is_token (some s) ≡ true
extract_token-is_token input s h =
    is_token-shape s ∙ subst IsShaped h (extract_token-IsShaped input)

scan-char :
    (s segment : Bytes) (best : Option Bytes)
    → all_token_chars s ≡ true
    → scan s segment best ≡ better (segment ++ s) best
unfolding scan all_token_chars is_token_char
scan-char [] segment best h = ap (λ z. better z best) (sym (append-nil segment))
scan-char (c ∷ cs) segment best h =
    let ih = scan-char cs (snoc segment c) best (ground arith) in
    let shift = append_assoc segment (c ∷ []) cs in
    ground (arith, ih, ap (λ z. better z best) shift)

cut-char : (s : Bytes) → all_token_chars s ≡ true → cut s ≡ s
unfolding cut all_token_chars is_token_char
cut-char [] h = refl
cut-char (c ∷ cs) h = ground (arith, cut-char cs)

after_scheme-char : (s : Bytes) → all_token_chars s ≡ true → after_scheme s ≡ none
unfolding after_scheme all_token_chars is_token_char
after_scheme-char [] h = refl
after_scheme-char (c ∷ cs) h = ground (arith, after_scheme-char cs)

skip_blanks-char : (s : Bytes) → all_token_chars s ≡ true → skip_blanks s ≡ s
unfolding skip_blanks all_token_chars is_token_char
skip_blanks-char [] h = refl
skip_blanks-char (c ∷ cs) h = ground arith

extract_token-path :
    (input p : Bytes)
    → path_of (skip_blanks input) ≡ some p
    → extract_token (some input) ≡ scan (cut p) [] none
unfolding extract_token
extract_token-path input p h = rw (h, extract_token) refl

better_self : (s : Bytes) → is_shaped s ≡ true → better s none ≡ some s
unfolding better
better_self s h = rw (h, better) refl

-- A token by itself is taken as it is.
pub extract_token_self : (s : Bytes) → is_token (some s) ≡ true → extract_token (some s) ≡ some s
unfolding path_of
extract_token_self s h =
    let shape : is_shaped s ≡ true = sym (is_token-shape s) ∙ h in
    let chars : all_token_chars s ≡ true = ground (arith, shape) in
    let plain = skip_blanks-char s chars in
    let pathless = after_scheme-char s chars in
    let uncut = cut-char s chars in
    let taken = scan-char s [] none chars in
    let path : path_of (skip_blanks s) ≡ some s = ap path_of plain ∙ ground (arith, pathless) in
    extract_token-path s s path ∙ ap (λ p. scan p [] none) uncut ∙ taken ∙ better_self s shape
