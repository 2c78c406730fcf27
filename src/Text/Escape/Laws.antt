-- ===== src/Text/Escape/Laws.antt =====
-- A path that was escaped is read back by percent-decoding; what is trimmed off a string is blank.
use zhuzhbox_cli.Base.{
  ℕ, zero, suc, not, codes, is_in, ◌+◌, ◌-◌, ◌*◌, ◌/◌, ◌%◌, ◌≡◌, ◌≤◌, ◌<◌, Bool, true, false, ◌&&◌,
  ◌||◌, Option, none, some, [], ◌∷◌, ◌++◌, ◌==◌, within, if◌then◌else◌, Bytes, length, get_or, take,
  drop, All, take-append-drop, length-take, length-drop, arith, Bool-cases, inl, inr, refl,
  if_holds, subst, ap, ◌∙◌, passes, passes-at, sym, and-eq-true,
}
use zhuzhbox_cli.Text.Filename.{trimmed_len}
use zhuzhbox_cli.Text.Filename.Laws.{trimmed_len-le, trimmed_len-ended, get_or-take}
use zhuzhbox_cli.Text.Escape.{is_unreserved, hex_digit, url_escape, is_space, skip_spaces, str_trim}

-- A digit in base sixteen, capital.
unfoldable pub hex_value : ℕ → Option ℕ
hex_value c =
    if within 48 57 c then some (c - 48) else if within 65 70 c then some (c - 55) else none

abbrev then_byte : ℕ → Option Bytes → Option Bytes
then_byte c none = none
then_byte c (some rest) = some (c ∷ rest)

-- Where a reader of percent-encoded text stands: in the text, behind a percent sign, or behind its first
-- digit.
pub data Reader : Type 0 where
  in_text : Reader
  at_percent : Reader
  at_digit : ℕ → Reader

-- Percent-decoding as RFC 3986 has it.
unfoldable pub decode_at : Reader → Bytes → Option Bytes
decode_at Reader.in_text [] = some []
decode_at _ [] = none
decode_at Reader.in_text (c ∷ cs) =
    let text = decode_at Reader.in_text cs in
    let escape = decode_at Reader.at_percent cs in if c == 37 then escape else then_byte c text
decode_at Reader.at_percent (c ∷ cs) = elim (hex_value c) [
  | none ↦ none
  | some high ↦ decode_at (Reader.at_digit high) cs
]
decode_at (Reader.at_digit high) (c ∷ cs) = elim (hex_value c) [
  | none ↦ none
  | some low ↦ then_byte (high * 16 + low) (decode_at Reader.in_text cs)
]

unfoldable pub percent_decode : Bytes → Option Bytes
unfolding decode_at
percent_decode s = decode_at Reader.in_text s

abbrev pub IsByte : ℕ → Type 0
IsByte c = c < 256

is_digit : Option ℕ → ℕ → Bool
is_digit none d = false
is_digit (some v) d = v == d

is_digit_eq : (o : Option ℕ) (d : ℕ) → is_digit o d ≡ true → o ≡ some d
unfolding is_digit
is_digit_eq none d h = cc
is_digit_eq (some v) d h = ap some (ground (arith, h))

hex_ok-at :
    (d : ℕ) → d < 16 → (is_unreserved (hex_digit d) && is_digit (hex_value (hex_digit d)) d) ≡ true
unfolding hex_value passes is_digit
hex_ok-at d h =
    passes-at (λ k. is_unreserved (hex_digit k) && is_digit (hex_value (hex_digit k)) k) 16 h refl

hex_value-hex_digit : (d : ℕ) → d < 16 → hex_value (hex_digit d) ≡ some d
hex_value-hex_digit d h =
    is_digit_eq (hex_value (hex_digit d)) d (and-eq-true _ _ (hex_ok-at d h)).1

escaped-back :
    (high low : ℕ) (rest : Bytes)
    → high < 16
    → low < 16
    → decode_at Reader.in_text (37 ∷ hex_digit high ∷ hex_digit low ∷ rest)
      ≡ then_byte (high * 16 + low) (decode_at Reader.in_text rest)
unfolding decode_at
escaped-back high low rest h l = rw (hex_value-hex_digit high h, hex_value-hex_digit low l) refl

decode_at-url_escape : (s : Bytes) → All IsByte s → decode_at Reader.in_text (url_escape s) ≡ some s
unfolding decode_at url_escape
decode_at-url_escape [] h = refl
decode_at-url_escape (c ∷ cs) h =
    let rest = decode_at-url_escape cs h.1 in
    let small : c < 256 = h.0 in
    if_holds (λ t. decode_at Reader.in_text t ≡ some (c ∷ cs)) (is_unreserved c) _ _
      (λ e. let plain : (c == 37) ≡ false = ground (arith, e) in rw (plain, rest) refl)
      (λ e.
        escaped-back (c / 16 % 16) (c % 16) (url_escape cs) (omega arith) (omega arith)
        ∙ ap (then_byte (c / 16 % 16 * 16 + c % 16)) rest
        ∙ ap (λ b. some (b ∷ cs)) (omega arith))

-- The unreserved characters of RFC 3986, written out.
abbrev pub unreserved : Bytes
unreserved = codes "ABCDEFGHIJKLMNOPQRSTUVWXYZabcdefghijklmnopqrstuvwxyz0123456789-._~"

-- A byte that may stand in one component of a path of a URL: it is unreserved, or the percent sign.
unfoldable pub url_byte : ℕ → Bool
url_byte c = c == 37 || is_in c unreserved

abbrev pub IsUrlByte : ℕ → Type 0
IsUrlByte c = url_byte c ≡ true

unreserved_listed : (c : ℕ) → c < 127 → (not (is_unreserved c) || url_byte c) ≡ true
unfolding url_byte passes
unreserved_listed c h = passes-at (λ k. not (is_unreserved k) || url_byte k) 127 h refl

unreserved_url : (c : ℕ) → is_unreserved c ≡ true → IsUrlByte c
unreserved_url c e =
    let listed = unreserved_listed c (ground (arith, e)) in ground (arith, e, listed)

url_escape-All : (s : Bytes) → All IsUrlByte (url_escape s)
unfolding url_escape url_byte
url_escape-All [] = tt
url_escape-All (c ∷ cs) =
    let digit : (d : ℕ) → d < 16 → IsUrlByte (hex_digit d) = λ d h.
      unreserved_url (hex_digit d)
        (and-eq-true (is_unreserved (hex_digit d)) (is_digit (hex_value (hex_digit d)) d)
          (hex_ok-at d h)).0 in
    if_holds (All IsUrlByte) (is_unreserved c) _ _ (λ e. (unreserved_url c e, url_escape-All cs))
      (λ e. (
        refl,
        (digit (c / 16 % 16) (omega arith), (digit (c % 16) (omega arith), url_escape-All cs)),
      ))

-- Percent-decoding gives back the string of bytes that was escaped, and what was escaped is made of the
-- letters and digits of ASCII, of - . _ ~ and of percent signs only.
pub percent_decode-url_escape :
    (s : Bytes)
    → All IsByte s
    → (percent_decode (url_escape s) ≡ some s) × All IsUrlByte (url_escape s)
unfolding percent_decode
percent_decode-url_escape s h = (decode_at-url_escape s h, url_escape-All s)

abbrev IsBlank : ℕ → Type 0
IsBlank c = is_space c ≡ true

-- `trimmed` is `s` without what passes the test around it, and no less.
pub record IsTrimmed (blank : ℕ → Bool) (s trimmed : Bytes) : Type 0 where
  pub before : Bytes
  pub after : Bytes
  pub parts : s ≡ before ++ (trimmed ++ after)
  pub blank_before : All (λ c. blank c ≡ true) before
  pub blank_after : All (λ c. blank c ≡ true) after
  pub starts : 0 < length trimmed → blank (get_or trimmed 0 0) ≡ false
  pub ends : 0 < length trimmed → blank (get_or trimmed (length trimmed - 1) 0) ≡ false

-- Space, tab, line feed and carriage return.
abbrev pub is_blank : ℕ → Bool
is_blank c = is_in c (codes " \t\n\r")

is_space-is_blank : is_space ≡ is_blank
is_space-is_blank = λ i c. same c i
  where
    same : (c : ℕ) → is_space c ≡ is_blank c
    same c = ground arith

skipped :
    (s : Bytes)
    → (before : Bytes) × (s ≡ before ++ skip_spaces s)
      × All IsBlank before
      × (0 < length (skip_spaces s) → is_space (get_or (skip_spaces s) 0 0) ≡ false)
unfolding skip_spaces
skipped [] = ([], refl, tt, λ h. absurd (omega arith))
skipped (c ∷ cs) =
    let (before, parts, blank, start) = skipped cs in
    elim (Bool-cases (is_space c)) [
      | inl gone ↦ rw gone (c ∷ before, ap (◌∷◌ c) parts, (gone, blank), start)
      | inr there ↦ rw there ([], refl, tt, λ h. there)
    ]

trimmed_all :
    (test : ℕ → Bool) (s : Bytes) (len i : ℕ)
    → trimmed_len test s len ≤ i
    → i < len
    → test (get_or s i 0) ≡ true
unfolding trimmed_len
trimmed_all test s zero i above below = absurd (omega arith)
trimmed_all test s (suc len) i above below = elim (Bool-cases (test (get_or s len 0))) [
  | inl gone ↦
      let less : trimmed_len test s len ≤ i = ground (arith, gone, above) in
      elim (Bool-cases (i == len)) [
        | inl last ↦ subst (λ k. test (get_or s k 0) ≡ true) (ground (arith, last)) gone
        | inr before ↦ trimmed_all test s len i less (ground (arith, before, below))
      ]
  | inr there ↦ absurd (ground (arith, there, above, below))
]

get_or-drop : (n i : ℕ) (s : Bytes) → get_or (drop n s) i 0 ≡ get_or s (n + i) 0
get_or-drop zero i s = let e : i ≡ 0 + i = omega arith in ap (λ k. get_or s k 0) e
get_or-drop (suc n) i [] = refl
get_or-drop (suc n) i (c ∷ s) =
    let e : suc (n + i) ≡ suc n + i = omega arith in
    get_or-drop n i s ∙ ap (λ k. get_or (c ∷ s) k 0) e

All-get : (s : Bytes) → ((i : ℕ) → i < length s → is_space (get_or s i 0) ≡ true) → All IsBlank s
All-get [] h = tt
All-get (c ∷ s) h = (h 0 (omega arith), All-get s (λ i p. h (suc i) (omega arith)))

IsTrimmed-spaces :
    (s : Bytes)
    → (trimmed : Bytes) × (str_trim (some s) ≡ some trimmed) × IsTrimmed is_space s trimmed
unfolding str_trim
IsTrimmed-spaces s =
    let start = skip_spaces s in
    let n = trimmed_len is_space start (length start) in
    let (before, parts, blank, first) = skipped s in
    let bound = trimmed_len-le is_space start (length start) in
    let len : length (take n start) ≡ n = omega (arith, length-take n start, bound) in
    (
      take n start,
      refl,
      record {
        before = before;
        after = drop n start;
        parts = parts ∙ ap (◌++◌ before) (sym (take-append-drop n start));
        blank_before = blank;
        blank_after = All-get (drop n start) (λ i p.
            ap is_space (get_or-drop n i start)
            ∙ trimmed_all is_space start (length start) (n + i) (omega arith)
                (omega (arith, length-drop n start, p)));
        starts = λ h.
            ap is_space (get_or-take n 0 start (omega (arith, len, h)))
            ∙ first (omega (arith, len, h, bound));
        ends = λ h.
            rw (len, get_or-take n (n - 1) start (omega (arith, len, h)))
              (trimmed_len-ended is_space start (length start) (omega (arith, len, h)));
      },
    )

-- Trimming takes away the spaces, tabs, line feeds and carriage returns around a string, and nothing else.
pub str_trim-IsTrimmed :
    (s : Bytes)
    → (trimmed : Bytes) × (str_trim (some s) ≡ some trimmed) × IsTrimmed is_blank s trimmed
str_trim-IsTrimmed s =
    let (trimmed, result, only) = IsTrimmed-spaces s in
    (trimmed, result, subst (λ blank. IsTrimmed blank s trimmed) is_space-is_blank only)
