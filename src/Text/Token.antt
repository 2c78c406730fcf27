-- ===== src/Text/Token.antt =====
-- src/util/token.c: what a token looks like, and the token in an address.
pub mod Laws
use zhuzhbox_cli.Base.{
  ℕ, ◌+◌, ◌≡◌, Bool, true, false, not, ◌&&◌, ◌||◌, Option, none, some, List, [], ◌∷◌, leb, ltb,
  ◌==◌, within, if◌then◌else◌, Bytes, length, drop, snoc,
}

unfoldable pub is_token_char : ℕ → Bool
is_token_char c = within 65 90 c || within 97 122 c || within 48 57 c

-- The loop of `zb_is_token` at character `n`.
unfoldable pub is_token_from : Bytes → ℕ → Bool
is_token_from [] n = leb 6 n && leb n 32
is_token_from (c ∷ cs) n =
    let rest = is_token_from cs (n + 1) in
    if not (is_token_char c) then false else if leb 32 n then false else rest

unfoldable pub is_token : Option Bytes → Bool
unfolding is_token_from
is_token none = false
is_token (some s) = is_token_from s 0

abbrev pub is_blank : ℕ → Bool
is_blank c = c == 32 || c == 9 || c == 13 || c == 10

unfoldable pub skip_blanks : Bytes → Bytes
skip_blanks [] = []
skip_blanks (c ∷ cs) = let rest = skip_blanks cs in if is_blank c then rest else c ∷ cs

-- What follows the first `://`, if there is one.
unfoldable pub after_scheme : Bytes → Option Bytes
after_scheme [] = none
after_scheme (c ∷ cs) =
    let rest = after_scheme cs in
    elim cs [
      | [] ↦ none
      | d ∷ ds ↦ elim ds [
        | [] ↦ none
        | e ∷ es ↦ (if c == 58 && d == 47 && e == 47 then some es else rest)
      ]
    ]

-- From the first slash on.
unfoldable pub from_slash : Bytes → Option Bytes
from_slash [] = none
from_slash (c ∷ cs) = let rest = from_slash cs in if c == 47 then some (c ∷ cs) else rest

-- The path, without the scheme and the authority.
unfoldable pub path_of : Bytes → Option Bytes
path_of p = elim (after_scheme p) [ none ↦ some p | some rest ↦ from_slash rest ]

abbrev pub ends_path : ℕ → Bool
ends_path c = c == 63 || c == 35 || is_blank c

unfoldable pub cut : Bytes → Bytes
cut [] = []
cut (c ∷ cs) = let rest = cut cs in if ends_path c then [] else c ∷ rest

unfoldable pub all_token_chars : Bytes → Bool
all_token_chars [] = true
all_token_chars (c ∷ cs) = is_token_char c && all_token_chars cs

-- The segment, where it has the shape of a token, and otherwise the best one before it.
unfoldable pub better : Bytes → Option Bytes → Option Bytes
better segment best =
    if leb 6 (length segment) && leb (length segment) 32 && all_token_chars segment
    then some segment
    else best

-- The scan over the segments: what is left, the segment so far, the best one before it.
unfoldable pub scan : Bytes → Bytes → Option Bytes → Option Bytes
scan [] segment best = better segment best
scan (c ∷ cs) segment best =
    let next = scan cs [] (better segment best) in
    let more = scan cs (snoc segment c) best in if c == 47 || c == 92 then next else more

-- `zb_extract_token`, whose copy of the result succeeds.
unfoldable pub extract_token : Option Bytes → Option Bytes
extract_token none = none
extract_token (some input) = elim (path_of (skip_blanks input)) [
  | none ↦ none
  | some p ↦ scan (cut p) [] none
]
