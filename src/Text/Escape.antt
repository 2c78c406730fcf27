-- ===== src/Text/Escape.antt =====
-- src/util/str.c: percent-encoding of a path, and trimming. The buffer grows, and the copy of the result
-- succeeds.
pub mod Laws
use zhuzhbox_cli.Base.{
  ℕ, zero, suc, ◌+◌, ◌/◌, ◌%◌, Bool, true, false, ◌||◌, Option, none, some, [], ◌∷◌, ◌==◌, within,
  if◌then◌else◌, Bytes, codes, length, get_or, take,
}
use zhuzhbox_cli.Text.Filename.{trimmed_len}

abbrev pub is_unreserved : ℕ → Bool
is_unreserved c =
    within 65 90 c || within 97 122 c || within 48 57 c || c == 45 || c == 95 || c == 46 || c == 126

-- `hex[digit]`
abbrev pub hex_digit : ℕ → ℕ
hex_digit digit = get_or (codes "0123456789ABCDEF") digit 0

-- `zb_url_escape_path` of a string that is not NULL.
unfoldable pub url_escape : Bytes → Bytes
url_escape [] = []
url_escape (c ∷ cs) =
    let rest = url_escape cs in
    if is_unreserved c then c ∷ rest else 37 ∷ hex_digit (c / 16 % 16) ∷ hex_digit (c % 16) ∷ rest

unfoldable pub url_escape_path : Option Bytes → Option Bytes
unfolding url_escape
url_escape_path none = none
url_escape_path (some s) = some (url_escape s)

abbrev pub is_space : ℕ → Bool
is_space c = c == 32 || c == 9 || c == 13 || c == 10

unfoldable pub skip_spaces : Bytes → Bytes
skip_spaces [] = []
skip_spaces (c ∷ cs) = let rest = skip_spaces cs in if is_space c then rest else c ∷ cs

unfoldable pub str_trim : Option Bytes → Option Bytes
unfolding skip_spaces
str_trim none = none
str_trim (some s) =
    let start = skip_spaces s in some (take (trimmed_len is_space start (length start)) start)
