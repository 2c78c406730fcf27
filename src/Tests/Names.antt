-- ===== src/Tests/Names.antt =====
-- The theorems on file names, escapes and trimming at short strings.
use zhuzhbox_cli.Base.{ℕ, List, ◌≡◌, some, [], ◌∷◌, All, arith, codes, refl, str_eq}
use zhuzhbox_cli.Text.Filename.{
  before_dot, same_letters, is_one_of, is_reserved_device_name, sanitize_filename, sanitize_dirname,
  leaf_from, drop_forbidden, truncate, trimmed_len, strip_end, leading_dots, name_or,
  sanitize_component,
}
use zhuzhbox_cli.Text.Filename.Safe.{IsSafe, sanitize-IsSafe}
use zhuzhbox_cli.Text.Escape.{url_escape, str_trim}
use zhuzhbox_cli.Text.Escape.Laws.{
  percent_decode, IsUrlByte, percent_decode-url_escape, is_blank, IsTrimmed, str_trim-IsTrimmed,
}
use zhuzhbox_cli.Text.Utf8.{ascii_lower}

short-IsSafe : IsSafe (codes "a")
unfolding str_eq ascii_lower
short-IsSafe = record {
  nonempty = omega arith;
  short = omega arith;
  plain = (refl, tt);
  ended = refl;
  free = refl;
}

sanitize-IsSafe_example :
    IsSafe (sanitize_filename (some (codes "../../NUL.txt")))
    × IsSafe (sanitize_dirname (some (codes "../../NUL.txt")))
    × (sanitize_filename (some (codes "a")) ≡ codes "a")
    × (sanitize_dirname (some (codes "a")) ≡ codes "a")
sanitize-IsSafe_example = sanitize-IsSafe (some (codes "../../NUL.txt")) (codes "a") short-IsSafe

sanitize_device : sanitize_filename (some (codes "../../nul.txt")) ≡ codes "download"
unfolding sanitize_filename sanitize_component leaf_from drop_forbidden truncate strip_end
    trimmed_len leading_dots name_or is_reserved_device_name before_dot is_one_of same_letters
    ascii_lower
sanitize_device = refl

percent_decode-url_escape_example :
    (percent_decode (url_escape (97 ∷ 32 ∷ [])) ≡ some (97 ∷ 32 ∷ []))
    × All IsUrlByte (url_escape (97 ∷ 32 ∷ []))
percent_decode-url_escape_example =
    percent_decode-url_escape (97 ∷ 32 ∷ []) (omega arith, (omega arith, tt))

str_trim-IsTrimmed_example :
    (trimmed : List ℕ) × (str_trim (some (codes " a\t")) ≡ some trimmed)
    × IsTrimmed is_blank (codes " a\t") trimmed
str_trim-IsTrimmed_example = str_trim-IsTrimmed (codes " a\t")
