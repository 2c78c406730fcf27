-- ===== src/Tests/Texts.antt =====
-- The theorems on text at short strings.
use zhuzhbox_cli.Base.{◌+◌, ◌<◌, ◌≡◌, true, some, [], ◌∷◌, arith, codes, refl, length, inl}
use zhuzhbox_cli.Text.Token.{
  is_token_char, is_token_from, is_token, skip_blanks, after_scheme, from_slash, path_of, cut,
  all_token_chars, better, scan, extract_token,
}
use zhuzhbox_cli.Text.Token.Laws.{extract_token-is_token, extract_token_self}
use zhuzhbox_cli.Text.Utf8.{utf8_len, utf8_offset, display_width}
use zhuzhbox_cli.Text.Utf8.Laws.{Within, utf8_walks}
use zhuzhbox_cli.Text.Buffer.{Buffer, IsBuffer, reserve, reserve-IsBuffer, size_max}

is_six : is_token (some (codes "abcde1")) ≡ true
unfolding is_token is_token_from is_token_char
is_six = refl

found_six : extract_token (some (codes "https://h/d/abcde1?inline=1")) ≡ some (codes "abcde1")
unfolding extract_token skip_blanks path_of after_scheme from_slash cut scan better all_token_chars
    is_token_char
found_six = refl

extract_token-is_token_example : is_token (some (codes "abcde1")) ≡ true
extract_token-is_token_example =
    extract_token-is_token (some (codes "https://h/d/abcde1?inline=1")) (codes "abcde1") found_six

extract_token_self_example : extract_token (some (codes "abcde1")) ≡ some (codes "abcde1")
extract_token_self_example = extract_token_self (codes "abcde1") is_six

utf8_walks_example :
    Within (utf8_len (226 ∷ 130 ∷ 172 ∷ [])) 0 3
    × Within (utf8_offset (226 ∷ 130 ∷ 172 ∷ []) 1) 0 3
    × Within (display_width (226 ∷ 130 ∷ 172 ∷ [])) 0 6
utf8_walks_example = utf8_walks (226 ∷ 130 ∷ 172 ∷ []) 1

abbrev blank : Buffer
blank = record { bytes = []; cap = 0 }

reserve-IsBuffer_example :
    let (after, fits) = reserve true blank 100 in
    IsBuffer after
    × (after.bytes ≡ [])
    × (fits ≡ true → length after.bytes + 100 < after.cap)
    × (true ≡ true → length blank.bytes + 100 < size_max → fits ≡ true)
reserve-IsBuffer_example = reserve-IsBuffer true blank 100 (inl (refl, refl), omega arith)
