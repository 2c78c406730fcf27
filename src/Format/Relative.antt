-- ===== src/Format/Relative.antt =====
-- src/format/time.c and bytes.c: spans of time in words, and how long the server keeps a file.
pub mod Laws
use zhuzhbox_cli.Base.{
  ℕ, ◌+◌, ◌-◌, ◌*◌, ◌/◌, ◌%◌, ◌^◌, Bool, true, false, List, [], ◌∷◌, ◌++◌, leb, ltb, ◌==◌,
  if◌then◌else◌, Bytes, codes,
}
use zhuzhbox_cli.Base.Int.{ℤ, pos, negsuc, ◌-ℤ◌, ltb_ℤ}
use zhuzhbox_cli.Format.Time.{last_digits, digit_count}

-- `%lld` and `%llu` of a number that is not negative.
unfoldable pub decimal : ℕ → Bytes
decimal n = last_digits (digit_count 20 n) n

-- The unit that a span is told in: its length in seconds, what is added before the division, its name.
pub record Scale : Type 0 where
  pub unit : ℕ
  pub half : ℕ
  pub name : Bytes

abbrev scale : ℕ → ℕ → Bytes → Scale
scale unit half name = record { unit = unit; half = half; name = name }

unfoldable pub scale_of : ℕ → Scale
scale_of seconds =
    if ltb seconds 45
    then scale 1 0 (codes "second")
    else if ltb seconds 3600
    then scale 60 30 (codes "minute")
    else if ltb seconds 86400
    then scale 3600 1800 (codes "hour")
    else if ltb seconds (86400 * 30)
    then scale 86400 43200 (codes "day")
    else if ltb seconds (86400 * 365)
    then scale 2592000 1296000 (codes "month")
    else scale 31536000 15768000 (codes "year")

-- `*value_out` of `relative_magnitude`, which its callers give a span that is not negative.
unfoldable pub magnitude : ℕ → ℕ
unfolding scale_of
magnitude seconds =
    let s = scale_of seconds in let v = (seconds + s.half) / s.unit in if ltb v 1 then 1 else v

unfoldable pub relative_magnitude : ℕ → Bytes
unfolding decimal magnitude scale_of
relative_magnitude seconds =
    let v = magnitude seconds in
    decimal v ++ codes " " ++ (scale_of seconds).name ++ (if v == 1 then [] else codes "s")

-- `zb_time_relative` by `delta = epoch - now`.
unfoldable pub relative_of : ℤ → Bytes
unfolding relative_magnitude
relative_of (negsuc n) =
    if ltb (n + 1) 10 then codes "just now" else relative_magnitude (n + 1) ++ codes " ago"
relative_of (pos n) = if n == 0 then codes "just now" else codes "in " ++ relative_magnitude n

unfoldable pub time_relative : ℤ → ℤ → Bytes
unfolding relative_of
time_relative epoch now = relative_of (epoch -ℤ now)

abbrev retention_tiers : List (ℕ × ℕ)
retention_tiers =
    (20 * 1024 * 1024 * 1024, 3)
    ∷ (15 * 1024 * 1024 * 1024, 7)
    ∷ (5 * 1024 * 1024 * 1024, 15)
    ∷ (0, 30)
    ∷ []

unfoldable pub first_tier : ℕ → List (ℕ × ℕ) → ℕ
first_tier size [] = 30
first_tier size ((min_bytes, days) ∷ tiers) =
    let rest = first_tier size tiers in if leb min_bytes size then days else rest

unfoldable pub retention_days_for_size : ℕ → ℕ
unfolding first_tier
retention_days_for_size size = first_tier size retention_tiers

unfoldable pub format_duration : ℕ → Bytes
unfolding decimal
format_duration seconds =
    let days = seconds / 86400 in
    let hours = seconds % 86400 / 3600 in
    let mins = seconds % 3600 / 60 in
    let secs = seconds % 60 in
    if seconds == 0
    then codes "0s"
    else if ltb 0 days
    then decimal days ++ codes "d " ++ decimal hours ++ codes "h"
    else if ltb 0 hours
    then decimal hours ++ codes "h " ++ decimal mins ++ codes "m"
    else if ltb 0 mins
    then decimal mins ++ codes "m " ++ decimal secs ++ codes "s"
    else decimal secs ++ codes "s"
