-- ===== src/Tests/Times.antt =====
-- The theorems on times at 29 February 2024, and at short spans.
use zhuzhbox_cli.Base.{ℕ, ◌≤◌, ◌≡◌, some, arith, codes, refl}
use zhuzhbox_cli.Base.Int.{pos, ◌+ℤ◌, ◌-ℤ◌}
use zhuzhbox_cli.Format.Calendar.{
  days_from_civil, civil_from_days, date_in_era, era_of, rest_of_era, year_of_era, month_day,
  gmtime_utc,
}
use zhuzhbox_cli.Format.Calendar.Days.{days_from_civil-civil_from_days}
use zhuzhbox_cli.Format.Calendar.Gregorian.{IsDate, days_from_civil-next_date}
use zhuzhbox_cli.Format.Time.{parse_iso8601, format_iso8601, padded, digit_count}
use zhuzhbox_cli.Format.Time.Iso.{parse_iso8601-format_iso8601}
use zhuzhbox_cli.Format.Relative.{scale_of, magnitude, relative_magnitude, decimal}
use zhuzhbox_cli.Format.Relative.Laws.{TimeUnit, told, IsNearest, relative_magnitude-IsNearest}

days_from_civil-civil_from_days_example :
    let (y, m, d) = civil_from_days (pos 19782) in
    (days_from_civil y m d ≡ pos 19782) × (1 ≤ m) × (m ≤ 12) × (1 ≤ d) × (d ≤ 31)
days_from_civil-civil_from_days_example = days_from_civil-civil_from_days 19782 (omega arith)

leap_day : IsDate 2024 2 29
leap_day = record {
  year = (omega arith, omega arith);
  month = (omega arith, omega arith);
  day = (omega arith, omega arith);
}

days_from_civil-next_date_example :
    (days_from_civil (pos 1970) 1 1 ≡ pos 0)
    × (days_from_civil (pos 2024) 3 1 ≡ days_from_civil (pos 2024) 2 29 +ℤ pos 1)
days_from_civil-next_date_example = days_from_civil-next_date 2024 2 29 leap_day

parse_iso8601-format_iso8601_example :
    parse_iso8601 (some (format_iso8601 (pos 1709210096))) ≡ some (pos 1709210096)
parse_iso8601-format_iso8601_example = parse_iso8601-format_iso8601 1709210096 (omega arith)

printed : format_iso8601 (pos 1709210096) ≡ codes "2024-02-29T12:34:56Z"
unfolding format_iso8601 gmtime_utc civil_from_days date_in_era era_of rest_of_era year_of_era
    month_day padded digit_count ◌+ℤ◌ ◌-ℤ◌
printed = refl

relative_magnitude-IsNearest_example :
    (v : ℕ) × (u : TimeUnit) × (relative_magnitude 5000 ≡ told v u) × IsNearest 5000 v u
relative_magnitude-IsNearest_example = relative_magnitude-IsNearest 5000 (omega arith)

one_day : relative_magnitude 86400 ≡ codes "1 day"
unfolding relative_magnitude magnitude scale_of decimal digit_count
one_day = refl
