-- ===== src/Format/Calendar.antt =====
-- The calendar of src/util/platform.c. `int64_t` and `int` values are integers, cut to 32 bits where the
-- code converts to `int`; `unsigned` wraps at 2^32.
pub mod Eras
pub mod Days
pub mod Gregorian
use zhuzhbox_cli.Base.{ℕ, ◌+◌, ◌-◌, ◌*◌, ◌/◌, ◌%◌, ◌^◌, Bool, true, false, leb, ltb, if◌then◌else◌}
use zhuzhbox_cli.Base.Int.{ℤ, pos, negsuc, sub_ℕ, ◌+ℤ◌, ◌-ℤ◌, ltb_ℤ}

-- `/` and `%` on signed integers round towards zero.
abbrev pub quot : ℤ → ℕ → ℤ
quot (pos a) n = pos (a / n)
quot (negsuc a) n = sub_ℕ 0 ((a + 1) / n)

abbrev pub rem : ℤ → ℕ → ℤ
rem (pos a) n = pos (a % n)
rem (negsuc a) n = sub_ℕ 0 ((a + 1) % n)

abbrev pub times : ℤ → ℕ → ℤ
times (pos a) n = pos (a * n)
times (negsuc a) n = sub_ℕ 0 ((a + 1) * n)

-- `(unsigned)v` and `(int)v`
abbrev pub to_unsigned : ℤ → ℕ
to_unsigned (pos n) = n % 2 ^ 32
to_unsigned (negsuc n) = 2 ^ 32 - 1 - n % 2 ^ 32

abbrev pub unsigned_to_int : ℕ → ℤ
unsigned_to_int n = if ltb n (2 ^ 31) then pos n else negsuc (2 ^ 32 - 1 - n)

abbrev pub to_int : ℤ → ℤ
to_int v = unsigned_to_int (to_unsigned v)

-- `(v >= 0 ? v : v - (n - 1)) / n`, which rounds down.
unfoldable pub era_of : ℤ → ℕ → ℤ
era_of v n = quot (if ltb_ℤ v (pos 0) then v -ℤ pos (n - 1) else v) n

-- `(unsigned)(v - era * n)`
unfoldable pub rest_of_era : ℤ → ℤ → ℕ → ℕ
rest_of_era v era n = to_unsigned (v -ℤ times era n)

-- The day of the year that begins in March, and the day of the era of 400 such years.
unfoldable pub day_of_year : ℕ → ℕ → ℕ
day_of_year m d =
    let shifted = (m + (if ltb 2 m then 2 ^ 32 - 3 else 9)) % 2 ^ 32 in
    ((153 * shifted + 2) % 2 ^ 32 / 5 + d + (2 ^ 32 - 1)) % 2 ^ 32

unfoldable pub day_of_era : ℕ → ℕ → ℕ
day_of_era yoe doy = (yoe * 365 + yoe / 4 - yoe / 100 + doy) % 2 ^ 32

unfoldable pub days_from_civil : ℤ → ℕ → ℕ → ℤ
unfolding era_of rest_of_era day_of_year day_of_era
days_from_civil year m d =
    let y = if leb m 2 then year -ℤ pos 1 else year in
    let era = era_of y 400 in
    let yoe = rest_of_era y era 400 in
    (times era 146097 +ℤ pos (day_of_era yoe (day_of_year m d))) -ℤ pos 719468

-- The year of an era from its day; nothing wraps from here on, as the day is below 146097.
unfoldable pub year_of_era : ℕ → ℕ
year_of_era doe = (doe - doe / 1460 + doe / 36524 - doe / 146096) / 365

-- The month and the day of a day of the year that begins in March.
unfoldable pub month_day : ℕ → ℕ × ℕ
month_day doy =
    let mp = (5 * doy + 2) / 153 in
    ((mp + (if ltb mp 10 then 3 else 2 ^ 32 - 9)) % 2 ^ 32, doy - (153 * mp + 2) / 5 + 1)

-- The date at day `doe` of an era.
unfoldable pub date_in_era : ℤ → ℕ → ℤ × ℕ × ℕ
unfolding year_of_era month_day
date_in_era era doe =
    let yoe = year_of_era doe in
    let y = pos yoe +ℤ times era 400 in
    let (m, d) = month_day (doe - (365 * yoe + yoe / 4 - yoe / 100)) in
    (to_int (if leb m 2 then y +ℤ pos 1 else y), m, d)

-- The year, the month and the day.
unfoldable pub civil_from_days : ℤ → ℤ × ℕ × ℕ
unfolding date_in_era era_of rest_of_era
civil_from_days days =
    let z = days +ℤ pos 719468 in
    let era = era_of z 146097 in date_in_era era (rest_of_era z era 146097)

unfoldable pub timegm_utc : ℤ → (mon mday hour min sec : ℕ) → ℤ
timegm_utc year mon mday hour min sec =
    times (days_from_civil year mon mday) 86400 +ℤ pos (hour * 3600 + min * 60 + sec)

pub record Moment : Type 0 where
  pub year : ℤ
  pub mon : ℕ
  pub mday : ℕ
  pub hour : ℕ
  pub min : ℕ
  pub sec : ℕ

abbrev pub moment_of : ℤ × ℕ × ℕ → ℤ → Moment
moment_of (year, mon, mday) (negsuc n) = record {
  year = year;
  mon = mon;
  mday = mday;
  hour = 0;
  min = 0;
  sec = 0;
}
moment_of (year, mon, mday) (pos rest) = record {
  year = year;
  mon = mon;
  mday = mday;
  hour = rest / 3600;
  min = rest % 3600 / 60;
  sec = rest % 60;
}

-- `zb_gmtime_utc`
unfoldable pub gmtime_utc : ℤ → Moment
unfolding civil_from_days
gmtime_utc t =
    let days = quot t 86400 in
    let rest = rem t 86400 in
    if ltb_ℤ rest (pos 0)
    then moment_of (civil_from_days (days -ℤ pos 1)) (rest +ℤ pos 86400)
    else moment_of (civil_from_days days) rest
