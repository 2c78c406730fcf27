-- ===== src/Format/Time/Iso.antt =====
-- A timestamp that is printed is read back.
use zhuzhbox_cli.Base.{
  ℕ, suc, ◌+◌, ◌*◌, ◌/◌, ◌%◌, ◌≤◌, ◌<◌, ◌≡◌, true, false, some, [], ◌∷◌, ◌++◌, ltb, if◌then◌else◌,
  arith, refl, ap, ◌∙◌, sym, Bytes, get_or, codes, drop,
}
use zhuzhbox_cli.Base.Int.{ℤ, pos}
use zhuzhbox_cli.Format.Calendar.{
  Moment, moment_of, days_from_civil, civil_from_days, timegm_utc, gmtime_utc,
}
use zhuzhbox_cli.Format.Calendar.Days.{
  add_pos, civil_from_days-year, days_from_civil-civil_from_days,
}
use zhuzhbox_cli.Format.Time.{
  is_digit, digits, skip_digits, is_tail, in_range, moment_at, checked, parse_iso8601, last_digits,
  digit_count, padded, two, format_iso8601,
}

digit_count_one : (more n : ℕ) → n < 10 → digit_count (suc more) n ≤ 1
unfolding digit_count
digit_count_one more n h = ground arith

digit_count_two : (more n : ℕ) → n < 100 → digit_count (suc (suc more)) n ≤ 2
unfolding digit_count
digit_count_two more n h = ground (arith, digit_count_one more (n / 10) (omega arith))

digit_count_three : (more n : ℕ) → n < 1000 → digit_count (suc (suc (suc more))) n ≤ 3
unfolding digit_count
digit_count_three more n h = ground (arith, digit_count_two more (n / 10) (omega arith))

digit_count_four : (more n : ℕ) → n < 10000 → digit_count (suc (suc (suc (suc more)))) n ≤ 4
unfolding digit_count
digit_count_four more n h = ground (arith, digit_count_three more (n / 10) (omega arith))

widened : (count width : ℕ) → count ≤ width → (if ltb count width then width else count) ≡ width
widened count width h = ground arith

padded_short : (width n : ℕ) → digit_count 20 n ≤ width → padded width (pos n) ≡ last_digits width n
unfolding padded
padded_short width n h =
    let count = digit_count 20 n in ap (λ w. last_digits w n) (widened count width h)

padded_two : (n : ℕ) → n < 100 → padded 2 (pos n) ≡ (48 + n / 10) ∷ (48 + n % 10) ∷ []
padded_two n h =
    let high : 48 + n / 10 % 10 ≡ 48 + n / 10 = omega arith in
    let low : 48 + n / 1 % 10 ≡ 48 + n % 10 = omega arith in
    padded_short 2 n (digit_count_two 18 n h)
    ∙ ap (λ c. c ∷ (48 + n / 1 % 10) ∷ []) high
    ∙ ap (λ c. (48 + n / 10) ∷ c ∷ []) low

padded_four :
    (n : ℕ)
    → n < 10000
    → padded 4 (pos n)
      ≡ (48 + n / 1000) ∷ (48 + n / 100 % 10) ∷ (48 + n / 10 % 10) ∷ (48 + n % 10) ∷ []
padded_four n h =
    let high : 48 + n / 1000 % 10 ≡ 48 + n / 1000 = omega arith in
    let low : 48 + n / 1 % 10 ≡ 48 + n % 10 = omega arith in
    padded_short 4 n (digit_count_four 16 n h)
    ∙ ap (λ c. c ∷ (48 + n / 100 % 10) ∷ (48 + n / 10 % 10) ∷ (48 + n / 1 % 10) ∷ []) high
    ∙ ap (λ c. (48 + n / 1000) ∷ (48 + n / 100 % 10) ∷ (48 + n / 10 % 10) ∷ c ∷ []) low

digits-two :
    (s : Bytes) (i a b : ℕ)
    → a < 10
    → b < 10
    → get_or s i 0 ≡ 48 + a
    → get_or s (i + 1) 0 ≡ 48 + b
    → digits s 2 i 0 ≡ some (a * 10 + b)
unfolding digits
digits-two s i a b ha hb ea eb =
    let da : is_digit (48 + a) ≡ true = ground arith in
    let db : is_digit (48 + b) ≡ true = ground arith in rw (ea, eb, da, db) (ap some (omega arith))

digits-four :
    (s : Bytes) (a b c d : ℕ)
    → a < 10
    → b < 10
    → c < 10
    → d < 10
    → digits ((48 + a) ∷ (48 + b) ∷ (48 + c) ∷ (48 + d) ∷ s) 4 0 0
      ≡ some (a * 1000 + b * 100 + c * 10 + d)
unfolding digits
digits-four s a b c d ha hb hc hd =
    let da : is_digit (48 + a) ≡ true = ground arith in
    let db : is_digit (48 + b) ≡ true = ground arith in
    let dc : is_digit (48 + c) ≡ true = ground arith in
    let dd : is_digit (48 + d) ≡ true = ground arith in rw (da, db, dc, dd) (ap some (omega arith))

-- The text of a moment, digit by digit.
abbrev spelled : Moment → (year : ℕ) → Bytes
spelled t y =
    (48 + y / 1000)
    ∷ (48 + y / 100 % 10)
    ∷ (48 + y / 10 % 10)
    ∷ (48 + y % 10)
    ∷ 45
    ∷ (48 + t.mon / 10)
    ∷ (48 + t.mon % 10)
    ∷ 45
    ∷ (48 + t.mday / 10)
    ∷ (48 + t.mday % 10)
    ∷ 84
    ∷ (48 + t.hour / 10)
    ∷ (48 + t.hour % 10)
    ∷ 58
    ∷ (48 + t.min / 10)
    ∷ (48 + t.min % 10)
    ∷ 58
    ∷ (48 + t.sec / 10)
    ∷ (48 + t.sec % 10)
    ∷ 90
    ∷ []

record IsMoment (t : Moment) (y : ℕ) : Type 0 where
  year : t.year ≡ pos y
  small : y < 10000
  mon : (1 ≤ t.mon) × (t.mon ≤ 12)
  mday : (1 ≤ t.mday) × (t.mday ≤ 31)
  hour : t.hour ≤ 23
  min : t.min ≤ 59
  sec : t.sec ≤ 59

moment_at-spelled : (t : Moment) (y : ℕ) → IsMoment t y → moment_at (spelled t y) ≡ some t
unfolding moment_at
moment_at-spelled t y h =
    let s = spelled t y in
    let year : digits s 4 0 0 ≡ some y =
      digits-four (drop 4 s) (y / 1000) (y / 100 % 10) (y / 10 % 10) (y % 10)
        (omega (arith, h.small)) (omega arith) (omega arith) (omega arith)
      ∙ ap some (omega arith) in
    let part : (i n : ℕ)
        → n < 100
        → get_or s i 0 ≡ 48 + n / 10
        → get_or s (i + 1) 0 ≡ 48 + n % 10
        → digits s 2 i 0 ≡ some n =
      λ i n small ea eb.
        digits-two s i (n / 10) (n % 10) (omega arith) (omega arith) ea eb
        ∙ ap some (omega arith) in
    let mon = part 5 t.mon (omega (arith, h.mon.1)) refl refl in
    let mday = part 8 t.mday (omega (arith, h.mday.1)) refl refl in
    let hour = part 11 t.hour (omega (arith, h.hour)) refl refl in
    let min = part 14 t.min (omega (arith, h.min)) refl refl in
    let sec = part 17 t.sec (omega (arith, h.sec)) refl refl in
    rw (year, mon, mday, hour, min, sec) (ap (λ z. some (record t { year = z })) (sym h.year))

in_range-IsMoment :
    (t : Moment) (y : ℕ) → IsMoment t y → in_range t.mon t.mday t.hour t.min t.sec ≡ true
in_range-IsMoment t y h = ground (arith, h.mon, h.mday, h.hour, h.min, h.sec)

parse-spelled :
    (t : Moment) (y : ℕ)
    → IsMoment t y
    → parse_iso8601 (some (spelled t y)) ≡ some (timegm_utc t.year t.mon t.mday t.hour t.min t.sec)
unfolding parse_iso8601 checked is_tail skip_digits
parse-spelled t y h = rw (moment_at-spelled t y h, in_range-IsMoment t y h) refl

gmtime_utc_pos :
    (e : ℕ) → gmtime_utc (pos e) ≡ moment_of (civil_from_days (pos (e / 86400))) (pos (e % 86400))
unfolding gmtime_utc
gmtime_utc_pos e = let up : ltb (e % 86400 + 0) (0 + 0) ≡ false = ground arith in rw up refl

timegm_utc-clock :
    (e : ℕ) (y : ℤ) (m d : ℕ)
    → days_from_civil y m d ≡ pos (e / 86400)
    → timegm_utc y m d (e % 86400 / 3600) (e % 86400 % 3600 / 60) (e % 86400 % 60) ≡ pos e
unfolding timegm_utc
timegm_utc-clock e y m d h = rw h (
    add_pos (e / 86400 * 86400)
      (e % 86400 / 3600 * 3600 + e % 86400 % 3600 / 60 * 60 + e % 86400 % 60)
    ∙ ap pos (omega arith))

format-spelled :
    (t : Moment) (y : ℕ)
    → IsMoment t y
    → padded 4 t.year
        ++ codes "-"
        ++ two t.mon
        ++ codes "-"
        ++ two t.mday
        ++ codes "T"
        ++ two t.hour
        ++ codes ":"
        ++ two t.min
        ++ codes ":"
        ++ two t.sec
        ++ codes "Z"
      ≡ spelled t y
format-spelled t y h =
    rw
      (
        h.year,
        padded_four y h.small,
        padded_two t.mon (omega (arith, h.mon.1)),
        padded_two t.mday (omega (arith, h.mday.1)),
        padded_two t.hour (omega (arith, h.hour)),
        padded_two t.min (omega (arith, h.min)),
        padded_two t.sec (omega (arith, h.sec)),
      )
      refl

-- A time from 1970 to February 9999 is read back from the text that it is printed as.
pub parse_iso8601-format_iso8601 :
    (e : ℕ) → e < 253375862400 → parse_iso8601 (some (format_iso8601 (pos e))) ≡ some (pos e)
unfolding format_iso8601
parse_iso8601-format_iso8601 e h =
    let days = e / 86400 in
    let (y, year, small) = civil_from_days-year days (omega arith) in
    let (back, m_low, m_high, d_low, d_high) = days_from_civil-civil_from_days days (omega arith) in
    let t = moment_of (civil_from_days (pos days)) (pos (e % 86400)) in
    let is_moment : IsMoment t y = record {
      year = year;
      small = small;
      mon = (m_low, m_high);
      mday = (d_low, d_high);
      hour = omega arith;
      min = omega arith;
      sec = omega arith;
    } in
    let (year', m, d) = civil_from_days (pos days) in
    rw (gmtime_utc_pos e, format-spelled t y is_moment)
      (parse-spelled t y is_moment ∙ ap some (timegm_utc-clock e year' m d back))
