-- ===== src/Format/Calendar/Days.antt =====
-- Days and civil dates undo each other, and the days count the dates one by one.
use zhuzhbox_cli.Base.{
  ℕ, ◌+◌, ◌-◌, ◌*◌, ◌/◌, ◌%◌, ◌^◌, ◌≤◌, ◌<◌, ◌≡◌, Bool, true, false, leb, ltb, if◌then◌else◌, arith,
  refl, ap, ◌∙◌,
}
use zhuzhbox_cli.Base.Int.{ℤ, pos, ◌+ℤ◌, ◌-ℤ◌}
use zhuzhbox_cli.Format.Calendar.{
  times, to_int, year_of_era, day_of_year, month_day, day_of_era, era_of, rest_of_era, date_in_era,
  days_from_civil, civil_from_days,
}
use zhuzhbox_cli.Format.Calendar.Eras.{
  year_start, year_of_era-InYear, day_of_era-year_of_era, day_of_year-month_day,
}

era_of_pos : (a n : ℕ) → era_of (pos a) n ≡ pos (a / n)
unfolding era_of
era_of_pos a n = let up : ltb (a + 0) (0 + 0) ≡ false = ground arith in rw up refl

rest_of_era_pos :
    (a q n : ℕ) → q * n ≤ a → a < q * n + 2 ^ 32 → rest_of_era (pos a) (pos q) n ≡ a - q * n
unfolding rest_of_era ◌-ℤ◌
rest_of_era_pos a q n low high = ground arith

pub add_pos : (a b : ℕ) → pos a +ℤ pos b ≡ pos (a + b)
unfolding ◌+ℤ◌
add_pos a b = ground arith

pub sub_pos : (a b : ℕ) → b ≤ a → pos a -ℤ pos b ≡ pos (a - b)
unfolding ◌-ℤ◌
sub_pos a b h = ground arith

to_int_pos : (a : ℕ) → a < 2 ^ 31 → to_int (pos a) ≡ pos a
to_int_pos a h = ground arith

-- A date that is not before the first era, from its era, its year of it and its day of that.
abbrev pub from_era : ℕ → ℕ → ℕ → ℤ × ℕ × ℕ
from_era era yoe doy =
    let (m, d) = month_day doy in (pos (yoe + era * 400 + (if leb m 2 then 1 else 0)), m, d)

year_pos :
    (yoe era : ℕ) (next : Bool)
    → yoe + era * 400 + 1 < 2 ^ 31
    → to_int
        (if next then (pos yoe +ℤ times (pos era) 400) +ℤ pos 1 else pos yoe +ℤ times (pos era) 400)
      ≡ pos (yoe + era * 400 + (if next then 1 else 0))
unfolding ◌+ℤ◌
year_pos yoe era true h = ground arith
year_pos yoe era false h = ground arith

pub date_in_era_pos :
    (era doe : ℕ)
    → doe < 146097
    → era < 2 ^ 22
    → date_in_era (pos era) doe
      ≡ from_era era
          (year_of_era doe)
          (doe - (365 * year_of_era doe + year_of_era doe / 4 - year_of_era doe / 100))
unfolding date_in_era
date_in_era_pos era doe h small =
    let yoe = year_of_era doe in
    let doy = doe - (365 * yoe + yoe / 4 - yoe / 100) in
    let low = (day_of_era-year_of_era doe h).0 in
    ap (λ y. (y, (month_day doy).0, (month_day doy).1))
      (year_pos yoe era (leb (month_day doy).0 2) (omega (arith, low)))

pub civil_from_days_pos :
    (n : ℕ)
    → n < 2 ^ 39
    → let z = n + 719468 in civil_from_days (pos n) ≡ date_in_era (pos (z / 146097)) (z % 146097)
unfolding civil_from_days
civil_from_days_pos n h =
    let z = n + 719468 in
    let rest : z - z / 146097 * 146097 ≡ z % 146097 = omega arith in
    rw
      (
        add_pos n 719468,
        era_of_pos z 146097,
        rest_of_era_pos z (z / 146097) 146097 (omega arith) (omega arith),
        rest,
      )
      refl

year_back :
    (y : ℕ) (early : Bool)
    → (if early
        then pos (y + (if early then 1 else 0)) -ℤ pos 1
        else pos (y + (if early then 1 else 0)))
      ≡ pos y
unfolding ◌-ℤ◌
year_back y true = ground arith
year_back y false = ground arith

pub days_from_civil_pos :
    (y era yoe m d : ℕ)
    → y ≡ yoe + era * 400
    → yoe < 400
    → (m ≤ 12)
    → 719468 ≤ era * 146097 + day_of_era yoe (day_of_year m d)
    → days_from_civil (pos (y + (if leb m 2 then 1 else 0))) m d
      ≡ pos (era * 146097 + day_of_era yoe (day_of_year m d) - 719468)
unfolding days_from_civil
days_from_civil_pos y era yoe m d e low small late =
    let q : y / 400 ≡ era = omega arith in
    let r : y - era * 400 ≡ yoe = omega arith in
    let doe = day_of_era yoe (day_of_year m d) in
    rw
      (
        year_back y (leb m 2),
        era_of_pos y 400,
        q,
        rest_of_era_pos y era 400 (omega arith) (omega arith),
        r,
        add_pos (era * 146097) doe,
      )
      (sub_pos (era * 146097 + doe) 719468 late)

-- Converting the days since the epoch to a date and back gives them again, up to 2^39 days; and the date
-- has a month from 1 to 12 and a day from 1 to 31.
pub days_from_civil-civil_from_days :
    (days : ℕ)
    → days < 2 ^ 39
    → let (y, m, d) = civil_from_days (pos days) in
      (days_from_civil y m d ≡ pos days) × (1 ≤ m) × (m ≤ 12) × (1 ≤ d) × (d ≤ 31)
days_from_civil-civil_from_days days h =
    let z = days + 719468 in
    let era = z / 146097 in
    let doe = z % 146097 in
    let yoe = year_of_era doe in
    let doy = doe - (365 * yoe + yoe / 4 - yoe / 100) in
    let (low, short, back) = day_of_era-year_of_era doe (omega arith) in
    let (m_low, m_high, d_low, d_high, there) = day_of_year-month_day doy short in
    let m = (month_day doy).0 in
    let d = (month_day doy).1 in
    let whole : day_of_era yoe (day_of_year m d) ≡ doe = ap (day_of_era yoe) there ∙ back in
    let days_back =
      days_from_civil_pos (yoe + era * 400) era yoe m d refl low m_high (omega (arith, whole)) in
    let at = civil_from_days_pos days h ∙ date_in_era_pos era doe (omega arith) (omega arith) in
    rw at (days_back ∙ ap pos (omega (arith, whole)), m_low, m_high, d_low, d_high)

-- The year of a date before March 9999 has four digits.
pub civil_from_days-year :
    (days : ℕ) → days < 2932591 → (y : ℕ) × ((civil_from_days (pos days)).0 ≡ pos y) × (y < 10000)
civil_from_days-year days h =
    let z = days + 719468 in
    let era = z / 146097 in
    let doe = z % 146097 in
    let yoe = year_of_era doe in
    let doy = doe - (365 * yoe + yoe / 4 - yoe / 100) in
    let held = year_of_era-InYear doe (omega arith) in
    let m = (month_day doy).0 in
    let at =
      civil_from_days_pos days (omega arith)
      ∙ date_in_era_pos era doe (omega arith) (omega arith) in
    (
      yoe + era * 400 + (if leb m 2 then 1 else 0),
      ap (λ p. p.0) at,
      four yoe era doe (leb m 2) held.inside held.from (omega arith),
    )
  where
    four :
        (yoe era doe : ℕ) (early : Bool)
        → yoe < 400
        → year_start yoe ≤ doe
        → era * 146097 + doe < 3652059
        → yoe + era * 400 + (if early then 1 else 0) < 10000
    four yoe era doe true a b c = omega arith
    four yoe era doe false a b c = omega arith
