-- ===== src/Format/Calendar/Eras.antt =====
-- Days and years within an era of 400 years: the two computations undo each other.
use zhuzhbox_cli.Base.{
  ℕ, zero, suc, ◌+◌, ◌-◌, ◌*◌, ◌/◌, ◌≤◌, ◌<◌, ◌≡◌, ◌&&◌, Bool, true, false, leb, ltb, ◌==◌,
  if◌then◌else◌, passes, passes-at, and-eq-true, arith, refl, inl, inr, Bool-cases, ==_iff, ==_iff,
  subst, sym,
}
use zhuzhbox_cli.Format.Calendar.{year_of_era, day_of_year, month_day, day_of_era}

-- The first day of year `k` of an era.
abbrev pub year_start : ℕ → ℕ
year_start k = k * 365 + k / 4 - k / 100

abbrev year_top : ℕ → ℕ
year_top doe = doe - doe / 1460 + doe / 36524 - doe / 146096

top_step : (d : ℕ) → year_top d ≤ year_top (d + 1)
top_step d = omega arith

top_mono : (n d : ℕ) → year_top d ≤ year_top (d + n)
top_mono zero d = omega arith
top_mono (suc n) d = omega (arith, top_mono n d, top_step (d + n))

year_of_era_mono : (a b : ℕ) → a ≤ b → year_of_era a ≤ year_of_era b
unfolding year_of_era
year_of_era_mono a b h = omega (arith, top_mono (b - a) a)

-- Checked for each year of an era: its first and its last day.
abbrev pub last_day : ℕ → ℕ
last_day k = if k == 399 then 146096 else year_start (k + 1) - 1

abbrev year_ok : ℕ → Bool
year_ok k = year_of_era (year_start k) == k && year_of_era (last_day k) == k

year_ok-at : (k : ℕ) → k < 400 → year_ok k ≡ true
unfolding year_of_era passes
year_ok-at k h = passes-at year_ok 400 h refl

pub record InYear (doe k : ℕ) : Type 0 where
  pub inside : k < 400
  pub from : year_start k ≤ doe
  pub upto : doe ≤ last_day k

year_of_era_unique : (doe k : ℕ) → InYear doe k → year_of_era doe ≡ k
year_of_era_unique doe k h =
    let (first, last) =
      and-eq-true (year_of_era (year_start k) == k) (year_of_era (last_day k) == k)
        (year_ok-at k h.inside) in
    let low = year_of_era_mono (year_start k) doe h.from in
    let high = year_of_era_mono doe (last_day k) h.upto in
    omega (
      arith,
      (==_iff (year_of_era (year_start k)) k).0 first,
      (==_iff (year_of_era (last_day k)) k).0 last,
      low,
      high,
    )

before_next : (doe n : ℕ) → n < 399 → doe < year_start (n + 1) → doe ≤ last_day n
before_next doe n small h = let inner : (n == 399) ≡ false = ground arith in rw inner (omega arith)

find_year : (doe n : ℕ) → n < 400 → doe < year_start n → (k : ℕ) × InYear doe k
find_year doe zero small h = absurd (omega arith)
find_year doe (suc n) small h = elim (Bool-cases (ltb doe (year_start n))) [
  | inl before ↦ find_year doe n (omega arith) (ground (arith, before))
  | inr after ↦ (
    n,
    record {
      inside = omega arith;
      from = ground (arith, after);
      upto = before_next doe n (omega arith) (omega arith);
    },
  )
]

-- The year of a day of the era holds the day.
pub year_of_era-InYear : (doe : ℕ) → doe < 146097 → InYear doe (year_of_era doe)
year_of_era-InYear doe h = elim (Bool-cases (ltb doe (year_start 399))) [
  | inl before ↦
      let (k, held) = find_year doe 399 (omega arith) (ground (arith, before)) in
      subst (InYear doe) (sym (year_of_era_unique doe k held)) held
  | inr after ↦
      let held : InYear doe 399 = record {
        inside = omega arith;
        from = ground (arith, after);
        upto = omega arith;
      } in
      subst (InYear doe) (sym (year_of_era_unique doe 399 held)) held
]

last_day-le : (k : ℕ) → k < 400 → last_day k ≤ year_start k + 365
last_day-le k h = ground arith

-- The day of the year that is left of a day of the era, and back.
pub day_of_era-year_of_era :
    (doe : ℕ)
    → doe < 146097
    → let yoe = year_of_era doe in
      let doy = doe - (365 * yoe + yoe / 4 - yoe / 100) in
      (yoe < 400) × (doy < 366) × (day_of_era yoe doy ≡ doe)
unfolding day_of_era
day_of_era-year_of_era doe h =
    let held = year_of_era-InYear doe h in
    let yoe = year_of_era doe in
    let close = last_day-le yoe held.inside in
    (
      held.inside,
      omega (arith, held.inside, held.from, held.upto, close),
      omega (arith, held.inside, held.from, h),
    )

facts :
    (doy m d back : ℕ)
    → (leb 1 m && leb m 12 && leb 1 d && leb d 31 && back == doy) ≡ true
    → (1 ≤ m) × (m ≤ 12) × (1 ≤ d) × (d ≤ 31) × (back ≡ doy)
facts doy m d back h = ground arith

month_ok : ℕ → Bool
month_ok doy =
    let (m, d) = month_day doy in
    leb 1 m && leb m 12 && leb 1 d && leb d 31 && day_of_year m d == doy

-- The month and the day of a day of the year, and back.
pub day_of_year-month_day :
    (doy : ℕ)
    → doy < 366
    → let (m, d) = month_day doy in
      (1 ≤ m) × (m ≤ 12) × (1 ≤ d) × (d ≤ 31) × (day_of_year m d ≡ doy)
unfolding month_day day_of_year passes month_ok
day_of_year-month_day doy h =
    let ok : month_ok doy ≡ true = passes-at month_ok 366 h refl in
    facts doy (month_day doy).0 (month_day doy).1 (day_of_year (month_day doy).0 (month_day doy).1)
      ok
