-- ===== src/Format/Calendar/Gregorian.antt =====
-- The days count the dates of the Gregorian calendar one by one.
use zhuzhbox_cli.Base.{
  ℕ, ◌+◌, ◌-◌, ◌*◌, ◌/◌, ◌%◌, ◌≤◌, ◌<◌, ◌≡◌, ◌&&◌, ◌||◌, Bool, true, false, not, leb, ltb, ◌==◌,
  if◌then◌else◌, arith, refl, inl, inr, Bool-cases, subst, sym, ap, ◌∙◌, passes, passes-at,
  if_holds,
}
use zhuzhbox_cli.Base.Int.{pos, ◌+ℤ◌}
use zhuzhbox_cli.Format.Calendar.{day_of_year, day_of_era, days_from_civil}
use zhuzhbox_cli.Format.Calendar.Days.{days_from_civil_pos}

abbrev pub is_leap : ℕ → Bool
is_leap y = y % 4 == 0 && (not (y % 100 == 0) || y % 400 == 0)

abbrev pub days_in_month : ℕ → ℕ → ℕ
days_in_month y m =
    if m == 2
    then if is_leap y then 29 else 28
    else if m == 4 || m == 6 || m == 9 || m == 11
    then 30
    else 31

-- A date from 1970 on.
pub record IsDate (y m d : ℕ) : Type 0 where
  pub year : (1970 ≤ y) × (y < 10000)
  pub month : (1 ≤ m) × (m ≤ 12)
  pub day : (1 ≤ d) × (d ≤ days_in_month y m)

abbrev pub next_date : ℕ → ℕ → ℕ → ℕ × ℕ × ℕ
next_date y m d =
    if ltb d (days_in_month y m)
    then (y, m, d + 1)
    else if ltb m 12
    then (y, m + 1, 1)
    else (y + 1, 1, 1)

-- The years that are over, counted from March.
abbrev full_years : ℕ → ℕ → ℕ
full_years y m = if leb m 2 then y - 1 else y

abbrev count : ℕ → ℕ → ℕ
count years doy = years * 365 + years / 4 - years / 100 + years / 400 + doy

days_in_month-le : (y m : ℕ) → days_in_month y m ≤ 31
days_in_month-le y m = ground arith

doy_of :
    (m d : ℕ)
    → 1 ≤ m
    → m ≤ 12
    → 1 ≤ d
    → d ≤ 31
    → day_of_year m d
      ≡ (if leb m 2 then (153 * (m + 9) + 2) / 5 + d - 1 else (153 * (m - 3) + 2) / 5 + d - 1)
unfolding day_of_year
doy_of m d m_low m_high d_low d_high = ground arith

doy-lt : (m d : ℕ) → 1 ≤ m → m ≤ 12 → 1 ≤ d → d ≤ 31 → day_of_year m d < 368
doy-lt m d m_low m_high d_low d_high = ground (arith, doy_of m d m_low m_high d_low d_high)

day_of_era-count :
    (years doy : ℕ)
    → doy < 368
    → years / 400 * 146097 + day_of_era (years % 400) doy ≡ count years doy
unfolding day_of_era
day_of_era-count years doy h = omega arith

-- The days that the years since 1970 have, and those of January and February 1970, are there.
count-ge :
    (y m d : ℕ)
    → 1970 ≤ y
    → 1 ≤ m
    → m ≤ 12
    → 1 ≤ d
    → d ≤ 31
    → 719468 ≤ count (full_years y m) (day_of_year m d)
count-ge y m d late m_low m_high d_low d_high =
    let at = doy_of m d m_low m_high d_low d_high in
    elim (Bool-cases (leb m 2)) [
      | inl early ↦
          let doy : 306 ≤ day_of_year m d = ground (arith, at, early) in
          rw early (omega (arith, doy))
      | inr rest ↦ rw rest (omega arith)
    ]

days_from_civil-count :
    (y m d : ℕ)
    → 1970 ≤ y
    → 1 ≤ m
    → m ≤ 12
    → 1 ≤ d
    → d ≤ 31
    → days_from_civil (pos y) m d ≡ pos (count (full_years y m) (day_of_year m d) - 719468)
days_from_civil-count y m d late m_low m_high d_low d_high =
    let years = full_years y m in
    let doy = day_of_year m d in
    let same = day_of_era-count years doy (doy-lt m d m_low m_high d_low d_high) in
    let back : years + (if leb m 2 then 1 else 0) ≡ y = ground arith in
    let enough : 719468 ≤ count years doy = count-ge y m d late m_low m_high d_low d_high in
    let at =
      days_from_civil_pos years (years / 400) (years % 400) m d (omega arith) (omega arith) m_high
        (omega (arith, same, enough)) in
    subst (λ z. days_from_civil (pos z) m d ≡ pos (count years doy - 719468)) back
      (at ∙ ap (λ n. pos (n - 719468)) same)

-- The same month, for each month but February.
abbrev long_month : ℕ → ℕ
long_month m = if m == 4 || m == 6 || m == 9 || m == 11 then 30 else 31

abbrev month_step : ℕ → Bool
month_step m = m == 0 || m == 2 || day_of_year (m + 1) 1 == day_of_year m (long_month m) + 1

month_step-at : (m : ℕ) → m < 12 → month_step m ≡ true
unfolding day_of_year passes
month_step-at m h = passes-at month_step 12 h refl

day_step : (m d : ℕ) → 1 ≤ m → m ≤ 12 → 1 ≤ d → d ≤ 30 → day_of_year m (d + 1) ≡ day_of_year m d + 1
day_step m d m_low m_high d_low d_high = ground (
  arith,
  doy_of m d m_low m_high d_low (omega arith),
  doy_of m (d + 1) m_low m_high (omega arith) (omega arith),
)

abbrev leaps : ℕ → ℕ
leaps y = y * 365 + y / 4 - y / 100 + y / 400

leap_step : (y : ℕ) → 1 ≤ y → leaps y ≡ leaps (y - 1) + (if is_leap y then 366 else 365)
leap_step y h = ground arith

march_first : day_of_year 3 1 ≡ 0
unfolding day_of_year
march_first = refl

january_first : day_of_year 1 1 ≡ 306
unfolding day_of_year
january_first = refl

december_last : day_of_year 12 31 ≡ 305
unfolding day_of_year
december_last = refl

february : (d : ℕ) → 1 ≤ d → d ≤ 31 → day_of_year 2 d ≡ 336 + d
february d low high = ground (arith, doy_of 2 d (omega arith) (omega arith) low high)

abbrev NextCount : ℕ → ℕ → ℕ → ℕ → ℕ → ℕ → Type 0
NextCount y m d y' m' d' =
    count (full_years y' m') (day_of_year m' d') ≡ count (full_years y m) (day_of_year m d) + 1

after_february : (y d : ℕ) → 1970 ≤ y → 1 ≤ d → d ≡ days_in_month y 2 → NextCount y 2 d y 3 1
after_february y d late low e =
    let step = leap_step y (omega arith) in
    let old = february d low (ground arith) in
    elim (Bool-cases (is_leap y)) [
      | inl leap ↦
          let d29 : d ≡ 29 = e ∙ ap (λ b. if b then 29 else 28) leap in
          let s366 : leaps y ≡ leaps (y - 1) + 366 =
            step ∙ ap (λ b. leaps (y - 1) + (if b then 366 else 365)) leap in
          omega (arith, march_first, old, d29, s366)
      | inr common ↦
          let d28 : d ≡ 28 = e ∙ ap (λ b. if b then 29 else 28) common in
          let s365 : leaps y ≡ leaps (y - 1) + 365 =
            step ∙ ap (λ b. leaps (y - 1) + (if b then 366 else 365)) common in
          omega (arith, march_first, old, d28, s365)
    ]

after_month :
    (y m d : ℕ) → 1 ≤ m → m < 12 → (m == 2) ≡ false → d ≡ long_month m → NextCount y m d y (m + 1) 1
after_month y m d low high other e =
    let step = month_step-at m high in
    let one : day_of_year (m + 1) 1 ≡ day_of_year m (long_month m) + 1 =
      ground (arith, step, other) in
    let same : full_years y (m + 1) ≡ full_years y m = ground (arith, other) in
    let here : day_of_year m d ≡ day_of_year m (long_month m) = ap (day_of_year m) e in
    rw same (omega (arith, one, here))

-- The count of the next date is one more.
count_next :
    (y m d : ℕ)
    → IsDate y m d
    → let (y', m', d') = next_date y m d in
      count (full_years y' m') (day_of_year m' d') ≡ count (full_years y m) (day_of_year m d) + 1
count_next y m d h = elim (Bool-cases (ltb d (days_in_month y m))) [
  | inl inside ↦
      let few = days_in_month-le y m in
      let step = day_step m d h.month.0 h.month.1 h.day.0 (ground (arith, few, inside)) in
      rw inside (omega (arith, step))
  | inr last ↦ rw last (elim (Bool-cases (ltb m 12)) [
    | inl before ↦ rw before (elim (Bool-cases (m == 2)) [
      | inl two ↦
          let em : 2 ≡ m = ground (arith, two) in
          let ed : d ≡ days_in_month y m = ground (arith, last) in
          subst (λ k. d ≡ days_in_month y k → NextCount y k d y (k + 1) 1) em
            (after_february y d h.year.0 h.day.0) ed
      | inr other ↦
          after_month y m d h.month.0 (ground (arith, before)) other (ground (arith, last, other))
    ])
    | inr december ↦ rw december (
        let em : 12 ≡ m = ground (arith, december) in
        let ed : 31 ≡ d = ground (arith, last, em) in
        let old : day_of_year m d ≡ 305 =
          subst (λ k. day_of_year k d ≡ 305) em
            (subst (λ k. day_of_year 12 k ≡ 305) ed december_last) in
        let same : full_years y m ≡ y = ground (arith, em) in
        rw (same, old, january_first) (omega arith))
  ])
]

abbrev InRange : ℕ × ℕ × ℕ → Type 0
InRange (y, m, d) = (1970 ≤ y) × (1 ≤ m) × (m ≤ 12) × (1 ≤ d) × (d ≤ 31)

next_date-InRange : (y m d : ℕ) → IsDate y m d → InRange (next_date y m d)
next_date-InRange y m d h =
    let few = days_in_month-le y m in
    let first : ℕ × ℕ × ℕ = (y, m + 1, 1) in
    let january : ℕ × ℕ × ℕ = (y + 1, 1, 1) in
    if_holds InRange (ltb d (days_in_month y m)) (y, m, d + 1) (if ltb m 12 then first else january)
      (λ e. (h.year.0, h.month.0, h.month.1, omega arith, ground (arith, few, e)))
      (λ e.
        if_holds InRange (ltb m 12) first january
          (λ f. (h.year.0, omega arith, ground (arith, f), omega arith, omega arith))
          (λ f. (omega (arith, h.year.0), omega arith, omega arith, omega arith, omega arith)))

one_more : (a b : ℕ) → b ≡ a + 1 → 719468 ≤ a → pos (b - 719468) ≡ pos (a - 719468) +ℤ pos 1
unfolding ◌+ℤ◌
one_more a b e h = ground arith

epoch : days_from_civil (pos 1970) 1 1 ≡ pos 0
epoch =
    days_from_civil-count 1970 1 1 (omega arith) (omega arith) (omega arith) (omega arith)
      (omega arith)
    ∙ ap (λ k. pos (count 1969 k - 719468)) january_first
    ∙ refl

-- The days count from 1970-01-01, and each date of the Gregorian calendar, up to the year 9999, has one
-- more than the date before it.
pub days_from_civil-next_date :
    (y m d : ℕ)
    → IsDate y m d
    → let (y', m', d') = next_date y m d in
      (days_from_civil (pos 1970) 1 1 ≡ pos 0)
      × (days_from_civil (pos y') m' d' ≡ days_from_civil (pos y) m d +ℤ pos 1)
days_from_civil-next_date y m d h =
    let (y', m', d') = next_date y m d in
    let (late', m_low', m_high', d_low', d_high') = next_date-InRange y m d h in
    let d_high : d ≤ 31 = omega (arith, days_in_month-le y m, h.day.1) in
    let before = days_from_civil-count y m d h.year.0 h.month.0 h.month.1 h.day.0 d_high in
    let after = days_from_civil-count y' m' d' late' m_low' m_high' d_low' d_high' in
    let enough = count-ge y m d h.year.0 h.month.0 h.month.1 h.day.0 d_high in
    let a = count (full_years y m) (day_of_year m d) in
    let b = count (full_years y' m') (day_of_year m' d') in
    (epoch, after ∙ one_more a b (count_next y m d h) enough ∙ ap (λ z. z +ℤ pos 1) (sym before))
