-- ===== src/Format/Relative/Laws.antt =====
-- A span is told to the nearest unit, and a larger file is kept no longer.
use zhuzhbox_cli.Base.{
  ◌+◌, ◌*◌, ◌≤◌, ◌≡◌, ◌++◌, ◌==◌, ℕ, [], arith, Bool, true, false, ltb, Bytes, codes, if◌then◌else◌,
  refl, ap, subst,
}
use zhuzhbox_cli.Format.Relative.{
  Scale, scale_of, magnitude, decimal, relative_magnitude, first_tier, retention_days_for_size,
}

-- The units of a span by name, and their lengths: a month of 30 days, and a year of 365.
pub data TimeUnit : Type 0 where
  second minute hour day month year : TimeUnit

abbrev pub unit_name : TimeUnit → Bytes
unit_name TimeUnit.second = codes "second"
unit_name TimeUnit.minute = codes "minute"
unit_name TimeUnit.hour = codes "hour"
unit_name TimeUnit.day = codes "day"
unit_name TimeUnit.month = codes "month"
unit_name TimeUnit.year = codes "year"

abbrev pub unit_seconds : TimeUnit → ℕ
unit_seconds TimeUnit.second = 1
unit_seconds TimeUnit.minute = 60
unit_seconds TimeUnit.hour = 60 * 60
unit_seconds TimeUnit.day = 24 * (60 * 60)
unit_seconds TimeUnit.month = 30 * (24 * (60 * 60))
unit_seconds TimeUnit.year = 365 * (24 * (60 * 60))

-- The text of a number of units.
abbrev pub told : ℕ → TimeUnit → Bytes
told v u = decimal v ++ codes " " ++ unit_name u ++ (if v == 1 then [] else codes "s")

-- A number that is at least one, and within half a unit of the span, in a unit of which the span has at
-- least three quarters.
pub record IsNearest (seconds v : ℕ) (u : TimeUnit) : Type 0 where
  pub positive : 1 ≤ v
  pub below : 2 * (v * unit_seconds u) ≤ 2 * seconds + unit_seconds u
  pub above : 2 * seconds ≤ 2 * (v * unit_seconds u) + unit_seconds u
  pub large : 3 * unit_seconds u ≤ 4 * seconds

abbrev by_steps : (a b c d e : Bool) → TimeUnit
by_steps true b c d e = TimeUnit.second
by_steps false true c d e = TimeUnit.minute
by_steps false false true d e = TimeUnit.hour
by_steps false false false true e = TimeUnit.day
by_steps false false false false true = TimeUnit.month
by_steps false false false false false = TimeUnit.year

abbrev unit_of : ℕ → TimeUnit
unit_of s =
    by_steps (ltb s 45) (ltb s 3600) (ltb s 86400) (ltb s (86400 * 30)) (ltb s (86400 * 365))

abbrev of_three : ℕ → ℕ → Bytes → Scale
of_three unit half name = record { unit = unit; half = half; name = name }

abbrev Named : Scale → TimeUnit → Type 0
Named s u = (s.name ≡ unit_name u) × (s.unit ≡ unit_seconds u)

scale_of-Named : (seconds : ℕ) → Named (scale_of seconds) (unit_of seconds)
unfolding scale_of
scale_of-Named s =
    by_tests (ltb s 45) (ltb s 3600) (ltb s 86400) (ltb s (86400 * 30)) (ltb s (86400 * 365))
  where
    by_tests :
        (a b c d e : Bool)
        → Named
            (if a
              then of_three 1 0 (codes "second")
              else if b
              then of_three 60 30 (codes "minute")
              else if c
              then of_three 3600 1800 (codes "hour")
              else if d
              then of_three 86400 43200 (codes "day")
              else if e
              then of_three 2592000 1296000 (codes "month")
              else of_three 31536000 15768000 (codes "year"))
            (by_steps a b c d e)
    by_tests true b c d e = (refl, refl)
    by_tests false true c d e = (refl, refl)
    by_tests false false true d e = (refl, refl)
    by_tests false false false true e = (refl, refl)
    by_tests false false false false true = (refl, refl)
    by_tests false false false false false = (refl, refl)

magnitude-near :
    (seconds : ℕ)
    → 1 ≤ seconds
    → let unit = (scale_of seconds).unit in
      let v = magnitude seconds in
      (1 ≤ v)
      × (2 * (v * unit) ≤ 2 * seconds + unit)
      × (2 * seconds ≤ 2 * (v * unit) + unit)
      × (3 * unit ≤ 4 * seconds)
unfolding magnitude scale_of
magnitude-near seconds h = ground arith

-- A positive span is told as a number and the name of a unit, seconds, minutes, hours, days, months of 30
-- days or years of 365: the number is one or more and within half a unit of the span, and the span has at
-- least three quarters of the unit.
pub relative_magnitude-IsNearest :
    (seconds : ℕ)
    → 1 ≤ seconds
    → (v : ℕ) × (u : TimeUnit) × (relative_magnitude seconds ≡ told v u) × IsNearest seconds v u
unfolding relative_magnitude
relative_magnitude-IsNearest seconds h =
    let v = magnitude seconds in
    let (name, unit) = scale_of-Named seconds in
    let near = magnitude-near seconds h in
    let near' =
      subst
        (λ n.
          (1 ≤ v)
          × (2 * (v * n) ≤ 2 * seconds + n)
          × (2 * seconds ≤ 2 * (v * n) + n)
          × (3 * n ≤ 4 * seconds))
        unit near in
    (
      v,
      unit_of seconds,
      ap (λ n. decimal v ++ codes " " ++ n ++ (if v == 1 then [] else codes "s")) name,
      record { positive = near'.0; below = near'.1; above = near'.2; large = near'.3 },
    )

-- A larger file is kept no longer, and none less than three or more than thirty days.
pub retention_mono :
    (small large : ℕ)
    → small ≤ large
    → (retention_days_for_size large ≤ retention_days_for_size small)
      × (3 ≤ retention_days_for_size large)
      × (retention_days_for_size small ≤ 30)
unfolding retention_days_for_size first_tier
retention_mono small large h = ground arith
