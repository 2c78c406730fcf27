-- ===== src/Format/Time.antt =====
-- src/format/time.c: the API's timestamps as text, and how they are told. A string is its bytes, and what
-- is read at its end is the NUL. The buffers are long enough for what is printed.
pub mod Iso
use zhuzhbox_cli.Base.{
  ℕ, zero, suc, ◌+◌, ◌-◌, ◌*◌, ◌/◌, ◌%◌, ◌^◌, Bool, true, false, not, ◌&&◌, ◌||◌, Option, none,
  some, List, [], ◌∷◌, ◌++◌, leb, ltb, ◌==◌, within, if◌then◌else◌, Bytes, codes, length, get_or,
  drop, str_eq,
}
use zhuzhbox_cli.Base.Int.{ℤ, pos, negsuc, ◌-ℤ◌, ltb_ℤ, pos_part}
use zhuzhbox_cli.Format.Calendar.{Moment, timegm_utc, gmtime_utc}

abbrev pub is_digit : ℕ → Bool
is_digit c = within 48 57 c

-- The digits at `i`, as `digits2` and `digits4` read them.
unfoldable pub digits : Bytes → (count i v : ℕ) → Option ℕ
digits s zero i v = some v
digits s (suc count) i v =
    let c = get_or s i 0 in
    let rest = digits s count (i + 1) (v * 10 + (c - 48)) in if is_digit c then rest else none

unfoldable pub skip_digits : Bytes → Bytes
skip_digits [] = []
skip_digits (c ∷ cs) = let rest = skip_digits cs in if is_digit c then rest else c ∷ cs

abbrev skip_fraction : Bytes → Bytes
skip_fraction [] = []
skip_fraction (c ∷ cs) = if c == 46 then skip_digits cs else c ∷ cs

-- What follows the seconds: a fraction, and then at most a sign of UTC.
unfoldable pub is_tail : Bytes → Bool
unfolding skip_digits
is_tail s = elim (skip_fraction s) [
  | [] ↦ true
  | c ∷ cs ↦
      (if c == 90 || c == 122
        then elim cs [ [] ↦ true | d ∷ ds ↦ false ]
        else str_eq (c ∷ cs) (codes "+00:00") || str_eq (c ∷ cs) (codes "+0000"))
]

abbrev in_range : (mon mday hour min sec : ℕ) → Bool
in_range mon mday hour min sec =
    leb 1 mon && leb mon 12 && leb 1 mday && leb mday 31 && leb hour 23 && leb min 59 && leb sec 60

infixl 5 ◌>>=◌
abbrev ◌>>=◌ : {A B : Type 0} → Option A → (A → Option B) → Option B
none >>= f = none
some a >>= f = f a

abbrev pub is_at : Bytes → ℕ → ℕ → Bool
is_at s i c = get_or s i 0 == c

-- The separators of the date and the time.
abbrev pub is_spelled : Bytes → Bool
is_spelled s =
    is_at s 4 45
    && is_at s 7 45
    && (is_at s 10 84 || is_at s 10 116 || is_at s 10 32)
    && is_at s 13 58
    && is_at s 16 58

unfoldable pub moment_at : Bytes → Option Moment
unfolding digits
moment_at s = do
  year ← digits s 4 0 0
  mon ← digits s 2 5 0
  mday ← digits s 2 8 0
  hour ← digits s 2 11 0
  min ← digits s 2 14 0
  sec ← digits s 2 17 0
  some (record { year = pos year; mon = mon; mday = mday; hour = hour; min = min; sec = sec })

unfoldable pub checked : Bytes → Moment → Option ℤ
unfolding is_tail
checked s t =
    if in_range t.mon t.mday t.hour t.min t.sec && is_tail (drop 19 s)
    then some (timegm_utc t.year t.mon t.mday t.hour t.min t.sec)
    else none

unfoldable pub parse_iso8601 : Option Bytes → Option ℤ
unfolding moment_at checked
parse_iso8601 none = none
parse_iso8601 (some s) =
    if ltb (length s) 19 || not (is_spelled s) then none else moment_at s >>= λ t. checked s t

-- The last `width` digits of a number.
abbrev pub last_digits : ℕ → ℕ → Bytes
last_digits zero n = []
last_digits (suc width) n = (48 + n / 10 ^ width % 10) ∷ last_digits width n

-- The digits that a number has, of 20 at most.
unfoldable pub digit_count : ℕ → ℕ → ℕ
digit_count zero n = 1
digit_count (suc more) n = let rest = digit_count more (n / 10) in if ltb n 10 then 1 else rest + 1

-- `%02d` and `%04d`; the sign counts to the width.
unfoldable pub padded : ℕ → ℤ → Bytes
unfolding digit_count
padded width (pos n) =
    let count = digit_count 20 n in last_digits (if ltb count width then width else count) n
padded width (negsuc n) =
    let count = digit_count 20 (n + 1) in
    45 ∷ last_digits (if ltb count (width - 1) then width - 1 else count) (n + 1)

abbrev pub two : ℕ → Bytes
two n = padded 2 (pos n)

unfoldable pub format_iso8601 : ℤ → Bytes
unfolding padded
format_iso8601 epoch =
    let t = gmtime_utc epoch in
    padded 4 t.year
    ++ codes "-"
    ++ two t.mon
    ++ codes "-"
    ++ two t.mday
    ++ codes "T"
    ++ two t.hour
    ++ codes ":"
    ++ two t.min
    ++ codes ":"
    ++ two t.sec
    ++ codes "Z"

unfoldable pub format_stamp : ℤ → Bytes
unfolding padded
format_stamp epoch =
    let t = gmtime_utc epoch in
    padded 4 t.year
    ++ codes "-"
    ++ two t.mon
    ++ codes "-"
    ++ two t.mday
    ++ codes " "
    ++ two t.hour
    ++ codes ":"
    ++ two t.min
    ++ codes " UTC"

unfoldable pub time_until : ℤ → ℤ → ℤ
time_until epoch now = let d = epoch -ℤ now in if ltb_ℤ (pos 0) d then d else pos 0
