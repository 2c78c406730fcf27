-- ===== src/Text/Filename/Safe.antt =====
-- A sanitised name is safe on Windows and elsewhere, by a description of its own.
use zhuzhbox_cli.Base.{
  ℕ, ◌-◌, ◌≡◌, ◌≤◌, ◌<◌, Bool, false, not, ◌||◌, Option, some, List, [], ◌∷◌, ltb, ◌==◌,
  if◌then◌else◌, Bytes, codes, length, get_or, All, is_in, str_eq, arith, refl, ap, ◌∙◌, sym,
}
use zhuzhbox_cli.Text.Utf8.{ascii_lower}
use zhuzhbox_cli.Text.Filename.{
  reserved_names, before_dot, same_letters, is_one_of, is_reserved_device_name, is_separator,
  is_dropped, is_dot_or_space, sanitize_filename, sanitize_dirname,
}
use zhuzhbox_cli.Text.Filename.Laws.{IsPlain, IsKept, sanitize-IsKept}

-- A control byte, or one of the characters that a path or Windows takes for its own.
abbrev pub is_forbidden : ℕ → Bool
is_forbidden c = ltb c 32 || c == 127 || is_in c (codes "/\\:<>\"|?*")

-- The names of the devices of DOS, in small letters.
abbrev pub devices : List Bytes
devices =
    codes "con"
    ∷ codes "prn"
    ∷ codes "aux"
    ∷ codes "nul"
    ∷ codes "com1"
    ∷ codes "com2"
    ∷ codes "com3"
    ∷ codes "com4"
    ∷ codes "com5"
    ∷ codes "com6"
    ∷ codes "com7"
    ∷ codes "com8"
    ∷ codes "com9"
    ∷ codes "lpt1"
    ∷ codes "lpt2"
    ∷ codes "lpt3"
    ∷ codes "lpt4"
    ∷ codes "lpt5"
    ∷ codes "lpt6"
    ∷ codes "lpt7"
    ∷ codes "lpt8"
    ∷ codes "lpt9"
    ∷ []

-- A name without what follows its first dot, in small letters.
abbrev pub stem : Bytes → Bytes
stem [] = []
stem (c ∷ cs) = if c == 46 then [] else ascii_lower c ∷ stem cs

abbrev pub is_listed : Bytes → List Bytes → Bool
is_listed name [] = false
is_listed name (d ∷ ds) = str_eq name d || is_listed name ds

-- `nul`, `NUL.txt` and `Com1.tar.gz` are all names of devices.
abbrev pub is_device : Bytes → Bool
is_device name = is_listed (stem name) devices

-- A name that is safe: not empty, of at most 200 bytes, without separators, control bytes and the characters
-- that Windows forbids, with no dot or space at its end, and no name of a device.
pub record IsSafe (s : Bytes) : Type 0 where
  pub nonempty : 0 < length s
  pub short : length s ≤ 200
  pub plain : All (λ c. is_forbidden c ≡ false) s
  pub ended : is_in (get_or s (length s - 1) 0) (codes ". ") ≡ false
  pub free : is_device s ≡ false

is_forbidden_parts : (c : ℕ) → is_forbidden c ≡ (is_separator c || is_dropped c)
is_forbidden_parts c = ground arith

plain_there : (s : Bytes) → All IsPlain s → All (λ c. is_forbidden c ≡ false) s
plain_there [] h = tt
plain_there (c ∷ cs) h = (is_forbidden_parts c ∙ ground (arith, h.0.0, h.0.1), plain_there cs h.1)

IsPlain-back : (s : Bytes) → All (λ c. is_forbidden c ≡ false) s → All IsPlain s
IsPlain-back [] h = tt
IsPlain-back (c ∷ cs) h =
    let parts = is_forbidden_parts c in
    ((ground (arith, parts, h.0), ground (arith, parts, h.0)), IsPlain-back cs h.1)

abbrev lower : Bytes → Bytes
lower [] = []
lower (c ∷ cs) = ascii_lower c ∷ lower cs

abbrev lower_all : List Bytes → List Bytes
lower_all [] = []
lower_all (r ∷ rs) = lower r ∷ lower_all rs

stem-before_dot : (s : Bytes) → lower (before_dot s) ≡ stem s
unfolding before_dot
stem-before_dot [] = refl
stem-before_dot (c ∷ cs) = ground (arith, stem-before_dot cs)

same_letters-str_eq :
    (base r : Bytes)
    → (if not (length r == length base) then false else same_letters base r)
      ≡ str_eq (lower base) (lower r)
unfolding same_letters str_eq
same_letters-str_eq [] [] = refl
same_letters-str_eq [] (r ∷ rs) = ground arith
same_letters-str_eq (c ∷ cs) [] = ground arith
same_letters-str_eq (c ∷ cs) (r ∷ rs) = ground (arith, same_letters-str_eq cs rs)

is_one_of-is_listed :
    (base : Bytes) (rs : List Bytes) → is_one_of base rs ≡ is_listed (lower base) (lower_all rs)
unfolding is_one_of
is_one_of-is_listed base [] = refl
is_one_of-is_listed base (r ∷ rs) =
    ground (arith, same_letters-str_eq base r, is_one_of-is_listed base rs)

lower_names : lower_all reserved_names ≡ devices
unfolding ascii_lower
lower_names = refl

is_reserved-is_device : (s : Bytes) → is_reserved_device_name s ≡ is_device s
unfolding is_reserved_device_name
is_reserved-is_device s =
    is_one_of-is_listed (before_dot s) reserved_names
    ∙ ap (is_listed (lower (before_dot s))) lower_names
    ∙ ap (λ name. is_listed name devices) (stem-before_dot s)

is_in-is_dot_or_space : (c : ℕ) → is_in c (codes ". ") ≡ is_dot_or_space c
is_in-is_dot_or_space c = ground arith

IsSafe-IsKept : (s : Bytes) → IsSafe s → IsKept s
IsSafe-IsKept s h = record {
  nonempty = h.nonempty;
  short = h.short;
  plain = IsPlain-back s h.plain;
  ended = sym (is_in-is_dot_or_space (get_or s (length s - 1) 0)) ∙ h.ended;
  free = is_reserved-is_device s ∙ h.free;
}

IsKept-IsSafe : (s : Bytes) → IsKept s → IsSafe s
IsKept-IsSafe s h = record {
  nonempty = h.nonempty;
  short = h.short;
  plain = plain_there s h.plain;
  ended = is_in-is_dot_or_space (get_or s (length s - 1) 0) ∙ h.ended;
  free = sym (is_reserved-is_device s) ∙ h.free;
}

-- Whatever the server calls a file or a folder, the name that is used for it is safe: not empty, at most
-- 200 bytes, without separators, control bytes and forbidden characters, with no dot or space at its end,
-- and no name of a device; and a name that is safe already is used as it is.
pub sanitize-IsSafe :
    (name : Option Bytes) (safe : Bytes)
    → IsSafe safe
    → IsSafe (sanitize_filename name)
      × IsSafe (sanitize_dirname name)
      × (sanitize_filename (some safe) ≡ safe)
      × (sanitize_dirname (some safe) ≡ safe)
sanitize-IsSafe name safe h =
    let kept = sanitize-IsKept name safe (IsSafe-IsKept safe h) in
    (
      IsKept-IsSafe (sanitize_filename name) kept.0,
      IsKept-IsSafe (sanitize_dirname name) kept.1,
      kept.2,
      kept.3,
    )
