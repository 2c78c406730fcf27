-- ===== src/Text/Filename.antt =====
-- src/util/str.c: the name of a file or a folder, made safe for any system. The buffer grows, and the
-- copies of the results succeed.
pub mod Laws
pub mod Safe
use Prim.Native.Nat.{bit_and}
use zhuzhbox_cli.Base.{
  ℕ, zero, suc, ◌+◌, ◌-◌, ◌*◌, Bool, true, false, not, ◌&&◌, ◌||◌, Option, none, some, List, [],
  ◌∷◌, ltb, ◌==◌, if◌then◌else◌, Bytes, codes, length, get_or, take,
}
use zhuzhbox_cli.Text.Utf8.{ascii_lower}

abbrev pub sanitized_max : ℕ
sanitized_max = 200

abbrev pub reserved_names : List Bytes
reserved_names =
    codes "CON"
    ∷ codes "PRN"
    ∷ codes "AUX"
    ∷ codes "NUL"
    ∷ codes "COM1"
    ∷ codes "COM2"
    ∷ codes "COM3"
    ∷ codes "COM4"
    ∷ codes "COM5"
    ∷ codes "COM6"
    ∷ codes "COM7"
    ∷ codes "COM8"
    ∷ codes "COM9"
    ∷ codes "LPT1"
    ∷ codes "LPT2"
    ∷ codes "LPT3"
    ∷ codes "LPT4"
    ∷ codes "LPT5"
    ∷ codes "LPT6"
    ∷ codes "LPT7"
    ∷ codes "LPT8"
    ∷ codes "LPT9"
    ∷ []

-- The name up to its first dot.
unfoldable pub before_dot : Bytes → Bytes
before_dot [] = []
before_dot (c ∷ cs) = let rest = before_dot cs in if c == 46 then [] else c ∷ rest

-- The comparison of two names of the same length, without case.
unfoldable pub same_letters : Bytes → Bytes → Bool
same_letters [] reserved = true
same_letters (c ∷ cs) [] = false
same_letters (c ∷ cs) (r ∷ rs) =
    let rest = same_letters cs rs in if not (ascii_lower c == ascii_lower r) then false else rest

unfoldable pub is_one_of : Bytes → List Bytes → Bool
unfolding same_letters
is_one_of base [] = false
is_one_of base (r ∷ rs) =
    let rest = is_one_of base rs in
    if not (length r == length base) then rest else if same_letters base r then true else rest

unfoldable pub is_reserved_device_name : Bytes → Bool
unfolding before_dot is_one_of
is_reserved_device_name name = is_one_of (before_dot name) reserved_names

abbrev pub is_separator : ℕ → Bool
is_separator c = c == 47 || c == 92 || c == 58

-- What follows the last separator, at `base` if there is none in what is left.
unfoldable pub leaf_from : Bytes → Bytes → Bytes
leaf_from base [] = base
leaf_from base (c ∷ cs) = leaf_from (if is_separator c then cs else base) cs

abbrev pub is_dropped : ℕ → Bool
is_dropped c =
    ltb c 32 || c == 127 || (c == 60 || c == 62 || c == 34 || c == 124 || c == 63 || c == 42)

unfoldable pub drop_forbidden : Bytes → Bytes
drop_forbidden [] = []
drop_forbidden (c ∷ cs) = let rest = drop_forbidden cs in if is_dropped c then rest else c ∷ rest

-- The cut of a long name, moved back from `cut` to the start of a sequence.
unfoldable pub cut_back : Bytes → ℕ → ℕ
cut_back s zero = 0
cut_back s (suc cut) =
    let back = cut_back s cut in if bit_and (get_or s (suc cut) 0) 192 == 128 then back else suc cut

unfoldable pub truncate : Bytes → Bytes
unfolding cut_back
truncate s = if ltb sanitized_max (length s) then take (cut_back s sanitized_max) s else s

-- The length that is left when the bytes at the end that pass the test are gone.
unfoldable pub trimmed_len : (ℕ → Bool) → Bytes → ℕ → ℕ
trimmed_len test s zero = 0
trimmed_len test s (suc len) =
    let less = trimmed_len test s len in if test (get_or s len 0) then less else suc len

abbrev pub is_dot_or_space : ℕ → Bool
is_dot_or_space c = c == 46 || c == 32

unfoldable pub strip_end : Bytes → Bytes
unfolding trimmed_len
strip_end s = take (trimmed_len is_dot_or_space s (length s)) s

unfoldable pub leading_dots : Bytes → ℕ
leading_dots [] = 0
leading_dots (c ∷ cs) = let rest = leading_dots cs in if c == 46 then rest + 1 else 0

-- What is left of a name, or the fallback in place of a name that is not to be used.
unfoldable pub name_or : Bytes → Bytes → Bytes
name_or stripped fallback =
    let out = if leading_dots stripped == length stripped then [] else stripped in
    if length out == 0 || is_reserved_device_name out then fallback else out

unfoldable pub sanitize_component : Option Bytes → Bytes → Bytes
sanitize_component none fallback = fallback
sanitize_component (some name) fallback =
    name_or (strip_end (truncate (drop_forbidden (leaf_from name name)))) fallback

unfoldable pub sanitize_filename : Option Bytes → Bytes
unfolding sanitize_component
sanitize_filename name = sanitize_component name (codes "download")

unfoldable pub sanitize_dirname : Option Bytes → Bytes
unfolding sanitize_component
sanitize_dirname name = sanitize_component name (codes "collection")
