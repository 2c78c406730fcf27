-- ===== src/Text/Filename/Laws.antt =====
-- What a sanitised name is, by the tests of the code: every name that they let pass, and nothing else.
use zhuzhbox_cli.Base.{
  ℕ, zero, suc, ◌-◌, ◌≡◌, ◌≤◌, ◌<◌, Bool, true, false, not, ◌&&◌, ◌||◌, Option, none, some, [], ◌∷◌,
  ◌==◌, if◌then◌else◌, Bytes, codes, length, get_or, take, All, All-take, length-take, take_all,
  arith, Bool-cases, inl, inr, refl, if_holds, subst, ap, ◌∙◌,
}
use zhuzhbox_cli.Text.Filename.{
  sanitized_max, is_reserved_device_name, is_separator, leaf_from, is_dropped, drop_forbidden,
  cut_back, truncate, trimmed_len, is_dot_or_space, strip_end, leading_dots, name_or,
  sanitize_component, sanitize_filename, sanitize_dirname,
}

-- A byte that may stand in a name.
abbrev pub IsPlain : ℕ → Type 0
IsPlain c = (is_separator c ≡ false) × (is_dropped c ≡ false)

-- A name that the tests of the code let pass.
pub record IsKept (s : Bytes) : Type 0 where
  pub nonempty : 0 < length s
  pub short : length s ≤ sanitized_max
  pub plain : All IsPlain s
  pub ended : is_dot_or_space (get_or s (length s - 1) 0) ≡ false
  pub free : is_reserved_device_name s ≡ false

abbrev NoSeparator : ℕ → Type 0
NoSeparator c = is_separator c ≡ false

leaf_from-All :
    (base s : Bytes)
    → (All NoSeparator s → All NoSeparator base)
    → All NoSeparator (leaf_from base s)
unfolding leaf_from
leaf_from-All base [] h = h tt
leaf_from-All base (c ∷ cs) h = elim (Bool-cases (is_separator c)) [
  | inl sep ↦ rw sep (leaf_from-All cs cs (λ all. all))
  | inr char ↦ rw char (leaf_from-All base cs (λ all. h (char, all)))
]

leaf_from_same : (base s : Bytes) → All NoSeparator s → leaf_from base s ≡ base
unfolding leaf_from
leaf_from_same base [] h = refl
leaf_from_same base (c ∷ cs) h = rw h.0 (leaf_from_same base cs h.1)

drop_forbidden-All : (s : Bytes) → All NoSeparator s → All IsPlain (drop_forbidden s)
unfolding drop_forbidden
drop_forbidden-All [] h = tt
drop_forbidden-All (c ∷ cs) h = elim (Bool-cases (is_dropped c)) [
  | inl gone ↦ rw gone (drop_forbidden-All cs h.1)
  | inr there ↦ rw there ((h.0, there), drop_forbidden-All cs h.1)
]

drop_forbidden_same : (s : Bytes) → All IsPlain s → drop_forbidden s ≡ s
unfolding drop_forbidden
drop_forbidden_same [] h = refl
drop_forbidden_same (c ∷ cs) h = rw (h.0.1, drop_forbidden_same cs h.1)

cut_back-le : (s : Bytes) (cut : ℕ) → cut_back s cut ≤ cut
unfolding cut_back
cut_back-le s zero = omega arith
cut_back-le s (suc cut) = ground (arith, cut_back-le s cut)

truncate-short : (s : Bytes) → length (truncate s) ≤ sanitized_max
unfolding truncate
truncate-short s =
    ground (arith, length-take (cut_back s sanitized_max) s, cut_back-le s sanitized_max)

truncate-All : (s : Bytes) → All IsPlain s → All IsPlain (truncate s)
unfolding truncate
truncate-All s h = ground (arith, All-take IsPlain (cut_back s sanitized_max) s h)

truncate_same : (s : Bytes) → length s ≤ sanitized_max → truncate s ≡ s
unfolding truncate
truncate_same s h = ground arith

module _ (test : ℕ → Bool) (s : Bytes) where
  pub trimmed_len-le : (len : ℕ) → trimmed_len test s len ≤ len
  unfolding trimmed_len
  trimmed_len-le zero = omega arith
  trimmed_len-le (suc len) = ground (arith, trimmed_len-le len)

  -- Nothing is left, or the last byte that is left does not pass the test.
  pub trimmed_len-ended :
      (len : ℕ)
      → 0 < trimmed_len test s len
      → test (get_or s (trimmed_len test s len - 1) 0) ≡ false
  unfolding trimmed_len
  trimmed_len-ended zero = λ h. absurd (omega arith)
  trimmed_len-ended (suc len) =
      if_holds (λ n. 0 < n → test (get_or s (n - 1) 0) ≡ false) (test (get_or s len 0)) _ _
        (λ e. trimmed_len-ended len)
        (λ e h. subst (λ i. test (get_or s i 0) ≡ false) (omega arith) e)

  trimmed_len_same : (len : ℕ) → test (get_or s (len - 1) 0) ≡ false → trimmed_len test s len ≡ len
  unfolding trimmed_len
  trimmed_len_same zero h = refl
  trimmed_len_same (suc len) h =
      let last : test (get_or s len 0) ≡ false =
        subst (λ i. test (get_or s i 0) ≡ false) (omega arith) h in
      rw last refl

pub get_or-take : (n i : ℕ) (s : Bytes) → i < n → get_or (take n s) i 0 ≡ get_or s i 0
get_or-take zero i s h = absurd (omega arith)
get_or-take (suc n) i [] h = refl
get_or-take (suc n) zero (c ∷ s) h = refl
get_or-take (suc n) (suc i) (c ∷ s) h = get_or-take n i s (omega arith)

strip_end-length : (s : Bytes) → length (strip_end s) ≡ trimmed_len is_dot_or_space s (length s)
unfolding strip_end
strip_end-length s =
    let n = trimmed_len is_dot_or_space s (length s) in
    omega (arith, length-take n s, trimmed_len-le is_dot_or_space s (length s))

strip_end-ended :
    (s : Bytes)
    → 0 < length (strip_end s)
    → is_dot_or_space (get_or (strip_end s) (length (strip_end s) - 1) 0) ≡ false
unfolding strip_end
strip_end-ended s h =
    let n = trimmed_len is_dot_or_space s (length s) in
    let len : length (take n s) ≡ n = strip_end-length s in
    let last = trimmed_len-ended is_dot_or_space s (length s) (subst (λ k. 0 < k) len h) in
    let there = get_or-take n (n - 1) s (omega (arith, len, h)) in rw (len, there) last

strip_end_same : (s : Bytes) → is_dot_or_space (get_or s (length s - 1) 0) ≡ false → strip_end s ≡ s
unfolding strip_end
strip_end_same s h =
    rw (trimmed_len_same is_dot_or_space s (length s) h) (take_all (length s) s (omega arith))

-- A name with a last byte that is no dot is not made of dots.
leading_dots-le : (s : Bytes) → leading_dots s ≤ length s
unfolding leading_dots
leading_dots-le [] = omega arith
leading_dots-le (c ∷ cs) = ground (arith, leading_dots-le cs)

leading_dots-lt :
    (s : Bytes)
    → 0 < length s
    → is_dot_or_space (get_or s (length s - 1) 0) ≡ false
    → leading_dots s < length s
unfolding leading_dots
leading_dots-lt [] h last = absurd (omega arith)
leading_dots-lt (c ∷ []) h last = ground (arith, last)
leading_dots-lt (c ∷ d ∷ cs) h last =
    let n = length cs in
    let outer : suc (suc n) - 1 ≡ suc n = omega arith in
    let inner : n ≡ suc n - 1 = omega arith in
    let at_end = subst (λ i. is_dot_or_space (get_or (c ∷ d ∷ cs) i 0) ≡ false) outer last in
    let in_rest = subst (λ i. is_dot_or_space (get_or (d ∷ cs) i 0) ≡ false) inner at_end in
    let rest = leading_dots-lt (d ∷ cs) (omega arith) in_rest in ground (arith, rest)

-- What is left of a name before the tests for emptiness and for devices.
abbrev stripped_of : Bytes → Bytes
stripped_of name = strip_end (truncate (drop_forbidden (leaf_from name name)))

stripped_of-All : (name : Bytes) → All IsPlain (stripped_of name)
unfolding strip_end
stripped_of-All name =
    All-take IsPlain _ _
      (truncate-All _ (drop_forbidden-All _ (leaf_from-All name name (λ all. all))))

stripped_of-short : (name : Bytes) → length (stripped_of name) ≤ sanitized_max
stripped_of-short name =
    let cut = truncate (drop_forbidden (leaf_from name name)) in
    omega (
      arith,
      strip_end-length cut,
      trimmed_len-le is_dot_or_space cut (length cut),
      truncate-short (drop_forbidden (leaf_from name name)),
    )

IsKept-name :
    (s : Bytes) (all_dots : Bool)
    → All IsPlain s
    → length s ≤ sanitized_max
    → (0 < length s → is_dot_or_space (get_or s (length s - 1) 0) ≡ false)
    → (length (if all_dots then [] else s) == 0
        || is_reserved_device_name (if all_dots then [] else s))
      ≡ false
    → IsKept (if all_dots then [] else s)
IsKept-name s true plain short ended e = cc
IsKept-name s false plain short ended e =
    let nonempty : 0 < length s = ground (arith, e) in
    record {
      nonempty = nonempty;
      short = short;
      plain = plain;
      ended = ended nonempty;
      free = ground (arith, e);
    }

name_or-IsKept :
    (s fallback : Bytes)
    → All IsPlain s
    → length s ≤ sanitized_max
    → (0 < length s → is_dot_or_space (get_or s (length s - 1) 0) ≡ false)
    → IsKept fallback
    → IsKept (name_or s fallback)
unfolding name_or
name_or-IsKept s fallback plain short ended h =
    if_holds IsKept _ _ _ (λ e. h)
      (λ e. IsKept-name s (leading_dots s == length s) plain short ended e)

name_or_same :
    (s fallback : Bytes)
    → leading_dots s < length s
    → is_reserved_device_name s ≡ false
    → name_or s fallback ≡ s
unfolding name_or
name_or_same s fallback dots free =
    let some_name : (leading_dots s == length s) ≡ false = ground arith in
    let nonempty : (length s == 0) ≡ false = ground arith in rw (some_name, nonempty, free) refl

sanitize_component-IsKept :
    (name : Option Bytes) (fallback : Bytes)
    → IsKept fallback
    → IsKept (sanitize_component name fallback)
unfolding sanitize_component
sanitize_component-IsKept none fallback h = h
sanitize_component-IsKept (some name) fallback h =
    let cut = truncate (drop_forbidden (leaf_from name name)) in
    name_or-IsKept (stripped_of name) fallback (stripped_of-All name) (stripped_of-short name)
      (strip_end-ended cut) h

plain_All : (s : Bytes) → All IsPlain s → All NoSeparator s
plain_All [] h = tt
plain_All (c ∷ cs) h = (h.0.0, plain_All cs h.1)

-- A name that is safe stays as it is.
sanitize_component_same :
    (name fallback : Bytes) → IsKept name → sanitize_component (some name) fallback ≡ name
unfolding sanitize_component
sanitize_component_same name fallback h =
    let no_separator = plain_All name h.plain in
    let dots = leading_dots-lt name h.nonempty h.ended in
    let stripped : stripped_of name ≡ name =
      ap (λ s. strip_end (truncate (drop_forbidden s))) (leaf_from_same name name no_separator)
      ∙ ap (λ s. strip_end (truncate s)) (drop_forbidden_same name h.plain)
      ∙ ap strip_end (truncate_same name h.short)
      ∙ strip_end_same name h.ended in
    ap (λ s. name_or s fallback) stripped ∙ name_or_same name fallback dots h.free

unfoldable is_plain_text : Bytes → Bool
is_plain_text [] = true
is_plain_text (c ∷ cs) = not (is_separator c) && not (is_dropped c) && is_plain_text cs

is_plain_text-All : (s : Bytes) → is_plain_text s ≡ true → All IsPlain s
unfolding is_plain_text
is_plain_text-All [] h = tt
is_plain_text-All (c ∷ cs) h =
    ((ground (arith, h), ground (arith, h)), is_plain_text-All cs (ground (arith, h)))

download-IsKept : IsKept (codes "download")
unfolding is_reserved_device_name is_plain_text
download-IsKept = record {
  nonempty = omega arith;
  short = omega arith;
  plain = is_plain_text-All (codes "download") refl;
  ended = refl;
  free = refl;
}

collection-IsKept : IsKept (codes "collection")
unfolding is_reserved_device_name is_plain_text
collection-IsKept = record {
  nonempty = omega arith;
  short = omega arith;
  plain = is_plain_text-All (codes "collection") refl;
  ended = refl;
  free = refl;
}

pub sanitize-IsKept :
    (name : Option Bytes) (safe : Bytes)
    → IsKept safe
    → IsKept (sanitize_filename name)
      × IsKept (sanitize_dirname name)
      × (sanitize_filename (some safe) ≡ safe)
      × (sanitize_dirname (some safe) ≡ safe)
unfolding sanitize_filename sanitize_dirname
sanitize-IsKept name safe h = (
  sanitize_component-IsKept name (codes "download") download-IsKept,
  sanitize_component-IsKept name (codes "collection") collection-IsKept,
  sanitize_component_same safe (codes "download") h,
  sanitize_component_same safe (codes "collection") h,
)
