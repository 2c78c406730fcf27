-- ===== src/Base/Keyed/Laws.antt =====
-- The laws of keyed arrays, for reads after a replacement, a removal or an append.
use zhuzhbox_cli.Base.{
  ◌≡◌, ◌≢◌, inl, inr, refl, sym, ap, subst, ◌∙◌, true, false, Option, none, some, List, [], ◌∷◌,
  ◌++◌, arith, if◌then◌else◌, Bool-cases, Bytes, str_eq, str_eq_iff, str_eq_self, All-append,
}
use zhuzhbox_cli.Base.Keyed.{is_key, find_key, replace_key, remove_key, Lacks, Apart, Distinct}

pub is_key-eq : (k : Option Bytes) (key : Bytes) → is_key k key ≡ true → k ≡ some key
is_key-eq none key h = cc
is_key-eq (some k) key h = ap some ((str_eq_iff k key).0 h)

-- Two keys at one record.
is_key_unique :
    (k : Option Bytes) (key other : Bytes) → is_key k key ≡ true → is_key k other ≡ str_eq key other
is_key_unique k key other h = rw (is_key-eq k key h)

pub str_eq_sym : (a b : Bytes) → str_eq a b ≡ str_eq b a
unfolding str_eq
str_eq_sym [] [] = refl
str_eq_sym [] (y ∷ b) = refl
str_eq_sym (x ∷ a) [] = refl
str_eq_sym (x ∷ a) (y ∷ b) = ground (arith, str_eq_sym a b)

module _ {ℓ} {A : Type ℓ} (key_of : A → Option Bytes) where
  pub find_key-none :
      (key : Bytes) (xs : List A) → find_key key_of key xs ≡ none → Lacks key_of key xs
  unfolding find_key
  find_key-none key [] h = tt
  find_key-none key (x ∷ xs) h = elim (Bool-cases (is_key (key_of x) key)) [
    | inl here ↦ cc (rw here at h)
    | inr there ↦ (there, find_key-none key xs (rw there at h))
  ]

  pub find_key_lacking :
      (key : Bytes) (xs : List A) → Lacks key_of key xs → find_key key_of key xs ≡ none
  unfolding find_key
  find_key_lacking key [] h = refl
  find_key_lacking key (x ∷ xs) h = rw (h.0) (find_key_lacking key xs h.1)

  pub find_key-gone :
      (key other : Bytes) (xs : List A)
      → Lacks key_of key xs
      → find_key key_of other xs ≡ (if str_eq key other then none else find_key key_of other xs)
  find_key-gone key other xs h = elim (Bool-cases (str_eq key other)) [
    | inl e ↦ rw e (
        subst (λ k. find_key key_of k xs ≡ none) ((str_eq_iff key other).0 e)
          (find_key_lacking key xs h))
    | inr e ↦ rw e
  ]

  -- What is found has the key.
  pub find_key-is_key :
      (key : Bytes) (xs : List A) {x : A} → find_key key_of key xs ≡ some x → key_of x ≡ some key
  unfolding find_key
  find_key-is_key key [] h = cc
  find_key-is_key key (y ∷ ys) {x} h = elim (Bool-cases (is_key (key_of y) key)) [
    | inl here ↦
        let e : y ≡ x = cc (rw here at h) in
        subst (λ z. key_of z ≡ some key) e (is_key-eq (key_of y) key here)
    | inr there ↦ find_key-is_key key ys (rw there at h)
  ]

  -- A read after a replacement: the new record at its key, and every other key as before.
  pub find_key-replace_key :
      (key other : Bytes) (new : A) (xs : List A)
      → key_of new ≡ some key
      → find_key key_of key xs ≢ none
      → find_key key_of other (replace_key key_of key new xs)
        ≡ (if str_eq key other then some new else find_key key_of other xs)
  unfolding find_key replace_key
  find_key-replace_key key other new [] e h = absurd (h refl)
  find_key-replace_key key other new (x ∷ xs) e h = elim (Bool-cases (is_key (key_of x) key)) [
    | inl here ↦ ground (
      arith,
      is_key_unique (key_of x) key other here,
      is_key_unique (key_of new) key other (rw e (str_eq_self key)),
    )
    | inr there ↦ ground (
      arith,
      find_key-replace_key key other new xs e,
      is_key_unique (key_of x) other key,
      str_eq_sym key other,
    )
  ]

  -- A read after an append.
  pub find_key-append :
      (other : Bytes) (xs ys : List A)
      → find_key key_of other xs ≡ none
      → find_key key_of other (xs ++ ys) ≡ find_key key_of other ys
  unfolding find_key
  find_key-append other [] ys h = refl
  find_key-append other (x ∷ xs) ys h = ground (arith, find_key-append other xs ys)

  pub find_key-append_found :
      (other : Bytes) (xs ys : List A) {x : A}
      → find_key key_of other xs ≡ some x
      → find_key key_of other (xs ++ ys) ≡ some x
  unfolding find_key
  find_key-append_found other [] ys h = cc
  find_key-append_found other (x ∷ xs) ys {x = found} h =
      ground (arith, find_key-append_found other xs ys {x = found})

  -- A read after a removal, where no two records have the same key.
  pub find_key-remove_key :
      (key other : Bytes) (xs : List A)
      → Distinct key_of xs
      → find_key key_of other (remove_key key_of key xs)
        ≡ (if str_eq key other then none else find_key key_of other xs)
  unfolding find_key remove_key
  find_key-remove_key key other [] d = ground arith
  find_key-remove_key key other (x ∷ xs) d = elim (Bool-cases (is_key (key_of x) key)) [
    | inl here ↦
        let lacks : Lacks key_of key xs =
          subst (λ k. Apart key_of k xs) (is_key-eq (key_of x) key here) d.1 in
        ground (arith, is_key_unique (key_of x) key other here, find_key-gone key other xs lacks)
    | inr there ↦ ground (
      arith,
      find_key-remove_key key other xs d.2,
      is_key_unique (key_of x) other key,
      str_eq_sym key other,
    )
  ]

  -- Replacing and removing keep the records apart.
  Lacks-replace_key :
      (key other : Bytes) (new : A) (xs : List A)
      → is_key (key_of new) other ≡ false
      → Lacks key_of other xs
      → Lacks key_of other (replace_key key_of key new xs)
  unfolding replace_key
  Lacks-replace_key key other new [] e h = tt
  Lacks-replace_key key other new (x ∷ xs) e h = elim (Bool-cases (is_key (key_of x) key)) [
    | inl here ↦ rw here (e, h.1)
    | inr there ↦ rw there (h.0, Lacks-replace_key key other new xs e h.1)
  ]

  Lacks-remove_key :
      (key other : Bytes) (xs : List A)
      → Lacks key_of other xs
      → Lacks key_of other (remove_key key_of key xs)
  unfolding remove_key
  Lacks-remove_key key other [] h = tt
  Lacks-remove_key key other (x ∷ xs) h = elim (Bool-cases (is_key (key_of x) key)) [
    | inl here ↦ rw here h.1
    | inr there ↦ rw there (h.0, Lacks-remove_key key other xs h.1)
  ]

  Apart-remove_key :
      (key : Bytes) (k : Option Bytes) (xs : List A)
      → Apart key_of k xs
      → Apart key_of k (remove_key key_of key xs)
  Apart-remove_key key none xs h = tt
  Apart-remove_key key (some k) xs h = Lacks-remove_key key k xs h

  pub Distinct-remove_key :
      (key : Bytes) (xs : List A) → Distinct key_of xs → Distinct key_of (remove_key key_of key xs)
  unfolding remove_key
  Distinct-remove_key key [] d = tt
  Distinct-remove_key key (x ∷ xs) d = elim (Bool-cases (is_key (key_of x) key)) [
    | inl here ↦ rw here d.2
    | inr there ↦
        rw there (d.0, Apart-remove_key key (key_of x) xs d.1, Distinct-remove_key key xs d.2)
  ]

  Apart-replace_key :
      (key : Bytes) (k : Option Bytes) (new : A) (xs : List A)
      → key_of new ≡ some key
      → is_key k key ≡ false
      → Apart key_of k xs
      → Apart key_of k (replace_key key_of key new xs)
  Apart-replace_key key none new xs e h a = tt
  Apart-replace_key key (some k) new xs e h a =
      Lacks-replace_key key k new xs (rw e (str_eq_sym key k ∙ h)) a

  pub Distinct-replace_key :
      (key : Bytes) (new : A) (xs : List A)
      → key_of new ≡ some key
      → Distinct key_of xs
      → Distinct key_of (replace_key key_of key new xs)
  unfolding replace_key
  Distinct-replace_key key new [] e d = tt
  Distinct-replace_key key new (x ∷ xs) e d = elim (Bool-cases (is_key (key_of x) key)) [
    | inl here ↦
        let same : key_of x ≡ key_of new = is_key-eq (key_of x) key here ∙ sym e in
        rw here (subst (λ k. (k ≢ none) × Apart key_of k xs × Distinct key_of xs) same d)
    | inr there ↦ rw there (
      d.0,
      Apart-replace_key key (key_of x) new xs e there d.1,
      Distinct-replace_key key new xs e d.2,
    )
  ]

  Apart-snoc :
      (k : Option Bytes) (key : Bytes) (new : A) (xs : List A)
      → key_of new ≡ some key
      → is_key k key ≡ false
      → Apart key_of k xs
      → Apart key_of k (xs ++ new ∷ [])
  Apart-snoc none key new xs e h a = tt
  Apart-snoc (some k) key new xs e h a =
      All-append (λ x. is_key (key_of x) k ≡ false) xs (new ∷ []) a
        (rw e (str_eq_sym key k ∙ h), tt)

  pub Distinct-snoc :
      (key : Bytes) (new : A) (xs : List A)
      → key_of new ≡ some key
      → Lacks key_of key xs
      → Distinct key_of xs
      → Distinct key_of (xs ++ new ∷ [])
  Distinct-snoc key new [] e l d = (rw e (cc), rw e tt, tt)
  Distinct-snoc key new (x ∷ xs) e l d =
      (d.0, Apart-snoc (key_of x) key new xs e l.0 d.1, Distinct-snoc key new xs e l.1 d.2)

  -- A read after a record with a new key is put at the end.
  pub find_key-snoc :
      (key other : Bytes) (new : A) (xs : List A)
      → key_of new ≡ some key
      → find_key key_of key xs ≡ none
      → find_key key_of other (xs ++ new ∷ [])
        ≡ (if str_eq key other then some new else find_key key_of other xs)
  unfolding find_key
  find_key-snoc key other new [] e h = rw e refl
  find_key-snoc key other new (x ∷ xs) e h = ground (
    arith,
    find_key-snoc key other new xs e,
    is_key_unique (key_of x) other key,
    str_eq_sym key other,
  )
