-- ===== src/Store/Shelf/Sort/Laws.antt =====
-- The comparators of the uploads list are total orders, as `qsort` needs them to be.
use zhuzhbox_cli.Base.{ℕ, ◌≡◌, Option, none, some, [], ◌∷◌, ltb, ◌==◌, Bytes, arith, refl, sym}
use zhuzhbox_cli.Base.Int.{ℤ, pos, negsuc, ltb_ℤ, eqb_ℤ}
use zhuzhbox_cli.Store.Shelf.{Entry}
use zhuzhbox_cli.Store.Shelf.Sort.{
  Sign, below, equal, above, SortKey, or_else, three_way, strcmp, or_empty, entry_epoch, cmp_token,
  cmp_newest, cmp_name, cmp_size, cmp_expires, cmp_of,
}

abbrev pub opposite : Sign → Sign
opposite below = above
opposite equal = equal
opposite above = below

-- What the signs of a against b and of b against c say of a against c.
abbrev pub chain : Sign → Sign → Option Sign
chain equal s = some s
chain s equal = some s
chain below below = some below
chain above above = some above
chain _ _ = none

abbrev pub Chains : Sign → Sign → Sign → Type 0
Chains x y z = (s : Sign) → chain x y ≡ some s → z ≡ s

opposite-or_else : (r s : Sign) → opposite (or_else r s) ≡ or_else (opposite r) (opposite s)
opposite-or_else below s = refl
opposite-or_else equal s = refl
opposite-or_else above s = refl

or_else-equal : (r s : Sign) → or_else r s ≡ equal → (r ≡ equal) × (s ≡ equal)
or_else-equal equal s e = (refl, e)
or_else-equal below s e = grind (arith, e)
or_else-equal above s e = grind (arith, e)

chain_to_below : (r s : Sign) → chain r below ≡ some s → s ≡ below
chain_to_below below s e = grind (arith, e)
chain_to_below equal s e = grind (arith, e)
chain_to_below above s e = grind (arith, e)

chain_to_above : (r s : Sign) → chain r above ≡ some s → s ≡ above
chain_to_above below s e = grind (arith, e)
chain_to_above equal s e = grind (arith, e)
chain_to_above above s e = grind (arith, e)

chain_from_below : (r s : Sign) → chain below r ≡ some s → s ≡ below
chain_from_below below s e = grind (arith, e)
chain_from_below equal s e = grind (arith, e)
chain_from_below above s e = grind (arith, e)

chain_from_above : (r s : Sign) → chain above r ≡ some s → s ≡ above
chain_from_above below s e = grind (arith, e)
chain_from_above equal s e = grind (arith, e)
chain_from_above above s e = grind (arith, e)

or_else-Chains :
    (x y z x2 y2 z2 : Sign)
    → Chains x y z
    → Chains x2 y2 z2
    → Chains (or_else x x2) (or_else y y2) (or_else z z2)
or_else-Chains equal equal z x2 y2 z2 h h2 s e = rw (h equal refl) (h2 s e)
or_else-Chains equal below z x2 y2 z2 h h2 s e = rw (h below refl) (sym (chain_to_below x2 s e))
or_else-Chains equal above z x2 y2 z2 h h2 s e = rw (h above refl) (sym (chain_to_above x2 s e))
or_else-Chains below equal z x2 y2 z2 h h2 s e = rw (h below refl) (sym (chain_from_below y2 s e))
or_else-Chains above equal z x2 y2 z2 h h2 s e = rw (h above refl) (sym (chain_from_above y2 s e))
or_else-Chains below below z x2 y2 z2 h h2 s e = rw (h below refl) (grind (arith, e))
or_else-Chains above above z x2 y2 z2 h h2 s e = rw (h above refl) (grind (arith, e))
or_else-Chains below above z x2 y2 z2 h h2 s e = grind (arith, e)
or_else-Chains above below z x2 y2 z2 h h2 s e = grind (arith, e)

number-flips : (a b : ℕ) → three_way (b == a) (ltb b a) ≡ opposite (three_way (a == b) (ltb a b))
number-flips a b = ground arith

number-Chains :
    (a b c : ℕ)
    → Chains
        (three_way (a == b) (ltb a b))
        (three_way (b == c) (ltb b c))
        (three_way (a == c) (ltb a c))
number-Chains a b c s e = ground (arith, e)

time-flips :
    (a b : ℤ) → three_way (eqb_ℤ b a) (ltb_ℤ b a) ≡ opposite (three_way (eqb_ℤ a b) (ltb_ℤ a b))
time-flips (pos a) (pos b) = ground arith
time-flips (pos a) (negsuc b) = ground arith
time-flips (negsuc a) (pos b) = ground arith
time-flips (negsuc a) (negsuc b) = ground arith

time-Chains :
    (a b c : ℤ)
    → Chains
        (three_way (eqb_ℤ a b) (ltb_ℤ a b))
        (three_way (eqb_ℤ b c) (ltb_ℤ b c))
        (three_way (eqb_ℤ a c) (ltb_ℤ a c))
time-Chains a b c s e = ground (arith, e)

-- The later time first.
later-flips :
    (a b : ℤ) → three_way (eqb_ℤ b a) (ltb_ℤ a b) ≡ opposite (three_way (eqb_ℤ a b) (ltb_ℤ b a))
later-flips (pos a) (pos b) = ground arith
later-flips (pos a) (negsuc b) = ground arith
later-flips (negsuc a) (pos b) = ground arith
later-flips (negsuc a) (negsuc b) = ground arith

larger-flips : (a b : ℕ) → three_way (b == a) (ltb a b) ≡ opposite (three_way (a == b) (ltb b a))
larger-flips a b = ground arith

larger-Chains :
    (a b c : ℕ)
    → Chains
        (three_way (a == b) (ltb b a))
        (three_way (b == c) (ltb c b))
        (three_way (a == c) (ltb c a))
larger-Chains a b c s e = ground (arith, e)

strcmp-flips : (a b : Bytes) → strcmp b a ≡ opposite (strcmp a b)
unfolding strcmp
strcmp-flips [] [] = refl
strcmp-flips [] (b ∷ bs) = refl
strcmp-flips (a ∷ xs) [] = refl
strcmp-flips (a ∷ xs) (b ∷ bs) =
    rw (number-flips a b, strcmp-flips xs bs)
      (sym (opposite-or_else (three_way (a == b) (ltb a b)) (strcmp xs bs)))

strcmp-Chains : (a b c : Bytes) → Chains (strcmp a b) (strcmp b c) (strcmp a c)
unfolding strcmp
strcmp-Chains [] [] c s e = grind (arith, e)
strcmp-Chains [] (b ∷ bs) [] s e = grind (arith, e)
strcmp-Chains [] (b ∷ bs) (c ∷ cs) s e = sym (chain_from_below _ s e)
strcmp-Chains (a ∷ xs) [] [] s e = grind (arith, e)
strcmp-Chains (a ∷ xs) [] (c ∷ cs) s e = grind (arith, e)
strcmp-Chains (a ∷ xs) (b ∷ bs) [] s e = sym (chain_to_above _ s e)
strcmp-Chains (a ∷ xs) (b ∷ bs) (c ∷ cs) s e =
    or_else-Chains (three_way (a == b) (ltb a b)) (three_way (b == c) (ltb b c))
      (three_way (a == c) (ltb a c)) (strcmp xs bs) (strcmp bs cs) (strcmp xs cs)
      (number-Chains a b c) (strcmp-Chains xs bs cs) s e

strcmp-same : (a b : Bytes) → strcmp a b ≡ equal → a ≡ b
unfolding strcmp
strcmp-same [] [] e = refl
strcmp-same [] (b ∷ bs) e = grind (arith, e)
strcmp-same (a ∷ xs) [] e = grind (arith, e)
strcmp-same (a ∷ xs) (b ∷ bs) e =
    let same = or_else-equal (three_way (a == b) (ltb a b)) (strcmp xs bs) e in
    let head : a ≡ b = ground (arith, same.0) in rw (head, strcmp-same xs bs same.1) refl

later-Chains :
    (a b c : ℤ)
    → Chains
        (three_way (eqb_ℤ a b) (ltb_ℤ b a))
        (three_way (eqb_ℤ b c) (ltb_ℤ c b))
        (three_way (eqb_ℤ a c) (ltb_ℤ c a))
later-Chains a b c s e = ground (arith, e)

-- The third sign is what the chain of the first two says, where it says one.
abbrev pub Agrees : Option Sign → Sign → Type 0
Agrees none z = Unit
Agrees (some s) z = z ≡ s

-- Entries that are equal in the order have the same token.
abbrev pub TokenDecides : Sign → Entry → Entry → Type 0
TokenDecides equal a b = or_empty a.token ≡ or_empty b.token
TokenDecides _ a b = Unit

Agrees-chain : (x y z : Sign) → Chains x y z → Agrees (chain x y) z
Agrees-chain x y z h = of_option (chain x y) h
  where
    of_option : (o : Option Sign) → ((s : Sign) → o ≡ some s → z ≡ s) → Agrees o z
    of_option none k = tt
    of_option (some s) k = k s refl

tie : (r : Sign) (a b : Entry) → TokenDecides (or_else r (cmp_token a b)) a b
tie below a b = tt
tie above a b = tt
tie equal a b = of_sign (cmp_token a b) (strcmp-same (or_empty a.token) (or_empty b.token))
  where
    of_sign : (s : Sign) → (s ≡ equal → or_empty a.token ≡ or_empty b.token) → TokenDecides s a b
    of_sign below h = tt
    of_sign equal h = h refl
    of_sign above h = tt

-- What `qsort` relies on, of three entries.
abbrev pub Ordered : (Entry → Entry → Sign) → Entry → Entry → Entry → Type 0
Ordered cmp a b c =
    (cmp b a ≡ opposite (cmp a b))
    × Agrees (chain (cmp a b) (cmp b c)) (cmp a c)
    × TokenDecides (cmp a b) a b

by_key-Ordered :
    (by : Entry → Entry → Sign) (a b c : Entry)
    → by b a ≡ opposite (by a b)
    → Chains (by a b) (by b c) (by a c)
    → Ordered (λ x y. or_else (by x y) (cmp_token x y)) a b c
by_key-Ordered by a b c flips chains =
    let ta = or_empty a.token in
    let tb = or_empty b.token in
    let tc = or_empty c.token in
    (
      rw (flips, strcmp-flips ta tb) (sym (opposite-or_else (by a b) (strcmp ta tb))),
      Agrees-chain (or_else (by a b) (strcmp ta tb)) (or_else (by b c) (strcmp tb tc))
          (or_else (by a c) (strcmp ta tc))
          (or_else-Chains (by a b) (by b c) (by a c) (strcmp ta tb) (strcmp tb tc) (strcmp ta tc)
            chains (strcmp-Chains ta tb tc)),
      tie (by a b) a b,
    )

-- Each order of the uploads list is total: turned round, a comparison gives the opposite sign; the signs of
-- two comparisons that chain give that of the third; and only entries with the same token are equal.
pub cmp_of-Ordered : (key : SortKey) (a b c : Entry) → Ordered (cmp_of key) a b c
unfolding cmp_of cmp_newest cmp_name cmp_size cmp_expires
cmp_of-Ordered SortKey.newest a b c =
    let t : Entry → ℤ = λ e. entry_epoch e.uploaded_at in
    by_key-Ordered (λ x y. three_way (eqb_ℤ (t x) (t y)) (ltb_ℤ (t y) (t x))) a b c
      (later-flips (t a) (t b)) (later-Chains (t a) (t b) (t c))
cmp_of-Ordered SortKey.by_name a b c =
    let n : Entry → Bytes = λ e. or_empty e.name in
    by_key-Ordered (λ x y. strcmp (n x) (n y)) a b c (strcmp-flips (n a) (n b))
      (strcmp-Chains (n a) (n b) (n c))
cmp_of-Ordered SortKey.by_size a b c =
    by_key-Ordered (λ x y. three_way (x.size == y.size) (ltb y.size x.size)) a b c
      (larger-flips a.size b.size) (larger-Chains a.size b.size c.size)
cmp_of-Ordered SortKey.by_expiry a b c =
    let t : Entry → ℤ = λ e. entry_epoch e.expires_at in
    by_key-Ordered (λ x y. three_way (eqb_ℤ (t x) (t y)) (ltb_ℤ (t x) (t y))) a b c
      (time-flips (t a) (t b)) (time-Chains (t a) (t b) (t c))
