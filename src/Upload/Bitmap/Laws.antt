-- ===== src/Upload/Bitmap/Laws.antt =====
-- The bitmap is a set of chunk indices.
use Prim.Native.Nat.{bit_and, bit_or}
use zhuzhbox_cli.Base.{
  ℕ, zero, suc, ◌+◌, ◌*◌, ◌/◌, ◌%◌, ◌^◌, ◌<◌, ◌≤◌, ◌≡◌, refl, ap, subst₃, Bool, true, false, not,
  ◌&&◌, ◌||◌, [], ◌∷◌, some, arith, ltb, leb, ◌==◌, ==_iff, Bytes, length, get_or, set, replicate,
  length-set, get_or-set_self, get_or-set_ne, length-replicate, get_or-replicate, passes, passes-at,
  All, Bool-cases, inl, inr,
}
use zhuzhbox_cli.Upload.Bitmap.{mark, has, alloc_bitmap}

-- Every cell of the block is a byte.
abbrev pub AreBytes : Bytes → Type 0
AreBytes = All (λ b. b < 256)

abbrev bit_set : ℕ → ℕ → Bool
bit_set b j = not (bit_and b (2 ^ j) == 0)

abbrev same : Bool → Bool → Bool
same true b = b
same false b = not b

-- The law of one bit at byte `b`, written bit `i` and read bit `j`.
abbrev bit_law : ℕ → ℕ → ℕ → Bool
bit_law b i j =
    ltb (bit_or b (2 ^ i)) 256 && same (bit_set (bit_or b (2 ^ i)) j) (i == j || bit_set b j)

bit_table : passes (λ k. bit_law (k / 64) (k / 8 % 8) (k % 8)) 16384 ≡ true
unfolding passes
bit_table = refl

bit_law_holds : (b i j : ℕ) → b < 256 → i < 8 → j < 8 → bit_law b i j ≡ true
bit_law_holds b i j hb hi hj =
    let k = b * 64 + i * 8 + j in
    let eb : k / 64 ≡ b = omega arith in
    let ei : k / 8 % 8 ≡ i = omega arith in
    let ej : k % 8 ≡ j = omega arith in
    subst₃ (λ x y z. bit_law x y z ≡ true) eb ei ej
      (passes-at (λ z. bit_law (z / 64) (z / 8 % 8) (z % 8)) 16384 {k = k} (omega arith) bit_table)

bit_lem :
    (b i j : ℕ)
    → b < 256
    → i < 8
    → j < 8
    → (bit_or b (2 ^ i) < 256) × (bit_set (bit_or b (2 ^ i)) j ≡ (i == j || bit_set b j))
bit_lem b i j hb hi hj = ground (arith, bit_law_holds b i j hb hi hj)

get_or-AreBytes : (sent : Bytes) (i : ℕ) → AreBytes sent → get_or sent i 0 < 256
get_or-AreBytes [] i h = omega arith
get_or-AreBytes (x ∷ xs) zero h = h.0
get_or-AreBytes (x ∷ xs) (suc i) h = get_or-AreBytes xs i h.1

set-AreBytes : (sent : Bytes) (i v : ℕ) → v < 256 → AreBytes sent → AreBytes (set sent i v)
set-AreBytes [] i v hv h = tt
set-AreBytes (x ∷ xs) zero v hv h = (hv, h.1)
set-AreBytes (x ∷ xs) (suc i) v hv h = (h.0, set-AreBytes xs i v hv h.1)

pub mark-AreBytes : (sent : Bytes) (i : ℕ) → AreBytes sent → AreBytes (mark sent i)
unfolding mark
mark-AreBytes sent i h = elim (Bool-cases (leb (length sent) (i / 8))) [
  | inl out ↦ rw out h
  | inr inside ↦ rw inside (
      set-AreBytes sent (i / 8) _
        (bit_lem (get_or sent (i / 8) 0) (i % 8) 0 (get_or-AreBytes sent (i / 8) h) (omega arith)
          (omega arith)).0
        h)
]

pub length-mark : (sent : Bytes) (i : ℕ) → length (mark sent i) ≡ length sent
unfolding mark
length-mark sent i =
    ground (arith, length-set sent (i / 8) (bit_or (get_or sent (i / 8) 0) (2 ^ (i % 8))))

-- Marking a chunk that the block holds sets that chunk and no other.
pub has-mark :
    (sent : Bytes) (i j : ℕ)
    → AreBytes sent
    → i / 8 < length sent
    → has (mark sent i) j ≡ (i == j || has sent j)
unfolding mark has
has-mark sent i j h inside =
    let b = get_or sent (i / 8) 0 in
    let v = bit_or b (2 ^ (i % 8)) in
    elim (Bool-cases (i / 8 == j / 8)) [
      | inl same_byte ↦
          let e : i / 8 ≡ j / 8 = (==_iff _ _).0 same_byte in
          ground (
            arith,
            length-set sent (i / 8) v,
            get_or-set_self sent (i / 8) v 0 inside,
            ap (λ k. get_or sent k 0) e,
            ap (λ k. get_or (set sent (i / 8) v) k 0) e,
            (bit_lem b (i % 8) (j % 8) (get_or-AreBytes sent (i / 8) h) (omega arith)
                (omega arith)).1,
          )
      | inr other ↦
          ground (
            arith,
            length-set sent (i / 8) v,
            get_or-set_ne sent (i / 8) (j / 8) v 0 (ground arith),
          )
    ]

pub has-out : (sent : Bytes) (j : ℕ) → length sent ≤ j / 8 → has sent j ≡ false
unfolding has
has-out sent j h = ground arith

replicate-AreBytes : (n : ℕ) → AreBytes (replicate n 0)
replicate-AreBytes zero = tt
replicate-AreBytes (suc n) = (omega arith, replicate-AreBytes n)

-- A bitmap of bytes that covers every chunk and has none marked.
pub record IsFresh (sent : Bytes) (total_chunks : ℕ) : Type 0 where
  pub bytes : AreBytes sent
  pub covers : length sent ≡ (total_chunks + 7) / 8
  pub none_sent : (j : ℕ) → has sent j ≡ false

zero_byte : (j : ℕ) → j < 8 → bit_set 0 j ≡ false
zero_byte j h = ground (arith, passes-at (λ k. not (bit_set 0 k)) 8 {k = j} h table)
  where
    table : passes (λ k. not (bit_set 0 k)) 8 ≡ true
    table = unfold passes in refl

has-replicate : (n j : ℕ) → has (replicate n 0) j ≡ false
unfolding has
has-replicate n j =
    ground (arith, get_or-replicate {A = ℕ} n (j / 8) 0, zero_byte (j % 8) (omega arith))

-- A bitmap that was allocated is of bytes, covers every chunk, and has none marked.
pub alloc_bitmap-IsFresh :
    (ok : Bool) (total_chunks : ℕ) {sent : Bytes}
    → alloc_bitmap ok total_chunks ≡ some sent
    → IsFresh sent total_chunks
unfolding alloc_bitmap
alloc_bitmap-IsFresh true total_chunks {sent} e =
    elim (Bool-cases (total_chunks == 0 || ltb (2 ^ 32) total_chunks)) [
      | inl refused ↦ cc (rw refused at e)
      | inr fine ↦
          let block : replicate ((total_chunks + 7) / 8) 0 ≡ sent = ground arith in
          rw (← block) (record {
            bytes = replicate-AreBytes ((total_chunks + 7) / 8);
            covers = length-replicate ((total_chunks + 7) / 8) 0;
            none_sent = has-replicate ((total_chunks + 7) / 8);
          })
    ]
alloc_bitmap-IsFresh false total_chunks {sent} e = absurd (ground arith)
