-- ===== src/Upload/Geometry/Missing.antt =====
-- The first gap, and the count of the bytes that the server has confirmed.
use native.Mathlib.Numerals.{add-one}
use zhuzhbox_cli.Base.{
  ℕ, zero, suc, ◌+◌, ◌^◌, ◌<◌, ◌≤◌, ◌≡◌, ◌↔◌, refl, true, false, arith, Bytes, if◌then◌else◌,
  Bool-cases, inl, inr, leb, leb→le, ◌==◌, ==_iff, ap,
}
use zhuzhbox_cli.Upload.Bitmap.{has}
use zhuzhbox_cli.Upload.Geometry.{
  Layout, chunk_length, geometry_is_sane, missing_from, next_missing, recount_from,
  recount_confirmed,
}
use zhuzhbox_cli.Upload.Geometry.Tiling.{
  IsSane, covered, IsSane-Fits, geometry_is_sane-IsSane, IsSane-covered,
}

-- Every chunk from `i` up to `n` is there.
abbrev pub HasFrom : Bytes → ℕ → ℕ → Type 0
HasFrom sent i n = (k : ℕ) → i ≤ k → k < n → has sent k ≡ true

pub record IsFirstGap (sent : Bytes) (i n gap : ℕ) : Type 0 where
  pub from : i ≤ gap
  pub upto : gap ≤ n
  pub before : HasFrom sent i gap
  pub at_gap : gap < n → has sent gap ≡ false

missing_from-IsFirstGap :
    (sent : Bytes) (left i n : ℕ) → i + left ≡ n → IsFirstGap sent i n (missing_from sent left i)
unfolding missing_from
missing_from-IsFirstGap sent zero i n e = record {
  from = omega arith;
  upto = omega arith;
  before = λ k p q. absurd (omega arith);
  at_gap = λ p. absurd (omega arith);
}
missing_from-IsFirstGap sent (suc left) i n e = elim (Bool-cases (has sent i)) [
  | inl there ↦
      let ih = missing_from-IsFirstGap sent left (i + 1) n (omega arith) in
      rw there (record {
        from = omega (arith, ih.from);
        upto = ih.upto;
        before = λ k p q. before_or_at k ih p q there;
        at_gap = ih.at_gap;
      })
  | inr gap ↦ rw gap (record {
    from = omega arith;
    upto = omega arith;
    before = λ k p q. absurd (omega arith);
    at_gap = λ p. gap;
  })
]
  where
    before_or_at :
        (k : ℕ)
        → IsFirstGap sent (i + 1) n (missing_from sent left (i + 1))
        → i ≤ k
        → k < missing_from sent left (i + 1)
        → has sent i ≡ true
        → has sent k ≡ true
    before_or_at k ih p q there = grind (arith, ih.before k)

-- `job_next_missing` finds the first chunk that is not there, or the count of chunks if all are.
pub next_missing-IsFirstGap :
    (sent : Bytes) (total_chunks : ℕ)
    → IsFirstGap sent 0 total_chunks (next_missing sent total_chunks)
unfolding next_missing
next_missing-IsFirstGap sent total_chunks =
    missing_from-IsFirstGap sent total_chunks 0 total_chunks (omega arith)

-- The bytes of the chunks before `n` that are there.
abbrev pub sent_bytes : Layout → Bytes → ℕ → ℕ
sent_bytes g sent zero = 0
sent_bytes g sent (suc n) = sent_bytes g sent n + (if has sent n then chunk_length g n else 0)

sent_bytes-le-covered : (g : Layout) (sent : Bytes) (n : ℕ) → sent_bytes g sent n ≤ covered g n
sent_bytes-le-covered g sent zero = omega arith
sent_bytes-le-covered g sent (suc n) = ground (arith, sent_bytes-le-covered g sent n)

covered_mono : (g : Layout) (n m : ℕ) → n ≤ m → covered g n ≤ covered g m
covered_mono g n zero h = let e : n ≡ 0 = omega arith in rw e (omega arith)
covered_mono g n (suc m) h = elim (Bool-cases (leb n m)) [
  | inl below ↦ omega (arith, covered_mono g n m (leb→le n m below))
  | inr at ↦ let e : n ≡ suc m = ground arith in rw e (omega arith)
]

recount_from-sent_bytes :
    (g : Layout) (sent : Bytes) (left i n total : ℕ)
    → i + left ≡ n
    → covered g n < 2 ^ 64
    → total ≡ sent_bytes g sent i
    → recount_from g sent left i total ≡ sent_bytes g sent n
unfolding recount_from
recount_from-sent_bytes g sent zero i n total e b h = let e' : i ≡ n = omega arith in rw (← e') h
recount_from-sent_bytes g sent (suc left) i n total e b h =
    let small : sent_bytes g sent (suc i) < 2 ^ 64 =
      omega (arith, sent_bytes-le-covered g sent (suc i), covered_mono g (suc i) n (omega arith)) in
    recount_from-sent_bytes g sent left (i + 1) n _ (omega arith) b (rw add-one (ground arith))

-- For a sane layout the recount does not wrap: it is the sum of the chunks that are there.
pub recount_confirmed-sent_bytes :
    (g : Layout) (sent : Bytes)
    → IsSane g
    → g.size < 2 ^ 64
    → recount_confirmed g sent ≡ sent_bytes g sent g.total_chunks
unfolding recount_confirmed
recount_confirmed-sent_bytes g sent s fits =
    recount_from-sent_bytes g sent g.total_chunks 0 g.total_chunks 0 (omega arith)
      (omega (arith, IsSane-covered g s)) refl

sent_bytes_all :
    (g : Layout) (sent : Bytes) (n : ℕ)
    → ((i : ℕ) → i < n → 0 < chunk_length g i)
    → sent_bytes g sent n ≡ covered g n
    → HasFrom sent 0 n
sent_bytes_all g sent zero pos e k p q = absurd (omega arith)
sent_bytes_all g sent (suc n) pos e k p q = elim (Bool-cases (k == n)) [
  | inl last ↦
      ground (arith, pos n, sent_bytes-le-covered g sent n, ap (has sent) ((==_iff k n).0 last))
  | inr before ↦
      sent_bytes_all g sent n (λ i h. pos i (omega arith))
        (ground (arith, sent_bytes-le-covered g sent n)) k p (ground arith)
]

all_sent_bytes :
    (g : Layout) (sent : Bytes) (n : ℕ) → HasFrom sent 0 n → sent_bytes g sent n ≡ covered g n
all_sent_bytes g sent zero h = refl
all_sent_bytes g sent (suc n) h =
    ground (
      arith,
      h n (omega arith) (omega arith),
      all_sent_bytes g sent n (λ k p q. h k p (omega arith)),
    )

-- `confirmed_bytes` never exceeds the size of the file, and reaches it exactly when the server holds
-- every chunk, for a sane layout of a file that is not empty.
pub recount_confirmed_full_iff :
    (g : Layout) (sent : Bytes)
    → geometry_is_sane g ≡ true
    → 0 < g.size
    → g.size < 2 ^ 64
    → (recount_confirmed g sent ≤ g.size)
      × ((recount_confirmed g sent ≡ g.size) ↔ HasFrom sent 0 g.total_chunks)
recount_confirmed_full_iff g sent h pos fits =
    let s = geometry_is_sane-IsSane g h in
    let total = IsSane-covered g s in
    let count = recount_confirmed-sent_bytes g sent s fits in
    (
      omega (arith, sent_bytes-le-covered g sent g.total_chunks),
      (
        λ full.
            sent_bytes_all g sent g.total_chunks (λ i lt. (IsSane-Fits g i s lt).not_empty pos)
              (omega arith),
        λ all. omega (arith, all_sent_bytes g sent g.total_chunks all),
      ),
    )
