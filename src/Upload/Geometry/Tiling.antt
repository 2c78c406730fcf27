-- ===== src/Upload/Geometry/Tiling.antt =====
-- A layout that passes `geometry_is_sane` tiles the file.
use zhuzhbox_cli.Base.{
  ℕ, zero, suc, ◌+◌, ◌-◌, ◌*◌, ◌/◌, ◌^◌, ◌<◌, ◌≤◌, ◌≡◌, true, arith, if◌then◌else◌, ◌↔◌, leb,
}
use zhuzhbox_cli.Upload.Geometry.{Layout, u64, chunk_length, geometry_is_sane}

-- What the guards of `geometry_is_sane` are for.
pub record IsSane (g : Layout) : Type 0 where
  pub chunk_pos : 0 < g.chunk_size
  pub chunk_small : g.chunk_size ≤ 2 ^ 32
  pub total_pos : 0 < g.total_chunks
  pub no_wrap : g.total_chunks * g.chunk_size < 2 ^ 64
  pub covers : g.size ≤ g.total_chunks * g.chunk_size
  pub last_used : 0 < g.size → (g.total_chunks - 1) * g.chunk_size < g.size
  pub empty_one : g.size ≡ 0 → g.total_chunks ≡ 1

-- The test by division is the test that the product does not wrap.
le-div_iff : (t c m : ℕ) → 0 < c → (t ≤ m / c) ↔ (t * c ≤ m)
le-div_iff t c m h = (λ p. grind arith, λ p. grind arith)

pred-mul-le : (t c : ℕ) → (t - 1) * c ≤ t * c
pred-mul-le zero c = omega arith
pred-mul-le (suc t) c = grind arith

pub geometry_is_sane-IsSane : (g : Layout) → geometry_is_sane g ≡ true → IsSane g
unfolding geometry_is_sane
geometry_is_sane-IsSane g h = ground (
  arith,
  le-div_iff g.total_chunks g.chunk_size (2 ^ 64 - 1),
  pred-mul-le g.total_chunks g.chunk_size,
)

pub IsSane-geometry_is_sane : (g : Layout) → IsSane g → geometry_is_sane g ≡ true
unfolding geometry_is_sane
IsSane-geometry_is_sane g h = ground (
  arith,
  le-div_iff g.total_chunks g.chunk_size (2 ^ 64 - 1),
  pred-mul-le g.total_chunks g.chunk_size,
)

-- The chunk at `i` starts where the product does not wrap.
offset-le :
    (g : Layout) (i : ℕ)
    → IsSane g
    → i < g.total_chunks
    → i * g.chunk_size ≤ (g.total_chunks - 1) * g.chunk_size
offset-le g i s h = grind arith

-- The bytes of the chunks before `n`.
abbrev pub covered : Layout → ℕ → ℕ
covered g zero = 0
covered g (suc n) = covered g n + chunk_length g n

abbrev min : ℕ → ℕ → ℕ
min a b = if leb a b then a else b

covered_step :
    (g : Layout) (n before : ℕ)
    → IsSane g
    → n < g.total_chunks
    → before ≡ min (n * g.chunk_size) g.size
    → before + chunk_length g n ≡ min (suc n * g.chunk_size) g.size
unfolding chunk_length
covered_step g n before s h e =
    ground (arith, offset-le g n s, pred-mul-le g.total_chunks g.chunk_size)

covered-min :
    (g : Layout) (n : ℕ)
    → IsSane g
    → n ≤ g.total_chunks
    → covered g n ≡ min (n * g.chunk_size) g.size
covered-min g zero s h = ground arith
covered-min g (suc n) s h = covered_step g n (covered g n) s h (covered-min g n s (omega arith))

pub IsSane-covered : (g : Layout) → IsSane g → covered g g.total_chunks ≡ g.size
IsSane-covered g s = ground (arith, covered-min g g.total_chunks s, s.covers)

-- The chunks of a sane layout add up to the file, byte for byte.
pub geometry_is_sane-covered :
    (g : Layout) → geometry_is_sane g ≡ true → covered g g.total_chunks ≡ g.size
geometry_is_sane-covered g h = IsSane-covered g (geometry_is_sane-IsSane g h)

-- Where chunk `i` lies.
pub record Fits (g : Layout) (i : ℕ) : Type 0 where
  pub no_wrap : u64 (i * g.chunk_size) ≡ i * g.chunk_size
  pub inside : i * g.chunk_size + chunk_length g i ≤ g.size
  pub at_most : chunk_length g i ≤ g.chunk_size
  pub not_empty : 0 < g.size → 0 < chunk_length g i

pub IsSane-Fits : (g : Layout) (i : ℕ) → IsSane g → i < g.total_chunks → Fits g i
unfolding chunk_length
IsSane-Fits g i s h = ground (arith, offset-le g i s, pred-mul-le g.total_chunks g.chunk_size)

-- Every chunk of a layout that job_geometry_is_sane accepts has an offset that does not wrap, lies in the
-- file, is no longer than a chunk, and is not empty unless the file is.
pub geometry_is_sane-Fits :
    (g : Layout) (i : ℕ) → geometry_is_sane g ≡ true → i < g.total_chunks → Fits g i
geometry_is_sane-Fits g i sane h = IsSane-Fits g i (geometry_is_sane-IsSane g sane) h
