-- ===== src/Upload/Geometry.antt =====
-- Chunk geometry of an upload: `job_chunk_length`, `job_geometry_is_sane`, `job_next_missing` and
-- `job_recount_confirmed` of api/upload.c. All numbers are uint64_t, so sums and products wrap.
pub mod Tiling
pub mod Missing
use zhuzhbox_cli.Base.{
  ℕ, zero, suc, ◌+◌, ◌-◌, ◌*◌, ◌/◌, ◌%◌, ◌^◌, Bool, true, false, not, ◌||◌, ◌&&◌, ltb, leb, ◌==◌,
  if◌then◌else◌, Bytes,
}
use zhuzhbox_cli.Upload.Bitmap.{has}

abbrev pub u64 : ℕ → ℕ
u64 n = n % 2 ^ 64

-- What the server says of a file of `size` bytes.
pub record Layout : Type 0 where
  pub size : ℕ
  pub chunk_size : ℕ
  pub total_chunks : ℕ

unfoldable pub chunk_length : Layout → ℕ → ℕ
chunk_length g index =
    let offset = u64 (index * g.chunk_size) in
    if leb g.size offset
    then 0
    else let remaining = g.size - offset in
      if ltb remaining g.chunk_size then remaining else g.chunk_size

unfoldable pub geometry_is_sane : Layout → Bool
geometry_is_sane g =
    if g.chunk_size == 0 || g.total_chunks == 0
    then false
    else if ltb (2 ^ 32) g.chunk_size
    then false
    else if ltb ((2 ^ 64 - 1) / g.chunk_size) g.total_chunks
    then false
    else let expected = u64 (g.total_chunks * g.chunk_size) in
      if ltb expected g.size
      then false
      else if ltb 0 g.size && leb g.size (u64 ((g.total_chunks - 1) * g.chunk_size))
      then false
      else if g.size == 0 && not (g.total_chunks == 1)
      then false
      else true

-- The loop of `job_next_missing` at chunk `i`, with `left` rounds to go.
unfoldable pub missing_from : Bytes → ℕ → ℕ → ℕ
missing_from sent zero i = i
missing_from sent (suc left) i =
    let rest = missing_from sent left (i + 1) in if has sent i then rest else i

unfoldable pub next_missing : Bytes → ℕ → ℕ
unfolding missing_from
next_missing sent total_chunks = missing_from sent total_chunks 0

-- The loop of `job_recount_confirmed`; the sum is a uint64_t.
unfoldable pub recount_from : Layout → Bytes → ℕ → ℕ → ℕ → ℕ
recount_from g sent zero i total = total
recount_from g sent (suc left) i total =
    recount_from g sent left (i + 1) (if has sent i then u64 (total + chunk_length g i) else total)

unfoldable pub recount_confirmed : Layout → Bytes → ℕ
unfolding recount_from
recount_confirmed g sent = recount_from g sent g.total_chunks 0 0
