-- ===== src/Upload/Bitmap.antt =====
-- The chunk bitmap, one bit for each chunk, as `zb_session_mark`, `zb_session_has` (store/sessions.c)
-- and `job_mark`, `job_has` (api/upload.c) write it. `sent` is the allocated block, and `[]` is NULL:
-- `sent_len` is always the length of the block, and no block of length 0 is ever allocated.
pub mod Laws
pub mod Copy
use Prim.Native.Nat.{bit_and, bit_or}
use zhuzhbox_cli.Base.{
  ℕ, ◌+◌, ◌/◌, ◌%◌, ◌^◌, Bool, true, false, not, ◌||◌, Option, none, some, ltb, leb, ◌==◌,
  if◌then◌else◌, Bytes, length, get_or, set, replicate,
}

-- `1u << (index % 8)`
abbrev pub bit_of : ℕ → ℕ
bit_of index = 2 ^ (index % 8)

unfoldable pub mark : Bytes → ℕ → Bytes
mark sent index =
    let byte = index / 8 in
    if leb (length sent) byte
    then sent
    else set sent byte (bit_or (get_or sent byte 0) (bit_of index))

unfoldable pub has : Bytes → ℕ → Bool
has sent index =
    let byte = index / 8 in
    if leb (length sent) byte then false else not (bit_and (get_or sent byte 0) (bit_of index) == 0)

-- The block that `zb_calloc(bytes, 1)` gives for a count of chunks, or `none` where the count is
-- refused. `calloc_ok` is the outcome of the allocation.
unfoldable pub alloc_bitmap : Bool → ℕ → Option Bytes
alloc_bitmap calloc_ok total_chunks =
    if total_chunks == 0 || ltb (2 ^ 32) total_chunks
    then none
    else if calloc_ok
    then some (replicate ((total_chunks + 7) / 8) 0)
    else none
