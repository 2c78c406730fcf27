-- ===== src/Upload/Job/Body.antt =====
-- The callbacks of api/upload.c from which libcurl takes the bytes of a chunk: `chunk_read_cb` and
-- `chunk_seek_cb`. The file is its contents, and `position` of the job is that of its stream.
pub mod Stream
use zhuzhbox_cli.Base.{
  ℕ, ◌+◌, ◌-◌, ◌*◌, ◌/◌, ◌^◌, Bool, true, false, not, ◌&&◌, ◌||◌, Option, none, some, List, [], ◌∷◌,
  ◌++◌, ltb, ◌==◌, if◌then◌else◌, Bytes, length, take, drop,
}
use zhuzhbox_cli.Base.Int.{ℤ, pos, negsuc}
use zhuzhbox_cli.Upload.Geometry.{u64}
use zhuzhbox_cli.Upload.Job.{Job}

-- How many bytes one `fread` can deliver, and whether the stream is in error after it.
pub record Fread : Type 0 where
  pub most : ℕ
  pub error : Bool

module _ {J : Type 0} where
  -- What is read of the chunk, or `none` for CURL_READFUNC_ABORT.
  unfoldable pub read_want : Bytes → Fread → ℕ → Job J → Option Bytes × Job J
  read_want contents f want job =
      let most = if ltb f.most want then f.most else want in
      let got = take most (drop job.position contents) in
      if want == 0 then (some [], job) else if length got == 0 && f.error then (none, job) else (
        some got,
        record job {
          chunk_remaining = job.chunk_remaining - length got;
          position = job.position + length got;
        },
      )

  unfoldable pub chunk_read : Bytes → Fread → (size nitems : ℕ) → Job J → Option Bytes × Job J
  unfolding read_want
  chunk_read contents f size nitems job =
      let want = size * nitems in
      if not (size == 0) && ltb ((2 ^ 64 - 1) / size) nitems
      then (none, job)
      else read_want contents f (if ltb job.chunk_remaining want then job.chunk_remaining else want)
          job

  -- Whether the seek succeeded; its other two results tell libcurl how to go on. An offset from
  -- anywhere but the start is refused.
  unfoldable pub chunk_seek : (from_start seek_ok : Bool) → ℤ → Job J → Bool × Job J
  chunk_seek from_start seek_ok (negsuc n) job = (false, job)
  chunk_seek from_start seek_ok (pos offset) job =
      if not from_start || ltb job.chunk_length offset || not seek_ok then (false, job) else (
        true,
        record job {
          position = u64 (job.chunk_offset + offset);
          chunk_remaining = job.chunk_length - offset;
        },
      )

-- What libcurl calls while it sends a chunk.
pub data BodyCall : Type 0 where
  a_read : Fread → (size nitems : ℕ) → BodyCall
  a_seek : (from_start seek_ok : Bool) → ℤ → BodyCall

-- The bytes that libcurl has, and the place in the chunk from which it has them.
pub record Sent : Type 0 where
  pub from : ℕ
  pub bytes : Bytes

abbrev pub received : Sent → Option Bytes → Sent
received sent none = sent
received sent (some bytes) = record sent { bytes = sent.bytes ++ bytes }

abbrev pub target : ℤ → ℕ
target (pos offset) = offset
target (negsuc n) = 0

module _ {J : Type 0} where
  unfoldable pub body_step : Bytes → BodyCall → Job J × Sent → Job J × Sent
  body_step contents (BodyCall.a_read f size nitems) (job, sent) =
      let (bytes, after) = chunk_read contents f size nitems job in (after, received sent bytes)
  body_step contents (BodyCall.a_seek from_start seek_ok offset) (job, sent) =
      let (moved, after) = chunk_seek from_start seek_ok offset job in
      (after, if moved then record { from = target offset; bytes = [] } else sent)

  unfoldable pub body_run : Bytes → List BodyCall → Job J × Sent → Job J × Sent
  unfolding body_step
  body_run contents [] state = state
  body_run contents (call ∷ calls) state = body_run contents calls (body_step contents call state)
