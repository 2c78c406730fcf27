-- ===== src/Upload/Job/Schedule/Marks.antt =====
-- The marks that `engine_persist_session` keeps, and that `job_kick_off` takes up again.
use zhuzhbox_cli.Base.{ℕ, zero, suc, ◌+◌, ◌<◌, ◌≡◌, arith, Bytes, if◌then◌else◌, refl, ◌∙◌, ap}
use zhuzhbox_cli.Store.Sessions.{Session, session_mark, session_has}
use zhuzhbox_cli.Upload.Bitmap.{mark, has}
use zhuzhbox_cli.Upload.Bitmap.Laws.{IsFresh}
use zhuzhbox_cli.Upload.Bitmap.Copy.{copy_bits, has-copy_bits}
use zhuzhbox_cli.Upload.Job.{Job, copy_marks}
use zhuzhbox_cli.Upload.Job.Schedule.{take_marks}

copy_marks-copy_bits :
    (from : Bytes) (session : Session) (left i : ℕ)
    → (copy_marks from session left i).sent ≡ copy_bits from session.sent left i
unfolding copy_marks copy_bits session_mark
copy_marks-copy_bits from session zero i = refl
copy_marks-copy_bits from session (suc left) i =
    copy_marks-copy_bits from (if has from i then session_mark session i else session) left (i + 1)
    ∙ ap (λ b. copy_bits from b left (i + 1)) (ground arith)

module _ {J : Type 0} where
  take_marks-copy_bits :
      (session : Session) (job : Job J) (left i : ℕ)
      → (take_marks session job left i).sent ≡ copy_bits session.sent job.sent left i
  unfolding take_marks copy_bits session_has
  take_marks-copy_bits session job zero i = refl
  take_marks-copy_bits session job (suc left) i =
      take_marks-copy_bits session
        (if session_has session i then record job { sent = mark job.sent i } else job) left (i + 1)
      ∙ ap (λ b. copy_bits session.sent b left (i + 1)) (ground arith)

-- An upload that is interrupted and resumed goes on with the marks that it had: the marks that are
-- saved with the session, and taken up from it into a fresh bitmap, are those of the job.
pub take_marks-copy_marks :
    {J : Type 0} (sent : Bytes) (session : Session) (job : Job J) (total k : ℕ)
    → IsFresh session.sent total
    → IsFresh job.sent total
    → k < total
    → has (take_marks (copy_marks sent session total 0) job total 0).sent k ≡ has sent k
take_marks-copy_marks sent session job total k fresh ready lt =
    let saved =
      has-copy_bits sent session.sent total 0 k fresh.bytes (omega (arith, fresh.covers)) in
    let taken =
      has-copy_bits (copy_bits sent session.sent total 0) job.sent total 0 k ready.bytes
        (omega (arith, ready.covers)) in
    let from_saved =
      ap (λ b. has (copy_bits b job.sent total 0) k) (copy_marks-copy_bits sent session total 0) in
    ap (λ b. has b k) (take_marks-copy_bits (copy_marks sent session total 0) job total 0)
    ∙ from_saved
    ∙ ground (arith, saved, taken, fresh.none_sent k, ready.none_sent k, lt)
