-- ===== src/Upload/Job/Advance/Budget.antt =====
-- The bounds on the counters of a job through the functions that start its requests, and the status that it
-- ends with: at least what was tried again, and at most the limits.
use zhuzhbox_cli.Base.{
  ℕ, zero, suc, ◌+◌, ◌≤◌, ◌≡◌, refl, not, ◌&&◌, Bool, true, false, Option, none, some, List, [],
  ◌∷◌, arith, Bytes, codes, if◌then◌else◌, Option-cases, inl, inr,
}
use zhuzhbox_cli.Error.{Status, is_ok}
use zhuzhbox_cli.Json.{CJson, json_get, json_items}
use zhuzhbox_cli.Upload.Job.{
  State, Job, Engine, Calls, Request, copied, max_retries, max_reconcile_rounds, alloc_bitmap,
  recount, release_transfer, job_fail, begin_request, start_plain, start_init, start_single_shot,
  start_status, start_complete, start_verify, start_chunk, or_fail,
}
use zhuzhbox_cli.Store.Sessions.{Session, session_has}
use zhuzhbox_cli.Upload.Bitmap.{mark}
use zhuzhbox_cli.Upload.Geometry.{next_missing}
use zhuzhbox_cli.Upload.Job.Schedule.{
  take_marks, start_fresh, resume_session, kick_off_from, retry_control, kick_off, turn,
}
use zhuzhbox_cli.Upload.Job.Advance.{
  next_request, init_layout, init_reply, mark_item, mark_received, status_marks, status_layout,
  status_reply,
}

-- The retries within their limits, and a final state with the status that goes with it.
abbrev pub ends_well : State → Status → Bool
ends_well State.job_failed Status.ok = false
ends_well State.job_done Status.ok = true
ends_well State.job_done rc = false
ends_well state rc = true

why_ends_well :
    (rc : Status) → ends_well State.job_failed (if is_ok rc then Status.proto else rc) ≡ true
why_ends_well rc = ground arith

-- What was tried again: requests in a row since a chunk got through, reconciliations, and waits for
-- capacity.
pub record Tally : Type 0 where
  pub repeats : ℕ
  pub reconciles : ℕ
  pub waits : ℕ

abbrev pub Between : ℕ → ℕ → ℕ → Type 0
Between low high n = (low ≤ n) × (n ≤ high)

module _ {J : Type 0} (tally : Tally) where
  abbrev pub WithinBudget : Job J → Type 0
  WithinBudget job =
      Between tally.repeats max_retries job.attempt
      × Between tally.reconciles max_reconcile_rounds job.reconcile_rounds
      × Between tally.waits 1 job.init_retries
      × (ends_well job.state job.status ≡ true)

  pub job_fail-WithinBudget :
      (job : Job J) (rc : Status) → WithinBudget job → WithinBudget (job_fail job rc)
  unfolding job_fail
  job_fail-WithinBudget job rc h = (h.0, h.1, h.2, why_ends_well rc)

  or_fail-WithinBudget :
      (rc : Status) (engine : Engine J) (job : Job J)
      → WithinBudget job
      → WithinBudget (or_fail (engine, job, rc)).1
  or_fail-WithinBudget Status.ok engine job h = h
  or_fail-WithinBudget Status.usage engine job h = job_fail-WithinBudget job job.error h
  or_fail-WithinBudget Status.io engine job h = job_fail-WithinBudget job job.error h
  or_fail-WithinBudget Status.net engine job h = job_fail-WithinBudget job job.error h
  or_fail-WithinBudget Status.http engine job h = job_fail-WithinBudget job job.error h
  or_fail-WithinBudget Status.proto engine job h = job_fail-WithinBudget job job.error h
  or_fail-WithinBudget Status.nomem engine job h = job_fail-WithinBudget job job.error h
  or_fail-WithinBudget Status.canceled engine job h = job_fail-WithinBudget job job.error h

  if-WithinBudget :
      (b : Bool) (x y : Engine J × Job J)
      → WithinBudget x.1
      → WithinBudget y.1
      → WithinBudget (if b then x else y).1
  if-WithinBudget true x y hx hy = hx
  if-WithinBudget false x y hx hy = hy

  if_begun-WithinBudget :
      (b : Bool) (x y : Engine J × Job J × Status)
      → WithinBudget x.1
      → WithinBudget y.1
      → WithinBudget (if b then x else y).1
  if_begun-WithinBudget true x y hx hy = hx
  if_begun-WithinBudget false x y hx hy = hy

  end-WithinBudget : (x : Engine J × Job J × Status) → WithinBudget x.1 → WithinBudget (or_fail x).1
  end-WithinBudget (engine, job, rc) h = or_fail-WithinBudget rc engine job h

  pub release_transfer-WithinBudget :
      (engine : Engine J) (job : Job J)
      → WithinBudget job
      → WithinBudget (release_transfer engine job).1
  unfolding release_transfer
  release_transfer-WithinBudget engine job h = if-WithinBudget job.easy _ _ h h

  begin_request-WithinBudget :
      (calls : Calls) (with_body : Bool) (request : Request) (engine : Engine J) (job : Job J)
      → WithinBudget job
      → WithinBudget (begin_request calls with_body request engine job).1
  unfolding begin_request
  begin_request-WithinBudget calls with_body request engine job h =
      let idle = release_transfer-WithinBudget engine job h in
      if_begun-WithinBudget (not calls.url_ok) _ _ idle (
        if_begun-WithinBudget (not calls.easy_ok) _ _ idle (
          if_begun-WithinBudget (with_body && not calls.body_ok) _ _ idle
            (if_begun-WithinBudget (not calls.added) _ _ idle idle)))

  start_plain-WithinBudget :
      (calls : Calls) (request : Request) (state : State) (engine : Engine J) (job : Job J)
      → ((rc : Status) → ends_well state rc ≡ true)
      → WithinBudget job
      → WithinBudget (start_plain calls request state engine job).1
  unfolding start_plain
  start_plain-WithinBudget calls request state engine job live h =
      let begun = begin_request-WithinBudget calls false request engine job h in
      if_begun-WithinBudget (not calls.path_ok) _ _ h
        (if_begun-WithinBudget _ _ _ begun (begun.0, begun.1, begun.2, live _))

  pub start_chunk-WithinBudget :
      (calls : Calls) (engine : Engine J) (job : Job J) (index : ℕ)
      → WithinBudget job
      → WithinBudget (or_fail (start_chunk calls engine job index)).1
  unfolding start_chunk
  start_chunk-WithinBudget calls engine job index h =
      let begun = begin_request-WithinBudget calls false _ engine _ h in
      end-WithinBudget (start_chunk calls engine job index) (
        if_begun-WithinBudget (not calls.seek_ok) _ _ h (
          if_begun-WithinBudget (not calls.path_ok) _ _ h (
            if_begun-WithinBudget _ _ _ begun
              (if_begun-WithinBudget calls.header_ok _ _ (begun.0, begun.1, begun.2, refl) begun))))

  pub start_status-WithinBudget :
      (calls : Calls) (engine : Engine J) (job : Job J)
      → WithinBudget job
      → WithinBudget (or_fail (start_status calls engine job)).1
  unfolding start_status
  start_status-WithinBudget calls engine job h =
      end-WithinBudget (start_status calls engine job)
        (start_plain-WithinBudget calls _ State.job_status engine job (λ rc. refl) h)

  pub start_verify-WithinBudget :
      (calls : Calls) (engine : Engine J) (job : Job J)
      → WithinBudget job
      → WithinBudget (or_fail (start_verify calls engine job)).1
  unfolding start_verify
  start_verify-WithinBudget calls engine job h =
      end-WithinBudget (start_verify calls engine job)
        (start_plain-WithinBudget calls _ State.job_verify engine job (λ rc. refl) h)

  start_complete-WithinBudget :
      (calls : Calls) (engine : Engine J) (job : Job J)
      → WithinBudget job
      → WithinBudget (or_fail (start_complete calls engine job)).1
  unfolding start_complete
  start_complete-WithinBudget calls engine job h =
      let plain = start_plain-WithinBudget calls _ State.job_complete engine job (λ rc. refl) h in
      end-WithinBudget (start_complete calls engine job) (if_begun-WithinBudget _ _ _ plain plain)

  pub start_init-WithinBudget :
      (calls : Calls) (engine : Engine J) (job : Job J)
      → WithinBudget job
      → WithinBudget (or_fail (start_init calls engine job)).1
  unfolding start_init
  start_init-WithinBudget calls engine job h =
      let begun = begin_request-WithinBudget calls true Request.post_init engine job h in
      end-WithinBudget (start_init calls engine job)
        (if_begun-WithinBudget _ _ _ begun (begun.0, begun.1, begun.2, refl))

  pub start_single_shot-WithinBudget :
      (calls : Calls) (engine : Engine J) (job : Job J)
      → WithinBudget job
      → WithinBudget (or_fail (start_single_shot calls engine job)).1
  unfolding start_single_shot
  start_single_shot-WithinBudget calls engine job h =
      let begun = begin_request-WithinBudget calls false Request.post_sharex engine _ h in
      end-WithinBudget (start_single_shot calls engine job) (
        if_begun-WithinBudget (not calls.seek_ok) _ _ h (
          if_begun-WithinBudget _ _ _ begun
            (if_begun-WithinBudget calls.header_ok _ _ (begun.0, begun.1, begun.2, refl) begun)))

  pub retry_control-WithinBudget :
      (calls : Calls) (engine : Engine J) (job : Job J)
      → WithinBudget job
      → WithinBudget (retry_control calls engine job).1
  unfolding retry_control
  retry_control-WithinBudget calls engine job h = ground (
    arith,
    start_status-WithinBudget calls engine job h,
    start_verify-WithinBudget calls engine job h,
    start_complete-WithinBudget calls engine job h,
  )

  pub next_request-WithinBudget :
      (calls : Calls) (engine : Engine J) (job : Job J)
      → WithinBudget job
      → WithinBudget (next_request calls engine job).1
  unfolding next_request
  next_request-WithinBudget calls engine job h = ground (
    arith,
    start_complete-WithinBudget calls engine job h,
    start_chunk-WithinBudget calls engine job (next_missing job.sent job.total_chunks) h,
  )

  start_fresh-WithinBudget :
      (calls : Calls) (engine : Engine J) (job : Job J)
      → WithinBudget job
      → WithinBudget (start_fresh calls engine job).1
  unfolding start_fresh
  start_fresh-WithinBudget calls engine job h = ground (
    arith,
    start_single_shot-WithinBudget calls engine job h,
    start_init-WithinBudget calls engine job h,
  )

  take_marks-WithinBudget :
      (session : Session) (left : ℕ) (job : Job J) (i : ℕ)
      → WithinBudget job
      → WithinBudget (take_marks session job left i)
  unfolding take_marks
  take_marks-WithinBudget session zero job i h = h
  take_marks-WithinBudget session (suc left) job i h =
      take_marks-WithinBudget session left
        (if session_has session i then record job { sent = mark job.sent i } else job) (i + 1)
        (ground arith)

  resume_session-WithinBudget :
      (calls : Calls) (engine : Engine J) (job : Job J) (session : Session) (token : Bytes)
      → WithinBudget job
      → WithinBudget (resume_session calls engine job session token).1
  unfolding resume_session alloc_bitmap recount
  resume_session-WithinBudget calls engine job session token h =
      let known : Job J = record job {
        token = copied calls (some token);
        delete_token = copied calls session.delete_token;
        chunk_size = session.chunk_size;
      } in
      let ready = (alloc_bitmap calls known session.total_chunks).0 in
      let unnamed : Job J = record known { token = none } in
      let dropped : Job J = record ready { token = none } in
      let marked : Job J = record (take_marks session ready session.total_chunks 0) {
        resumed = true;
      } in
      let still : WithinBudget ready = ground arith in
      let taken = take_marks-WithinBudget session session.total_chunks ready 0 still in
      ground (
        arith,
        start_fresh-WithinBudget calls engine unnamed h,
        start_fresh-WithinBudget calls engine dropped still,
        start_status-WithinBudget calls engine (recount marked) taken,
      )

  kick_off_from-WithinBudget :
      (calls : Calls) (engine : Engine J) (job : Job J) (found : Option Session)
      → WithinBudget job
      → WithinBudget (kick_off_from calls engine job found).1
  unfolding kick_off_from
  kick_off_from-WithinBudget calls engine job none h = start_fresh-WithinBudget calls engine job h
  kick_off_from-WithinBudget calls engine job (some session) h = elim (Option-cases session.token) [
    | inl absent ↦
        let step : kick_off_from calls engine job (some session) ≡ start_fresh calls engine job =
          ground (arith, absent) in
        rw step (start_fresh-WithinBudget calls engine job h)
    | inr (token, present) ↦
        let step : kick_off_from calls engine job (some session)
            ≡ resume_session calls engine job session token =
          ground (arith, present) in
        rw step (resume_session-WithinBudget calls engine job session token h)
  ]

  kick_off-WithinBudget :
      (calls : Calls) (engine : Engine J) (job : Job J)
      → WithinBudget job
      → WithinBudget (kick_off calls engine job).1
  unfolding kick_off
  kick_off-WithinBudget calls engine job h = kick_off_from-WithinBudget calls engine job _ h

module _ (c : CJson) (tally : Tally) where
  pub init_reply-WithinBudget :
      (calls : Calls) (engine : Engine c.Node) (job : Job c.Node)
      (token delete_token : Option Bytes) (chunk_size total_chunks : Option ℕ)
      → WithinBudget tally job
      → WithinBudget tally
          (init_reply c calls engine job token delete_token chunk_size total_chunks).1
  unfolding init_reply init_layout alloc_bitmap recount job_fail
  init_reply-WithinBudget calls engine job token delete_token chunk_size total_chunks h =
      ground arith

  mark_item-WithinBudget :
      (job : Job c.Node) (item : c.Node)
      → WithinBudget tally job
      → WithinBudget tally (mark_item c job item)
  unfolding mark_item
  mark_item-WithinBudget job item h = ground arith

  mark_received-WithinBudget :
      (items : List c.Node) (job : Job c.Node)
      → WithinBudget tally job
      → WithinBudget tally (mark_received c job items)
  unfolding mark_received
  mark_received-WithinBudget [] job h = h
  mark_received-WithinBudget (item ∷ items) job h =
      mark_received-WithinBudget items (mark_item c job item) (mark_item-WithinBudget job item h)

  status_marks-WithinBudget :
      (calls : Calls) (engine : Engine c.Node) (job : Job c.Node) (response : Option c.Node)
      → WithinBudget tally job
      → WithinBudget tally (status_marks c calls engine job response).1
  unfolding status_marks recount
  status_marks-WithinBudget calls engine job response h =
      mark_received-WithinBudget (json_items c (json_get c response (codes "receivedChunks"))) job h

  pub status_reply-WithinBudget :
      (calls : Calls) (engine : Engine c.Node) (job : Job c.Node) (response : Option c.Node)
      (chunk_size total_chunks : Option ℕ)
      → WithinBudget tally job
      → WithinBudget tally (status_reply c calls engine job response chunk_size total_chunks).1
  unfolding status_reply status_layout alloc_bitmap job_fail
  status_reply-WithinBudget calls engine job response (some chunk_size) (some total_chunks) h =
      let described : Job c.Node = record job { chunk_size = chunk_size } in
      let ready = (alloc_bitmap calls described total_chunks).0 in
      let still : WithinBudget tally ready = ground arith in
      ground (arith, still, status_marks-WithinBudget calls engine ready response still)
  status_reply-WithinBudget calls engine job response none total_chunks h =
      status_marks-WithinBudget calls engine job response h
  status_reply-WithinBudget calls engine job response (some chunk_size) none h =
      status_marks-WithinBudget calls engine job response h

  pub turn-WithinBudget :
      (calls : Calls) (concurrency now : ℕ) (engine : Engine c.Node) (job : Job c.Node)
      → WithinBudget tally job
      → WithinBudget tally (turn calls concurrency now engine job).1
  unfolding turn
  turn-WithinBudget calls concurrency now engine job h = ground (
    arith,
    kick_off-WithinBudget tally calls engine job h,
    start_init-WithinBudget tally calls engine job h,
    start_chunk-WithinBudget tally calls engine job job.chunk_index h,
    retry_control-WithinBudget tally calls engine job h,
  )
