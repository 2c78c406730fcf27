-- ===== src/Upload/Job/Advance/History.antt =====
-- The whole life of a job: what it tries again under any events.
use zhuzhbox_cli.Base.{
  ℕ, ◌≤◌, ◌≡◌, refl, ◌&&◌, ltb, leb, true, false, Option, List, [], ◌∷◌, arith, Bytes, codes,
  if◌then◌else◌, inl, inr, if_holds, Bool-cases, subst, sym, ap,
}
use zhuzhbox_cli.Error.{Status, is_ok}
use zhuzhbox_cli.Json.{CJson, json_get_str, json_get_u64}
use zhuzhbox_cli.Upload.Job.{State, Job, Engine, Calls, recount, release_transfer, job_succeed}
use zhuzhbox_cli.Upload.Job.Schedule.{StatInfo, new_job, Event, event_step}
use zhuzhbox_cli.Upload.Job.Advance.{
  Finish, client_finish, advance_rejected, handle_init_response, handle_status_response,
  handle_chunk_response, proceed, answer_in, advance_answered, complete_metadata, advance,
  is_failed,
}
use zhuzhbox_cli.Upload.Job.Advance.Budget.{
  Tally, WithinBudget, ends_well, release_transfer-WithinBudget, init_reply-WithinBudget,
  status_reply-WithinBudget, turn-WithinBudget,
}
use zhuzhbox_cli.Upload.Job.Advance.Repeats.{
  tried_again, got_through, noted, no_tries, Noted, is_failed_state, next_request-Noted,
  advance_broken-Noted, reject_in-Noted,
}

module _ (c : CJson) where
  proceed-Noted :
      (t : Tally) (was : State) (calls : Calls) (engine : Engine c.Node) (job : Job c.Node)
      → WithinBudget t job
      → Noted was t (proceed c calls (engine, job))
  unfolding proceed
  proceed-Noted t was calls engine job h =
      if_holds (Noted was t) (is_failed job.state) _ _
        (λ e.
          subst (λ k. WithinBudget k job)
            (sym (ap (λ state. tried_again state was t) (is_failed_state job.state e))) h)
        (λ e. next_request-Noted t was calls engine job h)

  job_succeed-Noted :
      (t : Tally) (was : State) (engine : Engine c.Node) (job : Job c.Node)
      (response : Option c.Node) (job_index : ℕ)
      → WithinBudget t job
      → Noted was t (job_succeed engine job response job_index)
  unfolding job_succeed
  job_succeed-Noted t was engine job response job_index h = (h.0, h.1, h.2, refl)

  answer_in-Noted :
      (t : Tally) (http_status : ℕ) (calls : Calls) (job_index : ℕ) (response : Option c.Node)
      (engine : Engine c.Node) (job : Job c.Node) (state : State)
      → (leb 200 http_status && ltb http_status 300) ≡ true
      → WithinBudget t job
      → Noted state
          (got_through http_status state t)
          (answer_in c calls job_index response engine job state)
  unfolding answer_in handle_init_response handle_status_response handle_chunk_response recount
  answer_in-Noted t http_status calls job_index response engine job State.job_sharex good h =
      job_succeed-Noted t State.job_sharex engine job response job_index h
  answer_in-Noted t http_status calls job_index response engine job State.job_init good h =
      let x = handle_init_response c calls engine job response in
      proceed-Noted t State.job_init calls x.0 x.1 (
        init_reply-WithinBudget c t calls engine job (json_get_str c response (codes "token"))
          (json_get_str c response (codes "deleteToken"))
          (json_get_u64 c response (codes "chunkSize"))
          (json_get_u64 c response (codes "totalChunks")) h)
  answer_in-Noted t http_status calls job_index response engine job State.job_status good h =
      let x = handle_status_response c calls engine job response in
      proceed-Noted t State.job_status calls x.0 x.1 (
        status_reply-WithinBudget c t calls engine job response
          (json_get_u64 c response (codes "chunkSize"))
          (json_get_u64 c response (codes "totalChunks")) h)
  answer_in-Noted t http_status calls job_index response engine job State.job_chunk good h =
      let anew = record t { repeats = 0 } in
      let x = handle_chunk_response c calls engine job in
      rw good (
        next_request-Noted anew State.job_chunk calls x.0 x.1
          ((omega arith, omega arith), h.1, h.2, h.3))
  answer_in-Noted t http_status calls job_index response engine job State.job_complete good h =
      job_succeed-Noted t State.job_complete engine job response job_index h
  answer_in-Noted t http_status calls job_index response engine job State.job_verify good h =
      job_succeed-Noted t State.job_verify engine job
        (complete_metadata c calls engine job response) job_index h
  answer_in-Noted t http_status calls job_index response engine job State.job_start good h =
      next_request-Noted t State.job_start calls engine job h
  answer_in-Noted t http_status calls job_index response engine job State.job_init_backoff good h =
      next_request-Noted t State.job_init_backoff calls engine job h
  answer_in-Noted t http_status calls job_index response engine job State.job_chunk_backoff good h =
      next_request-Noted t State.job_chunk_backoff calls engine job h
  answer_in-Noted t http_status calls job_index response engine job State.job_control_backoff good
        h =
      next_request-Noted t State.job_control_backoff calls engine job h
  answer_in-Noted t http_status calls job_index response engine job State.job_done good h =
      next_request-Noted t State.job_done calls engine job h
  answer_in-Noted t http_status calls job_index response engine job State.job_failed good h =
      next_request-Noted t State.job_failed calls engine job h

  release_transfer_state :
      (engine : Engine c.Node) (job : Job c.Node)
      → (release_transfer engine job).1.state ≡ job.state
  unfolding release_transfer
  release_transfer_state engine job = ground arith

  got_through_error :
      (http_status : ℕ) (state : State) (t : Tally)
      → (leb 200 http_status && ltb http_status 300) ≡ false
      → got_through http_status state t ≡ t
  got_through_error http_status State.job_chunk t bad = rw bad refl
  got_through_error http_status _ t bad = refl

  -- The reply to a job that has let go of its transfer.
  replied-Noted :
      (t : Tally) (calls : Calls) (job_index http_status : ℕ) (retry_after : Option ℕ)
      (body : Option c.Node) (engine : Engine c.Node) (job : Job c.Node)
      → WithinBudget t job
      → let (rc, response) = client_finish http_status body in
        Noted job.state (got_through http_status job.state t) (
          if is_ok rc
          then advance_answered c calls job_index response engine job
          else advance_rejected calls http_status retry_after engine job)
  unfolding client_finish advance_answered advance_rejected
  replied-Noted t calls job_index http_status retry_after body engine job h =
      elim (Bool-cases (leb 200 http_status && ltb http_status 300)) [
        | inl good ↦
            rw good (answer_in-Noted t http_status calls job_index body engine job job.state good h)
        | inr bad ↦
            rw (bad, got_through_error http_status job.state t bad)
              (reject_in-Noted t calls http_status retry_after engine
                (record job { error = Status.http }) job.state h h)
      ]

  -- Each event keeps the counters of the job between what was tried again and the limits.
  event_step-WithinBudget :
      (t : Tally) (event : Event c.Node) (engine : Engine c.Node) (job : Job c.Node)
      → WithinBudget t job
      → let after = (event_step c event engine job).1 in
        WithinBudget (noted event job.state after.state t) after
  unfolding event_step advance
  event_step-WithinBudget t (Event.a_turn calls concurrency now) engine job h =
      turn-WithinBudget c t calls concurrency now engine job h
  event_step-WithinBudget t (Event.an_end calls job_index (Finish.broken canceled)) engine job h =
      advance_broken-Noted t calls canceled engine job h
  event_step-WithinBudget t
        (Event.an_end calls job_index (Finish.replied http_status retry_after body)) engine job h =
      let x = release_transfer engine job in
      let after =
        (advance c calls job_index (Finish.replied http_status retry_after body) engine job).1 in
      subst
        (λ was. WithinBudget (tried_again after.state was (got_through http_status was t)) after)
        (release_transfer_state engine job)
        (replied-Noted t calls job_index http_status retry_after body x.0 x.1
          (release_transfer-WithinBudget t engine job h))

  -- The life of a job under events, each with the engine as the other jobs left it, and what it tried again.
  abbrev pub history : List (Event c.Node × Engine c.Node) → Job c.Node → Tally → Job c.Node × Tally
  history [] job t = (job, t)
  history ((event, engine) ∷ events) job t =
      let after = (event_step c event engine job).1 in
      history events after (noted event job.state after.state t)

  history-WithinBudget :
      (events : List (Event c.Node × Engine c.Node)) (job : Job c.Node) (t : Tally)
      → WithinBudget t job
      → let (after, tally) = history events job t in WithinBudget tally after
  history-WithinBudget [] job t h = h
  history-WithinBudget ((event, engine) ∷ events) job t h =
      let after = (event_step c event engine job).1 in
      history-WithinBudget events after (noted event job.state after.state t)
        (event_step-WithinBudget t event engine job h)

  -- Whatever happens to a job that was added, by turns and by ends of transfers: it goes into a pause before
  -- a repeat at most five times since a chunk got through or since the start, reconciles after a refused
  -- completion at most three times and waits for capacity at most once; when it has failed its status is
  -- not OK, and when it is done it is OK.
  pub history-bounded :
      (info : StatInfo) (path filename mime_type : Bytes)
      (events : List (Event c.Node × Engine c.Node))
      → let (after, tally) = history events (new_job info path filename mime_type) no_tries in
        (tally.repeats ≤ 5)
        × (tally.reconciles ≤ 3)
        × (tally.waits ≤ 1)
        × (ends_well after.state after.status ≡ true)
  unfolding new_job
  history-bounded info path filename mime_type events =
      let job = new_job info path filename mime_type in
      let x = history events job no_tries in
      let h = history-WithinBudget events job no_tries (
        (omega arith, omega arith),
        (omega arith, omega arith),
        (omega arith, omega arith),
        refl,
      ) in
      (omega (arith, h.0), omega (arith, h.1), omega (arith, h.2), h.3)
