-- ===== src/Upload/Job/Advance/Repeats.antt =====
-- What a job tries again, counted from the outside: by the states that it goes through.
use zhuzhbox_cli.Base.{
  ℕ, ◌+◌, ◌≤◌, ◌≡◌, ◌⊎◌, refl, not, ◌&&◌, ◌==◌, ltb, leb, Bool, true, Option, none, some, arith,
  if◌then◌else◌, inl, inr, if_holds, Bool-cases, subst, sym, ap, ◌∙◌,
}
use zhuzhbox_cli.Error.{Status, is_ok}
use zhuzhbox_cli.Upload.Job.{
  State, Job, Engine, Calls, Request, max_retries, max_reconcile_rounds, release_transfer, job_fail,
  start_plain, start_status, start_complete, start_verify, start_chunk, or_fail,
}
use zhuzhbox_cli.Upload.Geometry.{next_missing}
use zhuzhbox_cli.Upload.Job.Schedule.{Event}
use zhuzhbox_cli.Upload.Job.Advance.{
  Finish, back_off, advance_broken, init_rejected, chunk_rejected, complete_rejected, reject_in,
  next_request, is_failed, is_repeatable, is_at_capacity, waiting_state,
}
use zhuzhbox_cli.Upload.Job.Advance.Budget.{
  Tally, WithinBudget, ends_well, job_fail-WithinBudget, start_status-WithinBudget,
  start_verify-WithinBudget, next_request-WithinBudget,
}

-- A request that is to be repeated after a pause, a wait for capacity, or a reconciliation, by the state of
-- the job after the end of a transfer and by that before it.
abbrev pub tried_again : State → State → Tally → Tally
tried_again State.job_chunk_backoff was t = record t { repeats = t.repeats + 1 }
tried_again State.job_control_backoff was t = record t { repeats = t.repeats + 1 }
tried_again State.job_init_backoff was t = record t { waits = t.waits + 1 }
tried_again State.job_status State.job_complete t = record t { reconciles = t.reconciles + 1 }
tried_again _ _ t = t

-- A chunk that gets through begins the count of repeats anew.
abbrev pub got_through : ℕ → State → Tally → Tally
got_through http_status State.job_chunk t =
    if leb 200 http_status && ltb http_status 300 then record t { repeats = 0 } else t
got_through http_status _ t = t

abbrev pub noted : {J : Type 0} → Event J → (before after : State) → Tally → Tally
noted (Event.a_turn calls concurrency now) before after t = t
noted (Event.an_end calls job_index (Finish.broken canceled)) before after t =
    tried_again after before t
noted (Event.an_end calls job_index (Finish.replied http_status retry_after body)) before after t =
    tried_again after before (got_through http_status before t)

abbrev pub no_tries : Tally
no_tries = record { repeats = 0; reconciles = 0; waits = 0 }

abbrev Lands : State → State → Type 0
Lands target state = (state ≡ target) ⊎ (state ≡ State.job_failed)

waits_again :
    (state was : State) (t : Tally)
    → tried_again (waiting_state state) was t ≡ record t { repeats = t.repeats + 1 }
waits_again State.job_chunk was t = refl
waits_again _ was t = refl

waiting-ends_well : (state : State) (rc : Status) → ends_well (waiting_state state) rc ≡ true
waiting-ends_well State.job_chunk rc = refl
waiting-ends_well _ rc = refl

pub is_failed_state : (state : State) → is_failed state ≡ true → state ≡ State.job_failed
is_failed_state state h = ground arith

module _ {J : Type 0} where
  abbrev pub Noted : State → Tally → Engine J × Job J → Type 0
  Noted was t x = WithinBudget (tried_again x.1.state was t) x.1

  or_fail-Lands :
      (target : State) (engine : Engine J) (job : Job J) (rc : Status)
      → (is_ok rc ≡ true → job.state ≡ target)
      → Lands target (or_fail (engine, job, rc)).1.state
  unfolding job_fail
  or_fail-Lands target engine job rc h = ground (arith, h)

  plain-Lands :
      (calls : Calls) (request : Request) (target : State) (engine : Engine J) (job : Job J)
      → Lands target (or_fail (start_plain calls request target engine job)).1.state
  unfolding start_plain
  plain-Lands calls request target engine job =
      let x = start_plain calls request target engine job in
      or_fail-Lands target x.0 x.1 x.2 (λ h. ground arith)

  start_complete-Lands :
      (calls : Calls) (engine : Engine J) (job : Job J)
      → Lands State.job_complete (or_fail (start_complete calls engine job)).1.state
  unfolding start_complete start_plain
  start_complete-Lands calls engine job =
      let x = start_complete calls engine job in
      or_fail-Lands State.job_complete x.0 x.1 x.2 (λ h. ground arith)

  status-Lands :
      (calls : Calls) (engine : Engine J) (job : Job J)
      → Lands State.job_status (or_fail (start_status calls engine job)).1.state
  unfolding start_status
  status-Lands calls engine job =
      plain-Lands calls (Request.get_status job.token) State.job_status engine job

  verify-Lands :
      (calls : Calls) (engine : Engine J) (job : Job J)
      → Lands State.job_verify (or_fail (start_verify calls engine job)).1.state
  unfolding start_verify
  verify-Lands calls engine job =
      plain-Lands calls (Request.get_file job.token) State.job_verify engine job

  start_chunk-Lands :
      (calls : Calls) (engine : Engine J) (job : Job J) (index : ℕ)
      → Lands State.job_chunk (or_fail (start_chunk calls engine job index)).1.state
  unfolding start_chunk
  start_chunk-Lands calls engine job index =
      let x = start_chunk calls engine job index in
      or_fail-Lands State.job_chunk x.0 x.1 x.2 (λ h. ground arith)

  -- The tally of a state that the job has landed in, or of the failure.
  pub landed :
      (t counted : Tally) (was target : State) (x : Engine J × Job J)
      → tried_again target was t ≡ counted
      → WithinBudget t x.1
      → WithinBudget counted x.1
      → Lands target x.1.state
      → Noted was t x
  landed t counted was target x same low high (inl there) =
      subst (λ k. WithinBudget k x.1) (sym (ap (λ state. tried_again state was t) there ∙ same))
        high
  landed t counted was target x same low high (inr failed) =
      subst (λ k. WithinBudget k x.1) (sym (ap (λ state. tried_again state was t) failed)) low

  pub next_request-Noted :
      (t : Tally) (was : State) (calls : Calls) (engine : Engine J) (job : Job J)
      → WithinBudget t job
      → Noted was t (next_request calls engine job)
  unfolding next_request
  next_request-Noted t was calls engine job h =
      let next = next_missing job.sent job.total_chunks in
      let within = next_request-WithinBudget t calls engine job h in
      elim (Bool-cases (leb job.total_chunks next)) [
        | inl full ↦
            landed t t was State.job_complete (next_request calls engine job) refl within within
              (rw full (start_complete-Lands calls engine job))
        | inr gap ↦
            landed t t was State.job_chunk (next_request calls engine job) refl within within
              (rw gap (start_chunk-Lands calls engine job next))
      ]

  release_transfer-Noted :
      (t : Tally) (was : State) (engine : Engine J) (job : Job J)
      → WithinBudget (tried_again job.state was t) job
      → Noted was t (release_transfer engine job)
  unfolding release_transfer
  release_transfer-Noted t was engine job h =
      if_holds (λ (x : Engine J × Job J). WithinBudget (tried_again x.1.state was t) x.1) job.easy _
        _ (λ e. h) (λ e. h)

  -- One more repeat, which the job has counted too.
  back_off-Noted :
      (t : Tally) (calls : Calls) (job : Job J) (state : State)
      → (job.attempt + 1 ≤ max_retries)
      → ends_well state job.status ≡ true
      → WithinBudget t job
      → WithinBudget (record t { repeats = t.repeats + 1 }) (back_off calls job state)
  unfolding back_off
  back_off-Noted t calls job state few well h = ((omega (arith, h.0.0), few), h.1, h.2, well)

  pub advance_broken-Noted :
      (t : Tally) (calls : Calls) (canceled : Bool) (engine : Engine J) (job : Job J)
      → WithinBudget t job
      → Noted job.state t (advance_broken calls canceled engine job)
  unfolding advance_broken job_fail back_off
  advance_broken-Noted t calls canceled engine job h =
      let waits = waiting_state job.state in
      if_holds (Noted job.state t) canceled _ _
        (λ e.
          release_transfer-Noted t job.state engine
            (job_fail (record job { error = Status.canceled }) Status.canceled)
            (job_fail-WithinBudget t (record job { error = Status.canceled }) Status.canceled h))
        (λ e.
          if_holds (Noted job.state t) (is_repeatable job.state && ltb job.attempt max_retries) _ _
            (λ few.
              release_transfer-Noted t job.state engine
                (record (back_off calls job waits) { retry_state = job.state })
                (subst
                  (λ k.
                    WithinBudget k (record (back_off calls job waits) { retry_state = job.state }))
                  (sym (waits_again job.state job.state t))
                  (back_off-Noted t calls job waits (ground (arith, few))
                    (waiting-ends_well job.state job.status) h)))
            (λ many.
              release_transfer-Noted t job.state engine
                (job_fail (record job { error = Status.net }) Status.net)
                (job_fail-WithinBudget t (record job { error = Status.net }) Status.net h)))

  init_rejected-Noted :
      (t : Tally) (was : State) (calls : Calls) (http_status : ℕ) (retry_after : Option ℕ)
      (engine : Engine J) (job : Job J)
      → WithinBudget t job
      → Noted was t (init_rejected calls http_status retry_after engine job)
  unfolding init_rejected job_fail
  init_rejected-Noted t was calls http_status retry_after engine job h =
      if_holds (Noted was t) (is_at_capacity job http_status retry_after) _ _
        (λ e.
          let first : job.init_retries ≡ 0 = never_told retry_after e in
          (h.0, h.1, (omega (arith, h.2.0), omega (arith, first)), refl))
        (λ e. job_fail-WithinBudget t job Status.http h)
    where
      never_told :
          (wait : Option ℕ) → is_at_capacity job http_status wait ≡ true → job.init_retries ≡ 0
      never_told none e = cc
      never_told (some wait) e = ground (arith, e)

  chunk_rejected-Noted :
      (t : Tally) (was : State) (calls : Calls) (http_status : ℕ) (engine : Engine J) (job : Job J)
      → WithinBudget t job
      → Noted was t (chunk_rejected calls http_status engine job)
  unfolding chunk_rejected job_fail back_off
  chunk_rejected-Noted t was calls http_status engine job h =
      let failed = job_fail-WithinBudget t job Status.http h in
      if_holds (Noted was t) (http_status == 404) _ _ (λ e. failed)
        (λ e.
          if_holds (Noted was t) (leb 500 http_status && ltb job.attempt max_retries) _ _
            (λ few. back_off-Noted t calls job State.job_chunk_backoff (ground (arith, few)) refl h)
            (λ many. failed))

  complete_rejected-Noted :
      (t : Tally) (calls : Calls) (http_status : ℕ) (engine : Engine J) (job : Job J)
      → WithinBudget t (record job { error = Status.ok })
      → WithinBudget t job
      → Noted State.job_complete t (complete_rejected calls http_status engine job)
  unfolding complete_rejected job_fail
  complete_rejected-Noted t calls http_status engine job cleared_ok h =
      let failed = job_fail-WithinBudget t job Status.http h in
      let more = record t { reconciles = t.reconciles + 1 } in
      let again : Job J = record job {
        reconcile_rounds = job.reconcile_rounds + 1;
        error = Status.ok;
      } in
      let cleared : Job J = record job { error = Status.ok } in
      if_holds (Noted State.job_complete t)
        (http_status == 409 && ltb job.reconcile_rounds max_reconcile_rounds) _ _
        (λ few.
          let fits : job.reconcile_rounds + 1 ≤ max_reconcile_rounds = ground (arith, few) in
          landed t more State.job_complete State.job_status
            (or_fail (start_status calls engine again)) refl
            (start_status-WithinBudget t calls engine again
              (h.0, (omega (arith, h.1.0), fits), h.2, h.3))
            (start_status-WithinBudget more calls engine again
              (h.0, (omega (arith, h.1.0), fits), h.2, h.3))
            (status-Lands calls engine again))
        (λ many.
          if_holds (Noted State.job_complete t) (not (http_status == 404)) _ _ (λ e. failed)
            (λ e.
              if_holds (Noted State.job_complete t) (ltb 1 job.complete_attempts) _ _
                (λ twice.
                  let within = start_verify-WithinBudget t calls engine cleared cleared_ok in
                  landed t t State.job_complete State.job_verify
                    (or_fail (start_verify calls engine cleared)) refl within within
                    (verify-Lands calls engine cleared))
                (λ once. failed)))

  pub reject_in-Noted :
      (t : Tally) (calls : Calls) (http_status : ℕ) (retry_after : Option ℕ) (engine : Engine J)
      (job : Job J) (state : State)
      → WithinBudget t (record job { error = Status.ok })
      → WithinBudget t job
      → Noted state t (reject_in calls http_status retry_after engine job state)
  unfolding reject_in job_fail
  reject_in-Noted t calls http_status retry_after engine job State.job_init c h =
      init_rejected-Noted t State.job_init calls http_status retry_after engine job h
  reject_in-Noted t calls http_status retry_after engine job State.job_sharex c h =
      init_rejected-Noted t State.job_sharex calls http_status retry_after engine job h
  reject_in-Noted t calls http_status retry_after engine job State.job_chunk c h =
      chunk_rejected-Noted t State.job_chunk calls http_status engine job h
  reject_in-Noted t calls http_status retry_after engine job State.job_complete c h =
      complete_rejected-Noted t calls http_status engine job c h
  reject_in-Noted t calls http_status retry_after engine job _ c h =
      job_fail-WithinBudget t job Status.http h
