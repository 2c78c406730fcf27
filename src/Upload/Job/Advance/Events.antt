-- ===== src/Upload/Job/Advance/Events.antt =====
-- Every event of a job keeps its state consistent, and what it asks for justified.
use zhuzhbox_cli.Base.{
  ℕ, ◌≡◌, ◌&&◌, ◌||◌, Bool, true, false, Option, none, some, List, arith, Bytes, Option-cases, inl,
  inr, refl, subst, not, leb, ltb, ◌==◌, if◌then◌else◌, sym,
}
use zhuzhbox_cli.Error.{Status, is_ok}
use zhuzhbox_cli.Json.{CJson}
use zhuzhbox_cli.Store.Sessions.{Session}
use zhuzhbox_cli.Upload.Job.{
  State, Job, Engine, Calls, Request, max_retries, max_reconcile_rounds, copied, alloc_bitmap,
  recount, release_transfer, job_fail, job_succeed, persist_session, drop_session, save_session,
}
use zhuzhbox_cli.Upload.Job.Schedule.{
  take_marks, start_fresh, resume_session, kick_off_from, retry_in, retry_control, kick_off,
  turn_in, turn, is_active, Event, event_step,
}
use zhuzhbox_cli.Upload.Job.Advance.{
  Finish, is_repeatable, waiting_state, is_at_capacity, is_failed, client_finish, back_off,
  advance_broken, init_rejected, chunk_rejected, complete_rejected, reject_in, advance_rejected,
  next_request, init_layout, init_reply, handle_init_response, status_marks, status_layout,
  status_reply, handle_status_response, handle_chunk_response, proceed, complete_metadata,
  answer_in, advance_answered, advance,
}
use zhuzhbox_cli.Upload.Job.Advance.Order.{
  MayBe, MayRetry, Keeps, kept, kept-attempts, kept-IsFull, kept-IsAimed, IsConsistent, Asks, Good,
  if-Good, IsAimed,
}
use zhuzhbox_cli.Upload.Job.Advance.Starts.{
  start_chunk-Good, start_complete-Good, start_verify-Good, start_status-Good, start_init-Good,
  start_single_shot-Good, next_request-Good,
}

module _ {J : Type 0} where
  -- What asks for nothing and leaves a job of which its state says no more.
  quiet-Good :
      (was : State) (before : List Request) (engine : Engine J) (job : Job J)
      → engine.requests ≡ before
      → IsConsistent job
      → Good was before (engine, job)
  quiet-Good was before engine job same h = record { consistent = h; asks = inl same }

  kept-MayRetry :
      (state : State) (job after : Job J)
      → Keeps job after
      → MayRetry state job
      → MayRetry state after
  kept-MayRetry State.job_status job after keeps h = tt
  kept-MayRetry State.job_verify job after keeps h = kept-attempts job after keeps h
  kept-MayRetry _ job after keeps h = kept-IsFull job after keeps h

  kept-MayBe :
      (state : State) (job after : Job J)
      → Keeps job after
      → after.retry_state ≡ job.retry_state
      → MayBe state job
      → MayBe state after
  kept-MayBe State.job_chunk job after keeps e h = kept-IsAimed job after keeps h
  kept-MayBe State.job_chunk_backoff job after keeps e h = kept-IsAimed job after keeps h
  kept-MayBe State.job_complete job after keeps e h = kept-IsFull job after keeps h
  kept-MayBe State.job_verify job after keeps e h = kept-attempts job after keeps h
  kept-MayBe State.job_control_backoff job after keeps e h =
      subst (λ s. MayRetry s after) (sym e) (kept-MayRetry job.retry_state job after keeps h)
  kept-MayBe _ job after keeps e h = tt

  release-Good :
      (was : State) (engine : Engine J) (job : Job J)
      → IsConsistent job
      → Good was engine.requests (release_transfer engine job)
  unfolding release_transfer
  release-Good was engine job h =
      if-Good was engine.requests job.easy _ _
        (λ e.
          let idle : Job J = record job { easy = false } in
          quiet-Good was engine.requests _ idle refl
            (kept-MayBe job.state job idle (kept job) refl h))
        (λ e. quiet-Good was engine.requests engine job refl h)

  waiting-MayBe :
      (state : State) (job : Job J)
      → is_repeatable state ≡ true
      → MayBe state job
      → MayBe (waiting_state state) (record job { retry_state = state })
  waiting-MayBe State.job_chunk job e h = h
  waiting-MayBe State.job_status job e h = tt
  waiting-MayBe State.job_complete job e h = h
  waiting-MayBe State.job_verify job e h = h
  waiting-MayBe _ job e h = cc

  drop_session-requests :
      (engine : Engine J) (token : Option Bytes)
      → (drop_session engine token).requests ≡ engine.requests
  unfolding drop_session
  drop_session-requests engine none = refl
  drop_session-requests engine (some token) = ground arith

  persist_session-requests :
      (calls : Calls) (engine : Engine J) (job : Job J)
      → (persist_session calls engine job).requests ≡ engine.requests
  unfolding persist_session save_session
  persist_session-requests calls engine job = ground arith

  pub advance_broken-Good :
      (calls : Calls) (canceled : Bool) (engine : Engine J) (job : Job J)
      → IsConsistent job
      → Good job.state engine.requests (advance_broken calls canceled engine job)
  unfolding advance_broken back_off job_fail
  advance_broken-Good calls canceled engine job h =
      if-Good job.state engine.requests canceled _ _ (λ e. release-Good job.state engine _ tt)
        (λ e.
          if-Good job.state engine.requests (is_repeatable job.state && ltb job.attempt max_retries)
            _ _
            (λ f.
              let noted : Job J = record job { retry_state = job.state } in
              let waiting : Job J = record (back_off calls job (waiting_state job.state)) {
                retry_state = job.state;
              } in
              release-Good job.state engine waiting (
                kept-MayBe (waiting_state job.state) noted waiting (kept job) refl
                  (waiting-MayBe job.state job (ground (arith, f)) h)))
            (λ f. release-Good job.state engine _ tt))

  init_rejected-Good :
      (was : State) (calls : Calls) (http_status : ℕ) (retry_after : Option ℕ) (engine : Engine J)
      (job : Job J)
      → Good was engine.requests (init_rejected calls http_status retry_after engine job)
  unfolding init_rejected job_fail
  init_rejected-Good was calls http_status retry_after engine job =
      if-Good was engine.requests (is_at_capacity job http_status retry_after) _ _
        (λ e. quiet-Good was engine.requests engine _ refl tt)
        (λ e. quiet-Good was engine.requests engine _ refl tt)

  chunk_rejected-Good :
      (was : State) (calls : Calls) (http_status : ℕ) (engine : Engine J) (job : Job J)
      → IsAimed job
      → Good was engine.requests (chunk_rejected calls http_status engine job)
  unfolding chunk_rejected back_off job_fail
  chunk_rejected-Good was calls http_status engine job h =
      if-Good was engine.requests (http_status == 404) _ _
        (λ e. quiet-Good was engine.requests _ _ (drop_session-requests engine job.token) tt)
        (λ e.
          if-Good was engine.requests (leb 500 http_status && ltb job.attempt max_retries) _ _
            (λ f. quiet-Good was engine.requests engine _ refl h)
            (λ f. quiet-Good was engine.requests engine _ refl tt))

  complete_rejected-Good :
      (was : State) (calls : Calls) (http_status : ℕ) (engine : Engine J) (job : Job J)
      → Good was engine.requests (complete_rejected calls http_status engine job)
  unfolding complete_rejected job_fail
  complete_rejected-Good was calls http_status engine job =
      if-Good was engine.requests
        (http_status == 409 && ltb job.reconcile_rounds max_reconcile_rounds) _ _
        (λ e. start_status-Good was calls engine _)
        (λ e.
          if-Good was engine.requests (not (http_status == 404)) _ _
            (λ f. quiet-Good was engine.requests engine _ refl tt)
            (λ f.
              if-Good was engine.requests (ltb 1 job.complete_attempts) _ _
                (λ g. start_verify-Good was calls engine _ (ground (arith, g)))
                (λ g.
                  quiet-Good was engine.requests _ _ (drop_session-requests engine job.token) tt)))

  if-requests :
      (b : Bool) (x y : Engine J)
      → x.requests ≡ y.requests
      → (if b then x else y).requests ≡ y.requests
  if-requests true x y h = h
  if-requests false x y h = refl

  reject_in-Good :
      (was : State) (calls : Calls) (http_status : ℕ) (retry_after : Option ℕ) (engine : Engine J)
      (job : Job J) (state : State)
      → MayBe state job
      → Good was engine.requests (reject_in calls http_status retry_after engine job state)
  unfolding reject_in job_fail
  reject_in-Good was calls http_status retry_after engine job State.job_init h =
      init_rejected-Good was calls http_status retry_after engine job
  reject_in-Good was calls http_status retry_after engine job State.job_sharex h =
      init_rejected-Good was calls http_status retry_after engine job
  reject_in-Good was calls http_status retry_after engine job State.job_chunk h =
      chunk_rejected-Good was calls http_status engine job h
  reject_in-Good was calls http_status retry_after engine job State.job_complete h =
      complete_rejected-Good was calls http_status engine job
  reject_in-Good was calls http_status retry_after engine job State.job_verify h =
      quiet-Good was engine.requests _ _ (drop_session-requests engine job.token) tt
  reject_in-Good was calls http_status retry_after engine job State.job_status h =
      quiet-Good was engine.requests _ _
        (if-requests (http_status == 404) _ engine (drop_session-requests engine job.token)) tt
  reject_in-Good was calls http_status retry_after engine job _ h =
      quiet-Good was engine.requests engine _ refl tt

  advance_rejected-Good :
      (was : State) (calls : Calls) (http_status : ℕ) (retry_after : Option ℕ) (engine : Engine J)
      (job : Job J)
      → IsConsistent job
      → Good was engine.requests (advance_rejected calls http_status retry_after engine job)
  unfolding advance_rejected
  advance_rejected-Good was calls http_status retry_after engine job h =
      let failing : Job J = record job { error = Status.http } in
      reject_in-Good was calls http_status retry_after engine failing job.state
        (kept-MayBe job.state job failing (kept job) refl h)

  start_fresh-Good :
      (calls : Calls) (engine : Engine J) (job : Job J)
      → Good State.job_start engine.requests (start_fresh calls engine job)
  unfolding start_fresh
  start_fresh-Good calls engine job =
      if-Good State.job_start engine.requests _ _ _ (λ e. start_single_shot-Good calls engine job)
        (λ e. start_init-Good State.job_start calls engine job refl)

  resume_session-Good :
      (calls : Calls) (engine : Engine J) (job : Job J) (session : Session) (token : Bytes)
      → Good State.job_start engine.requests (resume_session calls engine job session token)
  unfolding resume_session
  resume_session-Good calls engine job session token =
      let known : Job J = record job {
        token = copied calls (some token);
        delete_token = copied calls session.delete_token;
        chunk_size = session.chunk_size;
      } in
      let ready = (alloc_bitmap calls known session.total_chunks).0 in
      let unnamed : Job J = record known { token = none } in
      let dropped : Job J = record ready { token = none } in
      let marked : Job J = record (take_marks session ready session.total_chunks 0) {
        resumed = true;
      } in
      if-Good State.job_start engine.requests (not calls.copy_ok) _ _
        (λ e. start_fresh-Good calls engine unnamed)
        (λ e.
          if-Good State.job_start engine.requests
            (not (alloc_bitmap calls known session.total_chunks).1) _ _
            (λ f. start_fresh-Good calls engine dropped)
            (λ f. start_status-Good State.job_start calls engine (recount marked)))

  kick_off_from-Good :
      (calls : Calls) (engine : Engine J) (job : Job J) (found : Option Session)
      → Good State.job_start engine.requests (kick_off_from calls engine job found)
  unfolding kick_off_from
  kick_off_from-Good calls engine job none = start_fresh-Good calls engine job
  kick_off_from-Good calls engine job (some session) = elim (Option-cases session.token) [
    | inl absent ↦
        let step : kick_off_from calls engine job (some session) ≡ start_fresh calls engine job =
          ground (arith, absent) in
        rw step (start_fresh-Good calls engine job)
    | inr (token, present) ↦
        let step : kick_off_from calls engine job (some session)
            ≡ resume_session calls engine job session token =
          ground (arith, present) in
        rw step (resume_session-Good calls engine job session token)
  ]

  kick_off-Good :
      (calls : Calls) (engine : Engine J) (job : Job J)
      → Good State.job_start engine.requests (kick_off calls engine job)
  unfolding kick_off
  kick_off-Good calls engine job = kick_off_from-Good calls engine job _

  retry_in-Good :
      (was : State) (calls : Calls) (engine : Engine J) (job : Job J) (state : State)
      → MayRetry state job
      → Good was engine.requests (retry_in calls engine job state)
  unfolding retry_in
  retry_in-Good was calls engine job State.job_status h = start_status-Good was calls engine job
  retry_in-Good was calls engine job State.job_verify h = start_verify-Good was calls engine job h
  retry_in-Good was calls engine job _ h = start_complete-Good was calls engine job h

  turn_in-Good :
      (calls : Calls) (due : Bool) (engine : Engine J) (job : Job J) (state : State)
      → job.state ≡ state
      → MayBe state job
      → Good state engine.requests (turn_in calls due engine job state)
  unfolding turn_in retry_control
  turn_in-Good calls due engine job State.job_start e h = kick_off-Good calls engine job
  turn_in-Good calls due engine job State.job_init_backoff e h =
      if-Good State.job_init_backoff engine.requests due _ _
        (λ f. start_init-Good State.job_init_backoff calls engine job refl)
        (λ f. quiet-Good _ _ engine job refl (subst (λ s. MayBe s job) (sym e) h))
  turn_in-Good calls due engine job State.job_chunk_backoff e h =
      if-Good State.job_chunk_backoff engine.requests due _ _
        (λ f. start_chunk-Good State.job_chunk_backoff calls engine job job.chunk_index h.0 h.1)
        (λ f. quiet-Good _ _ engine job refl (subst (λ s. MayBe s job) (sym e) h))
  turn_in-Good calls due engine job State.job_control_backoff e h =
      if-Good State.job_control_backoff engine.requests due _ _
        (λ f. retry_in-Good State.job_control_backoff calls engine job job.retry_state h)
        (λ f. quiet-Good _ _ engine job refl (subst (λ s. MayBe s job) (sym e) h))
  turn_in-Good calls due engine job _ e h =
      quiet-Good _ _ engine job refl (subst (λ s. MayBe s job) (sym e) h)

  turn-Good :
      (calls : Calls) (concurrency now : ℕ) (engine : Engine J) (job : Job J)
      → IsConsistent job
      → Good job.state engine.requests (turn calls concurrency now engine job)
  unfolding turn
  turn-Good calls concurrency now engine job h =
      if-Good job.state engine.requests
        (not (is_active job) || job.easy || leb concurrency engine.in_flight) _ _
        (λ e. quiet-Good job.state engine.requests engine job refl h)
        (λ e. turn_in-Good calls (leb job.wake_at_ms now) engine job job.state refl h)

  failed-MayBe : (state : State) (job : Job J) → is_failed state ≡ true → MayBe state job
  failed-MayBe State.job_failed job e = tt
  failed-MayBe _ job e = cc

  if_same :
      (before : List Request) (b : Bool) (x y : Engine J × Job J)
      → x.0.requests ≡ before
      → y.0.requests ≡ before
      → (if b then x else y).0.requests ≡ before
  if_same before true x y hx hy = hx
  if_same before false x y hx hy = hy

module _ (c : CJson) where
  proceed-Good :
      (was : State) (calls : Calls) (before : List Request) (next : Engine c.Node × Job c.Node)
      → next.0.requests ≡ before
      → Good was before (proceed c calls next)
  unfolding proceed
  proceed-Good was calls before (engine, job) same =
      if-Good was before (is_failed job.state) _ _
        (λ e. quiet-Good was before engine job same (failed-MayBe job.state job e))
        (λ e.
          subst (λ z. Good was z (next_request calls engine job)) same
            (next_request-Good was calls engine job))

  job_succeed-Good :
      (was : State) (engine : Engine c.Node) (job : Job c.Node) (result : Option c.Node)
      (job_index : ℕ)
      → Good was engine.requests (job_succeed engine job result job_index)
  unfolding job_succeed
  job_succeed-Good was engine job result job_index =
      quiet-Good was engine.requests _ _ (drop_session-requests engine job.token) tt

  init_reply-requests :
      (calls : Calls) (engine : Engine c.Node) (job : Job c.Node)
      (token delete_token : Option Bytes) (chunk_size total_chunks : Option ℕ)
      → (init_reply c calls engine job token delete_token chunk_size total_chunks).0.requests
        ≡ engine.requests
  unfolding init_reply init_layout
  init_reply-requests calls engine job (some token) delete_token (some chunk_size)
        (some total_chunks) =
      let named : Job c.Node = record job {
        token = copied calls (some token);
        delete_token = (elim delete_token [
          | none ↦ job.delete_token
          | some d ↦ copied calls (some d)
        ]);
        chunk_size = chunk_size;
      } in
      let ready = (alloc_bitmap calls named total_chunks).0 in
      if_same engine.requests (not calls.copy_ok) _ _ refl
        (if_same engine.requests _ _ _ refl (persist_session-requests calls engine (recount ready)))
  init_reply-requests calls engine job none delete_token chunk_size total_chunks = refl
  init_reply-requests calls engine job (some token) delete_token none total_chunks = refl
  init_reply-requests calls engine job (some token) delete_token (some chunk_size) none = refl

  status_marks-requests :
      (calls : Calls) (engine : Engine c.Node) (job : Job c.Node) (response : Option c.Node)
      → (status_marks c calls engine job response).0.requests ≡ engine.requests
  unfolding status_marks
  status_marks-requests calls engine job response = persist_session-requests calls engine _

  status_reply-requests :
      (calls : Calls) (engine : Engine c.Node) (job : Job c.Node) (response : Option c.Node)
      (chunk_size total_chunks : Option ℕ)
      → (status_reply c calls engine job response chunk_size total_chunks).0.requests
        ≡ engine.requests
  unfolding status_reply status_layout
  status_reply-requests calls engine job response (some chunk_size) (some total_chunks) =
      let described : Job c.Node = record job { chunk_size = chunk_size } in
      let ready = (alloc_bitmap calls described total_chunks).0 in
      if_same engine.requests _ _ _ refl (status_marks-requests calls engine ready response)
  status_reply-requests calls engine job response none total_chunks =
      status_marks-requests calls engine job response
  status_reply-requests calls engine job response (some chunk_size) none =
      status_marks-requests calls engine job response

  answer_in-Good :
      (was : State) (calls : Calls) (job_index : ℕ) (response : Option c.Node)
      (engine : Engine c.Node) (job : Job c.Node) (state : State)
      → Good was engine.requests (answer_in c calls job_index response engine job state)
  unfolding answer_in handle_init_response handle_status_response handle_chunk_response
  answer_in-Good was calls job_index response engine job State.job_sharex =
      job_succeed-Good was engine job response job_index
  answer_in-Good was calls job_index response engine job State.job_init =
      proceed-Good was calls engine.requests (handle_init_response c calls engine job response)
        (init_reply-requests calls engine job _ _ _ _)
  answer_in-Good was calls job_index response engine job State.job_status =
      proceed-Good was calls engine.requests (handle_status_response c calls engine job response)
        (status_reply-requests calls engine job response _ _)
  answer_in-Good was calls job_index response engine job State.job_chunk =
      let counted = handle_chunk_response c calls engine job in
      let same = persist_session-requests calls engine counted.1 in
      subst (λ before. Good was before (next_request calls counted.0 counted.1)) same
        (next_request-Good was calls counted.0 counted.1)
  answer_in-Good was calls job_index response engine job State.job_complete =
      job_succeed-Good was engine job response job_index
  answer_in-Good was calls job_index response engine job State.job_verify =
      job_succeed-Good was engine job (complete_metadata c calls engine job response) job_index
  answer_in-Good was calls job_index response engine job _ = next_request-Good was calls engine job

  released_state :
      (engine : Engine c.Node) (job : Job c.Node)
      → (release_transfer engine job).1.state ≡ job.state
  unfolding release_transfer
  released_state engine job = ground arith

  released_requests :
      (engine : Engine c.Node) (job : Job c.Node)
      → (release_transfer engine job).0.requests ≡ engine.requests
  unfolding release_transfer
  released_requests engine job = ground arith

  replied-Good :
      (was : State) (calls : Calls) (job_index http_status : ℕ) (retry_after : Option ℕ)
      (rc : Status) (response : Option c.Node) (before : List Request) (engine : Engine c.Node)
      (job : Job c.Node)
      → job.state ≡ was
      → engine.requests ≡ before
      → IsConsistent job
      → Good was before (
          if is_ok rc
          then advance_answered c calls job_index response engine job
          else advance_rejected calls http_status retry_after engine job)
  unfolding advance_answered
  replied-Good was calls job_index http_status retry_after rc response before engine job e same h =
      let y =
        if is_ok rc
        then advance_answered c calls job_index response engine job
        else advance_rejected calls http_status retry_after engine job in
      subst (λ w. Good w before y) e
        (subst (λ z. Good job.state z y) same
          (if-Good job.state engine.requests (is_ok rc) _ _
            (λ f. answer_in-Good job.state calls job_index response engine job job.state)
            (λ f. advance_rejected-Good job.state calls http_status retry_after engine job h)))

  advance-Good :
      (calls : Calls) (job_index : ℕ) (finish : Finish c.Node) (engine : Engine c.Node)
      (job : Job c.Node)
      → IsConsistent job
      → Good job.state engine.requests (advance c calls job_index finish engine job)
  unfolding advance
  advance-Good calls job_index (Finish.broken canceled) engine job h =
      advance_broken-Good calls canceled engine job h
  advance-Good calls job_index (Finish.replied http_status retry_after body) engine job h =
      let (rc, response) = client_finish http_status body in
      let (freed, idle) = release_transfer engine job in
      let good = release-Good job.state engine job h in
      replied-Good job.state calls job_index http_status retry_after rc response engine.requests
        freed idle (released_state engine job) (released_requests engine job) good.consistent

  -- Whatever happens to a job whose state is consistent, its state stays consistent, and it asks the server
  -- for at most one thing: for init only from the start or when it was told to come back; for the upload
  -- in one request only from the start; for a chunk of the layout that is not marked as sent, with the
  -- offset and the length of that chunk; to complete only when no chunk is missing; and for the metadata
  -- only after it has asked to complete twice.
  pub event_step-Asks :
      (event : Event c.Node) (engine : Engine c.Node) (job : Job c.Node)
      → IsConsistent job
      → let (engine', job') = event_step c event engine job in
        IsConsistent job' × Asks job.state engine.requests engine'.requests job'
  unfolding event_step
  event_step-Asks (Event.a_turn calls concurrency now) engine job h =
      let good = turn-Good calls concurrency now engine job h in (good.consistent, good.asks)
  event_step-Asks (Event.an_end calls job_index finish) engine job h =
      let good = advance-Good calls job_index finish engine job h in (good.consistent, good.asks)
