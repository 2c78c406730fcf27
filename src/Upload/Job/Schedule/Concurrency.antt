-- ===== src/Upload/Job/Schedule/Concurrency.antt =====
-- How many transfers the first loop of a round has going.
use zhuzhbox_cli.Base.{
  ℕ, ◌+◌, ◌≤◌, ◌≡◌, Bool, true, false, not, ◌&&◌, Option, none, some, List, [], ◌∷◌, arith, Bytes,
  if◌then◌else◌, Option-cases, inl, inr,
}
use zhuzhbox_cli.Error.{Status}
use zhuzhbox_cli.Store.Sessions.{Session}
use zhuzhbox_cli.Upload.Job.{
  State, Job, Engine, Calls, Request, release_transfer, begin_request, start_plain, start_init,
  start_single_shot, start_status, start_complete, start_verify, start_chunk, or_fail,
}
use zhuzhbox_cli.Upload.Job.Schedule.{
  start_fresh, resume_session, kick_off_from, kick_off, retry_control, turn, start_ready,
}

module _ {J : Type 0} where
  abbrev pub AddsOne : Engine J → Engine J × Job J → Type 0
  AddsOne engine after = after.0.in_flight ≤ engine.in_flight + 1

  abbrev Begins : Engine J → Engine J × Job J × Status → Type 0
  Begins engine after = after.0.in_flight ≤ engine.in_flight + 1

  pub if_adds :
      (engine : Engine J) (b : Bool) (x y : Engine J × Job J)
      → AddsOne engine x
      → AddsOne engine y
      → AddsOne engine (if b then x else y)
  if_adds engine true x y hx hy = hx
  if_adds engine false x y hx hy = hy

  if_Begins :
      (engine : Engine J) (b : Bool) (x y : Engine J × Job J × Status)
      → Begins engine x
      → Begins engine y
      → Begins engine (if b then x else y)
  if_Begins engine true x y hx hy = hx
  if_Begins engine false x y hx hy = hy

  end_adds :
      (engine : Engine J) (x : Engine J × Job J × Status)
      → Begins engine x
      → AddsOne engine (or_fail x)
  end_adds engine (e, j, Status.ok) h = h
  end_adds engine (e, j, Status.usage) h = h
  end_adds engine (e, j, Status.io) h = h
  end_adds engine (e, j, Status.net) h = h
  end_adds engine (e, j, Status.http) h = h
  end_adds engine (e, j, Status.proto) h = h
  end_adds engine (e, j, Status.nomem) h = h
  end_adds engine (e, j, Status.canceled) h = h

  pub less :
      (b : Bool) (engine : Engine J) (x y : Engine J × Job J)
      → x.0.in_flight ≤ engine.in_flight
      → y.0.in_flight ≤ engine.in_flight
      → (if◌then◌else◌ {A = Engine J × Job J} b x y).0.in_flight ≤ engine.in_flight
  less true engine x y hx hy = hx
  less false engine x y hx hy = hy

  pub release_less :
      (engine : Engine J) (job : Job J)
      → (release_transfer engine job).0.in_flight ≤ engine.in_flight
  unfolding release_transfer
  release_less engine job = less job.easy engine _ _ (omega arith) (omega arith)

  begin_adds :
      (calls : Calls) (with_body : Bool) (request : Request) (engine : Engine J) (job : Job J)
      → Begins engine (begin_request calls with_body request engine job)
  unfolding begin_request
  begin_adds calls with_body request engine job =
      let fewer = release_less engine job in
      let same : (release_transfer engine job).0.in_flight ≤ engine.in_flight + 1 =
        omega (arith, fewer) in
      if_Begins engine (not calls.url_ok) _ _ same (
        if_Begins engine (not calls.easy_ok) _ _ same (
          if_Begins engine (with_body && not calls.body_ok) _ _ same
            (if_Begins engine (not calls.added) _ _ same (omega (arith, fewer)))))

  plain_adds :
      (calls : Calls) (request : Request) (state : State) (engine : Engine J) (job : Job J)
      → Begins engine (start_plain calls request state engine job)
  unfolding start_plain
  plain_adds calls request state engine job =
      let begun = begin_adds calls false request engine job in
      if_Begins engine (not calls.path_ok) _ _ (omega arith) (if_Begins engine _ _ _ begun begun)

  pub start_status_adds :
      (calls : Calls) (engine : Engine J) (job : Job J)
      → AddsOne engine (or_fail (start_status calls engine job))
  unfolding start_status
  start_status_adds calls engine job =
      end_adds engine (start_status calls engine job)
        (plain_adds calls _ State.job_status engine job)

  pub start_verify_adds :
      (calls : Calls) (engine : Engine J) (job : Job J)
      → AddsOne engine (or_fail (start_verify calls engine job))
  unfolding start_verify
  start_verify_adds calls engine job =
      end_adds engine (start_verify calls engine job)
        (plain_adds calls _ State.job_verify engine job)

  pub start_complete_adds :
      (calls : Calls) (engine : Engine J) (job : Job J)
      → AddsOne engine (or_fail (start_complete calls engine job))
  unfolding start_complete
  start_complete_adds calls engine job = end_adds engine (start_complete calls engine job) (
      if_Begins engine _ _ _ (plain_adds calls _ State.job_complete engine job)
        (plain_adds calls _ State.job_complete engine job))

  start_init_adds :
      (calls : Calls) (engine : Engine J) (job : Job J)
      → AddsOne engine (or_fail (start_init calls engine job))
  unfolding start_init
  start_init_adds calls engine job = end_adds engine (start_init calls engine job) (
      if_Begins engine _ _ _ (begin_adds calls true Request.post_init engine job)
        (begin_adds calls true Request.post_init engine job))

  start_single_shot_adds :
      (calls : Calls) (engine : Engine J) (job : Job J)
      → AddsOne engine (or_fail (start_single_shot calls engine job))
  unfolding start_single_shot
  start_single_shot_adds calls engine job = end_adds engine (start_single_shot calls engine job) (
      if_Begins engine (not calls.seek_ok) _ _ (omega arith) (
        if_Begins engine _ _ _ (begin_adds calls false _ engine _) (
          if_Begins engine calls.header_ok _ _ (begin_adds calls false _ engine _)
            (begin_adds calls false _ engine _))))

  pub start_chunk_adds :
      (calls : Calls) (engine : Engine J) (job : Job J) (index : ℕ)
      → AddsOne engine (or_fail (start_chunk calls engine job index))
  unfolding start_chunk
  start_chunk_adds calls engine job index = end_adds engine (start_chunk calls engine job index) (
      if_Begins engine (not calls.seek_ok) _ _ (omega arith) (
        if_Begins engine (not calls.path_ok) _ _ (omega arith) (
          if_Begins engine _ _ _ (begin_adds calls false _ engine _) (
            if_Begins engine calls.header_ok _ _ (begin_adds calls false _ engine _)
              (begin_adds calls false _ engine _)))))

  start_fresh_adds :
      (calls : Calls) (engine : Engine J) (job : Job J)
      → AddsOne engine (start_fresh calls engine job)
  unfolding start_fresh
  start_fresh_adds calls engine job =
      if_adds engine _ _ _ (start_single_shot_adds calls engine job)
        (start_init_adds calls engine job)

  resume_session_adds :
      (calls : Calls) (engine : Engine J) (job : Job J) (session : Session) (token : Bytes)
      → AddsOne engine (resume_session calls engine job session token)
  unfolding resume_session
  resume_session_adds calls engine job session token =
      if_adds engine (not calls.copy_ok) _ _ (start_fresh_adds calls engine _)
        (if_adds engine _ _ _ (start_fresh_adds calls engine _) (start_status_adds calls engine _))

  kick_off_from_adds :
      (calls : Calls) (engine : Engine J) (job : Job J) (found : Option Session)
      → AddsOne engine (kick_off_from calls engine job found)
  unfolding kick_off_from
  kick_off_from_adds calls engine job none = start_fresh_adds calls engine job
  kick_off_from_adds calls engine job (some session) = elim (Option-cases session.token) [
    | inl absent ↦
        let step : kick_off_from calls engine job (some session) ≡ start_fresh calls engine job =
          ground (arith, absent) in
        rw step (start_fresh_adds calls engine job)
    | inr (token, present) ↦
        let step : kick_off_from calls engine job (some session)
            ≡ resume_session calls engine job session token =
          ground (arith, present) in
        rw step (resume_session_adds calls engine job session token)
  ]

  kick_off_adds :
      (calls : Calls) (engine : Engine J) (job : Job J) → AddsOne engine (kick_off calls engine job)
  unfolding kick_off
  kick_off_adds calls engine job = kick_off_from_adds calls engine job _

  retry_control_adds :
      (calls : Calls) (engine : Engine J) (job : Job J)
      → AddsOne engine (retry_control calls engine job)
  unfolding retry_control
  retry_control_adds calls engine job = ground (
    arith,
    start_status_adds calls engine job,
    start_verify_adds calls engine job,
    start_complete_adds calls engine job,
  )

  turn-in_flight :
      (calls : Calls) (concurrency now : ℕ) (engine : Engine J) (job : Job J)
      → engine.in_flight ≤ concurrency
      → (turn calls concurrency now engine job).0.in_flight ≤ concurrency
  unfolding turn
  turn-in_flight calls concurrency now engine job h = ground (
    arith,
    kick_off_adds calls engine job,
    start_init_adds calls engine job,
    start_chunk_adds calls engine job job.chunk_index,
    retry_control_adds calls engine job,
  )

  -- The first loop of a round never has more transfers going than the engine allows.
  pub start_ready-in_flight :
      (calls : ℕ → Calls) (concurrency now i : ℕ) (engine : Engine J) (jobs : List (Job J))
      → engine.in_flight ≤ concurrency
      → (start_ready calls concurrency now i engine jobs).0.in_flight ≤ concurrency
  unfolding start_ready
  start_ready-in_flight calls concurrency now i engine [] h = h
  start_ready-in_flight calls concurrency now i engine (job ∷ jobs) h =
      start_ready-in_flight calls concurrency now (i + 1)
        (turn (calls i) concurrency now engine job).0 jobs
        (turn-in_flight (calls i) concurrency now engine job h)
