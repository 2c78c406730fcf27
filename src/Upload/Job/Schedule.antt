-- ===== src/Upload/Job/Schedule.antt =====
-- The engine of api/upload.c: adding jobs, how a job is started, and the rounds of `zb_upload_engine_run`.
pub mod Laws
pub mod Concurrency
pub mod Marks
pub mod Round
use zhuzhbox_cli.Base.{
  ℕ, zero, suc, ◌+◌, ◌-◌, ◌*◌, ◌/◌, ◌%◌, ◌^◌, Bool, true, false, not, ◌&&◌, ◌||◌, Option, none,
  some, List, [], ◌∷◌, ltb, leb, ◌==◌, if◌then◌else◌, Bytes, length, snoc,
}
use zhuzhbox_cli.Base.Int.{ℤ, pos, negsuc}
use zhuzhbox_cli.Error.{Status, is_ok}
use zhuzhbox_cli.Json.{CJson}
use zhuzhbox_cli.Store.Sessions
use zhuzhbox_cli.Store.Sessions.{Session}
use zhuzhbox_cli.Upload.Bitmap
use zhuzhbox_cli.Upload.Geometry.{u64}
use zhuzhbox_cli.Upload.Job.{
  State, Job, Engine, Calls, copied, alloc_bitmap, recount, release_transfer, job_fail,
  start_status, start_complete, start_verify, start_chunk, start_init, start_single_shot, or_fail,
}
use zhuzhbox_cli.Upload.Job.Advance.{Finish, advance}

-- `zb_upload_engine_new`: the number of transfers at a time, an int.
unfoldable pub clamp_concurrency : ℤ → ℕ
clamp_concurrency (negsuc n) = 1
clamp_concurrency (pos n) = if ltb n 1 then 1 else if ltb 16 n then 16 else n

pub data ResumeMode : Type 0 where
  resume_ask resume_always resume_never : ResumeMode

-- What `zb_stat` says of a path.
pub record StatInfo : Type 0 where
  pub is_dir : Bool
  pub size : ℕ
  pub mtime : ℤ

abbrev is_none : Option Bytes → Bool
is_none none = true
is_none (some t) = false

abbrev pub max_upload_bytes : ℕ
max_upload_bytes = 25 * 1024 * 1024 * 1024

module _ {J : Type 0} where
  unfoldable pub new_job : StatInfo → Bytes → Bytes → Bytes → Job J
  new_job info path filename mime_type = record {
    path = path;
    filename = filename;
    mime_type = mime_type;
    size = info.size;
    mtime = info.mtime;
    state = State.job_start;
    position = 0;
    token = none;
    delete_token = none;
    chunk_size = 0;
    total_chunks = 0;
    sent = [];
    chunk_index = 0;
    chunk_offset = 0;
    chunk_length = 0;
    chunk_remaining = 0;
    attempt = 0;
    init_retries = 0;
    reconcile_rounds = 0;
    complete_attempts = 0;
    retry_state = State.job_start;
    wake_at_ms = 0;
    used_single_shot = false;
    resumed = false;
    resume_allowed = false;
    easy = false;
    confirmed_bytes = 0;
    live_bytes = 0;
    result = none;
    error = Status.ok;
    status = Status.ok;
  }

  -- `zb_upload_engine_add`: the jobs after it. `opened` is `zb_fopen`, `grown` the growth of the array.
  unfoldable pub add_job :
      Option StatInfo
      → (copied_ok opened grown : Bool) → Bytes
      → Bytes
      → Bytes
      → List (Job J)
      → List (Job J) × Status
  add_job none copied_ok opened grown path filename mime_type jobs = (jobs, Status.io)
  add_job (some info) copied_ok opened grown path filename mime_type jobs =
      if info.is_dir
      then (jobs, Status.usage)
      else if ltb max_upload_bytes info.size
      then (jobs, Status.usage)
      else if not copied_ok
      then (jobs, Status.nomem)
      else if not opened
      then (jobs, Status.io)
      else if not grown
      then (jobs, Status.nomem)
      else (snoc jobs (new_job info path filename mime_type), Status.ok)

  -- The marks of the session, from chunk `i` on.
  unfoldable pub take_marks : Session → Job J → ℕ → ℕ → Job J
  take_marks session job zero i = job
  take_marks session job (suc left) i =
      take_marks session
        (if Sessions.session_has session i
          then record job { sent = Bitmap.mark job.sent i }
          else job)
        left (i + 1)

  -- A fresh upload: in one request, or with init.
  unfoldable pub start_fresh : Calls → Engine J → Job J → Engine J × Job J
  start_fresh calls engine job =
      if engine.single_shot
        && is_none engine.collection_token
        && ltb 0 job.size
        && leb job.size engine.single_shot_max
      then or_fail (start_single_shot calls engine job)
      else or_fail (start_init calls engine job)

  unfoldable pub resume_session : Calls → Engine J → Job J → Session → Bytes → Engine J × Job J
  unfolding take_marks start_fresh
  resume_session calls engine job session token =
      let known = record job {
        token = copied calls (some token);
        delete_token = copied calls session.delete_token;
        chunk_size = session.chunk_size;
      } in
      let (ready, allocated) = alloc_bitmap calls known session.total_chunks in
      if not calls.copy_ok
      then start_fresh calls engine (record known { token = none })
      else if not allocated
      then start_fresh calls engine (record ready { token = none })
      else or_fail (
          start_status calls engine
            (recount (record (take_marks session ready session.total_chunks 0) { resumed = true })))

  unfoldable pub kick_off_from : Calls → Engine J → Job J → Option Session → Engine J × Job J
  unfolding resume_session start_fresh
  kick_off_from calls engine job none = start_fresh calls engine job
  kick_off_from calls engine job (some session) = elim session.token [
    | none ↦ start_fresh calls engine job
    | some token ↦ resume_session calls engine job session token
  ]

  -- `job_kick_off`
  unfoldable pub kick_off : Calls → Engine J → Job J → Engine J × Job J
  unfolding kick_off_from
  kick_off calls engine job = kick_off_from calls engine job (
      if job.resume_allowed
      then Sessions.find_source engine.sessions job.path job.size job.mtime
      else none)

  -- `zb_upload_engine_resolve_resume` of one job; `confirm` is the callback, given what is done.
  unfoldable pub resolve_resume :
      Engine J → ResumeMode → Option (Bytes → ℕ → ℕ → Bool) → Job J → Job J
  resolve_resume engine ResumeMode.resume_never confirm job = record job { resume_allowed = false }
  resolve_resume engine mode confirm job = record job {
    resume_allowed = (elim (Sessions.find_source engine.sessions job.path job.size job.mtime) [
      | none ↦ false
      | some session ↦ elim mode [
        | ResumeMode.resume_always ↦ true
        | _ ↦ elim confirm [
          | none ↦ false
          | some ask ↦
              let sent = u64 (Sessions.count_sent session * session.chunk_size) in
              ask job.path (if ltb job.size sent then job.size else sent) job.size
        ]
      ]
    ]);
  }

  abbrev pub is_active : Job J → Bool
  is_active job = elim job.state [ State.job_done ↦ false | State.job_failed ↦ false | _ ↦ true ]

  -- A retry of the request that `retry_state` names.
  unfoldable pub retry_in : Calls → Engine J → Job J → State → Engine J × Job J
  retry_in calls engine job State.job_status = or_fail (start_status calls engine job)
  retry_in calls engine job State.job_verify = or_fail (start_verify calls engine job)
  retry_in calls engine job _ = or_fail (start_complete calls engine job)

  unfoldable pub retry_control : Calls → Engine J → Job J → Engine J × Job J
  unfolding retry_in
  retry_control calls engine job = retry_in calls engine job job.retry_state

  -- What a round does with a job in this state for which there is room.
  unfoldable pub turn_in : Calls → (due : Bool) → Engine J → Job J → State → Engine J × Job J
  turn_in calls due engine job State.job_start = kick_off calls engine job
  turn_in calls due engine job State.job_init_backoff =
      if due then or_fail (start_init calls engine job) else (engine, job)
  turn_in calls due engine job State.job_chunk_backoff =
      if due then or_fail (start_chunk calls engine job job.chunk_index) else (engine, job)
  turn_in calls due engine job State.job_control_backoff =
      if due then retry_control calls engine job else (engine, job)
  turn_in calls due engine job _ = (engine, job)

  -- The turn of one job in a round of `zb_upload_engine_run` at time `now`.
  unfoldable pub turn : Calls → (concurrency now : ℕ) → Engine J → Job J → Engine J × Job J
  unfolding turn_in
  turn calls concurrency now engine job =
      if not (is_active job) || job.easy || leb concurrency engine.in_flight
      then (engine, job)
      else turn_in calls (leb job.wake_at_ms now) engine job job.state

  -- The first loop of a round: every job in order, each with the outcomes of its own calls.
  unfoldable pub start_ready :
      (ℕ → Calls) → (concurrency now : ℕ) → ℕ → Engine J → List (Job J) → Engine J × List (Job J)
  start_ready calls concurrency now i engine [] = (engine, [])
  start_ready calls concurrency now i engine (job ∷ jobs) =
      let (engine', job') = turn (calls i) concurrency now engine job in
      let (engine'', jobs') = start_ready calls concurrency now (i + 1) engine' jobs in
      (engine'', job' ∷ jobs')

  -- `engine_abort`
  unfoldable pub abort_jobs : Engine J → List (Job J) → Engine J × List (Job J)
  abort_jobs engine [] = (engine, [])
  abort_jobs engine (job ∷ jobs) =
      let (freed, idle) = release_transfer engine job in
      let stopped = record idle {
        error = if is_ok idle.error then Status.canceled else idle.error;
        state = State.job_failed;
        status = Status.canceled;
      } in
      let (after, rest) = abort_jobs freed jobs in
      let (after', rest') = abort_jobs engine jobs in
      if is_active job then (after, stopped ∷ rest) else (after', job ∷ rest')

  -- What `zb_upload_engine_run` returns when it was neither cancelled nor failed.
  unfoldable pub run_result : List (Job J) → Status
  run_result [] = Status.ok
  run_result (job ∷ jobs) =
      let rest = run_result jobs in if is_ok job.status then rest else job.status

-- One event of a job: its turn in a round, or the end of its transfer.
pub data Event (J : Type 0) : Type 0 where
  a_turn : (calls : Calls) (concurrency now : ℕ) → Event J
  an_end : (calls : Calls) (job_index : ℕ) → Finish J → Event J

unfoldable pub event_step :
    (c : CJson) → Event c.Node → Engine c.Node → Job c.Node → Engine c.Node × Job c.Node
event_step c (Event.a_turn calls concurrency now) engine job = turn calls concurrency now engine job
event_step c (Event.an_end calls job_index finish) engine job =
    advance c calls job_index finish engine job

module _ (c : CJson) where
  -- A message of the drain loop, for the job at an index: the search for its handle, and `job_advance`. A
  -- job without a transfer has no handle that a message could name.
  unfoldable pub message_at :
      Calls
      → ℕ
      → Finish c.Node
      → ℕ
      → Engine c.Node
      → List (Job c.Node)
      → Engine c.Node × List (Job c.Node)
  message_at calls job_index finish left engine [] = (engine, [])
  message_at calls job_index finish zero engine (job ∷ jobs) =
      let (engine', job') = advance c calls job_index finish engine job in
      if job.easy then (engine', job' ∷ jobs) else (engine, job ∷ jobs)
  message_at calls job_index finish (suc left) engine (job ∷ jobs) =
      let (engine', jobs') = message_at calls job_index finish left engine jobs in
      (engine', job ∷ jobs')

  -- The second loop of a round, over the messages that libcurl has.
  unfoldable pub drain :
      List (Calls × ℕ × Finish c.Node)
      → Engine c.Node
      → List (Job c.Node)
      → Engine c.Node × List (Job c.Node)
  unfolding message_at
  drain [] engine jobs = (engine, jobs)
  drain ((calls, job_index, finish) ∷ messages) engine jobs =
      let (engine', jobs') = message_at calls job_index finish job_index engine jobs in
      drain messages engine' jobs'

  -- A round of `zb_upload_engine_run` that is not interrupted, up to its pause: what is ready is started,
  -- and what has ended is handled.
  unfoldable pub round :
      (ℕ → Calls)
      → (concurrency now : ℕ) → List (Calls × ℕ × Finish c.Node)
      → Engine c.Node
      → List (Job c.Node)
      → Engine c.Node × List (Job c.Node)
  unfolding drain
  round calls concurrency now messages engine jobs =
      let (engine', jobs') = start_ready calls concurrency now 0 engine jobs in
      drain messages engine' jobs'
