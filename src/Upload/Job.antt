-- ===== src/Upload/Job.antt =====
-- api/upload.c: a job, what the engine shares with it, and the requests that a job starts. A function
-- of the source that changes the engine and the job takes both and returns both.
pub mod Body
pub mod Advance
pub mod Schedule
use zhuzhbox_cli.Base.{
  ℕ, zero, suc, ◌+◌, ◌-◌, ◌*◌, ◌^◌, Bool, true, false, not, ◌&&◌, ◌||◌, Option, none, some, List,
  [], ◌∷◌, ltb, leb, ◌==◌, if◌then◌else◌, Bytes, snoc,
}
use zhuzhbox_cli.Base.Int.{ℤ}
use zhuzhbox_cli.Error.{Status, is_ok}
use zhuzhbox_cli.Store.Alloc.{Alloc}
use zhuzhbox_cli.Store.Sessions
use zhuzhbox_cli.Store.Sessions.{Session, Sessions}
use zhuzhbox_cli.Upload.Bitmap
use zhuzhbox_cli.Upload.Geometry.{Layout, u64}
use zhuzhbox_cli.Upload.Geometry

-- `job_state`, in the source's order
pub data State : Type 0 where
  job_start job_init job_init_backoff job_status job_chunk job_chunk_backoff job_control_backoff :
      State
  job_complete job_verify job_sharex job_done job_failed : State

-- `zb_job`. `easy` is whether it has a transfer handle, `position` where its file stands, `J` a JSON
-- value. `error` is the status of its error record.
pub record Job (J : Type 0) : Type 0 where
  pub path : Bytes
  pub filename : Bytes
  pub mime_type : Bytes
  pub size : ℕ
  pub mtime : ℤ
  pub state : State
  pub position : ℕ
  pub token : Option Bytes
  pub delete_token : Option Bytes
  pub chunk_size : ℕ
  pub total_chunks : ℕ
  pub sent : Bytes
  pub chunk_index : ℕ
  pub chunk_offset : ℕ
  pub chunk_length : ℕ
  pub chunk_remaining : ℕ
  pub attempt : ℕ
  pub init_retries : ℕ
  pub reconcile_rounds : ℕ
  pub complete_attempts : ℕ
  pub retry_state : State
  pub wake_at_ms : ℕ
  pub used_single_shot : Bool
  pub resumed : Bool
  pub resume_allowed : Bool
  pub easy : Bool
  pub confirmed_bytes : ℕ
  pub live_bytes : ℕ
  pub result : Option J
  pub error : Status
  pub status : Status

-- What a job asks the server for, with the token it names.
pub data Request : Type 0 where
  post_init post_sharex : Request
  get_status post_complete get_file : Option Bytes → Request
  put_chunk : Option Bytes → (index offset length : ℕ) → Request

-- `zb_upload_engine` without its jobs. `requests` are the transfers that were scheduled, `saves` what
-- `zb_sessions_save` was given, `completed` the calls of `on_complete`, each in order.
pub record Engine (J : Type 0) : Type 0 where
  pub base_dir : Option Bytes
  pub collection_token : Option Bytes
  pub single_shot : Bool
  pub single_shot_max : ℕ
  pub download_host : Bytes
  pub in_flight : ℕ
  pub sessions : Sessions
  pub requests : List Request
  pub saves : List Sessions
  pub completed : List (ℕ × Option J)

-- The outcomes of the calls of one step: allocation, the file, libcurl, the clocks. `added` is
-- `curl_multi_add_handle`, `header_ok` the growth of the header list after it.
pub record Calls : Type 0 where
  pub copy_ok : Bool
  pub calloc_ok : Bool
  pub path_ok : Bool
  pub seek_ok : Bool
  pub url_ok : Bool
  pub easy_ok : Bool
  pub body_ok : Bool
  pub added : Bool
  pub header_ok : Bool
  pub alloc : Alloc
  pub now_ms : ℕ
  pub now_unix : ℤ

abbrev pub max_retries : ℕ
max_retries = 5

abbrev pub max_reconcile_rounds : ℕ
max_reconcile_rounds = 3

abbrev pub max_retry_after : ℕ
max_retry_after = 300

-- `ZB_CHUNK_BACKOFF_MS`
unfoldable pub backoff_ms : ℕ → ℕ
backoff_ms attempt = if ltb 5000 (1000 * (attempt + 1)) then 5000 else 1000 * (attempt + 1)

abbrev pub copied : Calls → Option Bytes → Option Bytes
copied calls text = if calls.copy_ok then text else none

-- The loop of `engine_persist_session` that copies the marks, at chunk `i`.
unfoldable pub copy_marks : Bytes → Session → ℕ → ℕ → Session
copy_marks sent session zero i = session
copy_marks sent session (suc left) i =
    copy_marks sent (if Bitmap.has sent i then Sessions.session_mark session i else session) left
      (i + 1)

module _ {J : Type 0} where
  abbrev pub layout : Job J → Layout
  layout job = record {
    size = job.size;
    chunk_size = job.chunk_size;
    total_chunks = job.total_chunks;
  }

  -- `job_alloc_bitmap`: the job after it, and whether it returned 0.
  unfoldable pub alloc_bitmap : Calls → Job J → ℕ → Job J × Bool
  alloc_bitmap calls job total =
      if total == 0 || ltb (2 ^ 32) total
      then (job, false)
      else elim (Bitmap.alloc_bitmap calls.calloc_ok total) [
        | none ↦ (record job { sent = [] }, false)
        | some block ↦ (record job { sent = block; total_chunks = total }, true)
      ]

  unfoldable pub recount : Job J → Job J
  recount job =
      let total = Geometry.recount_confirmed (layout job) job.sent in
      record job { confirmed_bytes = total; live_bytes = total }

  unfoldable pub release_transfer : Engine J → Job J → Engine J × Job J
  release_transfer engine job =
      if job.easy
      then (record engine { in_flight = engine.in_flight - 1 }, record job { easy = false })
      else (engine, job)

  unfoldable pub job_fail : Job J → Status → Job J
  job_fail job status =
      let why = if is_ok status then Status.proto else status in
      record job {
        state = State.job_failed;
        status = why;
        error = if is_ok job.error then why else job.error;
      }

  abbrev session_of : Calls → Engine J → Job J → Session
  session_of calls engine job = record {
    token = copied calls job.token;
    delete_token = copied calls job.delete_token;
    source_path = copied calls (some job.path);
    filename = copied calls (some job.filename);
    mime_type = copied calls (some job.mime_type);
    collection_token = copied calls engine.collection_token;
    size = job.size;
    mtime = job.mtime;
    chunk_size = job.chunk_size;
    total_chunks = 0;
    sent = [];
    updated_at = calls.now_unix;
  }

  abbrev save_session : Calls → Engine J → Session → Engine J
  save_session calls engine session =
      let after = (Sessions.put calls.alloc engine.sessions session).0 in
      record engine { sessions = after; saves = snoc engine.saves after }

  unfoldable pub persist_session : Calls → Engine J → Job J → Engine J
  unfolding copy_marks
  persist_session calls engine job = elim engine.base_dir [
    | none ↦ engine
    | some dir ↦ elim (copied calls job.token) [
      | none ↦ engine
      | some token ↦
          elim (Sessions.session_alloc_bitmap calls.calloc_ok (session_of calls engine job)
            job.total_chunks) [
              | none ↦ engine
              | some session ↦
                  save_session calls engine (copy_marks job.sent session job.total_chunks 0)
            ]
    ]
  ]

  unfoldable pub drop_session : Engine J → Option Bytes → Engine J
  drop_session engine none = engine
  drop_session engine (some token) = elim engine.base_dir [
    | none ↦ engine
    | some dir ↦
        let (after, removed) = Sessions.remove engine.sessions token in
        if removed
        then record engine { sessions = after; saves = snoc engine.saves after }
        else engine
  ]

  -- `job_begin_request`
  unfoldable pub begin_request :
      Calls → Bool → Request → Engine J → Job J → Engine J × Job J × Status
  begin_request calls with_body request engine job =
      let (freed, idle) = release_transfer engine job in
      if not calls.url_ok
      then (freed, record idle { error = Status.nomem }, Status.nomem)
      else if not calls.easy_ok
      then (freed, record idle { error = Status.net }, Status.net)
      else if with_body && not calls.body_ok
      then (freed, record idle { easy = true; error = Status.nomem }, Status.nomem)
      else if not calls.added
      then (freed, record idle { easy = true; error = Status.net }, Status.net)
      else (
        record freed { in_flight = freed.in_flight + 1; requests = snoc freed.requests request },
        record idle { easy = true },
        Status.ok,
      )

  -- A request without a body and with a path of its own; the job is in `state` when it is scheduled.
  unfoldable pub start_plain :
      Calls → Request → State → Engine J → Job J → Engine J × Job J × Status
  start_plain calls request state engine job =
      if not calls.path_ok
      then (engine, record job { error = Status.nomem }, Status.nomem)
      else let (engine', job', rc) = begin_request calls false request engine job in
        if not (is_ok rc)
        then (engine', job', rc)
        else (engine', record job' { state = state }, Status.ok)

  unfoldable pub start_status : Calls → Engine J → Job J → Engine J × Job J × Status
  unfolding start_plain
  start_status calls engine job =
      start_plain calls (Request.get_status job.token) State.job_status engine job

  unfoldable pub start_complete : Calls → Engine J → Job J → Engine J × Job J × Status
  unfolding start_plain
  start_complete calls engine job =
      let (engine', job', rc) =
        start_plain calls (Request.post_complete job.token) State.job_complete engine job in
      if not (is_ok rc)
      then (engine', job', rc)
      else (engine', record job' { complete_attempts = job'.complete_attempts + 1 }, Status.ok)

  unfoldable pub start_verify : Calls → Engine J → Job J → Engine J × Job J × Status
  unfolding start_plain
  start_verify calls engine job =
      start_plain calls (Request.get_file job.token) State.job_verify engine job

  unfoldable pub start_init : Calls → Engine J → Job J → Engine J × Job J × Status
  start_init calls engine job =
      let (engine', job', rc) = begin_request calls true Request.post_init engine job in
      if not (is_ok rc)
      then (engine', job', rc)
      else (engine', record job' { state = State.job_init }, Status.ok)

  -- The fields that `job_start_chunk` sets first; `position` is that of the seek.
  abbrev aim : Job J → ℕ → Job J
  aim job index =
      let length = Geometry.chunk_length (layout job) index in
      let offset = u64 (index * job.chunk_size) in
      record job {
        chunk_index = index;
        chunk_offset = offset;
        chunk_length = length;
        chunk_remaining = length;
      }

  -- The header list is grown after the transfer is scheduled.
  unfoldable pub start_chunk : Calls → Engine J → Job J → ℕ → Engine J × Job J × Status
  start_chunk calls engine job index =
      let aimed = aim job index in
      let at = record aimed { position = aimed.chunk_offset } in
      if not calls.seek_ok
      then (engine, record aimed { error = Status.io }, Status.io)
      else if not calls.path_ok
      then (engine, record at { error = Status.nomem }, Status.nomem)
      else let (engine', job', rc) =
          begin_request calls false
            (Request.put_chunk job.token index at.chunk_offset at.chunk_length) engine at in
        if not (is_ok rc)
        then (engine', job', rc)
        else if calls.header_ok
        then (engine', record job' { state = State.job_chunk }, Status.ok)
        else (engine', record job' { error = Status.nomem }, Status.nomem)

  unfoldable pub start_single_shot : Calls → Engine J → Job J → Engine J × Job J × Status
  start_single_shot calls engine job =
      let at = record job {
        position = 0;
        chunk_offset = 0;
        chunk_length = job.size;
        chunk_remaining = job.size;
      } in
      if not calls.seek_ok
      then (engine, record job { error = Status.io }, Status.io)
      else let (engine', job', rc) = begin_request calls false Request.post_sharex engine at in
        if not (is_ok rc)
        then (engine', job', rc)
        else if calls.header_ok
        then (engine', record job' { used_single_shot = true; state = State.job_sharex }, Status.ok)
        else (engine', record job' { error = Status.nomem }, Status.nomem)

  -- `if (start(...) != ZB_OK) { job_fail(job, job->error.status); }`
  abbrev pub or_fail : Engine J × Job J × Status → Engine J × Job J
  or_fail (engine, job, Status.ok) = (engine, job)
  or_fail (engine, job, rc) = (engine, job_fail job job.error)

  unfoldable pub job_succeed : Engine J → Job J → Option J → ℕ → Engine J × Job J
  job_succeed engine job result job_index =
      let dropped = drop_session engine job.token in
      (
        record dropped { completed = snoc dropped.completed (job_index, result) },
        record job {
          result = result;
          state = State.job_done;
          status = Status.ok;
          confirmed_bytes = job.size;
          live_bytes = job.size;
        },
      )
