-- ===== src/Upload/Job/Advance.antt =====
-- `job_advance` of api/upload.c: what a finished request means, and the next state of its job. JSON is
-- that of `Json`, over the parameter `c`.
pub mod Budget
pub mod Repeats
pub mod History
pub mod Events
pub mod Order
pub mod Starts
use zhuzhbox_cli.Base.{
  ℕ, ◌+◌, ◌*◌, Bool, true, false, not, ◌&&◌, ◌||◌, Option, none, some, List, [], ◌∷◌, ◌++◌, ltb,
  leb, ◌==◌, if◌then◌else◌, Bytes, codes,
}
use zhuzhbox_cli.Error.{Status, is_ok}
use zhuzhbox_cli.Json.{
  CJson, json_get, json_get_str, json_as_u64, json_get_u64, json_items, json_obj_set_str,
}
use zhuzhbox_cli.Upload.Bitmap
use zhuzhbox_cli.Upload.Geometry
use zhuzhbox_cli.Upload.Job.{
  State, Job, Engine, Calls, max_retries, max_reconcile_rounds, max_retry_after, backoff_ms, copied,
  layout, alloc_bitmap, recount, release_transfer, job_fail, persist_session, drop_session,
  start_status, start_complete, start_verify, start_chunk, or_fail, job_succeed,
}

-- How a transfer ended: libcurl's error (cancelled, or of the network), or the server's reply with its
-- status, its Retry-After and its body, parsed.
pub data Finish (J : Type 0) : Type 0 where
  broken : (canceled : Bool) → Finish J
  replied : (http_status : ℕ) (retry_after : Option ℕ) (body : Option J) → Finish J

-- `zb_client_finish`: its result, and the body it hands over.
unfoldable pub client_finish : {J : Type 0} → ℕ → Option J → Status × Option J
client_finish http_status body =
    if leb 200 http_status && ltb http_status 300 then (Status.ok, body) else (Status.http, none)

-- The states whose request may be repeated after a network error.
abbrev pub is_repeatable : State → Bool
is_repeatable State.job_chunk = true
is_repeatable State.job_status = true
is_repeatable State.job_complete = true
is_repeatable State.job_verify = true
is_repeatable _ = false

abbrev pub is_failed : State → Bool
is_failed State.job_failed = true
is_failed _ = false

abbrev wait_of : Option ℕ → ℕ
wait_of none = 0
wait_of (some wait) = wait

abbrev token_text : Option Bytes → Bytes
token_text none = codes "(null)"
token_text (some token) = token

abbrev waiting_state : State → State
waiting_state State.job_chunk = State.job_chunk_backoff
waiting_state _ = State.job_control_backoff

module _ {J : Type 0} where
  unfoldable pub back_off : Calls → Job J → State → Job J
  back_off calls job state = record job {
    attempt = job.attempt + 1;
    wake_at_ms = calls.now_ms + backoff_ms (job.attempt + 1);
    state = state;
  }

  -- The transfer failed before a reply.
  unfoldable pub advance_broken : Calls → Bool → Engine J → Job J → Engine J × Job J
  advance_broken calls canceled engine job =
      if canceled
      then release_transfer engine
          (job_fail (record job { error = Status.canceled }) Status.canceled)
      else if is_repeatable job.state && ltb job.attempt max_retries
      then release_transfer engine
          (record (back_off calls job (waiting_state job.state)) { retry_state = job.state })
      else release_transfer engine (job_fail (record job { error = Status.net }) Status.net)

  -- A 503 that says when to come back, to a job that has not yet been told so.
  abbrev pub is_at_capacity : Job J → ℕ → Option ℕ → Bool
  is_at_capacity job http_status none = false
  is_at_capacity job http_status (some wait) =
      http_status == 503 && job.init_retries == 0 && leb wait max_retry_after

  -- The reply to init or to a single-request upload was an error.
  unfoldable pub init_rejected : Calls → ℕ → Option ℕ → Engine J → Job J → Engine J × Job J
  init_rejected calls http_status retry_after engine job =
      if is_at_capacity job http_status retry_after
      then (
        engine,
        record job {
          init_retries = job.init_retries + 1;
          wake_at_ms = calls.now_ms + wait_of retry_after * 1000 + 250;
          state = State.job_init_backoff;
          error = Status.ok;
        },
      )
      else (engine, job_fail job Status.http)

  unfoldable pub chunk_rejected : Calls → ℕ → Engine J → Job J → Engine J × Job J
  chunk_rejected calls http_status engine job =
      if http_status == 404
      then (drop_session engine job.token, job_fail job Status.http)
      else if leb 500 http_status && ltb job.attempt max_retries
      then (engine, record (back_off calls job State.job_chunk_backoff) { error = Status.ok })
      else (engine, job_fail job Status.http)

  unfoldable pub complete_rejected : Calls → ℕ → Engine J → Job J → Engine J × Job J
  complete_rejected calls http_status engine job =
      if http_status == 409 && ltb job.reconcile_rounds max_reconcile_rounds
      then or_fail (
          start_status calls engine
            (record job { reconcile_rounds = job.reconcile_rounds + 1; error = Status.ok }))
      else if not (http_status == 404)
      then (engine, job_fail job Status.http)
      else if ltb 1 job.complete_attempts
      then or_fail (start_verify calls engine (record job { error = Status.ok }))
      else (drop_session engine job.token, job_fail job Status.http)

  -- The server replied with an error to the request of a job in this state.
  unfoldable pub reject_in : Calls → ℕ → Option ℕ → Engine J → Job J → State → Engine J × Job J
  reject_in calls http_status retry_after engine job State.job_init =
      init_rejected calls http_status retry_after engine job
  reject_in calls http_status retry_after engine job State.job_sharex =
      init_rejected calls http_status retry_after engine job
  reject_in calls http_status retry_after engine job State.job_chunk =
      chunk_rejected calls http_status engine job
  reject_in calls http_status retry_after engine job State.job_complete =
      complete_rejected calls http_status engine job
  reject_in calls http_status retry_after engine job State.job_verify =
      (drop_session engine job.token, job_fail job Status.http)
  reject_in calls http_status retry_after engine job State.job_status = (
    if http_status == 404 then drop_session engine job.token else engine,
    job_fail job Status.http,
  )
  reject_in calls http_status retry_after engine job _ = (engine, job_fail job Status.http)

  unfoldable pub advance_rejected : Calls → ℕ → Option ℕ → Engine J → Job J → Engine J × Job J
  unfolding reject_in
  advance_rejected calls http_status retry_after engine job =
      reject_in calls http_status retry_after engine (record job { error = Status.http }) job.state

  -- The next gap, or completion.
  unfoldable pub next_request : Calls → Engine J → Job J → Engine J × Job J
  next_request calls engine job =
      let next = Geometry.next_missing job.sent job.total_chunks in
      if leb job.total_chunks next
      then or_fail (start_complete calls engine job)
      else or_fail (start_chunk calls engine job next)

  abbrev refuse : Job J → Job J
  refuse job = job_fail (record job { error = Status.proto }) Status.proto

module _ (c : CJson) where
  abbrev with_token : Calls → Job c.Node → Bytes → Option Bytes → ℕ → Job c.Node
  with_token calls job token delete_token chunk_size = record job {
    token = copied calls (some token);
    delete_token = (elim delete_token [ none ↦ job.delete_token | some d ↦ copied calls (some d) ]);
    chunk_size = chunk_size;
  }

  unfoldable pub init_layout :
      Calls → Engine c.Node → Job c.Node → Bytes → Option Bytes → ℕ → ℕ → Engine c.Node × Job c.Node
  init_layout calls engine job token delete_token chunk_size total_chunks =
      let named = with_token calls job token delete_token chunk_size in
      let (ready, allocated) = alloc_bitmap calls named total_chunks in
      if not calls.copy_ok
      then (engine, refuse named)
      else if not allocated || not (Geometry.geometry_is_sane (layout ready))
      then (engine, refuse ready)
      else let counted = recount ready in (persist_session calls engine counted, counted)

  unfoldable pub init_reply :
      Calls
      → Engine c.Node
      → Job c.Node
      → Option Bytes
      → Option Bytes
      → Option ℕ
      → Option ℕ
      → Engine c.Node × Job c.Node
  unfolding init_layout
  init_reply calls engine job (some token) delete_token (some chunk_size) (some total_chunks) =
      init_layout calls engine job token delete_token chunk_size total_chunks
  init_reply calls engine job _ delete_token _ _ = (engine, refuse job)

  unfoldable pub handle_init_response :
      Calls → Engine c.Node → Job c.Node → Option c.Node → Engine c.Node × Job c.Node
  unfolding init_reply
  handle_init_response calls engine job response =
      init_reply calls engine job (json_get_str c response (codes "token"))
        (json_get_str c response (codes "deleteToken"))
        (json_get_u64 c response (codes "chunkSize"))
        (json_get_u64 c response (codes "totalChunks"))

  -- One item of `receivedChunks`
  unfoldable pub mark_item : Job c.Node → c.Node → Job c.Node
  mark_item job item = elim (json_as_u64 c (some item)) [
    | none ↦ job
    | some index ↦
        (if ltb index job.total_chunks
          then record job { sent = Bitmap.mark job.sent index }
          else job)
  ]

  unfoldable pub mark_received : Job c.Node → List c.Node → Job c.Node
  mark_received job [] = job
  mark_received job (item ∷ items) = mark_received (mark_item job item) items

  unfoldable pub status_marks :
      Calls → Engine c.Node → Job c.Node → Option c.Node → Engine c.Node × Job c.Node
  unfolding mark_received
  status_marks calls engine job response =
      let marked =
        mark_received job (json_items c (json_get c response (codes "receivedChunks"))) in
      let counted = recount marked in (persist_session calls engine counted, counted)

  unfoldable pub status_layout :
      Calls → Engine c.Node → Job c.Node → Option c.Node → ℕ → ℕ → Engine c.Node × Job c.Node
  unfolding status_marks
  status_layout calls engine job response chunk_size total_chunks =
      let (ready, allocated) =
        alloc_bitmap calls (record job { chunk_size = chunk_size }) total_chunks in
      if not allocated || not (Geometry.geometry_is_sane (layout ready))
      then (engine, refuse ready)
      else status_marks calls engine ready response

  unfoldable pub status_reply :
      Calls
      → Engine c.Node
      → Job c.Node
      → Option c.Node
      → Option ℕ
      → Option ℕ
      → Engine c.Node × Job c.Node
  unfolding status_marks status_layout
  status_reply calls engine job response (some chunk_size) (some total_chunks) =
      status_layout calls engine job response chunk_size total_chunks
  status_reply calls engine job response _ _ = status_marks calls engine job response

  unfoldable pub handle_status_response :
      Calls → Engine c.Node → Job c.Node → Option c.Node → Engine c.Node × Job c.Node
  unfolding status_reply
  handle_status_response calls engine job response =
      status_reply calls engine job response (json_get_u64 c response (codes "chunkSize"))
        (json_get_u64 c response (codes "totalChunks"))

  unfoldable pub handle_chunk_response :
      Calls → Engine c.Node → Job c.Node → Engine c.Node × Job c.Node
  handle_chunk_response calls engine job =
      let counted =
        recount (record job { sent = Bitmap.mark job.sent job.chunk_index; attempt = 0 }) in
      (persist_session calls engine counted, counted)

  set_missing : c.Node → Bytes → Option Bytes → c.Node
  set_missing response key none = response
  set_missing response key (some value) = elim (json_get_str c (some response) key) [
    | some existing ↦ response
    | none ↦ json_obj_set_str c response key (some value)
  ]

  -- The metadata with the delete token and the address filled in, where they are missing.
  unfoldable pub complete_metadata :
      Calls → Engine c.Node → Job c.Node → Option c.Node → Option c.Node
  unfolding set_missing
  complete_metadata calls engine job none = none
  complete_metadata calls engine job (some response) =
      let url = engine.download_host ++ codes "/d/" ++ token_text job.token in
      let titled = set_missing response (codes "deleteToken") job.delete_token in
      some (set_missing titled (codes "url") (if calls.path_ok then some url else none))

  unfoldable pub proceed : Calls → Engine c.Node × Job c.Node → Engine c.Node × Job c.Node
  proceed calls (engine, job) =
      if is_failed job.state then (engine, job) else next_request calls engine job

  -- The server answered the request of a job in this state.
  unfoldable pub answer_in :
      Calls → ℕ → Option c.Node → Engine c.Node → Job c.Node → State → Engine c.Node × Job c.Node
  unfolding handle_chunk_response proceed
  answer_in calls job_index response engine job State.job_sharex =
      job_succeed engine job response job_index
  answer_in calls job_index response engine job State.job_init =
      proceed calls (handle_init_response calls engine job response)
  answer_in calls job_index response engine job State.job_status =
      proceed calls (handle_status_response calls engine job response)
  answer_in calls job_index response engine job State.job_chunk =
      let (engine', job') = handle_chunk_response calls engine job in
      next_request calls engine' job'
  answer_in calls job_index response engine job State.job_complete =
      job_succeed engine job response job_index
  answer_in calls job_index response engine job State.job_verify =
      job_succeed engine job (complete_metadata calls engine job response) job_index
  answer_in calls job_index response engine job _ = next_request calls engine job

  unfoldable pub advance_answered :
      Calls → ℕ → Option c.Node → Engine c.Node → Job c.Node → Engine c.Node × Job c.Node
  unfolding answer_in
  advance_answered calls job_index response engine job =
      answer_in calls job_index response engine job job.state

  unfoldable pub advance :
      Calls → ℕ → Finish c.Node → Engine c.Node → Job c.Node → Engine c.Node × Job c.Node
  advance calls job_index (Finish.broken canceled) engine job =
      advance_broken calls canceled engine job
  advance calls job_index (Finish.replied http_status retry_after body) engine job =
      let (rc, response) = client_finish http_status body in
      let (freed, idle) = release_transfer engine job in
      if is_ok rc
      then advance_answered calls job_index response freed idle
      else advance_rejected calls http_status retry_after freed idle
