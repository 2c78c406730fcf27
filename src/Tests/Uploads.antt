-- ===== src/Tests/Uploads.antt =====
-- The theorems on api/upload.c at a file of ten bytes in three chunks.
use zhuzhbox_cli.Base.{
  List, ◌+◌, ◌-◌, length, take, drop, ◌≤◌, ◌≡◌, ◌↔◌, true, false, none, some, [], ◌∷◌, arith, codes,
  refl, inl,
}
use zhuzhbox_cli.Base.Int.{pos}
use zhuzhbox_cli.Error.{is_ok}
use zhuzhbox_cli.Json.Concrete.{Tree}
use zhuzhbox_cli.Store.Sessions.{Session, no_sessions}
use zhuzhbox_cli.Upload.Bitmap.{has, alloc_bitmap}
use zhuzhbox_cli.Upload.Bitmap.Laws.{alloc_bitmap-IsFresh}
use zhuzhbox_cli.Upload.Geometry.{u64, Layout, geometry_is_sane, recount_confirmed, next_missing}
use zhuzhbox_cli.Upload.Geometry.Tiling.{
  covered, geometry_is_sane-covered, Fits, geometry_is_sane-Fits,
}
use zhuzhbox_cli.Upload.Geometry.Missing.{
  HasFrom, IsFirstGap, next_missing-IsFirstGap, recount_confirmed_full_iff,
}
use zhuzhbox_cli.Upload.Job.{State, Job, Engine, Calls, copy_marks}
use zhuzhbox_cli.Upload.Job.Advance.{advance_broken}
use zhuzhbox_cli.Upload.Job.Schedule.{new_job, take_marks}
use zhuzhbox_cli.Upload.Job.Advance.{Finish}
use zhuzhbox_cli.Json.Concrete.{tree_json}
use zhuzhbox_cli.Upload.Job.Schedule.{Event, event_step}
use zhuzhbox_cli.Upload.Job.Body.{BodyCall, body_run, body_step, chunk_read, read_want, chunk_seek}
use zhuzhbox_cli.Upload.Job.Body.Stream.{body_run-exact}
use zhuzhbox_cli.Upload.Job.Advance.Order.{IsConsistent, Asks}
use zhuzhbox_cli.Upload.Job.Advance.Events.{event_step-Asks}
use zhuzhbox_cli.Upload.Job.Advance.Budget.{ends_well}
use zhuzhbox_cli.Upload.Job.Advance.Repeats.{no_tries}
use zhuzhbox_cli.Upload.Job.Advance.History.{history, history-bounded}
use zhuzhbox_cli.Upload.Job.Schedule.Laws.{advance_broken-not_repeated}
use zhuzhbox_cli.Upload.Job.Schedule.Marks.{take_marks-copy_marks}

abbrev calls : Calls
calls = record {
  copy_ok = true;
  calloc_ok = true;
  path_ok = true;
  seek_ok = true;
  url_ok = true;
  easy_ok = true;
  body_ok = true;
  added = true;
  header_ok = true;
  alloc = record { copy_ok = true; grow_ok = true };
  now_ms = 1000;
  now_unix = pos 1700000000;
}

abbrev engine : Engine Tree
engine = record {
  base_dir = some (codes "/home/u");
  collection_token = none;
  single_shot = true;
  single_shot_max = 4;
  download_host = codes "https://zhuzhbox.test";
  in_flight = 1;
  sessions = no_sessions;
  requests = [];
  saves = [];
  completed = [];
}

abbrev queued : Job Tree
queued =
    new_job (record { is_dir = false; size = 10; mtime = pos 5 }) (codes "/tmp/a") (codes "a")
      (codes "text/plain")

-- The second of three chunks is in flight.
abbrev sending : Job Tree
sending = record (queued) {
  state = State.job_chunk;
  token = some (codes "abcdef");
  chunk_size = 4;
  total_chunks = 3;
  sent = 1 ∷ [];
  chunk_index = 1;
  easy = true;
}

abbrev replied : Event Tree
replied = Event.an_end calls 0 (Finish.replied 200 none none)

second_missing : has (1 ∷ []) 1 ≡ false
unfolding has
second_missing = refl

event_step-Asks_example :
    let (engine', job') = event_step tree_json replied engine sending in
    IsConsistent job' × Asks State.job_chunk [] engine'.requests job'
event_step-Asks_example =
    event_step-Asks tree_json replied engine sending (omega arith, second_missing)

-- Started, refused for lack of capacity, and started again.
abbrev busy : List (Event Tree × Engine Tree)
busy =
    (Event.a_turn calls 2 1000, engine)
    ∷ (Event.an_end calls 0 (Finish.replied 503 (some 2) none), engine)
    ∷ (Event.a_turn calls 2 9000, engine)
    ∷ []

history-bounded_example :
    let (after, tally) =
      history tree_json busy
        (new_job
          (record { is_dir = false; size = 10; mtime = pos 5 })
          (codes "/tmp/a")
          (codes "a")
          (codes "text/plain"))
        no_tries in
    (tally.repeats ≤ 5)
    × (tally.reconciles ≤ 3)
    × (tally.waits ≤ 1)
    × (ends_well after.state after.status ≡ true)
history-bounded_example =
    history-bounded tree_json (record { is_dir = false; size = 10; mtime = pos 5 }) (codes "/tmp/a")
      (codes "a") (codes "text/plain") busy

abbrev beginning : Job Tree
beginning = record (queued) { state = State.job_init; easy = true }

advance_broken-not_repeated_example :
    let (engine', job') = advance_broken calls false engine beginning in
    (job'.state ≡ State.job_failed) × (is_ok job'.status ≡ false) × (engine'.requests ≡ [])
advance_broken-not_repeated_example =
    advance_broken-not_repeated calls false engine beginning (inl refl)

abbrev ten : Layout
ten = record { size = 10; chunk_size = 4; total_chunks = 3 }

ten_is_sane : geometry_is_sane ten ≡ true
unfolding geometry_is_sane
ten_is_sane = refl

geometry_is_sane-covered_example : covered ten 3 ≡ 10
geometry_is_sane-covered_example = geometry_is_sane-covered ten ten_is_sane

geometry_is_sane-Fits_example : Fits ten 2
geometry_is_sane-Fits_example = geometry_is_sane-Fits ten 2 ten_is_sane (omega arith)

next_missing-IsFirstGap_example : IsFirstGap (5 ∷ []) 0 3 (next_missing (5 ∷ []) 3)
next_missing-IsFirstGap_example = next_missing-IsFirstGap (5 ∷ []) 3

recount_confirmed_full_iff_example :
    (recount_confirmed ten (5 ∷ []) ≤ 10)
    × ((recount_confirmed ten (5 ∷ []) ≡ 10) ↔ HasFrom (5 ∷ []) 0 3)
recount_confirmed_full_iff_example =
    recount_confirmed_full_iff ten (5 ∷ []) ten_is_sane (omega arith) (omega arith)

three_bits : alloc_bitmap true 3 ≡ some (0 ∷ [])
unfolding alloc_bitmap
three_bits = refl

abbrev saved : Session
saved = record {
  token = some (codes "abcdef");
  delete_token = none;
  source_path = some (codes "/tmp/a");
  filename = some (codes "a");
  mime_type = none;
  collection_token = none;
  size = 10;
  mtime = pos 5;
  chunk_size = 4;
  total_chunks = 3;
  sent = 0 ∷ [];
  updated_at = pos 9;
}

abbrev emptied : Job Tree
emptied = record (queued) { sent = 0 ∷ []; total_chunks = 3 }

take_marks-copy_marks_example :
    has (take_marks (copy_marks (5 ∷ []) saved 3 0) emptied 3 0).sent 2 ≡ has (5 ∷ []) 2
take_marks-copy_marks_example =
    take_marks-copy_marks (5 ∷ []) saved emptied 3 2 (alloc_bitmap-IsFresh true 3 three_bits)
      (alloc_bitmap-IsFresh true 3 three_bits) (omega arith)

-- At the second chunk of ten bytes: a short read, a seek back, and the whole chunk.
abbrev streaming : Job Tree
streaming = record (queued) {
  position = 4;
  chunk_offset = 4;
  chunk_length = 4;
  chunk_remaining = 4;
}

abbrev pulls : List BodyCall
pulls =
    BodyCall.a_read (record { most = 2; error = false }) 1 16
    ∷ BodyCall.a_seek true true (pos 0)
    ∷ BodyCall.a_read (record { most = 16; error = false }) 1 16
    ∷ []

body_run-exact_example :
    let (after, sent) =
      body_run (codes "0123456789") pulls (streaming, record { from = 0; bytes = [] }) in
    let count = 4 - (sent.from + after.chunk_remaining) in
    (sent.bytes ≡ take count (drop (4 + sent.from) (codes "0123456789")))
    × (length sent.bytes ≡ count)
    × (sent.from + after.chunk_remaining ≤ 4)
body_run-exact_example = body_run-exact (codes "0123456789") pulls streaming refl refl (omega arith)

pulled :
    (body_run (codes "0123456789") pulls (streaming, record { from = 0; bytes = [] })).1.bytes
    ≡ codes "4567"
unfolding body_run body_step chunk_read read_want chunk_seek u64
pulled = refl
