-- ===== src/Upload/Job/Advance/Order.antt =====
-- What a job may ask the server for, and what its state says of it.
use zhuzhbox_cli.Base.{
  ℕ, ◌*◌, ◌≤◌, ◌<◌, ◌≡◌, ◌⊎◌, Bool, true, false, Option, List, Bytes, if◌then◌else◌, snoc, refl,
  sym, ap, subst, ◌∙◌,
}
use zhuzhbox_cli.Upload.Bitmap.{has}
use zhuzhbox_cli.Upload.Geometry.{Layout, u64, next_missing, chunk_length}
use zhuzhbox_cli.Upload.Job.{State, Job, Engine, Request, layout}

-- The states in which a job has asked for nothing yet, or was told to come back.
abbrev pub may_begin : State → Bool
may_begin State.job_start = true
may_begin State.job_init_backoff = true
may_begin _ = false

-- The request for a chunk of a file, with its place and its length.
abbrev pub chunk_request : Option Bytes → Layout → ℕ → Request
chunk_request token g index =
    Request.put_chunk token index (u64 (index * g.chunk_size)) (chunk_length g index)

module _ {J : Type 0} where
  -- The chunk that the job is at is one of the file's, and the server is not known to have it.
  abbrev pub IsAimed : Job J → Type 0
  IsAimed job = (job.chunk_index < job.total_chunks) × (has job.sent job.chunk_index ≡ false)

  -- No chunk is missing.
  abbrev pub IsFull : Job J → Type 0
  IsFull job = job.total_chunks ≤ next_missing job.sent job.total_chunks

  abbrev pub MayRetry : State → Job J → Type 0
  MayRetry State.job_status job = Unit
  MayRetry State.job_verify job = 2 ≤ job.complete_attempts
  MayRetry _ job = IsFull job

  abbrev pub MayBe : State → Job J → Type 0
  MayBe State.job_chunk job = IsAimed job
  MayBe State.job_chunk_backoff job = IsAimed job
  MayBe State.job_complete job = IsFull job
  MayBe State.job_verify job = 2 ≤ job.complete_attempts
  MayBe State.job_control_backoff job = MayRetry job.retry_state job
  MayBe _ job = Unit

  -- What the state of a job says of it.
  abbrev pub IsConsistent : Job J → Type 0
  IsConsistent job = MayBe job.state job

  -- From the log `before` to the log `after`, a job that was in the state `was` asked for nothing; or
  -- to begin; or for the status; or it sent the chunk that it is at, whole; or asked to complete with no
  -- chunk missing; or for the metadata after it had asked to complete twice.
  abbrev pub Asks : State → List Request → List Request → Job J → Type 0
  Asks was before after job =
      (after ≡ before)
      ⊎ ((after ≡ snoc before Request.post_init) × (may_begin was ≡ true))
      ⊎ ((after ≡ snoc before Request.post_sharex) × (was ≡ State.job_start))
      ⊎ (after ≡ snoc before (Request.get_status job.token))
      ⊎ ((after ≡ snoc before (chunk_request job.token (layout job) job.chunk_index)) × IsAimed job)
      ⊎ ((after ≡ snoc before (Request.post_complete job.token)) × IsFull job)
      ⊎ ((after ≡ snoc before (Request.get_file job.token)) × (2 ≤ job.complete_attempts))

  pub record Good (was : State) (before : List Request) (x : Engine J × Job J) : Type 0 where
    pub consistent : IsConsistent x.1
    pub asks : Asks was before x.0.requests x.1

  pub if-Good :
      (was : State) (before : List Request) (b : Bool) (x y : Engine J × Job J)
      → (b ≡ true → Good was before x)
      → (b ≡ false → Good was before y)
      → Good was before (if b then x else y)
  if-Good was before true x y hx hy = hx refl
  if-Good was before false x y hx hy = hy refl

  -- What a request leaves of the job.
  abbrev pub Keeps : Job J → Job J → Type 0
  Keeps job after =
      (after.token ≡ job.token)
      × (after.size ≡ job.size)
      × (after.sent ≡ job.sent)
      × (after.chunk_size ≡ job.chunk_size)
      × (after.total_chunks ≡ job.total_chunks)
      × (after.chunk_index ≡ job.chunk_index)
      × (after.complete_attempts ≡ job.complete_attempts)

  abbrev pub kept : (job : Job J) → Keeps job job
  kept job = (refl, refl, refl, refl, refl, refl, refl)

  pub kept-attempts :
      (job after : Job J)
      → Keeps job after
      → 2 ≤ job.complete_attempts
      → 2 ≤ after.complete_attempts
  kept-attempts job after keeps h = subst (λ n. 2 ≤ n) (sym keeps.6) h

  pub kept-IsFull : (job after : Job J) → Keeps job after → IsFull job → IsFull after
  kept-IsFull job after keeps h =
      subst (λ n. n ≤ next_missing after.sent n) (sym keeps.4)
        (subst (λ s. job.total_chunks ≤ next_missing s job.total_chunks) (sym keeps.2) h)

  pub kept-IsAimed : (job after : Job J) → Keeps job after → IsAimed job → IsAimed after
  kept-IsAimed job after keeps h = (
    subst (λ n. after.chunk_index < n) (sym keeps.4)
        (subst (λ i. i < job.total_chunks) (sym keeps.5) h.0),
    ap (λ s. has s after.chunk_index) keeps.2 ∙ ap (has job.sent) keeps.5 ∙ h.1,
  )
