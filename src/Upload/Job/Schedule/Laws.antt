-- ===== src/Upload/Job/Schedule/Laws.antt =====
-- What the engine repeats, how it stops and what it returns.
use zhuzhbox_cli.Base.{
  ◌≡◌, ◌⊎◌, ◌↔◌, Bool, false, List, [], ◌∷◌, arith, Bool-cases, inl, inr, refl, All,
}
use zhuzhbox_cli.Error.{Status, is_ok}
use zhuzhbox_cli.Upload.Job.{State, Job, Engine, Calls, release_transfer, job_fail}
use zhuzhbox_cli.Upload.Job.Advance.{advance_broken}
use zhuzhbox_cli.Upload.Job.Schedule.{abort_jobs, run_result, is_active}

module _ {J : Type 0} where
  -- Neither init nor an upload in a single request is repeated when its transfer breaks: a job in the state
  -- job_init or job_sharex fails, with a status that is not OK, and nothing is asked for.
  pub advance_broken-not_repeated :
      (calls : Calls) (canceled : Bool) (engine : Engine J) (job : Job J)
      → (job.state ≡ State.job_init) ⊎ (job.state ≡ State.job_sharex)
      → let (engine', job') = advance_broken calls canceled engine job in
        (job'.state ≡ State.job_failed)
        × (is_ok job'.status ≡ false)
        × (engine'.requests ≡ engine.requests)
  unfolding advance_broken release_transfer job_fail
  advance_broken-not_repeated calls canceled engine job (inl init) = ground (arith, init)
  advance_broken-not_repeated calls canceled engine job (inr sharex) = ground (arith, sharex)

  abbrev pub IsIdle : Job J → Type 0
  IsIdle job = is_active job ≡ false

  -- After an abort no job is active.
  pub abort_jobs-IsIdle :
      (engine : Engine J) (jobs : List (Job J)) → All IsIdle (abort_jobs engine jobs).1
  unfolding abort_jobs release_transfer
  abort_jobs-IsIdle engine [] = tt
  abort_jobs-IsIdle engine (job ∷ jobs) = elim (Bool-cases (is_active job)) [
    | inl active ↦
        rw (active, abort_jobs) (refl, abort_jobs-IsIdle (release_transfer engine job).0 jobs)
    | inr idle ↦ rw (idle, abort_jobs) (idle, abort_jobs-IsIdle engine jobs)
  ]

  abbrev pub IsDone : Job J → Type 0
  IsDone job = job.status ≡ Status.ok

  -- The run returns OK exactly when every job has the status OK.
  pub run_result_iff : (jobs : List (Job J)) → (run_result jobs ≡ Status.ok) ↔ All IsDone jobs
  unfolding run_result
  run_result_iff [] = ground arith
  run_result_iff (job ∷ jobs) = ground (arith, run_result_iff jobs)
