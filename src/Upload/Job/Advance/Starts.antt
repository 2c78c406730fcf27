-- ===== src/Upload/Job/Advance/Starts.antt =====
-- Each request that a job starts: what it asks for, and the state that it leaves.
use zhuzhbox_cli.Base.{
  ℕ, ◌+◌, ◌-◌, ◌*◌, ◌≤◌, ◌<◌, ◌≡◌, Bool, true, false, not, ◌&&◌, List, arith, if◌then◌else◌, inl,
  inr, snoc, refl, sym, ap, subst, ◌∙◌, leb,
}
use zhuzhbox_cli.Error.{Status, is_ok}
use zhuzhbox_cli.Upload.Bitmap.{has}
use zhuzhbox_cli.Upload.Geometry.{u64, next_missing, chunk_length}
use zhuzhbox_cli.Upload.Geometry.Missing.{next_missing-IsFirstGap}
use zhuzhbox_cli.Upload.Job.{
  State, Job, Engine, Calls, Request, layout, release_transfer, job_fail, begin_request,
  start_plain, start_init, start_single_shot, start_status, start_complete, start_verify,
  start_chunk, or_fail,
}
use zhuzhbox_cli.Upload.Job.Advance.{next_request}
use zhuzhbox_cli.Upload.Job.Advance.Order.{
  may_begin, chunk_request, IsFull, MayBe, IsConsistent, Asks, Good, if-Good, Keeps, kept,
  kept-attempts, kept-IsFull, kept-IsAimed,
}

abbrev Started : Type 0 → Type 0
Started J = Engine J × Job J × Status

is_ok_of : (b : Bool) → not b ≡ false → b ≡ true
is_ok_of true e = refl
is_ok_of false e = cc

not_ok_of : (b : Bool) → not b ≡ true → b ≡ false
not_ok_of true e = cc
not_ok_of false e = refl

module _ {J : Type 0} where
  -- The same of a start that may have failed: then the job is about to fail.
  record Starts (was : State) (before : List Request) (x : Engine J × Job J × Status) : Type 0 where
    consistent : is_ok x.2 ≡ true → IsConsistent x.1
    asks : Asks was before x.0.requests x.1

  if-Starts :
      (was : State) (before : List Request) (b : Bool) (x y : Engine J × Job J × Status)
      → (b ≡ true → Starts was before x)
      → (b ≡ false → Starts was before y)
      → Starts was before (if b then x else y)
  if-Starts was before true x y hx hy = hx refl
  if-Starts was before false x y hx hy = hy refl

  end-Good :
      (was : State) (before : List Request) (x : Engine J × Job J × Status)
      → Starts was before x
      → Good was before (or_fail x)
  unfolding job_fail
  end-Good was before (engine, job, Status.ok) h = record {
    consistent = h.consistent refl;
    asks = h.asks;
  }
  end-Good was before (engine, job, Status.usage) h = record { consistent = tt; asks = h.asks }
  end-Good was before (engine, job, Status.io) h = record { consistent = tt; asks = h.asks }
  end-Good was before (engine, job, Status.net) h = record { consistent = tt; asks = h.asks }
  end-Good was before (engine, job, Status.http) h = record { consistent = tt; asks = h.asks }
  end-Good was before (engine, job, Status.proto) h = record { consistent = tt; asks = h.asks }
  end-Good was before (engine, job, Status.nomem) h = record { consistent = tt; asks = h.asks }
  end-Good was before (engine, job, Status.canceled) h = record { consistent = tt; asks = h.asks }

  record Released (before : List Request) (job : Job J) (x : Engine J × Job J) : Type 0 where
    same : x.0.requests ≡ before
    keeps : Keeps job x.1

  if-Released :
      (before : List Request) (job : Job J) (b : Bool) (x y : Engine J × Job J)
      → Released before job x
      → Released before job y
      → Released before job (if b then x else y)
  if-Released before job true x y hx hy = hx
  if-Released before job false x y hx hy = hy

  release-Released :
      (engine : Engine J) (job : Job J) → Released engine.requests job (release_transfer engine job)
  unfolding release_transfer
  release-Released engine job =
      if-Released engine.requests job job.easy
        (record engine { in_flight = engine.in_flight - 1 }, record job { easy = false })
        (engine, job) (record { same = refl; keeps = kept job })
        (record { same = refl; keeps = kept job })

  record Begun (r : Request) (before : List Request) (job : Job J) (x : Started J) : Type 0 where
    failed : is_ok x.2 ≡ false → x.0.requests ≡ before
    scheduled : is_ok x.2 ≡ true → x.0.requests ≡ snoc before r
    keeps : Keeps job x.1

  if-Begun :
      (request : Request) (before : List Request) (job : Job J) (b : Bool) (x y : Started J)
      → (b ≡ true → Begun request before job x)
      → (b ≡ false → Begun request before job y)
      → Begun request before job (if b then x else y)
  if-Begun request before job true x y hx hy = hx refl
  if-Begun request before job false x y hx hy = hy refl

  begin_request-Begun :
      (calls : Calls) (with_body : Bool) (request : Request) (engine : Engine J) (job : Job J)
      → Begun request engine.requests job (begin_request calls with_body request engine job)
  unfolding begin_request
  begin_request-Begun calls with_body request engine job =
      let r = release-Released engine job in
      if-Begun request engine.requests job (not calls.url_ok) _ _
        (λ e. record { failed = λ e. r.same; scheduled = λ e. cc; keeps = r.keeps })
        (λ e.
          if-Begun request engine.requests job (not calls.easy_ok) _ _
            (λ e. record { failed = λ e. r.same; scheduled = λ e. cc; keeps = r.keeps })
            (λ e.
              if-Begun request engine.requests job (with_body && not calls.body_ok) _ _
                (λ e. record { failed = λ e. r.same; scheduled = λ e. cc; keeps = r.keeps })
                (λ e.
                  if-Begun request engine.requests job (not calls.added) _ _
                    (λ e. record { failed = λ e. r.same; scheduled = λ e. cc; keeps = r.keeps })
                    (λ e. record {
                      failed = λ e. cc;
                      scheduled = λ e. ap (λ z. snoc z request) r.same;
                      keeps = r.keeps;
                    }))))

  -- A start that could not begin.
  idle-Starts :
      (was : State) (engine : Engine J) (job : Job J) (rc : Status)
      → is_ok rc ≡ false
      → Starts was engine.requests (engine, job, rc)
  idle-Starts was engine job rc e = record { consistent = λ f. cc; asks = inl refl }

  -- What is done with a request that began or did not.
  settle-Starts :
      (was : State) (request : Request) (before : List Request) (job : Job J) (x y : Started J)
      → Begun request before job x
      → (is_ok x.2 ≡ true → x.0.requests ≡ snoc before request → Starts was before y)
      → Starts was before (if not (is_ok x.2) then x else y)
  settle-Starts was request before job x y begun done =
      if-Starts was before (not (is_ok x.2)) x y
        (λ e.
          let bad = not_ok_of (is_ok x.2) e in
          record { consistent = λ f. cc; asks = inl (begun.failed bad) })
        (λ e. let good = is_ok_of (is_ok x.2) e in done good (begun.scheduled good))

  plain-Starts :
      (was : State) (calls : Calls) (request : Request) (state : State) (engine : Engine J)
      (job : Job J)
      → ((job' : Job J) → Keeps job job' → MayBe state job')
      → ((after : List Request) (job' : Job J)
          → after ≡ snoc engine.requests request
          → Keeps job job'
          → Asks was engine.requests after job')
      → Starts was engine.requests (start_plain calls request state engine job)
  unfolding start_plain
  plain-Starts was calls request state engine job may asks =
      let begun = begin_request-Begun calls false request engine job in
      let x = begin_request calls false request engine job in
      if-Starts was engine.requests (not calls.path_ok) _ _
        (λ e. idle-Starts was engine _ Status.nomem refl)
        (λ e.
          settle-Starts was request engine.requests job x
            (x.0, record (x.1) { state = state }, Status.ok) begun
            (λ good log. record {
              consistent = λ f. may (record (x.1) { state = state }) begun.keeps;
              asks = asks x.0.requests (record (x.1) { state = state }) log begun.keeps;
            }))

  pub start_status-Good :
      (was : State) (calls : Calls) (engine : Engine J) (job : Job J)
      → Good was engine.requests (or_fail (start_status calls engine job))
  unfolding start_status
  start_status-Good was calls engine job = end-Good was engine.requests _ (
      plain-Starts was calls (Request.get_status job.token) State.job_status engine job
        (λ job' keeps. tt)
        (λ after job' log keeps. inr (
          inr (
            inr
              (inl (log ∙ ap (λ t. snoc engine.requests (Request.get_status t)) (sym keeps.0)))))))

  pub start_verify-Good :
      (was : State) (calls : Calls) (engine : Engine J) (job : Job J)
      → 2 ≤ job.complete_attempts
      → Good was engine.requests (or_fail (start_verify calls engine job))
  unfolding start_verify
  start_verify-Good was calls engine job h = end-Good was engine.requests _ (
      plain-Starts was calls (Request.get_file job.token) State.job_verify engine job
        (λ job' keeps. kept-attempts job job' keeps h)
        (λ after job' log keeps. inr (
          inr (
            inr (
              inr (
                inr (
                  inr (
                    log ∙ ap (λ t. snoc engine.requests (Request.get_file t)) (sym keeps.0),
                    kept-attempts job job' keeps h,
                  ))))))))

  start_plain-Begun :
      (calls : Calls) (request : Request) (state : State) (engine : Engine J) (job : Job J)
      → Begun request engine.requests job (start_plain calls request state engine job)
  unfolding start_plain
  start_plain-Begun calls request state engine job =
      let begun = begin_request-Begun calls false request engine job in
      if-Begun request engine.requests job (not calls.path_ok) _ _
        (λ e. record { failed = λ f. refl; scheduled = λ f. cc; keeps = kept job })
        (λ e.
          if-Begun request engine.requests job _ _ _ (λ f. begun)
            (λ f. record {
              failed = λ g. cc;
              scheduled = λ g. begun.scheduled (is_ok_of _ f);
              keeps = begun.keeps;
            }))

  start_plain_state :
      (calls : Calls) (request : Request) (state : State) (engine : Engine J) (job : Job J)
      → is_ok (start_plain calls request state engine job).2 ≡ true
      → (start_plain calls request state engine job).1.state ≡ state
  unfolding start_plain
  start_plain_state calls request state engine job h = ground arith

  pub start_complete-Good :
      (was : State) (calls : Calls) (engine : Engine J) (job : Job J)
      → IsFull job
      → Good was engine.requests (or_fail (start_complete calls engine job))
  unfolding start_complete
  start_complete-Good was calls engine job h =
      let r = Request.post_complete job.token in
      let x = start_plain calls r State.job_complete engine job in
      let begun = start_plain-Begun calls r State.job_complete engine job in
      let full = kept-IsFull job x.1 begun.keeps h in
      let again : Job J = record (x.1) { complete_attempts = x.1.complete_attempts + 1 } in
      end-Good was engine.requests _ (
        settle-Starts was r engine.requests job x (x.0, again, Status.ok) begun
          (λ good log. record {
            consistent = λ f.
                subst (λ s. MayBe s again)
                  (sym (start_plain_state calls r State.job_complete engine job good)) full;
            asks = inr (
                inr (
                  inr (
                    inr (
                      inr (
                        inl (
                          log
                              ∙ ap (λ t. snoc engine.requests (Request.post_complete t))
                                  (sym begun.keeps.0),
                          full,
                        ))))));
          }))

  pub start_init-Good :
      (was : State) (calls : Calls) (engine : Engine J) (job : Job J)
      → may_begin was ≡ true
      → Good was engine.requests (or_fail (start_init calls engine job))
  unfolding start_init
  start_init-Good was calls engine job h =
      let begun = begin_request-Begun calls true Request.post_init engine job in
      let x = begin_request calls true Request.post_init engine job in
      end-Good was engine.requests _ (
        settle-Starts was Request.post_init engine.requests job x
          (x.0, record (x.1) { state = State.job_init }, Status.ok) begun
          (λ good log. record { consistent = λ f. tt; asks = inr (inl (log, h)) }))

  pub start_single_shot-Good :
      (calls : Calls) (engine : Engine J) (job : Job J)
      → Good State.job_start engine.requests (or_fail (start_single_shot calls engine job))
  unfolding start_single_shot
  start_single_shot-Good calls engine job =
      let at : Job J = record job {
        position = 0;
        chunk_offset = 0;
        chunk_length = job.size;
        chunk_remaining = job.size;
      } in
      let begun = begin_request-Begun calls false Request.post_sharex engine at in
      let x = begin_request calls false Request.post_sharex engine at in
      end-Good State.job_start engine.requests _ (
        if-Starts State.job_start engine.requests (not calls.seek_ok) _ _
          (λ e. idle-Starts State.job_start engine _ Status.io refl)
          (λ e.
            settle-Starts State.job_start Request.post_sharex engine.requests at x _ begun
              (λ good log.
                if-Starts State.job_start engine.requests calls.header_ok _ _
                  (λ f. record { consistent = λ g. tt; asks = inr (inr (inl (log, refl))) })
                  (λ f. record { consistent = λ g. cc; asks = inr (inr (inl (log, refl))) }))))

  kept-chunk_request :
      (job after : Job J)
      → Keeps job after
      → chunk_request job.token (layout job) job.chunk_index
        ≡ chunk_request after.token (layout after) after.chunk_index
  kept-chunk_request job after keeps = grind (arith, keeps)

  pub start_chunk-Good :
      (was : State) (calls : Calls) (engine : Engine J) (job : Job J) (index : ℕ)
      → index < job.total_chunks
      → has job.sent index ≡ false
      → Good was engine.requests (or_fail (start_chunk calls engine job index))
  unfolding start_chunk
  start_chunk-Good was calls engine job index below missing =
      let at : Job J = record job {
        chunk_index = index;
        chunk_offset = u64 (index * job.chunk_size);
        chunk_length = chunk_length (layout job) index;
        chunk_remaining = chunk_length (layout job) index;
        position = u64 (index * job.chunk_size);
      } in
      let request = chunk_request job.token (layout job) index in
      let begun = begin_request-Begun calls false request engine at in
      let x = begin_request calls false request engine at in
      let aimed = kept-IsAimed at x.1 begun.keeps (below, missing) in
      let same = kept-chunk_request at x.1 begun.keeps in
      end-Good was engine.requests _ (
        if-Starts was engine.requests (not calls.seek_ok) _ _
          (λ e. idle-Starts was engine _ Status.io refl)
          (λ e.
            if-Starts was engine.requests (not calls.path_ok) _ _
              (λ f. idle-Starts was engine _ Status.nomem refl)
              (λ f. settle-Starts was request engine.requests at x _ begun (λ good log.
                let asked = log ∙ ap (snoc engine.requests) same in
                if-Starts was engine.requests calls.header_ok _ _
                  (λ g. record {
                    consistent = λ k. aimed;
                    asks = inr (inr (inr (inr (inl (asked, aimed)))));
                  })
                  (λ g. record {
                    consistent = λ k. cc;
                    asks = inr (inr (inr (inr (inl (asked, aimed)))));
                  })))))

  pub next_request-Good :
      (was : State) (calls : Calls) (engine : Engine J) (job : Job J)
      → Good was engine.requests (next_request calls engine job)
  unfolding next_request
  next_request-Good was calls engine job =
      let next = next_missing job.sent job.total_chunks in
      let gap = next_missing-IsFirstGap job.sent job.total_chunks in
      if-Good was engine.requests (leb job.total_chunks next) _ _
        (λ e. start_complete-Good was calls engine job (ground (arith, e)))
        (λ e.
          let below : next < job.total_chunks = ground (arith, e) in
          start_chunk-Good was calls engine job next below (gap.at_gap below))
