-- ===== src/Remote/Scheduler/Steps/Termination.antt =====
-- After `Stop` has cancelled the context, the goroutines of a scheduler return, in any order of
-- their steps.
use smokeping_prober.Prelude.{
  ℕ, suc, ◌+◌, ◌*◌, ◌≤◌, ◌<◌, Bool, true, false, ◌≡◌, ◌⊎◌, inl, inr, refl, ap, ◌∙◌, arith, [],
  sum_to, sum_to-update, sum_to-le-mul, zeros_or, update, ◌≢◌, ok,
}
use smokeping_prober.Remote.Huawei.{Job}
use smokeping_prober.Remote.Scheduler.{
  State, Timer, waiting, claimed, stopped, Worker, dialing, asleep, idle, took, running, done,
  Runner, min_backoff, enqueue_send, run_job, run_body, set_worker, set_timer, clear_pending,
  add_connect_error, add_skipped,
}
use smokeping_prober.Remote.Scheduler.Steps.{
  Step, cancels, ticks, sends, timer_stops, dial_fails, gives_up, hangs_up, checks, finishes,
  connects, wakes, takes, dial_ok, dial_fail, quit_asleep, quit_idle, take, check, after_run,
  finish, set_up,
}
use smokeping_prober.Remote.Scheduler.Steps.Stopping.{run_job_keeps}

-- How many steps a goroutine still takes at most, if no timer fires.
abbrev timer_work : Timer → ℕ
timer_work waiting = 1
timer_work claimed = 2
timer_work stopped = 0

abbrev worker_work : Worker → ℕ
worker_work (dialing _) = 3
worker_work (asleep _) = 1
worker_work idle = 2
worker_work (took _) = 1
worker_work (running _) = 4
worker_work done = 0

module _ (n k : ℕ) (jobs : ℕ → Job) where
  -- The step needs no tick, no end of a backoff and no other call of `Stop`.
  abbrev pub is_quiet : {s t : State} → Step n k jobs s t → Bool
  is_quiet cancels = false
  is_quiet (ticks _ _ _) = false
  is_quiet (wakes _ _ _ _) = false
  is_quiet (sends _ _ _) = true
  is_quiet (timer_stops _ _ _ _) = true
  is_quiet (connects _ _ _ _) = true
  is_quiet (dial_fails _ _ _ _) = true
  is_quiet (gives_up _ _ _ _ _) = true
  is_quiet (hangs_up _ _ _ _) = true
  is_quiet (takes _ _ _ _ _ _) = true
  is_quiet (checks _ _ _ _) = true
  is_quiet (finishes _ _ _ _ _) = true

  -- A series of so many of these steps.
  pub data QuietRun : ℕ → State → State → Type 0 where
    stays : {s : State} → QuietRun 0 s s
    steps :
        {m : ℕ} {s t u : State} (e : Step n k jobs s t)
        → is_quiet e ≡ true
        → QuietRun m t u
        → QuietRun (suc m) s u

  abbrev timers_work : (ℕ → Timer) → ℕ
  timers_work timers = sum_to n (λ i. timer_work (timers i))

  abbrev workers_work : (ℕ → Worker) → ℕ
  workers_work workers = sum_to k (λ w. worker_work (workers w))

  work : State → ℕ
  work s = timers_work s.timers + workers_work s.workers

  timer_moves :
      (s : State) (i : ℕ) (v : Timer)
      → i < n
      → timers_work (update s.timers i v) + timer_work (s.timers i)
        ≡ timers_work s.timers + timer_work v
  timer_moves s i v h = sum_to-update n timer_work s.timers i v h

  worker_moves :
      (s : State) (w : ℕ) (v : Worker)
      → w < k
      → workers_work (update s.workers w v) + worker_work (s.workers w)
        ≡ workers_work s.workers + worker_work v
  worker_moves s w v h = sum_to-update k worker_work s.workers w v h

  run_job-timers :
      (run : Runner) (job : Job) (s : State) (i : ℕ) → (run_job run job s i).0.timers ≡ s.timers
  unfolding run_job run_body
  run_job-timers run job s i = ground arith

  -- Each of these steps takes one off the work, and the context stays cancelled.
  abbrev Less : State → State → Type 0
  Less s t = (work t < work s) × (t.cancelled ≡ true)

  after_run-Less :
      (s s' : State) (reuse : Bool) (w i : ℕ)
      → w < k
      → s.workers w ≡ running i
      → s'.cancelled ≡ true
      → s'.workers ≡ s.workers
      → s'.timers ≡ s.timers
      → Less s (after_run (s', reuse) w)
  unfolding work after_run set_worker set_up
  after_run-Less s s' true w i h e c same timers = ground (
    arith,
    worker_moves s' w idle h,
    ap workers_work same,
    ap timers_work timers,
    ap (λ (f : ℕ → Worker). f w) same,
  )
  after_run-Less s s' false w i h e c same timers = ground (
    arith,
    worker_moves s' w (dialing min_backoff) h,
    ap workers_work same,
    ap timers_work timers,
    ap (λ (f : ℕ → Worker). f w) same,
  )

  Step-Less :
      {s t : State} (e : Step n k jobs s t) → is_quiet e ≡ true → s.cancelled ≡ true → Less s t
  unfolding work dial_ok dial_fail quit_asleep quit_idle take check enqueue_send set_timer
      set_worker set_up add_skipped clear_pending add_connect_error
  Step-Less cancels q c = ground arith
  Step-Less (ticks i h e) q c = ground arith
  Step-Less (wakes w b h e) q c = ground arith
  Step-Less {s} (sends i h e) q c = ground (arith, timer_moves s i waiting h)
  Step-Less {s} (timer_stops i h e d) q c = ground (arith, timer_moves s i stopped h)
  Step-Less {s} (connects w b h e) q c = ground (arith, worker_moves s w idle h)
  Step-Less {s} (dial_fails w b h e) q c = ground (arith, worker_moves s w (asleep b) h)
  Step-Less {s} (gives_up w b h e d) q c = ground (arith, worker_moves s w done h)
  Step-Less {s} (hangs_up w h e d) q c = ground (arith, worker_moves s w done h)
  Step-Less {s} (takes w i rest h e d) q c = ground (arith, worker_moves s w (took i) h)
  Step-Less {s} (checks w i h e) q c = ground (arith, worker_moves s w done h)
  Step-Less {s} (finishes w i run h e) q c =
      let (s', reuse) = run_job run (jobs i) s i in
      let (still, same) = run_job_keeps n k jobs run (jobs i) s i in
      unfold finish in
      after_run-Less s s' reuse w i h e (still ∙ c) same (run_job-timers run (jobs i) s i)

  QuietRun-work :
      {m : ℕ} {s t : State}
      → QuietRun m s t
      → s.cancelled ≡ true
      → (m + work t ≤ work s) × (t.cancelled ≡ true)
  QuietRun-work stays c = (omega arith, c)
  QuietRun-work (steps e q f) c =
      let (less, c') = Step-Less e q c in
      let (rest, c'') = QuietRun-work f c' in (omega (arith, less, rest), c'')

  timer_work-le : (v : Timer) → timer_work v ≤ 2
  timer_work-le v = ground arith

  worker_work-le : (v : Worker) → worker_work v ≤ 4
  worker_work-le v = ground arith

  work-le : (s : State) → work s ≤ 2 * n + 4 * k
  unfolding work
  work-le s = omega (
    arith,
    sum_to-le-mul n 2 (λ i. timer_work (s.timers i)) (λ i. timer_work-le (s.timers i)),
    sum_to-le-mul k 4 (λ w. worker_work (s.workers w)) (λ w. worker_work-le (s.workers w)),
  )

  -- Every timer and every worker has returned.
  abbrev pub Returned : State → Type 0
  Returned s = ((i : ℕ) → i < n → s.timers i ≡ stopped) × ((w : ℕ) → w < k → s.workers w ≡ done)

  abbrev pub GoesOn : State → Type 0
  GoesOn s = (t : State) × (e : Step n k jobs s t) × (is_quiet e ≡ true)

  timer-GoesOn :
      (s : State) (i : ℕ) (v : Timer)
      → i < n
      → s.cancelled ≡ true
      → s.timers i ≡ v
      → timer_work v ≢ 0
      → GoesOn s
  timer-GoesOn s i waiting h c e some_work = (_, timer_stops i h e c, refl)
  timer-GoesOn s i claimed h c e some_work = (_, sends i h e, refl)
  timer-GoesOn s i stopped h c e some_work = absurd (some_work refl)

  worker-GoesOn :
      (s : State) (w : ℕ) (v : Worker)
      → w < k
      → s.cancelled ≡ true
      → s.workers w ≡ v
      → worker_work v ≢ 0
      → GoesOn s
  worker-GoesOn s w (dialing b) h c e some_work = (_, dial_fails w b h e, refl)
  worker-GoesOn s w (asleep b) h c e some_work = (_, gives_up w b h e c, refl)
  worker-GoesOn s w idle h c e some_work = (_, hangs_up w h e c, refl)
  worker-GoesOn s w (took i) h c e some_work = (_, checks w i h e, refl)
  worker-GoesOn s w (running i) h c e some_work = (_, finishes w i (λ _ _. ok []) h e, refl)
  worker-GoesOn s w done h c e some_work = absurd (some_work refl)

  returned_timer : (v : Timer) → timer_work v ≡ 0 → v ≡ stopped
  returned_timer v e = ground arith

  returned_worker : (v : Worker) → worker_work v ≡ 0 → v ≡ done
  returned_worker v e = ground arith

  Returned-GoesOn : (s : State) → s.cancelled ≡ true → Returned s ⊎ GoesOn s
  Returned-GoesOn s c = elim (zeros_or n (λ i. timer_work (s.timers i))) [
    | inr (i, h, some_work) ↦ inr (timer-GoesOn s i (s.timers i) h c refl some_work)
    | inl timers ↦ elim (zeros_or k (λ w. worker_work (s.workers w))) [
      | inr (w, h, some_work) ↦ inr (worker-GoesOn s w (s.workers w) h c refl some_work)
      | inl workers ↦ inl (
        (λ i h. returned_timer (s.timers i) (timers i h)),
        λ w h. returned_worker (s.workers w) (workers w h),
      )
    ]
  ]

  -- Once the context is cancelled, every series of steps in which no tick and no backoff ends has
  -- at most twice as many steps as targets and four times as many as sessions, in whatever order
  -- the goroutines take them; and where no such step is possible any more, every timer and every
  -- worker has returned, so that `Stop` returns.
  pub stop_terminates :
      {m : ℕ} {s t : State}
      → QuietRun m s t
      → s.cancelled ≡ true
      → (m ≤ 2 * n + 4 * k) × (Returned t ⊎ GoesOn t)
  stop_terminates {s = s} {t = t} f c =
      let (less, c') = QuietRun-work f c in (omega (arith, less, work-le s), Returned-GoesOn t c')
