-- ===== src/Remote/Scheduler/Steps/Exclusive.antt =====
-- What the invariant of the scheduler gives: no run is lost in `enqueue`, no target runs twice at a
-- time, and `jobs_skipped_total` and `sessions_up` mean what their help texts say.
use smokeping_prober.Prelude.{
  ℕ, ◌+◌, ◌≤◌, ◌<◌, pos, Bool, true, false, [], ◌∷◌, ◌++◌, ◌≡◌, ◌≢◌, ◌⊎◌, inl, inr, refl, ap, arith,
  length, count, sum_to-zero, sum_to-ext, le-sum_to, two-le-sum_to, length-lt_missing, Bool-cases,
}
use smokeping_prober.Remote.Huawei.{Job}
use smokeping_prober.Remote.Scheduler.{
  State, Metrics, waiting, claimed, running, done, Runner, capacity, enqueue_claim, enqueue_send,
  run_job, run_body,
}
use smokeping_prober.Remote.Scheduler.Steps.{
  cancel, dial_ok, dial_fail, wake, quit_asleep, quit_idle, take, check, after_run, finish, Step,
  cancels, ticks, sends, timer_stops, connects, dial_fails, wakes, gives_up, hangs_up, takes,
  checks, finishes, Reach,
}
use smokeping_prober.Remote.Scheduler.Steps.Sound.{Reach-IsSound}
use smokeping_prober.Remote.Scheduler.Steps.Invariant.{holds, connected, IsSound}

module _ (n k : ℕ) (jobs : ℕ → Job) (s : State) where
  once : IsSound n k s → (j : ℕ) → count j s.queue ≤ 1
  once v j = ground (arith, v.owned j)

  -- When a timer is about to send its target, the queue has room: the default branch of `enqueue`
  -- is never taken.
  pub claimed_has_room :
      (i : ℕ) → Reach n k jobs s → i < n → s.timers i ≡ claimed → length s.queue < capacity n
  claimed_has_room i r h e =
      let v = Reach-IsSound n k jobs r in
      let missing : count i s.queue ≡ 0 = ground (arith, v.owned i) in
      omega (arith, length-lt_missing n s.queue i v.queue_below (once v) missing h)

  -- So the second half of `enqueue` always puts the target at the end of the queue, and neither
  -- clears its flag nor counts it as skipped.
  pub enqueue_send-queued :
      (i : ℕ)
      → Reach n k jobs s
      → i < n
      → s.timers i ≡ claimed
      → ((enqueue_send n s i).queue ≡ s.queue ++ i ∷ [])
        × ((enqueue_send n s i).pending ≡ s.pending)
        × ((enqueue_send n s i).metrics ≡ s.metrics)
  unfolding enqueue_send
  enqueue_send-queued i r h e = ground (arith, claimed_has_room i r h e)

  -- While a worker runs a target, no other worker has it, it is not in the queue, its timer is not
  -- about to send it, and it is pending.
  pub running_alone :
      (w i : ℕ)
      → Reach n k jobs s
      → w < k
      → s.workers w ≡ running i
      → ((x : ℕ) → x < k → w ≢ x → holds i (s.workers x) ≡ 0)
        × (count i s.queue ≡ 0)
        × (s.timers i ≢ claimed)
        × (s.pending i ≡ true)
  running_alone w i r h e =
      let v = Reach-IsSound n k jobs r in
      let mine : holds i (s.workers w) ≡ 1 = ground arith in
      let one = le-sum_to k (λ x. holds i (s.workers x)) w h in
      (
        λ x hx ne.
            ground (arith, v.owned i, two-le-sum_to k (λ x. holds i (s.workers x)) w x h hx ne),
        ground (arith, v.owned i),
        λ c. ground (arith, v.owned i),
        ground (arith, v.owned i),
      )

  -- When every worker has returned, the gauge of the sessions is back at zero.
  pub returned_down :
      Reach n k jobs s → ((w : ℕ) → w < k → s.workers w ≡ done) → s.metrics.sessions_up ≡ pos 0
  returned_down r all =
      let v = Reach-IsSound n k jobs r in
      let none_up =
        sum_to-ext k (λ w. 0) (λ w. connected (s.workers w)) (λ w h. ap connected (all w h)) in
      ground (arith, v.gauge, none_up, sum_to-zero k)

-- `run_job` leaves `jobs_skipped` alone.
run_job-skipped :
    (run : Runner) (job : Job) (s : State) (i : ℕ)
    → (run_job run job s i).0.metrics.jobs_skipped ≡ s.metrics.jobs_skipped
unfolding run_job run_body
run_job-skipped run job s i = ground arith

after_run-skipped :
    (r : State × Bool) (w : ℕ) → (after_run r w).metrics.jobs_skipped ≡ r.0.metrics.jobs_skipped
unfolding after_run
after_run-skipped (s, true) w = refl
after_run-skipped (s, false) w = refl

module _ (n k : ℕ) (jobs : ℕ → Job) where
  abbrev pub Skips : State → State → Type 0
  Skips s t =
      (t.metrics.jobs_skipped ≡ s.metrics.jobs_skipped)
      ⊎ ((i : ℕ) × (i < n)
          × (s.timers i ≡ waiting)
          × (s.pending i ≡ true)
          × (t ≡ enqueue_claim s i)
          × (t.metrics.jobs_skipped ≡ s.metrics.jobs_skipped + 1))

  -- A step counts a skipped run only if it is a tick of a target whose previous run is pending.
  pub Step-Skips : {s t : State} → Reach n k jobs s → Step n k jobs s t → Skips s t
  unfolding cancel dial_ok dial_fail wake quit_asleep quit_idle take check finish enqueue_claim
  Step-Skips r cancels = inl refl
  Step-Skips {s} r (ticks i h e) = elim (Bool-cases (s.pending i)) [
    | inl p ↦ inr (i, h, e, p, refl, ground arith)
    | inr p ↦ inl (ground arith)
  ]
  Step-Skips {s} r (sends i h e) =
      inl (ap (λ (m : Metrics). m.jobs_skipped) (enqueue_send-queued n k jobs s i r h e).2)
  Step-Skips r (timer_stops i h e c) = inl refl
  Step-Skips r (connects w b h e) = inl refl
  Step-Skips r (dial_fails w b h e) = inl refl
  Step-Skips r (wakes w b h e) = inl refl
  Step-Skips r (gives_up w b h e c) = inl refl
  Step-Skips r (hangs_up w h e c) = inl refl
  Step-Skips r (takes w i rest h e q) = inl refl
  Step-Skips r (checks w i h e) = inl (ground arith)
  Step-Skips {s} r (finishes w i run h e) = inl (
      ground
        (arith, after_run-skipped (run_job run (jobs i) s i) w, run_job-skipped run (jobs i) s i))
