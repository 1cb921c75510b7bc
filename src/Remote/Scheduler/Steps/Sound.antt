-- ===== src/Remote/Scheduler/Steps/Sound.antt =====
-- The invariant holds in every state that the goroutines of a scheduler reach.
use smokeping_prober.Prelude.{
  ℕ, ◌+◌, ◌<◌, pos, Bool, true, false, ◌≡◌, ap, arith, update, bit, count,
}
use smokeping_prober.Remote.Huawei.{Job}
use smokeping_prober.Remote.Scheduler.{
  State, dialing, idle, running, Runner, min_backoff, run_job, run_body,
}
use smokeping_prober.Remote.Scheduler.Steps.{
  cancel, after_run, finish, Step, cancels, ticks, sends, timer_stops, connects, dial_fails, wakes,
  gives_up, hangs_up, takes, checks, finishes, Reach, starts, next,
}
use smokeping_prober.Remote.Scheduler.Steps.Invariant.{
  claims, InRange, IsSound, held, up, held-update, up-update, start-IsSound, enqueue_claim-IsSound,
  enqueue_send-IsSound, connects-IsSound, timer_stops-IsSound, dial_fails-IsSound, wakes-IsSound,
  gives_up-IsSound, hangs_up-IsSound, takes-IsSound, checks-IsSound,
}

module _ (n k : ℕ) where
  -- `run_job` gives up n k the target and touches neither the goroutines nor the queue nor the gauge.
  abbrev Released : State → ℕ → State → Type 0
  Released s i s' =
      (s'.queue ≡ s.queue)
      × (s'.timers ≡ s.timers)
      × (s'.workers ≡ s.workers)
      × (s'.pending ≡ update s.pending i false)
      × (s'.metrics.sessions_up ≡ s.metrics.sessions_up)

  run_job-Released :
      (run : Runner) (job : Job) (s : State) (i : ℕ) → Released s i (run_job run job s i).0
  unfolding run_job run_body
  run_job-Released run job s i = ground arith

  module _ (s s' : State) (i w : ℕ) (v : IsSound n k s) (released : Released s i s') where
    owned_before :
        (j : ℕ)
        → claims (s'.timers j) + count j s'.queue + held n k j s'.workers ≡ bit (s.pending j)
    owned_before j = rw (released.0, released.1, released.2) (v.owned j)

    up_before : s'.metrics.sessions_up ≡ pos (up n k s'.workers)
    up_before = rw (released.2, released.4) v.gauge

    backoff_before : (x : ℕ) → InRange (s'.workers x)
    backoff_before x = rw released.2 (v.backoff x)

    cleared : (j : ℕ) → s'.pending j ≡ update s.pending i false j
    cleared j = ap (λ (p : ℕ → Bool). p j) released.3

    after_run-IsSound :
        (reuse : Bool) → w < k → s'.workers w ≡ running i → IsSound n k (after_run (s', reuse) w)
    unfolding after_run
    after_run-IsSound true h e = record {
      owned = λ j. ground (arith, owned_before j, cleared j, held-update n k s'.workers w idle j h);
      queue_below = rw released.0 v.queue_below;
      gauge = ground (arith, up_before, up-update n k s'.workers w idle h);
      backoff = λ x. ground (arith, backoff_before x);
    }
    after_run-IsSound false h e = record {
      owned = λ j. ground (
        arith,
        owned_before j,
        cleared j,
        held-update n k s'.workers w (dialing min_backoff) j h,
      );
      queue_below = rw released.0 v.queue_below;
      gauge = ground (arith, up_before, up-update n k s'.workers w (dialing min_backoff) h);
      backoff = λ x. ground (arith, backoff_before x);
    }

  finishes-IsSound :
      (run : Runner) (job : Job) (s : State) (w i : ℕ)
      → w < k
      → s.workers w ≡ running i
      → IsSound n k s
      → IsSound n k (finish run job s w i)
  unfolding finish
  finishes-IsSound run job s w i h e v =
      let released = run_job-Released run job s i in
      let (s', reuse) = run_job run job s i in
      after_run-IsSound s s' i w v released reuse h (rw released.2 e)

  module _ (jobs : ℕ → Job) where
    pub Step-IsSound : {s t : State} → Step n k jobs s t → IsSound n k s → IsSound n k t
    Step-IsSound cancels v =
        unfold cancel in
        record {
          owned = v.owned;
          queue_below = v.queue_below;
          gauge = v.gauge;
          backoff = v.backoff;
        }
    Step-IsSound (ticks i h e) v = enqueue_claim-IsSound n k _ i h e v
    Step-IsSound (sends i h e) v = enqueue_send-IsSound n k _ i h e v
    Step-IsSound (timer_stops i h e c) v = timer_stops-IsSound n k _ i e v
    Step-IsSound (connects w b h e) v = connects-IsSound n k _ w b h e v
    Step-IsSound (dial_fails w b h e) v = dial_fails-IsSound n k _ w b h e v
    Step-IsSound (wakes w b h e) v = wakes-IsSound n k _ w b h e v
    Step-IsSound (gives_up w b h e c) v = gives_up-IsSound n k _ w b h e v
    Step-IsSound (hangs_up w h e c) v = hangs_up-IsSound n k _ w h e v
    Step-IsSound (takes w i rest h e q) v = takes-IsSound n k _ w i rest h e q v
    Step-IsSound (checks w i h e) v = checks-IsSound n k _ w i h e v
    Step-IsSound (finishes w i run h e) v = finishes-IsSound run (jobs i) _ w i h e v

    -- The invariant holds in every state that the goroutines reach, in every order of their steps.
    pub Reach-IsSound : {s : State} → Reach n k jobs s → IsSound n k s
    Reach-IsSound starts = start-IsSound n k
    Reach-IsSound (next r st) = Step-IsSound st (Reach-IsSound r)
