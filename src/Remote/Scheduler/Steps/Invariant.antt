-- ===== src/Remote/Scheduler/Steps/Invariant.antt =====
-- What holds of the targets, the queue and the workers of a scheduler between two steps, and how
-- each step but the end of a run keeps it.
use smokeping_prober.Prelude.{
  ℕ, ◌+◌, ◌*◌, ◌≤◌, ◌<◌, pos, List, [], ◌∷◌, ◌≡◌, arith, update, All, All-append, bit, count,
  count-append, sum_to, sum_to-zero, sum_to-update, ◌==◌, min,
}
use smokeping_prober.Remote.Scheduler.{
  State, Timer, waiting, claimed, stopped, Worker, dialing, asleep, idle, took, running, done,
  min_backoff, max_backoff, start, enqueue_claim, enqueue_send, set_timer,
}
use smokeping_prober.Remote.Scheduler.Steps.{
  dial_ok, dial_fail, wake, quit_asleep, quit_idle, take, check,
}

-- How often a goroutine has the target: the timer between its two halves of `enqueue`, a worker
-- from the receive to the end of `runJob`.
abbrev pub claims : Timer → ℕ
claims claimed = 1
claims _ = 0

abbrev pub holds : ℕ → Worker → ℕ
holds i (took j) = bit (i == j)
holds i (running j) = bit (i == j)
holds i _ = 0

-- `r != nil`
abbrev pub connected : Worker → ℕ
connected idle = 1
connected (took _) = 1
connected (running _) = 1
connected _ = 0

abbrev pub InRange : Worker → Type 0
InRange (dialing b) = (min_backoff ≤ b) × (b ≤ max_backoff)
InRange (asleep b) = (min_backoff ≤ b) × (b ≤ max_backoff)
InRange _ = Unit

module _ (n k : ℕ) where
  -- A target is pending exactly while one goroutine or one place of the queue has it; the queue
  -- holds targets only; the gauge counts the connected workers; every backoff is in its range.
  pub record IsSound (s : State) : Type 0 where
    pub owned :
        (i : ℕ)
        → claims (s.timers i) + count i s.queue + sum_to k (λ w. holds i (s.workers w))
          ≡ bit (s.pending i)
    pub queue_below : All (λ i. i < n) s.queue
    pub gauge : s.metrics.sessions_up ≡ pos (sum_to k (λ w. connected (s.workers w)))
    pub backoff : (w : ℕ) → InRange (s.workers w)

  -- One worker changes: what the sums over the workers become.
  abbrev pub held : ℕ → (ℕ → Worker) → ℕ
  held i workers = sum_to k (λ x. holds i (workers x))

  abbrev pub up : (ℕ → Worker) → ℕ
  up workers = sum_to k (λ x. connected (workers x))

  pub held-update :
      (workers : ℕ → Worker) (w : ℕ) (v : Worker) (i : ℕ)
      → w < k
      → held i (update workers w v) + holds i (workers w) ≡ held i workers + holds i v
  held-update workers w v i h = sum_to-update k (holds i) workers w v h

  pub up-update :
      (workers : ℕ → Worker) (w : ℕ) (v : Worker)
      → w < k
      → up (update workers w v) + connected (workers w) ≡ up workers + connected v
  up-update workers w v h = sum_to-update k connected workers w v h

  pub start-IsSound : IsSound start
  unfolding count
  start-IsSound = record {
    owned = λ i. omega (arith, sum_to-zero k);
    queue_below = tt;
    gauge = ground (arith, sum_to-zero k);
    backoff = λ w. omega arith;
  }

  pub enqueue_claim-IsSound :
      (s : State) (i : ℕ) → i < n → s.timers i ≡ waiting → IsSound s → IsSound (enqueue_claim s i)
  unfolding enqueue_claim
  enqueue_claim-IsSound s i h e v = record {
    owned = λ j. ground (arith, v.owned j);
    queue_below = ground (arith, v.queue_below);
    gauge = ground (arith, v.gauge);
    backoff = λ w. ground (arith, v.backoff w);
  }

  pub enqueue_send-IsSound :
      (s : State) (i : ℕ) → i < n → s.timers i ≡ claimed → IsSound s → IsSound (enqueue_send n s i)
  unfolding enqueue_send count
  enqueue_send-IsSound s i h e v = record {
    owned = λ j. ground (arith, v.owned j, count-append j s.queue (i ∷ []));
    queue_below = ground (arith, All-append (λ j. j < n) s.queue (i ∷ []) v.queue_below (h, tt));
    gauge = ground (arith, v.gauge);
    backoff = λ w. ground (arith, v.backoff w);
  }

  pub connects-IsSound :
      (s : State) (w b : ℕ) → w < k → s.workers w ≡ dialing b → IsSound s → IsSound (dial_ok s w)
  unfolding dial_ok
  connects-IsSound s w b h e v = record {
    owned = λ i. ground (arith, v.owned i, held-update s.workers w idle i h);
    queue_below = v.queue_below;
    gauge = ground (arith, v.gauge, up-update s.workers w idle h);
    backoff = λ x. ground (arith, v.backoff x);
  }

  pub timer_stops-IsSound :
      (s : State) (i : ℕ) → s.timers i ≡ waiting → IsSound s → IsSound (set_timer s i stopped)
  unfolding set_timer
  timer_stops-IsSound s i e v = record {
    owned = λ j. ground (arith, v.owned j);
    queue_below = v.queue_below;
    gauge = v.gauge;
    backoff = v.backoff;
  }

  pub dial_fails-IsSound :
      (s : State) (w b : ℕ)
      → w < k
      → s.workers w ≡ dialing b
      → IsSound s
      → IsSound (dial_fail s w b)
  unfolding dial_fail
  dial_fails-IsSound s w b h e v = record {
    owned = λ i. ground (arith, v.owned i, held-update s.workers w (asleep b) i h);
    queue_below = v.queue_below;
    gauge = ground (arith, v.gauge, up-update s.workers w (asleep b) h);
    backoff = λ x. ground (arith, v.backoff x, v.backoff w);
  }

  pub wakes-IsSound :
      (s : State) (w b : ℕ) → w < k → s.workers w ≡ asleep b → IsSound s → IsSound (wake s w b)
  unfolding wake
  wakes-IsSound s w b h e v = record {
    owned = λ i.
        ground (arith, v.owned i, held-update s.workers w (dialing (min (b * 2) max_backoff)) i h);
    queue_below = v.queue_below;
    gauge = ground (arith, v.gauge, up-update s.workers w (dialing (min (b * 2) max_backoff)) h);
    backoff = λ x. ground (arith, v.backoff x, v.backoff w);
  }

  pub gives_up-IsSound :
      (s : State) (w b : ℕ) → w < k → s.workers w ≡ asleep b → IsSound s → IsSound (quit_asleep s w)
  unfolding quit_asleep
  gives_up-IsSound s w b h e v = record {
    owned = λ i. ground (arith, v.owned i, held-update s.workers w done i h);
    queue_below = v.queue_below;
    gauge = ground (arith, v.gauge, up-update s.workers w done h);
    backoff = λ x. ground (arith, v.backoff x);
  }

  pub hangs_up-IsSound :
      (s : State) (w : ℕ) → w < k → s.workers w ≡ idle → IsSound s → IsSound (quit_idle s w)
  unfolding quit_idle
  hangs_up-IsSound s w h e v = record {
    owned = λ i. ground (arith, v.owned i, held-update s.workers w done i h);
    queue_below = v.queue_below;
    gauge = ground (arith, v.gauge, up-update s.workers w done h);
    backoff = λ x. ground (arith, v.backoff x);
  }

  pub takes-IsSound :
      (s : State) (w i : ℕ) (rest : List ℕ)
      → w < k
      → s.workers w ≡ idle
      → s.queue ≡ i ∷ rest
      → IsSound s
      → IsSound (take s w i rest)
  unfolding take count
  takes-IsSound s w i rest h e q v = record {
    owned = λ j. ground (arith, v.owned j, held-update s.workers w (took i) j h);
    queue_below = ground (arith, v.queue_below);
    gauge = ground (arith, v.gauge, up-update s.workers w (took i) h);
    backoff = λ x. ground (arith, v.backoff x);
  }

  pub checks-IsSound :
      (s : State) (w i : ℕ) → w < k → s.workers w ≡ took i → IsSound s → IsSound (check s w i)
  unfolding check
  checks-IsSound s w i h e v = record {
    owned = λ j. ground (
      arith,
      v.owned j,
      held-update s.workers w done j h,
      held-update s.workers w (running i) j h,
    );
    queue_below = ground (arith, v.queue_below);
    gauge =
        ground (arith, v.gauge, up-update s.workers w done h, up-update s.workers w (running i) h);
    backoff = λ x. ground (arith, v.backoff x);
  }
