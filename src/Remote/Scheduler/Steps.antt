-- ===== src/Remote/Scheduler/Steps.antt =====
-- The goroutines of remote/scheduler.go as a step relation: each constructor is one atomic step of
-- `schedule`, `worker` or `Stop`, and any order of the steps of different goroutines is a run.
pub mod Invariant
pub mod Sound
pub mod Runs
pub mod Exclusive
pub mod Workers
pub mod Timers
pub mod Stopping
pub mod Termination
pub mod Phases
use smokeping_prober.Prelude.{
  ℕ, ◌*◌, ◌<◌, ℤ, Bool, true, false, List, [], ◌∷◌, ◌≡◌, update, if◌then◌else◌, min,
}
use smokeping_prober.Remote.Huawei.{Job}
use smokeping_prober.Remote.Scheduler.{
  State, Timer, waiting, claimed, stopped, Worker, dialing, asleep, idle, took, running, done,
  Runner, min_backoff, max_backoff, start, inc, dec, enqueue_claim, enqueue_send, run_job,
  set_worker, set_timer, clear_pending, add_connect_error,
}

set_up : State → (ℤ → ℤ) → State
set_up s f = record s { metrics = record s.metrics { sessions_up = f s.metrics.sessions_up } }

-- `Stop` and the cancellation of its context.
unfoldable pub cancel : State → State
cancel s = record s { cancelled = true }

-- A dial that succeeds; the backoff goes back to its minimum when the worker dials again.
unfoldable pub dial_ok : State → ℕ → State
unfolding set_up set_worker
dial_ok s w = set_worker (set_up s inc) w idle

unfoldable pub dial_fail : State → ℕ → ℕ → State
unfolding set_worker add_connect_error
dial_fail s w backoff = set_worker (add_connect_error s) w (asleep backoff)

unfoldable pub wake : State → ℕ → ℕ → State
unfolding set_worker
wake s w backoff = set_worker s w (dialing (min (backoff * 2) max_backoff))

-- A return while the worker sleeps, and one while it is connected: the deferred function closes the
-- session.
unfoldable pub quit_asleep : State → ℕ → State
unfolding set_worker
quit_asleep s w = set_worker s w done

unfoldable pub quit_idle : State → ℕ → State
unfolding set_up set_worker
quit_idle s w = set_worker (set_up s dec) w done

unfoldable pub take : State → ℕ → ℕ → List ℕ → State
unfolding set_worker
take s w i rest = set_worker (record s { queue = rest }) w (took i)

-- `ctx.Err() != nil` after the job was taken: it is dropped and the worker returns, or it runs.
unfoldable pub check : State → ℕ → ℕ → State
unfolding set_worker quit_idle clear_pending
check s w i = if s.cancelled then quit_idle (clear_pending s i) w else set_worker s w (running i)

-- What `worker` does with the answer of `runJob`: a session that cannot be reused is closed, and the
-- worker dials again.
after_run : State × Bool → ℕ → State
unfolding set_up set_worker
after_run (s, true) w = set_worker s w idle
after_run (s, false) w = set_worker (set_up s dec) w (dialing min_backoff)

unfoldable pub finish : Runner → Job → State → ℕ → ℕ → State
unfolding after_run
finish run job s w i = after_run (run_job run job s i) w

-- `n` targets with their jobs, and `k` sessions.
module _ (n k : ℕ) (jobs : ℕ → Job) where
  pub data Step (s : State) : State → Type 0 where
    cancels : Step s (cancel s)
    ticks : (i : ℕ) → i < n → s.timers i ≡ waiting → Step s (enqueue_claim s i)
    sends : (i : ℕ) → i < n → s.timers i ≡ claimed → Step s (enqueue_send n s i)
    timer_stops :
        (i : ℕ) → i < n → s.timers i ≡ waiting → s.cancelled ≡ true → Step s (set_timer s i stopped)
    connects : (w b : ℕ) → w < k → s.workers w ≡ dialing b → Step s (dial_ok s w)
    dial_fails : (w b : ℕ) → w < k → s.workers w ≡ dialing b → Step s (dial_fail s w b)
    wakes : (w b : ℕ) → w < k → s.workers w ≡ asleep b → Step s (wake s w b)
    gives_up :
        (w b : ℕ) → w < k → s.workers w ≡ asleep b → s.cancelled ≡ true → Step s (quit_asleep s w)
    hangs_up : (w : ℕ) → w < k → s.workers w ≡ idle → s.cancelled ≡ true → Step s (quit_idle s w)
    takes :
        (w i : ℕ) (rest : List ℕ)
        → w < k
        → s.workers w ≡ idle
        → s.queue ≡ i ∷ rest
        → Step s (take s w i rest)
    checks : (w i : ℕ) → w < k → s.workers w ≡ took i → Step s (check s w i)
    finishes :
        (w i : ℕ) (run : Runner)
        → w < k
        → s.workers w ≡ running i
        → Step s (finish run (jobs i) s w i)

  pub data Reach : State → Type 0 where
    starts : Reach start
    next : {s t : State} → Reach s → Step s t → Reach t
