-- ===== src/Remote/Scheduler.antt =====
-- remote/scheduler.go: the state that the goroutines of one scheduler share, and what each atomic
-- step of them does. Targets and workers are known by their indices.
pub mod RunJob
pub mod Serve
pub mod Offsets
pub mod Steps
use smokeping_prober.Prelude.{
  div_ℤ, wrap64, ◌*ℤ◌, ℕ, zero, suc, ◌+◌, ◌*◌, ◌/◌, ◌%◌, ◌^◌, ℤ, pos, negsuc, Bool, true, false,
  Option, none, some, List, [], ◌∷◌, ◌++◌, Text, Result, ok, err, length, update, if◌then◌else◌,
  ltb, min, max,
}
use smokeping_prober.Config.{Duration}
use smokeping_prober.Remote.Huawei.{Job, build_command, command_deadline}
use smokeping_prober.Remote.Huawei.Parse.{PingResult, parse_output}
use smokeping_prober.Remote.Session.{RunError}

-- remote/metrics.go, for one router: `errors_total` by reason, `jobs_skipped_total`, `sessions_up`.
pub record Metrics : Type 0 where
  pub connect_errors : ℕ
  pub timeout_errors : ℕ
  pub parse_errors : ℕ
  pub jobs_skipped : ℕ
  pub sessions_up : ℤ

-- `Inc` and `Dec` of a gauge.
abbrev pub inc : ℤ → ℤ
inc (pos n) = pos (suc n)
inc (negsuc zero) = pos 0
inc (negsuc (suc n)) = negsuc n

abbrev pub dec : ℤ → ℤ
dec (pos zero) = negsuc 0
dec (pos (suc n)) = pos n
dec (negsuc n) = negsuc (suc n)

-- Where the goroutine of a target's timer stands: waiting for a tick, between the compare-and-swap
-- and the send of `enqueue`, or returned.
pub data Timer : Type 0 where
  waiting claimed stopped : Timer

-- Where a worker stands: about to dial or asleep after a failed dial, each with its backoff;
-- connected and waiting for a job; with a job that it took; with a job that runs; or returned.
-- `r` is nil in the first two and not nil in the next three.
pub data Worker : Type 0 where
  dialing asleep : ℕ → Worker
  idle : Worker
  took running : ℕ → Worker
  done : Worker

pub record State : Type 0 where
  pub queue : List ℕ
  pub pending : ℕ → Bool
  pub sent : ℕ → ℕ
  pub timers : ℕ → Timer
  pub workers : ℕ → Worker
  pub metrics : Metrics
  -- What the recorder got, newest first.
  pub recorded : List (ℕ × PingResult)
  pub cancelled : Bool

-- time.Second and 30 * time.Second
abbrev pub min_backoff : ℕ
min_backoff = 1000000000

abbrev pub max_backoff : ℕ
max_backoff = 30000000000

-- `NewScheduler` and `Start`: the capacity of the queue, and the first state of the goroutines.
abbrev pub capacity : ℕ → ℕ
capacity targets = max targets 1

abbrev pub start : State
start = record {
  queue = [];
  pending = λ i. false;
  sent = λ i. 0;
  timers = λ i. waiting;
  workers = λ w. dialing min_backoff;
  metrics = record {
    connect_errors = 0;
    timeout_errors = 0;
    parse_errors = 0;
    jobs_skipped = 0;
    sessions_up = pos 0;
  };
  recorded = [];
  cancelled = false;
}

-- The delay before the first run of target `i` of `n`: `int64(t.Interval) * int64(i) / n`.
unfoldable pub offset : Duration → ℕ → ℕ → Duration
offset interval i n = div_ℤ (wrap64 (interval *ℤ pos i)) n

add_skipped : State → State
add_skipped s = record s {
  metrics = record s.metrics { jobs_skipped = suc s.metrics.jobs_skipped };
}

set_worker : State → ℕ → Worker → State
set_worker s w v = record s { workers = update s.workers w v }

unfoldable pub set_timer : State → ℕ → Timer → State
set_timer s i v = record s { timers = update s.timers i v }

clear_pending : State → ℕ → State
clear_pending s i = record s { pending = update s.pending i false }

-- `enqueue`, first half: the compare-and-swap of `pending`, or the run is skipped.
unfoldable pub enqueue_claim : State → ℕ → State
unfolding add_skipped set_timer
enqueue_claim s i =
    if s.pending i
    then add_skipped s
    else set_timer (record s { pending = update s.pending i true }) i claimed

-- `enqueue`, second half: the send, or the default branch where the queue is full.
unfoldable pub enqueue_send : ℕ → State → ℕ → State
unfolding add_skipped set_timer clear_pending
enqueue_send n s i =
    if ltb (length s.queue) (capacity n)
    then set_timer (record s { queue = s.queue ++ i ∷ [] }) i waiting
    else set_timer (add_skipped (clear_pending s i)) i waiting

-- The counters of `runJob`, one function for each return.
add_connect_error : State → State
add_connect_error s = record s {
  metrics = record s.metrics { connect_errors = suc s.metrics.connect_errors };
}

add_timeout_error : State → State
add_timeout_error s = record s {
  metrics = record s.metrics { timeout_errors = suc s.metrics.timeout_errors };
}

add_parse_error : State → State
add_parse_error s = record s {
  metrics = record s.metrics { parse_errors = suc s.metrics.parse_errors };
}

-- `AddSent` on a uint64, and `Record`.
store_result : State → ℕ → PingResult → State
store_result s i res = record s {
  sent = update s.sent i ((s.sent i + res.sent) % 2 ^ 64);
  recorded = (i, res) ∷ s.recorded;
}

-- The body of `runJob` for what `Run` returns; the Boolean tells whether the session can be reused.
run_body : State → ℕ → Result RunError Text → State × Bool
unfolding add_connect_error add_timeout_error add_parse_error store_result
run_body s i (err e) =
    if e.is_timeout
    then (add_timeout_error s, (if e.is_closed then false else true))
    else (add_connect_error s, false)
run_body s i (ok out) = elim (parse_output out) [
  | err e ↦ (add_parse_error s, true)
  | ok res ↦ (store_result s i res, true)
]

-- What a session gives for a command and a deadline.
abbrev pub Runner : Type 0
Runner = Text → ℤ → Result RunError Text

-- `runJob`, its deferred store of `pending` included.
unfoldable pub run_job : Runner → Job → State → ℕ → State × Bool
unfolding run_body clear_pending
run_job run job s i =
    let (s', reuse) = run_body s i (run (build_command job) (command_deadline job)) in
    (clear_pending s' i, reuse)
