-- ===== src/Tests/SchedulerTests.antt =====
-- Runs and instances for remote/scheduler.go: one target, one session.
use smokeping_prober.Prelude.{
  ℕ, ◌<◌, ◌≤◌, ◌+◌, ◌*◌, true, false, [], ◌∷◌, ◌++◌, ◌≡◌, ◌≢◌, ◌⊎◌, arith, refl, Text, ok, err,
  count,
}
use smokeping_prober.Remote.Huawei.{Job, build_command, command_deadline}
use smokeping_prober.Remote.Huawei.Parse.{PingResult, ParseError, parse_output}
use smokeping_prober.Remote.Session.{RunError}
use smokeping_prober.Prelude.{pos, wrap64, ◌*ℤ◌, ◌/◌}
use smokeping_prober.Remote.Scheduler.Offsets.{offset_lem}
use smokeping_prober.Remote.Scheduler.{
  offset, State, Runner, claimed, start, min_backoff, enqueue_claim, enqueue_send, run_job,
}
use smokeping_prober.Remote.Scheduler.RunJob.{Failed, Succeeded, run_job_lem}
use smokeping_prober.Remote.Scheduler.Steps.{
  dial_ok, dial_fail, take, check, cancel, quit_asleep, gives_up, dial_fails, ticks, sends,
  connects, takes, checks, Reach, starts, next,
}
use smokeping_prober.Remote.Scheduler.Steps.Sound.{Reach-IsSound}
use smokeping_prober.Remote.Scheduler.Steps.Invariant.{holds, IsSound}
use smokeping_prober.Remote.Scheduler.Steps.Exclusive.{
  Skips, enqueue_send-queued, running_alone, Step-Skips,
}
use smokeping_prober.Tests.Fixtures.{sample_job}
use smokeping_prober.Remote.Scheduler.Steps.Runs.{here, then}
use smokeping_prober.Remote.Scheduler.Steps.{finish, finishes}
use smokeping_prober.Remote.Scheduler.Steps.Phases.{Advances, phase, Step-Advances}
use smokeping_prober.Remote.Scheduler.Steps.Termination.{
  QuietRun, stays, steps, Returned, GoesOn, stop_terminates,
}
use smokeping_prober.Remote.Scheduler.Steps.Stopping.{BeginsNothing, Run-BeginsNothing}

abbrev jobs : ℕ → Job
jobs i = sample_job

abbrev claiming : State
claiming = enqueue_claim start 0

abbrev queued : State
queued = enqueue_send 1 claiming 0

abbrev connected_state : State
connected_state = dial_ok queued 0

abbrev taken : State
taken = take connected_state 0 0 []

abbrev busy : State
busy = check taken 0 0

claiming-Reach : Reach 1 1 jobs claiming
claiming-Reach = next starts (ticks 0 (omega arith) refl)

busy-Reach : Reach 1 1 jobs busy
unfolding enqueue_claim enqueue_send dial_ok take
busy-Reach =
    next
      (next
        (next (next claiming-Reach (sends 0 (omega arith) refl))
          (connects 0 min_backoff (omega arith) refl))
        (takes 0 0 [] (omega arith) refl refl))
      (checks 0 0 (omega arith) refl)

Reach-IsSound_example : IsSound 1 1 busy
Reach-IsSound_example = Reach-IsSound 1 1 jobs busy-Reach

enqueue_send-queued_example :
    (queued.queue ≡ claiming.queue ++ 0 ∷ [])
    × (queued.pending ≡ claiming.pending)
    × (queued.metrics ≡ claiming.metrics)
unfolding enqueue_claim
enqueue_send-queued_example =
    enqueue_send-queued 1 1 jobs claiming 0 claiming-Reach (omega arith) refl

running_alone_example :
    ((x : ℕ) → x < 1 → ◌≢◌ {A = ℕ} 0 x → holds 0 (busy.workers x) ≡ 0)
    × (count 0 busy.queue ≡ 0)
    × (busy.timers 0 ≢ claimed)
    × (busy.pending 0 ≡ true)
unfolding check take enqueue_claim dial_ok enqueue_send
running_alone_example = running_alone 1 1 jobs busy 0 0 busy-Reach (omega arith) refl

abbrev given_up : State
given_up = quit_asleep (dial_fail (cancel start) 0 min_backoff) 0

-- A second tick while the first run is going on.
Step-Skips_example : Skips 1 1 jobs busy (enqueue_claim busy 0)
unfolding check take dial_ok enqueue_claim enqueue_send
Step-Skips_example = Step-Skips 1 1 jobs busy-Reach (ticks 0 (omega arith) refl)

abbrev closed : Runner
closed cmd deadline = err (record { is_timeout = true; is_closed = true })

Step-Advances_example : Advances (phase busy) (phase (finish closed sample_job busy 0 0))
unfolding check take dial_ok enqueue_claim enqueue_send
Step-Advances_example = Step-Advances 1 1 jobs busy-Reach (finishes 0 0 closed (omega arith) refl)

run_job_lem_example :
    ((run_job closed sample_job busy 0).0.pending 0 ≡ false)
    × (((e : RunError) × (closed (build_command sample_job) (command_deadline sample_job) ≡ err e)
          × Failed busy (run_job closed sample_job busy 0).0
          × (((run_job closed sample_job busy 0).1 ≡ true
                → (e.is_timeout ≡ true) × (e.is_closed ≡ false))
              × (e.is_timeout ≡ true
                  → e.is_closed ≡ false
                  → (run_job closed sample_job busy 0).1 ≡ true)))
        ⊎ ((out : Text) × (closed (build_command sample_job) (command_deadline sample_job) ≡ ok out)
            × ((run_job closed sample_job busy 0).1 ≡ true)
            × (((e : ParseError) × (parse_output out ≡ err e)
                  × Failed busy (run_job closed sample_job busy 0).0)
                ⊎ ((res : PingResult) × (parse_output out ≡ ok res)
                    × Succeeded 0 res busy (run_job closed sample_job busy 0).0))))
run_job_lem_example = run_job_lem closed sample_job busy 0

given_up-QuietRun : QuietRun 1 1 jobs 2 (cancel start) given_up
unfolding dial_fail cancel
given_up-QuietRun =
    steps (dial_fails 0 min_backoff (omega arith) refl) refl
      (steps (gives_up 0 min_backoff (omega arith) refl refl) refl stays)

stop_terminates_example :
    (2 ≤ 2 * 1 + 4 * 1) × (Returned 1 1 jobs given_up ⊎ GoesOn 1 1 jobs given_up)
unfolding cancel
stop_terminates_example = stop_terminates 1 1 jobs given_up-QuietRun refl

Run-BeginsNothing_example : BeginsNothing 1 1 jobs (cancel start) given_up
unfolding dial_fail cancel
Run-BeginsNothing_example =
    Run-BeginsNothing 1 1 jobs
      (then (dial_fails 0 min_backoff (omega arith) refl)
        (then (gives_up 0 min_backoff (omega arith) refl refl) here))
      refl

-- The second and the last of five targets with an interval of ten seconds.
offset_lem_example :
    (a b : ℕ) × (offset (pos 10_000_000_000) 1 5 ≡ pos a)
    × (offset (pos 10_000_000_000) (1 + 3) 5 ≡ pos b)
    × (a + 3 * (10_000_000_000 / 5) ≤ b)
    × (b < 10_000_000_000)
offset_lem_example = offset_lem 10_000_000_000 1 3 5 (omega arith) (omega arith) (omega arith)

last_offset : offset (pos 10_000_000_000) 4 5 ≡ pos 8_000_000_000
unfolding offset wrap64 ◌*ℤ◌
last_offset = refl
