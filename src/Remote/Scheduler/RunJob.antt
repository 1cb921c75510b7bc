-- ===== src/Remote/Scheduler/RunJob.antt =====
-- What one run of a job does to the counters, for each thing that a session can answer.
use smokeping_prober.Prelude.{
  ℕ, ◌+◌, ◌%◌, ◌^◌, true, false, ◌∷◌, ◌≡◌, ◌⊎◌, inl, inr, arith, Text, ok, err, Result-cases,
}
use smokeping_prober.Remote.Huawei.{Job, build_command, command_deadline}
use smokeping_prober.Remote.Huawei.Parse.{PingResult, ParseError, parse_output}
use smokeping_prober.Remote.Session.{RunError}
use smokeping_prober.Remote.Scheduler.{State, Runner, run_body, run_job}

abbrev pub failures : State → ℕ
failures s = s.metrics.connect_errors + s.metrics.timeout_errors + s.metrics.parse_errors

-- A run without a result: nothing is counted as sent, nothing is recorded, and one error is counted.
abbrev pub Failed : State → State → Type 0
Failed s s' = (s'.sent ≡ s.sent) × (s'.recorded ≡ s.recorded) × (failures s' ≡ failures s + 1)

-- A run with a result: the packets that the router sent are counted, the result goes to the
-- recorder, and no error is counted.
abbrev pub Succeeded : ℕ → PingResult → State → State → Type 0
Succeeded i res s s' =
    (s'.sent i ≡ (s.sent i + res.sent) % 2 ^ 64)
    × (s'.recorded ≡ (i, res) ∷ s.recorded)
    × (failures s' ≡ failures s)

module _ (run : Runner) (job : Job) (s : State) (i : ℕ) where
  -- `runJob` counts packets and records exactly if the session gives an output that is a ping
  -- result, and then what it records is that result; a closed session, a timeout or an output that
  -- does not parse adds one to the errors, counts nothing as sent and records nothing. The session is kept after a result, after other output, and after a
  -- timeout that did not close it. In each case the target is no longer pending.
  pub run_job_lem :
      let (s', reuse) = run_job run job s i in
      (s'.pending i ≡ false)
      × (((e : RunError) × (run (build_command job) (command_deadline job) ≡ err e)
            × Failed s s'
            × ((reuse ≡ true → (e.is_timeout ≡ true) × (e.is_closed ≡ false))
                × (e.is_timeout ≡ true → e.is_closed ≡ false → reuse ≡ true)))
          ⊎ ((out : Text) × (run (build_command job) (command_deadline job) ≡ ok out)
              × (reuse ≡ true)
              × (((e : ParseError) × (parse_output out ≡ err e) × Failed s s')
                  ⊎ ((res : PingResult) × (parse_output out ≡ ok res) × Succeeded i res s s'))))
  unfolding run_job run_body
  run_job_lem = (
    ground arith,
    elim (Result-cases (run (build_command job) (command_deadline job))) [
      | inr (e, failed) ↦ inl (e, failed, ground arith, ground arith)
      | inl (out, answered) ↦ elim (Result-cases (parse_output out)) [
        | inr (e, garbled) ↦ inr (out, answered, ground arith, inl (e, garbled, ground arith))
        | inl (res, parsed) ↦ inr (out, answered, ground arith, inr (res, parsed, ground arith))
      ]
    ],
  )
