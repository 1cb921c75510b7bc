-- ===== src/Remote/Scheduler/Serve.antt =====
-- A worker of a scheduler and the session that it holds.
pub mod Answered
pub mod Series
use smokeping_prober.Prelude.{
  suc, err, List, [], Text, ok, ◌∷◌, ◌+◌, ◌%◌, ◌^◌, update, ℕ, true, false, if◌then◌else◌, Option,
  none, some, ◌≡◌, ◌⊎◌, inl, inr, refl, ap, arith, Result-cases, Bool-cases,
}
use smokeping_prober.Remote.Session.{timed_out}
use smokeping_prober.Remote.Huawei.{Job, build_command, command_deadline}
use smokeping_prober.Remote.Runner.{RunnerInterface, IsLawful}
use smokeping_prober.Remote.Huawei.Parse.{PingResult, parse_output}
use smokeping_prober.Remote.Scheduler.{
  State, run_job, run_body, store_result, clear_pending, add_timeout_error,
}

-- The state after a run of target `i` with a result.
abbrev pub served : State → ℕ → PingResult → State
served s i res = record s {
  pending = update s.pending i false;
  sent = update s.sent i ((s.sent i + res.sent) % 2 ^ 64);
  recorded = (i, res) ∷ s.recorded;
}

-- The state after a run of target `i` that timed out.
abbrev pub missed : State → ℕ → State
missed s i = record s {
  pending = update s.pending i false;
  metrics = record s.metrics { timeout_errors = suc s.metrics.timeout_errors };
}

module _ (runner : RunnerInterface) where
  open runner use {Conn, run_command, close_conn, conn_open}

  -- `runJob` with the session of the worker; what `worker` does then: it goes on with this session,
  -- or closes it and has none.
  unfoldable pub serve_job : Job → ℕ → Conn → State → State × Option Conn × Conn
  serve_job job i c s =
      let (r, c') = run_command (build_command job) (command_deadline job) c in
      let (s', reuse) = run_job (λ _ _. r) job s i in
      if reuse then (s', some c', c') else (s', none, close_conn c')

  -- The rounds of `worker` for a series of jobs, as long as it has its session.
  unfoldable pub serve_jobs : List (ℕ × Job) → Conn → State → State × Option Conn
  serve_jobs [] c s = (s, some c)
  serve_jobs ((i, job) ∷ jobs) c s =
      let (s', held, _) = serve_job job i c s in
      elim held [ some c' ↦ serve_jobs jobs c' s' | none ↦ (s', none) ]

  pub serve_job-served :
      (job : Job) (i : ℕ) (c c' : Conn) (s : State) (out : Text) (res : PingResult)
      → run_command (build_command job) (command_deadline job) c ≡ (ok out, c')
      → parse_output out ≡ ok res
      → serve_job job i c s ≡ (served s i res, some c', c')
  unfolding serve_job run_job clear_pending
  serve_job-served job i c c' s out res e f =
      let counted : run_body s i (ok out) ≡ (store_result s i res, true) = rw (f, run_body) refl in
      rw (e, counted) (unfold store_result in refl)

  pub serve_job-missed :
      (job : Job) (i : ℕ) (c c' : Conn) (s : State)
      → run_command (build_command job) (command_deadline job) c ≡ (err timed_out, c')
      → serve_job job i c s ≡ (missed s i, some c', c')
  unfolding serve_job run_job run_body add_timeout_error clear_pending
  serve_job-missed job i c c' s e = rw e refl

  pub serve_jobs-kept :
      (job : Job) (jobs : List (ℕ × Job)) (i : ℕ) (c c' : Conn) (s s' : State)
      → serve_job job i c s ≡ (s', some c', c')
      → serve_jobs ((i, job) ∷ jobs) c s ≡ serve_jobs jobs c' s'
  unfolding serve_jobs
  serve_jobs-kept job jobs i c c' s s' e =
      let go : State × Option Conn × Conn → State × Option Conn =
        λ r. elim r.1 [ some d ↦ serve_jobs jobs d r.0 | none ↦ (r.0, none) ] in
      ap go e

  -- A worker goes on with the session that it had if and only if that is still open, and closes
  -- the one that it drops.
  abbrev pub HoldsOpen : State × Option Conn × Conn → Type 0
  HoldsOpen (s, held, last) =
      ((held ≡ some last) × (conn_open last ≡ true)) ⊎ ((held ≡ none) × (conn_open last ≡ false))

  module _ (lawful : IsLawful runner) where
    run_job-reuse :
        (job : Job) (i : ℕ) (c : Conn) (s : State)
        → conn_open c ≡ true
        → let (r, c') = run_command (build_command job) (command_deadline job) c in
          (run_job (λ _ _. r) job s i).1 ≡ conn_open c'
    unfolding run_job run_body
    run_job-reuse job i c s o =
        let (r, c') = run_command (build_command job) (command_deadline job) c in
        elim (Result-cases r) [
          | inl (t, e) ↦
              let kept =
                lawful.open-ok (build_command job) (command_deadline job) c c' t o
                  (ap (λ x. (x, c')) e) in
              elim (Result-cases (parse_output t)) [
                | inl (res, f) ↦ ground arith
                | inr (x, f) ↦ ground arith
              ]
          | inr (x, e) ↦
              let kept =
                lawful.open-err (build_command job) (command_deadline job) c c' x o
                  (ap (λ y. (y, c')) e) in
              ground arith
        ]

    -- If the session is open before a job, then after it the worker goes on with the same session,
    -- which is open, or it holds none and has closed it.
    pub serve_job-HoldsOpen :
        (job : Job) (i : ℕ) (c : Conn) (s : State)
        → conn_open c ≡ true
        → HoldsOpen (serve_job job i c s)
    unfolding serve_job
    serve_job-HoldsOpen job i c s o =
        let (r, c') = run_command (build_command job) (command_deadline job) c in
        let same = run_job-reuse job i c s o in
        let shut = lawful.open-close c' in
        elim (Bool-cases (conn_open c')) [
          | inl e ↦ rw (same, e) (inl (refl, e))
          | inr e ↦ rw (same, e) (inr (refl, shut))
        ]
