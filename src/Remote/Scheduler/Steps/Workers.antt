-- ===== src/Remote/Scheduler/Steps/Workers.antt =====
-- Once the context of a scheduler is cancelled, each worker can return.
use smokeping_prober.Prelude.{
  ℕ, zero, suc, ◌≤◌, ◌<◌, true, false, ◌≡◌, ◌≢◌, refl, ap, ◌∙◌, arith, err,
}
use native.Mathlib.Decide.{ℕ_discrete}
use smokeping_prober.Remote.Huawei.{Job}
use smokeping_prober.Remote.Scheduler.{
  State, Worker, dialing, asleep, idle, took, running, done, Runner, min_backoff, run_job, run_body,
  set_worker, clear_pending, add_connect_error,
}
use smokeping_prober.Remote.Scheduler.Steps.{
  dial_fails, gives_up, hangs_up, checks, finishes, dial_fail, quit_asleep, quit_idle, check,
  after_run, finish, set_up,
}
use smokeping_prober.Remote.Scheduler.Steps.Runs.{Run, here, then, Run-trans}

-- A runner whose session is closed.
abbrev hangs : Runner
hangs cmd deadline = err (record { is_timeout = false; is_closed = true })

module _ (n k : ℕ) (jobs : ℕ → Job) where
  -- The steps of one worker, after a cancel: the other workers and the timers stay where they are.
  record Alone (w : ℕ) (s t : State) : Type 0 where
    runs : Run n k jobs s t
    others : (v : ℕ) → v ≢ w → t.workers v ≡ s.workers v
    timers_kept : (i : ℕ) → t.timers i ≡ s.timers i
    cancelled_kept : s.cancelled ≡ true → t.cancelled ≡ true

  Alone-trans : {w : ℕ} {s t u : State} → Alone w s t → Alone w t u → Alone w s u
  Alone-trans f g = record {
    runs = Run-trans n k jobs f.runs g.runs;
    others = λ v ne. g.others v ne ∙ f.others v ne;
    timers_kept = λ i. g.timers_kept i ∙ f.timers_kept i;
    cancelled_kept = λ c. g.cancelled_kept (f.cancelled_kept c);
  }

  -- Worker `w` has returned.
  Returns : ℕ → State → Type 0
  Returns w s = (t : State) × Alone w s t × (t.workers w ≡ done)

  asleep-Returns :
      (w b : ℕ) (s : State) → w < k → s.cancelled ≡ true → s.workers w ≡ asleep b → Returns w s
  unfolding Returns quit_asleep set_worker
  asleep-Returns w b s lt c e = (
    quit_asleep s w,
    record {
      runs = then (gives_up w b lt e c) here;
      others = λ v ne. ground arith;
      timers_kept = λ i. refl;
      cancelled_kept = λ q. q;
    },
    ground arith,
  )

  via : {w : ℕ} {s t : State} → Alone w s t → Returns w t → Returns w s
  unfolding Returns
  via f (u, g, e) = (u, Alone-trans f g, e)

  dialing-Returns :
      (w b : ℕ) (s : State) → w < k → s.cancelled ≡ true → s.workers w ≡ dialing b → Returns w s
  unfolding dial_fail set_worker add_connect_error
  dialing-Returns w b s lt c e =
      let failed : Alone w s (dial_fail s w b) = record {
        runs = then (dial_fails w b lt e) here;
        others = λ v ne. ground arith;
        timers_kept = λ i. refl;
        cancelled_kept = λ q. q;
      } in
      via failed (asleep-Returns w b (dial_fail s w b) lt c (ground arith))

  idle-Returns : (w : ℕ) (s : State) → w < k → s.cancelled ≡ true → s.workers w ≡ idle → Returns w s
  unfolding Returns quit_idle set_worker set_up
  idle-Returns w s lt c e = (
    quit_idle s w,
    record {
      runs = then (hangs_up w lt e c) here;
      others = λ v ne. ground arith;
      timers_kept = λ i. refl;
      cancelled_kept = λ q. q;
    },
    ground arith,
  )

  took-Returns :
      (w i : ℕ) (s : State) → w < k → s.cancelled ≡ true → s.workers w ≡ took i → Returns w s
  unfolding Returns check quit_idle set_worker set_up clear_pending
  took-Returns w i s lt c e = (
    check s w i,
    record {
      runs = then (checks w i lt e) here;
      others = λ v ne. ground (arith, c);
      timers_kept = λ j. ground (arith, c);
      cancelled_kept = λ q. ground (arith, c);
    },
    ground (arith, c),
  )

  running-Returns :
      (w i : ℕ) (s : State) → w < k → s.cancelled ≡ true → s.workers w ≡ running i → Returns w s
  unfolding finish after_run run_job run_body set_worker set_up clear_pending add_connect_error
  running-Returns w i s lt c e =
      let dropped : Alone w s (finish hangs (jobs i) s w i) = record {
        runs = then (finishes w i hangs lt e) here;
        others = λ v ne. ground arith;
        timers_kept = λ j. refl;
        cancelled_kept = λ q. q;
      } in
      via dropped (dialing-Returns w min_backoff (finish hangs (jobs i) s w i) lt c (ground arith))

  -- From wherever it stands, a worker can return.
  worker-Returns :
      (w : ℕ) (s : State) (v : Worker) → w < k → s.cancelled ≡ true → s.workers w ≡ v → Returns w s
  worker-Returns w s (dialing b) lt c e = dialing-Returns w b s lt c e
  worker-Returns w s (asleep b) lt c e = asleep-Returns w b s lt c e
  worker-Returns w s idle lt c e = idle-Returns w s lt c e
  worker-Returns w s (took i) lt c e = took-Returns w i s lt c e
  worker-Returns w s (running i) lt c e = running-Returns w i s lt c e
  worker-Returns w s done lt c e = unfold Returns in (s, stays, e)
    where
      stays : Alone w s s
      stays = record {
        runs = here;
        others = λ v ne. refl;
        timers_kept = λ i. refl;
        cancelled_kept = λ q. q;
      }

  -- The first `m` workers have returned.
  pub workers_return :
      (m : ℕ) (s : State)
      → m ≤ k
      → s.cancelled ≡ true
      → (t : State) × Run n k jobs s t
        × ((w : ℕ) → w < m → t.workers w ≡ done)
        × (t.cancelled ≡ true)
        × ((i : ℕ) → t.timers i ≡ s.timers i)
  unfolding Returns
  workers_return zero s le c = (s, here, (λ w lt. absurd (omega (arith, lt))), c, λ i. refl)
  workers_return (suc m) s le c =
      let (t, f, before, c', kept) = workers_return m s (omega (arith, le)) c in
      let (u, g, e) = worker-Returns m t (t.workers m) (omega (arith, le)) c' refl in
      (
        u,
        Run-trans n k jobs f g.runs,
        (λ w lt. elim (ℕ_discrete w m) [
          | yes q ↦ ap u.workers q ∙ e
          | no q ↦ g.others w q ∙ before w (omega (arith, lt, q))
        ]),
        g.cancelled_kept c',
        λ i. g.timers_kept i ∙ kept i,
      )
