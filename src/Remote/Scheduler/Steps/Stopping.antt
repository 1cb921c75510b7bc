-- ===== src/Remote/Scheduler/Steps/Stopping.antt =====
-- `Stop` of remote/scheduler.go.
use smokeping_prober.Prelude.{ℕ, ◌<◌, Bool, true, false, ◌≡◌, refl, sym, ap, ◌∙◌, arith}
use smokeping_prober.Remote.Huawei.{Job}
use smokeping_prober.Remote.Scheduler.{
  State, stopped, Worker, running, done, Runner, enqueue_claim, enqueue_send, run_job, run_body,
  set_worker, set_timer, clear_pending, add_connect_error, add_skipped,
}
use smokeping_prober.Remote.Scheduler.Steps.{
  Step, cancels, ticks, sends, timer_stops, dial_fails, gives_up, hangs_up, checks, finishes,
  connects, wakes, takes, cancel, dial_ok, dial_fail, wake, quit_asleep, quit_idle, take, check,
  after_run, finish, set_up,
}
use smokeping_prober.Remote.Scheduler.Steps.Runs.{Run, here, then, Run-trans}
use smokeping_prober.Remote.Scheduler.Steps.Workers.{workers_return}
use smokeping_prober.Remote.Scheduler.Steps.Timers.{timers_stop}

module _ (n k : ℕ) (jobs : ℕ → Job) where
  -- `Stop` is never stuck: from every state, once the context is cancelled, some series of steps
  -- brings every timer and every worker to its return, whatever each of them was doing.
  pub stop_can_finish :
      (s : State)
      → (t : State) × Run n k jobs (cancel s) t
        × ((i : ℕ) → i < n → t.timers i ≡ stopped)
        × ((w : ℕ) → w < k → t.workers w ≡ done)
  unfolding cancel
  stop_can_finish s =
      let (t, f, stopped_all, c, _) = timers_stop n k jobs n (cancel s) (omega arith) refl in
      let (u, g, done_all, _, kept) = workers_return n k jobs k t (omega arith) c in
      (u, Run-trans n k jobs f g, (λ i lt. kept i ∙ stopped_all i lt), done_all)

  -- After a cancel a run that goes on was going on before.
  abbrev pub BeginsNothing : State → State → Type 0
  BeginsNothing s t =
      (t.cancelled ≡ true) × ((w i : ℕ) → t.workers w ≡ running i → s.workers w ≡ running i)

  pub run_job_keeps :
      (run : Runner) (job : Job) (s : State) (i : ℕ)
      → ((run_job run job s i).0.cancelled ≡ s.cancelled)
        × ((run_job run job s i).0.workers ≡ s.workers)
  unfolding run_job run_body
  run_job_keeps run job s i = ground arith

  after_run_keeps :
      (s s' : State) (reuse : Bool) (w : ℕ)
      → s'.cancelled ≡ true
      → s'.workers ≡ s.workers
      → BeginsNothing s (after_run (s', reuse) w)
  unfolding after_run
  after_run_keeps s s' true w c same =
      (c, λ v j e. ap (λ (f : ℕ → Worker). f v) (sym same) ∙ ground arith)
  after_run_keeps s s' false w c same =
      (c, λ v j e. ap (λ (f : ℕ → Worker). f v) (sym same) ∙ ground arith)

  Step-BeginsNothing : {s t : State} → Step n k jobs s t → s.cancelled ≡ true → BeginsNothing s t
  unfolding cancel dial_ok dial_fail wake quit_asleep quit_idle take check finish enqueue_claim
      enqueue_send set_timer set_worker set_up add_skipped clear_pending add_connect_error
  Step-BeginsNothing cancels c = (refl, λ w i e. e)
  Step-BeginsNothing (ticks i h e) c = (ground arith, λ w j r. ground arith)
  Step-BeginsNothing (sends i h e) c = (ground arith, λ w j r. ground arith)
  Step-BeginsNothing (timer_stops i h e q) c = (c, λ w j r. r)
  Step-BeginsNothing (connects w b h e) c = (c, λ v j r. ground arith)
  Step-BeginsNothing (dial_fails w b h e) c = (c, λ v j r. ground arith)
  Step-BeginsNothing (wakes w b h e) c = (c, λ v j r. ground arith)
  Step-BeginsNothing (gives_up w b h e q) c = (c, λ v j r. ground arith)
  Step-BeginsNothing (hangs_up w h e q) c = (c, λ v j r. ground arith)
  Step-BeginsNothing (takes w i rest h e q) c = (c, λ v j r. ground arith)
  Step-BeginsNothing (checks w i h e) c = (ground arith, λ v j r. ground arith)
  Step-BeginsNothing {s} (finishes w i run h e) c =
      let (still, same) = run_job_keeps run (jobs i) s i in
      let (s', reuse) = run_job run (jobs i) s i in after_run_keeps s s' reuse w (still ∙ c) same

  -- After `Stop` has cancelled the context, in any order of the steps of the goroutines, no run
  -- begins: a worker that runs a target has been running it since the cancel.
  pub Run-BeginsNothing : {s t : State} → Run n k jobs s t → s.cancelled ≡ true → BeginsNothing s t
  Run-BeginsNothing here c = (c, λ w i e. e)
  Run-BeginsNothing (then e f) c =
      let (c', first) = Step-BeginsNothing e c in
      let (c'', rest) = Run-BeginsNothing f c' in (c'', λ w i r. first w i (rest w i r))
