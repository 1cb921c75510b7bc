-- ===== src/Remote/Scheduler/Steps/Timers.antt =====
-- Once the context of a scheduler is cancelled, each timer can return.
use smokeping_prober.Prelude.{ℕ, zero, suc, ◌≤◌, ◌<◌, true, ◌≡◌, ◌≢◌, refl, ap, ◌∙◌, arith}
use native.Mathlib.Decide.{ℕ_discrete}
use smokeping_prober.Remote.Huawei.{Job}
use smokeping_prober.Remote.Scheduler.{
  State, Timer, waiting, claimed, stopped, enqueue_send, set_timer, clear_pending, add_skipped,
}
use smokeping_prober.Remote.Scheduler.Steps.{sends, timer_stops}
use smokeping_prober.Remote.Scheduler.Steps.Runs.{Run, here, then, Run-trans}

module _ (n k : ℕ) (jobs : ℕ → Job) where
  -- The steps of one timer, after a cancel.
  record Ticking (i : ℕ) (s t : State) : Type 0 where
    runs : Run n k jobs s t
    others : (j : ℕ) → j ≢ i → t.timers j ≡ s.timers j
    workers_kept : (w : ℕ) → t.workers w ≡ s.workers w
    cancelled_kept : s.cancelled ≡ true → t.cancelled ≡ true

  -- Timer `i` has returned.
  Stops : ℕ → State → Type 0
  Stops i s = (t : State) × Ticking i s t × (t.timers i ≡ stopped)

  waiting-Stops :
      (i : ℕ) (s : State) → i < n → s.cancelled ≡ true → s.timers i ≡ waiting → Stops i s
  unfolding Stops set_timer
  waiting-Stops i s lt c e = (
    set_timer s i stopped,
    record {
      runs = then (timer_stops i lt e c) here;
      others = λ j ne. ground arith;
      workers_kept = λ w. refl;
      cancelled_kept = λ q. q;
    },
    ground arith,
  )

  sent_keeps :
      (i : ℕ) (s : State)
      → ((enqueue_send n s i).timers i ≡ waiting)
        × ((j : ℕ) → j ≢ i → (enqueue_send n s i).timers j ≡ s.timers j)
        × ((w : ℕ) → (enqueue_send n s i).workers w ≡ s.workers w)
        × ((enqueue_send n s i).cancelled ≡ s.cancelled)
  unfolding enqueue_send set_timer add_skipped clear_pending
  sent_keeps i s = (ground arith, (λ j ne. ground arith), (λ w. ground arith), ground arith)

  claimed-Stops :
      (i : ℕ) (s : State) → i < n → s.cancelled ≡ true → s.timers i ≡ claimed → Stops i s
  unfolding Stops
  claimed-Stops i s lt c e =
      let (at, apart, workers, still) = sent_keeps i s in
      let (t, f, q) = waiting-Stops i (enqueue_send n s i) lt (still ∙ c) at in
      (
        t,
        record {
          runs = then (sends i lt e) f.runs;
          others = λ j ne. f.others j ne ∙ apart j ne;
          workers_kept = λ w. f.workers_kept w ∙ workers w;
          cancelled_kept = λ z. f.cancelled_kept (still ∙ z);
        },
        q,
      )

  -- From wherever it stands, a timer can return.
  timer-Stops :
      (i : ℕ) (s : State) (v : Timer) → i < n → s.cancelled ≡ true → s.timers i ≡ v → Stops i s
  timer-Stops i s waiting lt c e = waiting-Stops i s lt c e
  timer-Stops i s claimed lt c e = claimed-Stops i s lt c e
  timer-Stops i s stopped lt c e = unfold Stops in (s, stays, e)
    where
      stays : Ticking i s s
      stays = record {
        runs = here;
        others = λ v ne. refl;
        workers_kept = λ i. refl;
        cancelled_kept = λ q. q;
      }

  -- The first `m` timers have returned.
  pub timers_stop :
      (m : ℕ) (s : State)
      → m ≤ n
      → s.cancelled ≡ true
      → (t : State) × Run n k jobs s t
        × ((i : ℕ) → i < m → t.timers i ≡ stopped)
        × (t.cancelled ≡ true)
        × ((w : ℕ) → t.workers w ≡ s.workers w)
  unfolding Stops
  timers_stop zero s le c = (s, here, (λ i lt. absurd (omega (arith, lt))), c, λ w. refl)
  timers_stop (suc m) s le c =
      let (t, f, before, c', kept) = timers_stop m s (omega (arith, le)) c in
      let (u, g, e) = timer-Stops m t (t.timers m) (omega (arith, le)) c' refl in
      (
        u,
        Run-trans n k jobs f g.runs,
        (λ i lt. elim (ℕ_discrete i m) [
          | yes q ↦ ap u.timers q ∙ e
          | no q ↦ g.others i q ∙ before i (omega (arith, lt, q))
        ]),
        g.cancelled_kept c',
        λ w. g.workers_kept w ∙ kept w,
      )
