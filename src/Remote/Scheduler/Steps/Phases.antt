-- ===== src/Remote/Scheduler/Steps/Phases.antt =====
-- The life of a target, which forgets the order of the queue, the workers and the counters: it
-- rests, falls due, is queued, is with a worker, and rests again.
use smokeping_prober.Prelude.{
  ℕ, zero, suc, ◌+◌, ◌≤◌, ◌<◌, Bool, true, false, List, [], ◌∷◌, ◌++◌, ◌≡◌, ◌≢◌, ◌⊎◌, inl, inr,
  refl, ap, ◌∙◌, arith, update, ltb, length, Text, Result, ok, err, Result-cases, count,
  count-append, bit, le-sum_to, Bool-cases, ◌==◌,
}
use mathlib.Core.Path.{fun_ext}
use smokeping_prober.Remote.Session.{RunError}
use smokeping_prober.Remote.Huawei.{Job, build_command, command_deadline}
use smokeping_prober.Remote.Huawei.Parse.{parse_output}
use smokeping_prober.Remote.Scheduler.{
  State, Timer, waiting, claimed, stopped, Runner, enqueue_claim, enqueue_send, run_job, run_body,
  set_timer, capacity,
}
use smokeping_prober.Remote.Scheduler.Steps.{
  cancel, dial_ok, dial_fail, wake, quit_asleep, quit_idle, take, check, after_run, finish, Step,
  cancels, ticks, sends, timer_stops, connects, dial_fails, wakes, gives_up, hangs_up, takes,
  checks, finishes, Reach,
}
use smokeping_prober.Remote.Scheduler.Steps.Sound.{Reach-IsSound}
use smokeping_prober.Remote.Scheduler.Steps.Invariant.{claims, holds, IsSound}
use smokeping_prober.Remote.Scheduler.Steps.Exclusive.{enqueue_send-queued}

pub data Phase : Type 0 where
  resting due queued with_worker : Phase

-- The one phase that can follow.
abbrev pub turn : Phase → Phase
turn resting = due
turn due = queued
turn queued = with_worker
turn with_worker = resting

-- The phase of a target: by its flag, its timer, and its places in the queue.
abbrev phase_of : Bool → Timer → ℕ → Phase
phase_of false timer places = resting
phase_of true claimed places = due
phase_of true waiting zero = with_worker
phase_of true waiting (suc _) = queued
phase_of true stopped zero = with_worker
phase_of true stopped (suc _) = queued

abbrev phases_of : (ℕ → Bool) → (ℕ → Timer) → List ℕ → ℕ → Phase
phases_of pending timers queue i = phase_of (pending i) (timers i) (count i queue)

abbrev pub phase : State → ℕ → Phase
phase s = phases_of s.pending s.timers s.queue

-- Nothing moves, or one target goes on to its next phase.
abbrev pub Advances : (ℕ → Phase) → (ℕ → Phase) → Type 0
Advances p q = (q ≡ p) ⊎ ((i : ℕ) × (q ≡ update p i (turn (p i))))

held_phase :
    (flag : Bool) (timer : Timer) (places hands : ℕ)
    → claims timer + places + hands ≡ bit flag
    → 1 ≤ hands
    → phase_of flag timer places ≡ with_worker
held_phase flag timer places hands owned h = ground arith

module _ (n k : ℕ) (s : State) (v : IsSound n k s) where
  -- A target that a worker holds is with a worker.
  phase-held : (w i : ℕ) → w < k → holds i (s.workers w) ≡ 1 → phase s i ≡ with_worker
  phase-held w i h e =
      let mine = le-sum_to k (λ x. holds i (s.workers x)) w h in
      held_phase (s.pending i) (s.timers i) (count i s.queue) _ (v.owned i) (omega (arith, mine, e))

moved :
    (p q : ℕ → Phase) (i : ℕ)
    → q i ≡ turn (p i)
    → ((j : ℕ) → i ≢ j → q j ≡ p j)
    → q ≡ update p i (turn (p i))
moved p q i here others = fun_ext λ j. elim (Bool-cases (i == j)) [
  | inl same ↦ ground (arith, here)
  | inr other ↦ ground (arith, others j)
]

released :
    (s t : State) (i : ℕ)
    → t.pending ≡ update s.pending i false
    → t.timers ≡ s.timers
    → t.queue ≡ s.queue
    → phase s i ≡ with_worker
    → phase t ≡ update (phase s) i (turn (phase s i))
released s t i p m q e =
    rw (p, m, q)
      (moved (phase s) (phases_of (update s.pending i false) s.timers s.queue) i (ground (arith, e))
        (λ j other. ground arith))

enqueue_claim-phase :
    (s : State) (i : ℕ) → s.timers i ≡ waiting → Advances (phase s) (phase (enqueue_claim s i))
unfolding enqueue_claim
enqueue_claim-phase s i e = elim (Bool-cases (s.pending i)) [
  | inl p ↦ rw (p, enqueue_claim) (inl refl)
  | inr p ↦ inr (
    i,
    moved (phase s) (phase (enqueue_claim s i)) i (ground (arith, p)) (λ j other. ground arith),
  )
]

enqueue_send-phase :
    (n : ℕ) (s : State) (i : ℕ)
    → s.timers i ≡ claimed
    → s.pending i ≡ true
    → (enqueue_send n s i).queue ≡ s.queue ++ i ∷ []
    → (enqueue_send n s i).pending ≡ s.pending
    → phase (enqueue_send n s i) ≡ update (phase s) i (turn (phase s i))
unfolding count enqueue_send
enqueue_send-phase n s i e p queue flags =
    let timers : (enqueue_send n s i).timers ≡ update s.timers i waiting =
      elim (Bool-cases (ltb (length s.queue) (capacity n))) [
        | inl room ↦ rw (room, enqueue_send) refl
        | inr full ↦ rw (full, enqueue_send) refl
      ] in
    rw (queue, flags, timers)
      (moved (phase s) (phases_of s.pending (update s.timers i waiting) (s.queue ++ i ∷ [])) i
        (ground (arith, e, p, count-append i s.queue (i ∷ [])))
        (λ j other. ground (arith, other, count-append j s.queue (i ∷ []))))

take-phase :
    (s : State) (w i : ℕ) (rest : List ℕ)
    → s.queue ≡ i ∷ rest
    → s.pending i ≡ true
    → s.timers i ≢ claimed
    → count i rest ≡ 0
    → phase (take s w i rest) ≡ update (phase s) i (turn (phase s i))
unfolding take count
take-phase s w i rest q p c none_left =
    moved (phase s) (phase (take s w i rest)) i (ground (arith, q, p, c, none_left))
      (λ j other. ground (arith, q, other))

-- Flags, timers and queue stay.
abbrev Keeps : State → State → Type 0
Keeps s t = (t.pending ≡ s.pending) × (t.timers ≡ s.timers) × (t.queue ≡ s.queue)

run_body-Keeps : (s : State) (i : ℕ) (r : Result RunError Text) → Keeps s (run_body s i r).0
unfolding run_body
run_body-Keeps s i (err e) = elim (Bool-cases e.is_timeout) [
  | inl late ↦ rw late (refl, refl, refl)
  | inr other ↦ rw other (refl, refl, refl)
]
run_body-Keeps s i (ok out) = elim (Result-cases (parse_output out)) [
  | inl (res, parsed) ↦ rw (parsed, run_body) (refl, refl, refl)
  | inr (e, garbled) ↦ rw (garbled, run_body) (refl, refl, refl)
]

after_run-Keeps : (r : State × Bool) (w : ℕ) → Keeps r.0 (after_run r w)
unfolding after_run
after_run-Keeps (s, true) w = (refl, refl, refl)
after_run-Keeps (s, false) w = (refl, refl, refl)

module _ (n k : ℕ) (jobs : ℕ → Job) where
  finish-Keeps :
      (run : Runner) (s : State) (i w : ℕ)
      → Keeps (record s { pending = update s.pending i false }) (finish run (jobs i) s w i)
  unfolding finish run_job
  finish-Keeps run s i w =
      let (p, m, q) =
        run_body-Keeps s i (run (build_command (jobs i)) (command_deadline (jobs i))) in
      let (p', m', q') = after_run-Keeps (run_job run (jobs i) s i) w in
      (p' ∙ ap (λ f. update f i false) p, m' ∙ m, q' ∙ q)

  -- From a state that is reached, a step of any goroutine leaves the phases of all targets as they
  -- are, or moves one target to the phase that follows its own and leaves those of all others: no
  -- target falls due while it is queued or with a worker, none is taken that is not queued, and none
  -- is put back.
  pub Step-Advances :
      {s t : State} → Reach n k jobs s → Step n k jobs s t → Advances (phase s) (phase t)
  unfolding cancel dial_ok dial_fail wake quit_asleep quit_idle check
  Step-Advances r cancels = inl refl
  Step-Advances {s} r (ticks i h e) = enqueue_claim-phase s i e
  Step-Advances {s} r (sends i h e) =
      let (queue, flags, _) = enqueue_send-queued n k jobs s i r h e in
      let owned = (Reach-IsSound n k jobs r).owned i in
      inr (i, enqueue_send-phase n s i e (ground arith) queue flags)
  Step-Advances {s} r (timer_stops i h e c) = inl (fun_ext λ j. unfold set_timer in ground arith)
  Step-Advances r (connects w b h e) = inl refl
  Step-Advances r (dial_fails w b h e) = inl refl
  Step-Advances r (wakes w b h e) = inl refl
  Step-Advances r (gives_up w b h e c) = inl refl
  Step-Advances r (hangs_up w h e c) = inl refl
  Step-Advances {s} r (takes w i rest h e q) =
      let owned = (Reach-IsSound n k jobs r).owned i in
      let first : count i s.queue ≡ suc (count i rest) = unfold count in ground (arith, q) in
      inr (i, take-phase s w i rest q (ground arith) (λ c. ground arith) (ground arith))
  Step-Advances {s} r (checks w i h e) =
      let held = phase-held n k s (Reach-IsSound n k jobs r) w i h (ground arith) in
      elim (Bool-cases s.cancelled) [
        | inl c ↦ inr (
          i,
          released s (check s w i) i (rw (c, check) refl) (rw (c, check) refl) (rw (c, check) refl)
              held,
        )
        | inr c ↦ inl (rw (c, check) refl)
      ]
  Step-Advances {s} r (finishes w i run h e) =
      let held = phase-held n k s (Reach-IsSound n k jobs r) w i h (ground arith) in
      let (p, m, q) = finish-Keeps run s i w in
      inr (i, released s (finish run (jobs i) s w i) i p m q held)
