-- ===== src/Remote/Scheduler/Steps/Runs.antt =====
-- Series of steps of a scheduler.
use smokeping_prober.Prelude.{ℕ}
use smokeping_prober.Remote.Huawei.{Job}
use smokeping_prober.Remote.Scheduler.{State}
use smokeping_prober.Remote.Scheduler.Steps.{Step}

module _ (n k : ℕ) (jobs : ℕ → Job) where
  -- A series of steps.
  pub data Run : State → State → Type 0 where
    here : {s : State} → Run s s
    then : {s t u : State} → Step n k jobs s t → Run t u → Run s u

  pub Run-trans : {s t u : State} → Run s t → Run t u → Run s u
  Run-trans here g = g
  Run-trans (then e f) g = then e (Run-trans f g)
