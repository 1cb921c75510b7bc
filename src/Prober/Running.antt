-- ===== src/Prober/Running.antt =====
-- `sizeOfPrepared`, `remoteTargets`, `start`, `startRemote` and `stop` of main.go.
pub mod Generations
pub mod Reloads
use smokeping_prober.Prelude.{
  suc, Option, none, some, pos, div_ℤ, ◌/◌, ◌*◌, ◌≤◌, ◌≡◌, ◌≢◌, refl, ℕ, ◌+◌, Bool, true, List, [],
  ◌∷◌, ◌++◌, Text, map, length, if◌then◌else◌, ◌==◌,
}
use native.Mathlib.Nat.{div-mul-le_self}
use smokeping_prober.Config.{Duration}
use smokeping_prober.Remote.Targets.{Target}
use smokeping_prober.Prober.{Pinger, Probe, Scheduler, SmokePingers}

-- The calls that start and stop something: of `Run`, in a goroutine of the group, and of `Stop` for
-- a pinger, and of `Start` and `Stop` for a scheduler.
pub data Event (D : Type 0) : Type 0 where
  runs stops : Pinger → Event D
  starts_remote stops_remote : Scheduler D → Event D

-- The function that `start` gives to the group for a pinger, with the error that its `Run` returns and
-- the count of such errors.
unfoldable pub run_pinger : {R : Type 0} → (Pinger → Option R) → Pinger → ℕ → Option R × ℕ
run_pinger run p prober_errors = elim (run p) [
  | none ↦ (none, prober_errors)
  | some e ↦ (some e, suc prober_errors)
]

module _ {D : Type 0} where
  count_targets : List (Scheduler D) → ℕ
  count_targets [] = 0
  count_targets (sch ∷ schs) = length sch.targets + count_targets schs

  unfoldable pub size_of_prepared : SmokePingers D → ℕ
  unfolding count_targets
  size_of_prepared s = length s.prepared + count_targets s.prepared_remote

  concat_targets : List (Scheduler D) → List Target
  concat_targets [] = []
  concat_targets (sch ∷ schs) = sch.targets ++ concat_targets schs

  unfoldable pub remote_targets : SmokePingers D → List Target
  unfolding concat_targets
  remote_targets s = concat_targets s.started_remote

  -- `stop`; what `g.Wait` returns is only logged.
  unfoldable pub stop : SmokePingers D → List (Event D) × SmokePingers D
  stop s = (
    map stops_remote s.started_remote
        ++ (if s.has_group then map (λ pr. stops pr.pinger) s.started else []),
    record s { started_remote = [] },
  )

  unfoldable pub start : SmokePingers D → List (Event D) × SmokePingers D
  unfolding size_of_prepared stop
  start s =
      let (events, stopped) = stop s in
      if size_of_prepared s == 0 then ([], s) else (
        events ++ map (λ pr. runs pr.pinger) s.prepared,
        record stopped {
          started_remote = s.prepared_remote;
          prepared_remote = [];
          has_group = true;
          started = s.prepared;
          prepared = [];
        },
      )

  -- The pause of `start` behind each pinger that it starts.
  unfoldable pub splay : SmokePingers D → Duration
  splay s = div_ℤ s.max_interval (length s.started)

  -- The pauses of all pingers together are not longer than the longest interval.
  pub splay-length :
      (s : SmokePingers D) (d : ℕ)
      → s.max_interval ≡ pos d
      → s.started ≢ []
      → (p : ℕ) × (splay s ≡ pos p) × (p * length s.started ≤ d)
  unfolding splay
  splay-length s d e some_started =
      (d / length s.started, rw e refl, div-mul-le_self d (length s.started))

  unfoldable pub start_remote : SmokePingers D → List (Event D)
  start_remote s = map starts_remote s.started_remote
