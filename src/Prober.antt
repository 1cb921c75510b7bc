-- ===== src/Prober.antt =====
-- main.go: the pingers and the remote schedulers that the prober prepares, starts and stops.
pub mod Labels
pub mod Prepare
pub mod Running
pub mod Buckets
pub mod Opening
pub mod Reload
pub mod Startup
use smokeping_prober.Prelude.{ℕ, ℤ, Bool, Option, Text, Dict, List, Result}
use smokeping_prober.Config.{Duration}
use smokeping_prober.Remote.Targets.{Target}

-- A `probing.Pinger`, as the values that the prober gives it or reads from it. `none` stands for a
-- setter that is not called.
pub record Pinger : Type 0 where
  pub addr : Text
  pub ip : Text
  pub network : Option Text
  pub interval : Duration
  pub size : ℤ
  pub traffic_class : ℕ
  pub source : Text
  pub privileged : Option Bool
  pub record_rtts : Bool
  pub record_ttls : Bool

pub record Probe : Type 0 where
  pub pinger : Pinger
  pub labels : Dict Text

-- Package probing: `New`, and `Resolve`, which gives the pinger its address or an error.
pub record Probing : Type 1 where
  pub Failure : Type 0
  pub new_pinger : Text → Pinger
  pub resolve_pinger : Pinger → Result Failure Pinger

-- A `remote.Scheduler` that is not started: what `NewScheduler` gets. `D` stands for the dialers,
-- and the recorder is known by its label names.
pub record Scheduler (D : Type 0) : Type 0 where
  pub router : Text
  pub sessions : ℤ
  pub dialer : D
  pub targets : List Target
  pub recorder : List Text

-- `smokePingers`. A nil slice is an empty one, and `has_group` tells whether `g` is set.
pub record SmokePingers (D : Type 0) : Type 0 where
  pub started : List Probe
  pub prepared : List Probe
  pub started_remote : List (Scheduler D)
  pub prepared_remote : List (Scheduler D)
  pub has_group : Bool
  pub max_interval : Duration

-- The flags that `prepare` gets.
pub record Flags : Type 0 where
  pub hosts : List Text
  pub interval : Duration
  pub privileged : Bool
  pub size : ℤ
  pub tos : ℕ
