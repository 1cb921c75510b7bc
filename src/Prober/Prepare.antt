-- ===== src/Prober/Prepare.antt =====
-- `smokePingers.prepare` of main.go. The pingers, the dialers of remote/targets.go and the resolver
-- are parameters.
pub mod Covers
pub mod Bounds
use smokeping_prober.Prelude.{
  ℕ, ℤ, pos, Bool, true, false, ◌||◌, Option, none, some, List, [], ◌∷◌, ◌++◌, Text, Dict, lookup,
  insert, text_eq, codes, is_empty, ltb_ℤ, if◌then◌else◌, Result, ok, err, ◌>>=◌,
}
use smokeping_prober.Config.{Config, Duration, Router, TargetGroup, no_router, router_named}
use smokeping_prober.Net.{Net, Ip}
use smokeping_prober.Remote.Targets.{Target, ResolveError, BuildError, build_targets, resolve}
use smokeping_prober.Prober.{Pinger, Probe, Probing, Scheduler, SmokePingers, Flags}

-- The errors, with the failures of the pingers `F`, of the resolver `L` and of the dialers `E`.
pub data PrepareError (F L E : Type 0) : Type 0 where
  pinger_failed : F → PrepareError F L E
  bad_packet_size : ℤ → PrepareError F L E
  targets_failed : Text → BuildError (ResolveError L) → PrepareError F L E
  dialer_failed : Text → E → PrepareError F L E

-- The pinger of a host of the command line after `Resolve`, and that of a host of a group before it.
abbrev pub flag_pinger : Flags → Pinger → Pinger
flag_pinger flags p = record p {
  interval = flags.interval;
  record_rtts = false;
  record_ttls = false;
  privileged = some flags.privileged;
  size = flags.size;
  traffic_class = flags.tos;
}

abbrev pub flag_probe : Flags → Pinger → Probe
flag_probe flags p = record { pinger = flag_pinger flags p; labels = [] }

abbrev pub group_probe : TargetGroup → Pinger → Probe
group_probe tg p = record { pinger = p; labels = tg.labels }

abbrev pub group_pinger : TargetGroup → Duration → Pinger → Pinger
group_pinger tg interval p = record p {
  interval = interval;
  record_rtts = false;
  record_ttls = false;
  network = some tg.network;
  size = tg.size;
  traffic_class = tg.tos;
  source = tg.source;
  privileged = if text_eq tg.protocol (codes "icmp") then some true else p.privileged;
}

-- `targetGroup.Interval`, or `targetGroup.LocalInterval` of a group with a router.
abbrev pub local_interval_of : TargetGroup → Duration
local_interval_of tg = if is_empty tg.router then tg.interval else tg.local_interval

abbrev pub bad_size : ℤ → Bool
bad_size size = ltb_ℤ size (pos 24) || ltb_ℤ (pos 65535) size

abbrev pub max_duration : Duration → Duration → Duration
max_duration a b = if ltb_ℤ b a then a else b

abbrev pub targets_of : Dict (List Target) → Text → List Target
targets_of remote name = elim (lookup name remote) [ some ts ↦ ts | none ↦ [] ]

-- The zero value of a router that is missing.
abbrev pub router_or_zero : Option Router → Router
router_or_zero none = no_router
router_or_zero (some r) = r

-- What the loop over the groups has: `probes`, `remoteTargets` and `maxInterval`.
pub record Prepared : Type 0 where
  pub probes : List Probe
  pub remote : Dict (List Target)
  pub max_interval : Duration

module _ (net : Net) (probing : Probing) {E D : Type 0} (new_dialer : Router → Result E D) where
  abbrev pub Failed : Type 0
  Failed = PrepareError probing.Failure net.LookupError E

  unfoldable pub add_flag_hosts : Flags → List Text → List Probe → Result Failed (List Probe)
  add_flag_hosts flags [] probes = ok probes
  add_flag_hosts flags (host ∷ hosts) probes =
      elim (probing.resolve_pinger (probing.new_pinger host)) [
        | err e ↦ err (pinger_failed e)
        | ok p ↦ add_flag_hosts flags hosts (probes ++ flag_probe flags p ∷ [])
      ]

  unfoldable pub add_group_hosts : TargetGroup → List Text → List Probe → Result Failed (List Probe)
  add_group_hosts tg [] probes = ok probes
  add_group_hosts tg (host ∷ hosts) probes =
      elim (probing.resolve_pinger
        (group_pinger tg (local_interval_of tg) (probing.new_pinger host))) [
          | err e ↦ err (pinger_failed e)
          | ok p ↦ add_group_hosts tg hosts (probes ++ group_probe tg p ∷ [])
        ]

  -- The part of the loop for a group with a router.
  unfoldable pub add_remote :
      Config → TargetGroup → Dict (List Target) → Result Failed (Dict (List Target))
  add_remote c tg remote =
      if is_empty tg.router
      then ok remote
      else (let r = router_or_zero (router_named c tg.router) in
          elim (build_targets net tg r (resolve net)) [
            | err e ↦ err (targets_failed r.name e)
            | ok ts ↦ ok (insert r.name (targets_of remote r.name ++ ts) remote)
          ])

  -- The body of the loop over the groups.
  unfoldable pub prepare_group : Config → TargetGroup → Prepared → Result Failed Prepared
  unfolding add_remote add_group_hosts
  prepare_group c tg p =
      if bad_size tg.size
      then err (bad_packet_size tg.size)
      else (add_remote c tg p.remote >>= λ remote.
          add_group_hosts tg tg.hosts p.probes >>= λ probes. ok record {
            probes = probes;
            remote = remote;
            max_interval = max_duration (local_interval_of tg) p.max_interval;
          })

  unfoldable pub prepare_groups : Config → List TargetGroup → Prepared → Result Failed Prepared
  unfolding prepare_group
  prepare_groups c [] p = ok p
  prepare_groups c (tg ∷ tgs) p = elim (prepare_group c tg p) [
    | err e ↦ err e
    | ok q ↦ prepare_groups c tgs q
  ]

  -- The loop over the routers.
  unfoldable pub add_schedulers :
      List Text
      → Dict (List Target)
      → List Router
      → List (Scheduler D)
      → Result Failed (List (Scheduler D))
  add_schedulers names remote [] schedulers = ok schedulers
  add_schedulers names remote (r ∷ rs) schedulers =
      let targets = targets_of remote r.name in
      let none_left = add_schedulers names remote rs schedulers in
      if is_empty targets then none_left else elim (new_dialer r) [
        | err e ↦ err (dialer_failed r.name e)
        | ok d ↦ add_schedulers names remote rs (
            schedulers
            ++ record {
              router = r.name;
              sessions = r.sessions;
              dialer = d;
              targets = targets;
              recorder = names;
            }
              ∷ [])
      ]

  -- Everything that can fail.
  unfoldable pub prepare_all :
      Flags → Config → List Text → Result Failed (Prepared × List (Scheduler D))
  unfolding add_flag_hosts prepare_groups add_schedulers
  prepare_all flags c names = add_flag_hosts flags flags.hosts [] >>= λ probes.
      prepare_groups c c.targets
        record { probes = probes; remote = []; max_interval = flags.interval }
      >>= λ p. add_schedulers names p.remote c.routers [] >>= λ schedulers. ok (p, schedulers)

  -- `prepare`, with a nil error as `none`.
  unfoldable pub prepare :
      Flags → Config → List Text → SmokePingers D → Option Failed × SmokePingers D
  unfolding prepare_all
  prepare flags c names s = elim (prepare_all flags c names) [
    | err e ↦ (some e, s)
    | ok (p, schedulers) ↦ (
      none,
      record s { prepared = p.probes; prepared_remote = schedulers; max_interval = p.max_interval },
    )
  ]
