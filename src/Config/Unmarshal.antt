-- ===== src/Config/Unmarshal.antt =====
-- The defaults of config/config.go, and the `UnmarshalYAML` methods that apply them.
use smokeping_prober.Prelude.{
  ℤ, pos, ◌≤ℤ◌, ◌<ℤ◌, Bool, not, true, false, ◌&&◌, none, some, [], ◌∷◌, ◌≡◌, ◌≢◌, ◌⊎◌, arith, Text,
  codes, Dict, lookup, is_empty, is_zero, if◌then◌else◌, Result, ok, ◌>>=◌,
}
use smokeping_prober.Config.{Duration, Router, TargetGroup, no_router}

abbrev second : Duration
second = pos 1000000000

abbrev pub default_target_group : TargetGroup
default_target_group = record {
  hosts = [];
  host = [];
  interval = second;
  network = codes "ip";
  protocol = codes "icmp";
  size = pos 56;
  source = [];
  tos = 0;
  labels = [];
  router = [];
  links = [];
  count = pos 0;
  packet_interval = pos 0;
  timeout = pos 0;
  local_interval = pos 0;
}

-- time.Minute, 10, 50 ms, 500 ms and 5
abbrev pub default_remote_interval : Duration
default_remote_interval = pos 60000000000

abbrev pub default_remote_count : ℤ
default_remote_count = pos 10

abbrev pub default_remote_packet_interval : Duration
default_remote_packet_interval = pos 50000000

abbrev pub default_remote_timeout : Duration
default_remote_timeout = pos 500000000

abbrev pub default_router_sessions : ℤ
default_router_sessions = pos 5

-- The keys of the document, as `raw` holds them.
abbrev pub has_key : Text → Dict (Unit {0}) → Bool
has_key k raw = elim (lookup k raw) [ none ↦ false | some _ ↦ true ]

-- if s.Host != "" && len(s.Hosts) == 0
fold_host : TargetGroup → TargetGroup
fold_host s =
    if not (is_empty s.host) && is_empty s.hosts then record s { hosts = s.host ∷ [] } else s

or_default : ℤ → ℤ → ℤ
or_default d v = if is_zero v then d else v

remote_defaults : Dict (Unit {0}) → TargetGroup → TargetGroup
unfolding or_default
remote_defaults raw s = record s {
  interval = if has_key (codes "interval") raw then s.interval else default_remote_interval;
  count = or_default default_remote_count s.count;
  packet_interval = or_default default_remote_packet_interval s.packet_interval;
  timeout = or_default default_remote_timeout s.timeout;
  local_interval = or_default default_target_group.interval s.local_interval;
}

-- The value that a default for zero leads to.
abbrev pub DefaultsTo : ℤ → ℤ → ℤ → Type 0
DefaultsTo d v w = (v ≡ pos 0 → w ≡ d) × (v ≢ pos 0 → w ≡ v)

-- The YAML decoder is a parameter: `plain` decodes the document over a value that holds the
-- defaults, and `raw` decodes it into a map.
module _ {E : Type 0} where
  unfoldable pub unmarshal_target_group :
      (TargetGroup → Result E TargetGroup) → Result E (Dict (Unit {0})) → Result E TargetGroup
  unfolding fold_host remote_defaults
  unmarshal_target_group plain raw = do
    decoded ← plain default_target_group
    let s = fold_host decoded
    if is_empty s.router then ok s else raw >>= λ keys. ok (remote_defaults keys s)

  unfoldable pub unmarshal_router : (Router → Result E Router) → Result E Router
  unmarshal_router plain = plain (record no_router { sessions = default_router_sessions })

  -- A group with a router is decoded whenever the document is. An interval that the document does
  -- not have becomes a minute; a count, a packet interval, a timeout or a local interval of zero
  -- becomes 10, 50 ms, 500 ms or a second; every other of these is kept. A host without hosts is
  -- the only host, and hosts that are given are kept; nothing else changes. Unless the document has
  -- a number below zero or an interval that is not positive, the count and the intervals are then
  -- those that `Validate` asks for.
  pub unmarshal_target_group_remote :
      (plain : TargetGroup → Result E TargetGroup) (raw : Result E (Dict (Unit {0})))
      (d : TargetGroup) (keys : Dict (Unit {0}))
      → plain default_target_group ≡ ok d
      → raw ≡ ok keys
      → d.router ≢ []
      → (s : TargetGroup) × (unmarshal_target_group plain raw ≡ ok s)
        × (has_key (codes "interval") keys ≡ true → s.interval ≡ d.interval)
        × (has_key (codes "interval") keys ≡ false → s.interval ≡ pos 60000000000)
        × DefaultsTo (pos 10) d.count s.count
        × DefaultsTo (pos 50000000) d.packet_interval s.packet_interval
        × DefaultsTo (pos 500000000) d.timeout s.timeout
        × DefaultsTo (pos 1000000000) d.local_interval s.local_interval
        × (d.hosts ≢ [] → s.hosts ≡ d.hosts)
        × (d.hosts ≡ [] → d.host ≢ [] → s.hosts ≡ d.host ∷ [])
        × (d.hosts ≡ [] → d.host ≡ [] → s.hosts ≡ [])
        × (s ≡ record d {
          hosts = s.hosts;
          interval = s.interval;
          count = s.count;
          packet_interval = s.packet_interval;
          timeout = s.timeout;
          local_interval = s.local_interval;
        })
        × (pos 0 ≤ℤ d.count
            → pos 0 ≤ℤ d.local_interval
            → (has_key (codes "interval") keys ≡ true → pos 0 <ℤ d.interval)
            → (pos 1 ≤ℤ s.count) × (pos 0 <ℤ s.interval) × (pos 0 <ℤ s.local_interval))
  unfolding unmarshal_target_group fold_host remote_defaults or_default
  unmarshal_target_group_remote plain raw d keys e k named = (
    remote_defaults keys (fold_host d),
    ground arith,
    ground arith,
    ground arith,
    (λ z. ground arith, λ n. ground arith),
    (λ z. ground arith, λ n. ground arith),
    (λ z. ground arith, λ n. ground arith),
    (λ z. ground arith, λ n. ground arith),
    ground arith,
    ground arith,
    ground arith,
    ground arith,
    λ count local interval. ground arith,
  )

  -- A group without a router is decoded with no remote default: `Validate` sees what the document
  -- sets, and refuses it exactly when the document sets a remote field.
  pub unmarshal_target_group_local :
      (plain : TargetGroup → Result E TargetGroup) (raw : Result E (Dict (Unit {0})))
      (d : TargetGroup)
      → plain default_target_group ≡ ok d
      → d.router ≡ []
      → (s : TargetGroup) × (unmarshal_target_group plain raw ≡ ok s)
        × (s.router ≡ [])
        × (s.interval ≡ d.interval)
        × (s.count ≡ d.count)
        × (s.packet_interval ≡ d.packet_interval)
        × (s.timeout ≡ d.timeout)
        × (s.local_interval ≡ d.local_interval)
        × (s.links ≡ d.links)
        × ((d.hosts ≡ []) ⊎ (s.hosts ≡ d.hosts))
        × ((d.host ≡ []) ⊎ (s.hosts ≢ []))
  unfolding unmarshal_target_group fold_host
  unmarshal_target_group_local plain raw d e local = (
    fold_host d,
    ground arith,
    ground arith,
    ground arith,
    ground arith,
    ground arith,
    ground arith,
    ground arith,
    ground arith,
    ground arith,
    ground arith,
  )
