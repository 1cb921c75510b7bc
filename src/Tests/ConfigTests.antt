-- ===== src/Tests/ConfigTests.antt =====
-- Runs and instances for config/config.go.
use smokeping_prober.Prelude.{
  true, false, ◌≢◌, ℕ, pos, ◌≤ℤ◌, ◌<ℤ◌, none, some, [], ◌∷◌, ◌≡◌, ◌≢◌, ◌↔◌, ◌⊎◌, refl, codes,
  text_eq, Result, ok, Dict,
}
use smokeping_prober.Net.{is_v4}
use smokeping_prober.Config.{TargetGroup, select_links}
use smokeping_prober.Config.Check.{
  validate, check_routers, check_router, check_links, check_link, check_groups, check_group,
  check_remote_group, check_names, check_families, check_hosts, check_host, duplicate_router,
}
use smokeping_prober.Config.Check.Groups.{validate_iff, check_remote_group_iff}
use smokeping_prober.Config.Valid.{IsConfig, IsRemoteGroup}
use smokeping_prober.Config.Unmarshal.{
  default_target_group, has_key, DefaultsTo, unmarshal_target_group, unmarshal_target_group_remote,
}
use smokeping_prober.Config.Reload.{
  SafeConfig, ConfigFile, ReloadError, empty_config, reload_config, reload_config_lem,
}
use smokeping_prober.Tests.Fixtures.{small_net, ne8k, remote_group, sample}

pub sample_accepted : validate small_net sample ≡ none
unfolding validate check_routers check_router check_links check_link check_groups check_group
    check_remote_group check_names check_families check_hosts check_host text_eq is_v4 select_links
sample_accepted = refl

twice_refused :
    validate small_net (record { routers = ne8k ∷ ne8k ∷ []; targets = [] })
    ≡ some (duplicate_router (codes "ne8k"))
unfolding validate check_routers check_router check_links check_link check_groups check_group
    check_remote_group check_names check_families check_hosts check_host text_eq is_v4 select_links
twice_refused = refl

validate_iff_example : (validate small_net sample ≡ none) ↔ IsConfig small_net sample
validate_iff_example = validate_iff small_net sample

pub sample-IsConfig : IsConfig small_net sample
sample-IsConfig = (validate_iff small_net sample).0 sample_accepted

-- The document sets host and router only.
abbrev host_and_router : TargetGroup → Result ℕ TargetGroup
host_and_router g = ok (record g { host = codes "192.0.2.1"; router = codes "ne8k" })

abbrev no_keys : Result ℕ (Dict (Unit {0}))
no_keys = ok []

abbrev decoded : TargetGroup
decoded = record default_target_group { host = codes "192.0.2.1"; router = codes "ne8k" }

unmarshal_target_group_remote_example :
    (s : TargetGroup) × (unmarshal_target_group host_and_router no_keys ≡ ok s)
    × (has_key (codes "interval") [] ≡ true → s.interval ≡ decoded.interval)
    × (has_key (codes "interval") [] ≡ false → s.interval ≡ pos 60000000000)
    × DefaultsTo (pos 10) decoded.count s.count
    × DefaultsTo (pos 50000000) decoded.packet_interval s.packet_interval
    × DefaultsTo (pos 500000000) decoded.timeout s.timeout
    × DefaultsTo (pos 1000000000) decoded.local_interval s.local_interval
    × (decoded.hosts ≢ [] → s.hosts ≡ decoded.hosts)
    × (decoded.hosts ≡ [] → decoded.host ≢ [] → s.hosts ≡ decoded.host ∷ [])
    × (decoded.hosts ≡ [] → decoded.host ≡ [] → s.hosts ≡ [])
    × (s ≡ record decoded {
      hosts = s.hosts;
      interval = s.interval;
      count = s.count;
      packet_interval = s.packet_interval;
      timeout = s.timeout;
      local_interval = s.local_interval;
    })
    × (pos 0 ≤ℤ decoded.count
        → pos 0 ≤ℤ decoded.local_interval
        → (has_key (codes "interval") [] ≡ true → pos 0 <ℤ decoded.interval)
        → (pos 1 ≤ℤ s.count) × (pos 0 <ℤ s.interval) × (pos 0 <ℤ s.local_interval))
unmarshal_target_group_remote_example =
    unmarshal_target_group_remote host_and_router no_keys decoded [] refl refl (λ e. cc)

abbrev first_state : SafeConfig
first_state = record { current = empty_config; reload_success = 0; reload_seconds = 0 }

abbrev sample_file : ConfigFile ℕ ℕ
sample_file = ok (ok sample)

reload_config_lem_example :
    ((e : ReloadError ℕ ℕ) × ((reload_config small_net 9 sample_file first_state).0 ≡ some e)
      × ((reload_config small_net 9 sample_file first_state).1.current ≡ empty_config)
      × ((reload_config small_net 9 sample_file first_state).1.reload_seconds ≡ 0)
      × ((reload_config small_net 9 sample_file first_state).1.reload_success ≡ 0))
    ⊎ (((reload_config small_net 9 sample_file first_state).0 ≡ none)
        × (sample_file ≡ ok (ok (reload_config small_net 9 sample_file first_state).1.current))
        × IsConfig small_net (reload_config small_net 9 sample_file first_state).1.current
        × ((reload_config small_net 9 sample_file first_state).1.reload_seconds ≡ 9)
        × ((reload_config small_net 9 sample_file first_state).1.reload_success ≡ 1))
reload_config_lem_example = reload_config_lem small_net 9 sample_file first_state

pub remote_group-valid : IsRemoteGroup small_net ne8k remote_group
unfolding check_remote_group check_names check_families check_hosts check_host text_eq is_v4
    select_links
remote_group-valid = (check_remote_group_iff small_net 0 ne8k remote_group).0 refl
