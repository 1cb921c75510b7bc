-- ===== src/Tests/ProberTests.antt =====
-- Runs and instances for main.go.
use smokeping_prober.Prelude.{
  ℕ, pos, true, Option, none, some, List, [], ◌∷◌, map, ◌++◌, ◌≡◌, ◌↔◌, ◌⊎◌, arith, refl, text_eq,
  Text, codes, Result, ok, All, Any, DistinctBy, Permuted,
}
use smokeping_prober.Config.{Config, Router, select_links, router_named}
use smokeping_prober.Prober.{Pinger, Probing, Flags, SmokePingers}
use smokeping_prober.Prober.Labels.{
  base_names, build_label_names, Has, HasLabel, build_label_names_lem,
}
use smokeping_prober.Prober.Prepare.{
  Failed, prepare, prepare_all, prepare_groups, prepare_group, add_remote, add_group_hosts,
  add_flag_hosts, add_schedulers,
}
use smokeping_prober.Remote.Targets.{resolve, build_targets, add_hosts, add_links}
use smokeping_prober.Net.{is_v4}
use smokeping_prober.Prober.Prepare.Bounds.{prepare_lem}
use smokeping_prober.Prober.Prepare.Covers.{KeepsPinger, InRange, Covers, group_hosts}
use smokeping_prober.Prober.Running.{Event}
use smokeping_prober.Prelude.{Option, none, some, ◌++◌}
use smokeping_prober.Prober.Running.Reloads.{no_pingers, serve}
use smokeping_prober.Tests.Fixtures.{small_net, sample}

abbrev new_pinger : Text → Pinger
new_pinger host = record {
  addr = host;
  ip = codes "192.0.2.1";
  network = none;
  interval = pos 1000000000;
  size = pos 24;
  traffic_class = 0;
  source = [];
  privileged = none;
  record_rtts = true;
  record_ttls = true;
}

abbrev pub small_probing : Probing
small_probing = record { Failure = ℕ; new_pinger = new_pinger; resolve_pinger = λ p. ok p }

pub small_probing-KeepsPinger : KeepsPinger small_probing
unfolding KeepsPinger
small_probing-KeepsPinger = ((λ host. refl), λ p q e. ground (arith, e))

abbrev pub dialer : Router → Result ℕ Text
dialer r = ok r.name

abbrev pub flags : Flags
flags = record {
  hosts = codes "192.0.2.1" ∷ [];
  interval = pos 1000000000;
  privileged = true;
  size = pos 56;
  tos = 0;
}

pub flags-InRange : InRange flags.size
flags-InRange = ground arith

abbrev prepared : Option (Failed small_net small_probing dialer) × SmokePingers Text
prepared = prepare small_net small_probing dialer flags sample base_names no_pingers

prepare_lem_example :
    ((e : Failed small_net small_probing dialer) × (prepared ≡ (some e, no_pingers)))
    ⊎ ((prepared.0 ≡ none)
        × (prepared.1.started ≡ [])
        × (prepared.1.started_remote ≡ [])
        × Covers prepared.1.prepared
            (flags.hosts ++ group_hosts sample.targets)
            prepared.1.max_interval
        × All (λ tg. InRange tg.size) sample.targets)
prepare_lem_example =
    prepare_lem small_net small_probing small_probing-KeepsPinger dialer flags sample base_names
      no_pingers flags-InRange

abbrev rounds : List (Config × List Text)
rounds = (sample, base_names) ∷ (sample, base_names) ∷ []

abbrev served : List (Event Text) × SmokePingers Text
served = serve small_net small_probing dialer flags rounds no_pingers

-- Names that are sorted already.
same_order : (xs : List Text) → Permuted xs xs
same_order [] = Permuted.nothing
same_order (x ∷ xs) = Permuted.keep x (same_order xs)

build_label_names_lem_example :
    DistinctBy (λ n. n) (build_label_names (λ xs. xs) sample)
    × ((k : Text)
        → Has k (build_label_names (λ xs. xs) sample)
          ↔ (Has k base_names ⊎ Any (λ tg. HasLabel k tg.labels) sample.targets))
build_label_names_lem_example = build_label_names_lem (λ xs. xs) sample same_order

first_start :
    map (λ pr. pr.pinger.addr) prepared.1.prepared
    ≡ codes "192.0.2.1" ∷ codes "192.0.2.1" ∷ codes "host1" ∷ []
unfolding prepare prepare_all prepare_groups prepare_group add_remote add_group_hosts add_flag_hosts
    add_schedulers resolve build_targets add_hosts add_links select_links router_named is_v4 text_eq
first_start = refl
