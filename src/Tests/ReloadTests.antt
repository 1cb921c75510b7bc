-- ===== src/Tests/ReloadTests.antt =====
-- Runs and instances for the reload loop and `parseBuckets` of main.go, and for `CommandDeadline`.
use smokeping_prober.Prelude.{
  ℕ, some, ◌++◌, ◌+◌, ◌*◌, ◌<◌, ◌^◌, pos, negsuc, Bool, true, false, List, [], ◌∷◌, ◌≡◌, ◌≢◌, refl,
  Text, codes, Result, ok, err, All, text_eq, if◌then◌else◌, wrap64, ◌+ℤ◌, ◌*ℤ◌,
}
use smokeping_prober.Config.Reload.{ConfigFile, empty_config}
use smokeping_prober.Config.Reload.{reload_config, load_config}
use smokeping_prober.Prelude.{split}
use smokeping_prober.Collector.Handlers.{
  Panic, label_names, init_metrics, make_vectors, renew_vectors, update_probes,
}
use smokeping_prober.Collector.Handlers.Created.{new_collector}
use smokeping_prober.Prober.{Flags}
use smokeping_prober.Prober.Startup.{
  Stopped, startup, startup_with, first_start, set_hosts, set_host,
}
use smokeping_prober.Prober.Startup.Serving.{IsServing, reload_all}
use smokeping_prober.Prober.Startup.Started.{startup-IsServing}
use smokeping_prober.Prober.Prepare.{
  prepare, prepare_all, add_flag_hosts, prepare_groups, prepare_group, add_remote, add_group_hosts,
  add_schedulers,
}
use smokeping_prober.Prober.Prepare.Covers.{InRange}
use smokeping_prober.Prober.Running.{Event, size_of_prepared, start, stop, remote_targets}
use smokeping_prober.Prober.Running.Generations.{launch, Grouped}
use smokeping_prober.Prober.Buckets.{parse_buckets}
use smokeping_prober.Prober.Opening.{open_collector}
use smokeping_prober.Prober.Reload.{Program, Ends, apply_vectors, apply_config, reload, reload-Ends}
use smokeping_prober.Prober.Running.Reloads.{no_pingers}
use smokeping_prober.Prober.Labels.{base_names, build_label_names, add_labels, extra_names}
use smokeping_prober.Config.Unmarshal.{default_target_group}
use smokeping_prober.Config.Check.{validate, check_routers, check_groups, check_group}
use smokeping_prober.Collector.{build_label_values, label_values}
use smokeping_prober.Prelude.{show_ℕ}
use smokeping_prober.Remote.Huawei.{command_deadline}
use smokeping_prober.Remote.Huawei.Deadline.{IsInt64, command_deadline_lem}
use smokeping_prober.Tests.Fixtures.{small_net, sample, sample_job}
use smokeping_prober.Tests.HandlerTests.{small_client, small_client-KeepsNames, empty_registry}
use smokeping_prober.Prober.Startup.Fixed.{startup-SameNames}
use smokeping_prober.Collector.Handlers.Renewed.{SameNames}
use smokeping_prober.Tests.ProberTests.{
  small_probing, small_probing-KeepsPinger, dialer, flags, flags-InRange,
}

-- Before the first start: the vectors of the base names, and nothing that runs.
abbrev first_program : Program small_client Text
first_program = record {
  config = record { current = empty_config; reload_success = 0; reload_seconds = 0 };
  pingers = no_pingers;
  buckets = true ∷ [];
  world = record {
    ttl = (5, []);
    duplicates = (5, []);
    receive_errors = 0;
    send_errors = (5, []);
    seconds = (5, []);
    registry = λ name. some base_names;
  };
  vector_names = base_names;
  collector = record { label_names = base_names; probes = []; remote = [] };
}

first_program-Grouped : Grouped first_program.pingers
unfolding Grouped
first_program-Grouped e = refl

abbrev sample_file : ConfigFile ℕ ℕ
sample_file = ok (ok sample)

abbrev sort : List Text → List Text
sort xs = xs

reload-Ends_example :
    Ends small_client ℕ ℕ small_net small_probing dialer sort flags sample_file first_program (
      reload small_client ℕ ℕ small_net small_probing dialer sort flags 9 sample_file first_program)
reload-Ends_example =
    reload-Ends small_client ℕ ℕ small_net small_probing dialer sort flags small_probing-KeepsPinger
      flags-InRange 9 sample_file first_program first_program-Grouped

-- A bucket is one byte that is no comma.
abbrev parse_bucket : Text → Result ℕ Bool
parse_bucket t =
    if text_eq t (codes "1") then ok true else if text_eq t (codes "2") then ok false else err 1

command_deadline_lem_example :
    IsInt64 (command_deadline sample_job)
    × ((c t p : ℕ)
        → sample_job.count ≡ pos c
        → sample_job.timeout ≡ pos t
        → sample_job.packet_interval ≡ pos p
        → 0 < c
        → c * (t + p) + 5_000_000_000 < 2 ^ 63
        → command_deadline sample_job ≡ pos (c * (t + p) + 5_000_000_000))
command_deadline_lem_example = command_deadline_lem sample_job

-- A count that `Validate` accepts, and a deadline that has passed.
overflow :
    command_deadline (record sample_job { count = pos 20_000_000_000 })
    ≡ negsuc (7_446_744_068_709_551_615)
unfolding command_deadline wrap64 ◌+ℤ◌ ◌*ℤ◌
overflow = refl

-- A start without a configuration file, for one host, and a reload with one.
abbrev start_up :
    Result
      (Stopped small_client ℕ ℕ
        (λ _. true)
        small_net
        small_probing
        dialer
        sort
        parse_bucket
        empty_registry)
      (List (Event Text) × Program small_client Text)
start_up =
    startup small_client ℕ ℕ (λ _. true) small_net small_probing dialer sort parse_bucket
      empty_registry 3 (err 2) (codes "host1" ∷ []) flags (codes "1,2")

abbrev start_events : List (Event Text)
start_events = elim start_up [ ok (events, _) ↦ events | err _ ↦ [] ]

abbrev start_program : Program small_client Text
start_program = elim start_up [ ok (_, p) ↦ p | err _ ↦ first_program ]

abbrev given : Flags
given = record flags { hosts = codes "host1" ∷ [] }

-- A file that cannot be read, and then one with a group of one host.
abbrev files : List (ℕ × ConfigFile ℕ ℕ)
files =
    (9, err 2)
    ∷ (
      12,
      ok (
          ok (record {
            routers = [];
            targets = record default_target_group { hosts = codes "host1" ∷ [] } ∷ [];
          })),
    )
    ∷ []

abbrev after_reloads : Result Panic (List (Event Text) × Program small_client Text)
after_reloads =
    reload_all small_client ℕ ℕ small_net small_probing dialer sort given files start_program

abbrev last_events : List (Event Text)
last_events = elim after_reloads [ ok (events, _) ↦ events | err _ ↦ [] ]

abbrev last_program : Program small_client Text
last_program = elim after_reloads [ ok (_, p) ↦ p | err _ ↦ first_program ]

startup-IsServing_example :
    All (λ v. v ≢ []) (codes "host1" ∷ [])
    × InRange flags.size
    × IsServing small_net sort (codes "host1" ∷ []) (start_events ++ last_events) last_program
unfolding startup startup_with first_start set_hosts set_host reload_config load_config
    parse_buckets split prepare prepare_all add_flag_hosts prepare_groups add_schedulers
    size_of_prepared launch start stop text_eq make_vectors init_metrics open_collector
    new_collector update_probes build_label_values label_values build_label_names remote_targets
    reload_all reload validate check_routers check_groups check_group renew_vectors add_labels
    extra_names add_group_hosts add_remote prepare_group apply_config apply_vectors show_ℕ
startup-IsServing_example =
    startup-IsServing small_client ℕ ℕ (λ _. true) small_net small_probing dialer sort parse_bucket
      empty_registry small_probing-KeepsPinger 3 (err 2) (codes "host1" ∷ []) flags (codes "1,2")
      start_events last_events start_program last_program files refl refl

startup-SameNames_example : SameNames start_program.vector_names last_program.vector_names
unfolding startup startup_with first_start set_hosts set_host reload_config load_config
    parse_buckets split prepare prepare_all add_flag_hosts prepare_groups add_schedulers
    size_of_prepared launch start stop text_eq make_vectors init_metrics open_collector
    new_collector update_probes build_label_values label_values build_label_names remote_targets
    reload_all reload validate check_routers check_groups check_group renew_vectors add_labels
    extra_names add_group_hosts add_remote prepare_group apply_config apply_vectors show_ℕ
startup-SameNames_example =
    startup-SameNames small_client small_client-KeepsNames ℕ ℕ (λ _. true) small_net small_probing
      dialer sort parse_bucket empty_registry 3 (err 2) (codes "host1" ∷ []) flags given
      (codes "1,2") start_events last_events start_program last_program files refl refl

-- The registry refuses vectors with one more label.
other_names_panic :
    renew_vectors small_client base_names
      (codes "site" ∷ base_names)
      (true ∷ [])
      first_program.world
    ≡ err label_names
unfolding renew_vectors make_vectors init_metrics text_eq
other_names_panic = refl
