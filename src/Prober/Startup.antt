-- ===== src/Prober/Startup.antt =====
-- The start of the program in main.go: the flags, the configuration, and the first pingers.
pub mod Serving
pub mod Started
pub mod Names
pub mod Fixed
use smokeping_prober.Prelude.{
  ℕ, pos, Bool, true, false, Option, none, some, List, [], ◌∷◌, ◌++◌, ◌≡◌, ◌≢◌, ◌⊎◌, inl, inr, refl,
  sym, ap, arith, Text, codes, All, All-append, is_empty, is_empty_iff, Result, ok, err, Bool-cases,
  Option-cases, Result-cases, ◌==◌, if◌then◌else◌,
}
use mathlib.Core.Path.{subst}
use smokeping_prober.Config.{Config, Router}
use smokeping_prober.Config.Valid.{IsConfig}
use smokeping_prober.Config.Reload.{
  SafeConfig, ConfigFile, ReloadError, reading, parsing, invalid, empty_config, reload_config,
  reload_config_lem,
}
use smokeping_prober.Net.{Net}
use smokeping_prober.Prober.{Probing, Flags, SmokePingers}
use smokeping_prober.Prober.Buckets.{parse_buckets}
use smokeping_prober.Prober.Labels.{build_label_names}
use smokeping_prober.Prober.Prepare.{Failed, bad_size, prepare}
use smokeping_prober.Prober.Prepare.Covers.{KeepsPinger, Covers, group_hosts}
use smokeping_prober.Prober.Prepare.Bounds.{prepare_lem}
use smokeping_prober.Prober.Running.{Event, size_of_prepared}
use smokeping_prober.Prober.Running.Generations.{launch}
use smokeping_prober.Prober.Running.Reloads.{no_pingers}
use smokeping_prober.Prober.Opening.{open_collector}
use smokeping_prober.Prober.Reload.{Program}
use smokeping_prober.Collector.Handlers.{Panic, Prometheus, make_vectors}

-- `hostList.Set`: the list with one more host, or its error.
unfoldable pub set_host : Text → List Text → Option (List Text)
set_host value h = if is_empty value then none else some (h ++ value ∷ [])

-- `Set` for each host of the command line.
unfoldable pub set_hosts : List Text → List Text → Option (List Text)
set_hosts [] h = some h
set_hosts (value ∷ values) h = elim (set_host value h) [ none ↦ none | some g ↦ set_hosts values g ]

-- The ways in which the program exits before it serves, a panic among them; `C`, `B` and `P` are the errors of
-- `ReloadConfig`, of `parseBuckets` and of `prepare`.
pub data Exit (C B P : Type 0) : Type 0 where
  bad_host : Exit C B P
  bad_packet_size : Exit C B P
  config_refused : C → Exit C B P
  bad_buckets : B → Exit C B P
  unprepared : P → Exit C B P
  nothing_to_ping : Exit C B P
  panicked : Panic → Exit C B P

abbrev fresh_config : SafeConfig
fresh_config = record { current = empty_config; reload_success = 0; reload_seconds = 0 }

-- `errors.Is(err, os.ErrNotExist)`, by whether an error of the file system is one.
abbrev pub is_missing : {F Y : Type 0} → (F → Bool) → ReloadError F Y → Bool
is_missing not_exist (reading e) = not_exist e
is_missing not_exist (parsing _) = false
is_missing not_exist (invalid _) = false

module _ (prom : Prometheus) (F Y : Type 0) (not_exist : F → Bool) (net : Net) (probing : Probing)
    {E D B : Type 0} (new_dialer : Router → Result E D) (sort : List Text → List Text)
    (parse_float : Text → Result B prom.Bucket) (registry : prom.Registry) where
  abbrev pub Stopped : Type 0
  Stopped = Exit (ReloadError F Y) B (Failed net probing new_dialer)

  -- From the configuration on.
  unfoldable pub first_start :
      Flags → Text → SafeConfig → Result Stopped (List (Event D) × Program prom D)
  first_start flags buckets sc = elim (parse_buckets parse_float buckets) [
    | err e ↦ err (bad_buckets e)
    | ok buckets ↦
        let names = build_label_names sort sc.current in
        elim (make_vectors prom names buckets registry) [
          | err e ↦ err (panicked e)
          | ok w ↦
              let (failed, s) = prepare net probing new_dialer flags sc.current names no_pingers in
              elim failed [
                | some e ↦ err (unprepared e)
                | none ↦
                    if size_of_prepared s == 0
                    then err nothing_to_ping
                    else (let (events, s') = launch s in
                        elim (open_collector prom names s' w) [
                          | err e ↦ err (panicked e)
                          | ok (c, w') ↦ ok (
                            events,
                            record {
                              config = sc;
                              pingers = s';
                              buckets = buckets;
                              world = w';
                              vector_names = names;
                              collector = c;
                            },
                          )
                        ])
              ]
        ]
  ]

  -- A missing file is ignored.
  unfoldable pub startup_with :
      ℕ → ConfigFile F Y → Flags → Text → Result Stopped (List (Event D) × Program prom D)
  unfolding first_start
  startup_with now file flags buckets =
      if bad_size flags.size
      then err bad_packet_size
      else (let (failed, sc) = reload_config net now file fresh_config in
          elim failed [
            | none ↦ first_start flags buckets sc
            | some e ↦
                if is_missing not_exist e
                then first_start flags buckets sc
                else err (config_refused e)
          ])

  -- `main` as far as the reload loop, for the hosts of the command line.
  unfoldable pub startup :
      ℕ
      → ConfigFile F Y
      → List Text
      → Flags
      → Text
      → Result Stopped (List (Event D) × Program prom D)
  unfolding startup_with set_hosts
  startup now file args flags buckets = elim (set_hosts args []) [
    | none ↦ err bad_host
    | some hosts ↦ startup_with now file (record flags { hosts = hosts }) buckets
  ]
