-- ===== src/Prober/Startup/Fixed.antt =====
-- The label names from the start of the program of main.go on.
use smokeping_prober.Prelude.{
  ℕ, Bool, List, [], ◌≡◌, inl, inr, Text, Result, ok, err, Bool-cases, Option-cases, Result-cases,
  ◌==◌,
}
use mathlib.Core.Path.{subst}
use smokeping_prober.Config.{Router}
use smokeping_prober.Config.Reload.{SafeConfig, ConfigFile, reload_config}
use smokeping_prober.Net.{Net}
use smokeping_prober.Prober.{Probing, Flags}
use smokeping_prober.Prober.Buckets.{parse_buckets}
use smokeping_prober.Prober.Labels.{build_label_names}
use smokeping_prober.Prober.Prepare.{bad_size, prepare}
use smokeping_prober.Prober.Running.{Event, size_of_prepared}
use smokeping_prober.Prober.Running.Generations.{launch}
use smokeping_prober.Prober.Running.Reloads.{no_pingers}
use smokeping_prober.Prober.Opening.{open_collector, open_collector-Shows}
use smokeping_prober.Prober.Reload.{Program}
use smokeping_prober.Prober.Startup.Serving.{reload_all}
use smokeping_prober.Prober.Startup.Names.{HasNames, reload_all-HasNames}
use smokeping_prober.Prober.Startup.{
  Stopped, set_hosts, fresh_config, is_missing, first_start, startup_with, startup,
}
use smokeping_prober.Collector.Handlers.{Prometheus, make_vectors}
use smokeping_prober.Collector.Handlers.Renewed.{KeepsNames, SameNames, later, make_vectors-Named}

SameNames-through : (ns xs ys : List Text) → SameNames ns xs → SameNames ns ys → SameNames xs ys
SameNames-through ns xs ys f g n = ((λ a. (g n).0 ((f n).1 a)), (λ a. (f n).0 ((g n).1 a)))

module _ (prom : Prometheus) (docs : KeepsNames prom) (F Y : Type 0) (not_exist : F → Bool)
    (net : Net) (probing : Probing) {E D B : Type 0} (new_dialer : Router → Result E D)
    (sort : List Text → List Text) (parse_float : Text → Result B prom.Bucket)
    (registry : prom.Registry) where
  -- A start that does not exit has registered its label names.
  abbrev Names :
      Result
        (Stopped prom F Y not_exist net probing new_dialer sort parse_float registry)
        (List (Event D) × Program prom D)
      → Type 0
  Names (err _) = Unit
  Names (ok (_, p)) = (ns : List Text) × HasNames prom docs ns p

  first_start-Names :
      (flags : Flags) (buckets : Text) (sc : SafeConfig)
      → Names (
          first_start prom F Y not_exist net probing new_dialer sort parse_float registry flags
            buckets sc)
  unfolding first_start
  first_start-Names flags buckets sc =
      let names = build_label_names sort sc.current in
      let out = prepare net probing new_dialer flags sc.current names (no_pingers {D = D}) in
      elim (Result-cases (parse_buckets parse_float buckets)) [
        | inr (bad, q) ↦ rw (q, first_start) tt
        | inl (bs, q) ↦ elim (Result-cases (make_vectors prom names bs registry)) [
          | inr (bad, v) ↦ rw (q, v, first_start) tt
          | inl (w, v) ↦ elim (Option-cases out.0) [
            | inr (x, f) ↦ rw (q, v, f, first_start) tt
            | inl f ↦ elim (Bool-cases (size_of_prepared out.1 == 0)) [
              | inl z ↦ rw (q, v, f, z, first_start) tt
              | inr z ↦ elim (Result-cases (open_collector prom names (launch out.1).1 w)) [
                | inr (bad, o) ↦ rw (q, v, f, z, o, first_start) tt
                | inl ((c, w'), o) ↦
                    let (ns, named, same) = make_vectors-Named prom docs names bs registry w v in
                    let shows = open_collector-Shows prom names (launch out.1).1 w c w' o in
                    let kept = later prom docs _ names ns w.registry w'.registry shows.1 named in
                    rw (q, v, f, z, o, first_start) (ns, (same, kept))
              ]
            ]
          ]
        ]
      ]

  startup_with-Names :
      (now : ℕ) (file : ConfigFile F Y) (flags : Flags) (buckets : Text)
      → Names (
          startup_with prom F Y not_exist net probing new_dialer sort parse_float registry now file
            flags buckets)
  unfolding startup_with
  startup_with-Names now file flags buckets =
      let out = reload_config net now file fresh_config in
      let first = first_start-Names flags buckets out.1 in
      elim (Bool-cases (bad_size flags.size)) [
        | inl large ↦ rw (large, startup_with) tt
        | inr fits ↦ elim (Option-cases out.0) [
          | inl e ↦ rw (fits, e, startup_with) first
          | inr (failure, e) ↦ elim (Bool-cases (is_missing not_exist failure)) [
            | inl missing ↦ rw (fits, e, missing, startup_with) first
            | inr refused ↦ rw (fits, e, refused, startup_with) tt
          ]
        ]
      ]

  startup-Names :
      (now : ℕ) (file : ConfigFile F Y) (args : List Text) (flags : Flags) (buckets : Text)
      → Names (
          startup prom F Y not_exist net probing new_dialer sort parse_float registry now file args
            flags buckets)
  unfolding startup
  startup-Names now file args flags buckets = elim (Option-cases (set_hosts args [])) [
    | inl refused ↦ rw (refused, startup) tt
    | inr (hosts, set) ↦
        rw (set, startup) (startup_with-Names now file (record flags { hosts = hosts }) buckets)
  ]

  -- If the registry keeps to its documentation, by which a metric has the label names of its first
  -- registration for the life of the program: from the start of the program on, through any reloads
  -- in which package prometheus does not panic, the vectors keep the label names of the start, up to
  -- their order.
  pub startup-SameNames :
      (now : ℕ) (file : ConfigFile F Y) (args : List Text) (flags given : Flags) (buckets : Text)
      (events more : List (Event D)) (p q : Program prom D) (files : List (ℕ × ConfigFile F Y))
      → startup prom F Y not_exist net probing new_dialer sort parse_float registry now file args
          flags buckets
        ≡ ok (events, p)
      → reload_all prom F Y net probing new_dialer sort given files p ≡ ok (more, q)
      → SameNames p.vector_names q.vector_names
  startup-SameNames now file args flags given buckets events more p q files e reloads =
      let (ns, named) = subst Names e (startup-Names now file args flags buckets) in
      let after =
        reload_all-HasNames prom docs F Y net probing new_dialer sort given files ns p q more
          reloads named in
      SameNames-through ns p.vector_names q.vector_names named.0 after.0
