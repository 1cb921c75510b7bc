-- ===== src/Prober/Startup/Started.antt =====
-- What the start of the program of main.go leads to.
use smokeping_prober.Prelude.{
  ℕ, Bool, some, List, [], ◌∷◌, ◌++◌, ◌≡◌, ◌≢◌, inl, inr, refl, sym, ap, ◌∙◌, arith, append_assoc,
  append-nil, Text, All, is_empty, is_empty_iff, Result, ok, err, Bool-cases, Option-cases,
  Result-cases, ◌==◌,
}
use mathlib.Core.Path.{subst}
use smokeping_prober.Config.{Router}
use smokeping_prober.Config.Valid.{IsConfig}
use smokeping_prober.Config.Reload.{
  SafeConfig, ConfigFile, empty_config, reload_config, reload_config-IsConfig,
}
use smokeping_prober.Net.{Net}
use smokeping_prober.Prober.{Probing, Flags}
use smokeping_prober.Prober.Buckets.{parse_buckets}
use smokeping_prober.Prober.Labels.{build_label_names}
use smokeping_prober.Prober.Prepare.{bad_size, prepare}
use smokeping_prober.Prober.Prepare.Covers.{KeepsPinger, InRange, Covers, group_hosts}
use smokeping_prober.Prober.Prepare.Bounds.{in_range, prepare_lem}
use smokeping_prober.Prober.Running.{Event, size_of_prepared}
use smokeping_prober.Prober.Running.Generations.{launch, Grouped}
use smokeping_prober.Prober.Running.Reloads.{no_pingers, Leads, launch-Leads, prepare-started}
use smokeping_prober.Prober.Opening.{open_collector, open_collector-Shows}
use smokeping_prober.Prober.Reload.{Program, launched}
use smokeping_prober.Prober.Startup.Serving.{IsServing, reload_all, reload_all-IsServing}
use smokeping_prober.Prober.Startup.{
  Stopped, set_host, set_hosts, fresh_config, is_missing, first_start, startup_with, startup,
}
use smokeping_prober.Collector.Handlers.{Prometheus, make_vectors}

set_hosts_lem :
    (values h hosts : List Text)
    → set_hosts values h ≡ some hosts
    → (hosts ≡ h ++ values) × All (λ v. v ≢ []) values
unfolding set_hosts set_host
set_hosts_lem [] h hosts e = (ground (arith, append-nil h), tt)
set_hosts_lem (value ∷ values) h hosts e = elim (Bool-cases (is_empty value)) [
  | inl z ↦ absurd (ground arith)
  | inr z ↦
      let (same, filled) = set_hosts_lem values (h ++ value ∷ []) hosts (ground arith) in
      (
        same ∙ append_assoc h (value ∷ []) values,
        ((λ no_value. ground (arith, is_empty_iff value)), filled),
      )
]

empty_config-IsConfig : {net : Net} → IsConfig net empty_config
empty_config-IsConfig = record { routers_valid = tt; routers_distinct = tt; targets_valid = tt }

module _ (prom : Prometheus) (F Y : Type 0) (not_exist : F → Bool) (net : Net) (probing : Probing)
    {E D B : Type 0} (new_dialer : Router → Result E D) (sort : List Text → List Text)
    (parse_float : Text → Result B prom.Bucket) (registry : prom.Registry) where
  -- A start that does not exit serves.
  abbrev Starts :
      List Text
      → Result
          (Stopped prom F Y not_exist net probing new_dialer sort parse_float registry)
          (List (Event D) × Program prom D)
      → Type 0
  Starts hosts (err _) = Unit
  Starts hosts (ok (events, p)) = IsServing net sort hosts events p

  nothing_runs : Grouped (no_pingers {D = D})
  unfolding Grouped
  nothing_runs e = refl

  module _ (keeps : KeepsPinger probing) where
    first_start-Starts :
        (flags : Flags) (buckets : Text) (sc : SafeConfig)
        → InRange flags.size
        → IsConfig net sc.current
        → Starts flags.hosts (
            first_start prom F Y not_exist net probing new_dialer sort parse_float registry flags
              buckets sc)
    unfolding first_start Leads
    first_start-Starts flags buckets sc fits valid =
        let names = build_label_names sort sc.current in
        let out = prepare net probing new_dialer flags sc.current names (no_pingers {D = D}) in
        let kept =
          prepare-started net probing new_dialer flags sc.current names (no_pingers {D = D}) in
        let hosts = flags.hosts ++ group_hosts sc.current.targets in
        elim (Result-cases (parse_buckets parse_float buckets)) [
          | inr (bad, q) ↦ rw (q, first_start) tt
          | inl (bs, q) ↦ elim (Result-cases (make_vectors prom names bs registry)) [
            | inr (bad, v) ↦ rw (q, v, first_start) tt
            | inl (w, v) ↦
                elim (prepare_lem net probing keeps new_dialer flags sc.current names
                  (no_pingers {D = D}) fits) [
                    | inl (failure, f) ↦ rw (q, v, ap (λ o. o.0) f, first_start) tt
                    | inr (f, _, _, covers, _) ↦ elim (Bool-cases (size_of_prepared out.1 == 0)) [
                      | inl z ↦ rw (q, v, f, z, first_start) tt
                      | inr z ↦
                          let (now, _, most) = launched out.1 z in
                          let s' = (launch out.1).1 in
                          let running =
                            subst (λ x. Covers x hosts s'.max_interval) (sym now)
                              (subst (λ m. Covers out.1.prepared hosts m) (sym most) covers) in
                          let calls =
                            launch-Leads net probing new_dialer flags no_pingers out.1 nothing_runs
                              kept in
                          elim (Result-cases (open_collector prom names s' w)) [
                            | inr (bad, o) ↦ rw (q, v, f, z, o, first_start) tt
                            | inl ((c, w'), o) ↦
                                let shows = open_collector-Shows prom names s' w c w' o in
                                rw (q, v, f, z, o, first_start)
                                  (
                                    valid,
                                    calls,
                                    (sc.current, s'.max_interval, valid, running, shows.0),
                                  )
                          ]
                    ]
                  ]
          ]
        ]

    startup_with-Starts :
        (now : ℕ) (file : ConfigFile F Y) (flags : Flags) (buckets : Text)
        → Starts flags.hosts (
            startup_with prom F Y not_exist net probing new_dialer sort parse_float registry now
              file flags buckets)
    unfolding startup_with
    startup_with-Starts now file flags buckets =
        let out = reload_config net now file fresh_config in
        let valid = reload_config-IsConfig net now file fresh_config empty_config-IsConfig in
        elim (Bool-cases (bad_size flags.size)) [
          | inl large ↦ rw (large, startup_with) tt
          | inr fits ↦
              let first = first_start-Starts flags buckets out.1 (in_range flags.size fits) valid in
              elim (Option-cases out.0) [
                | inl e ↦ rw (fits, e, startup_with) first
                | inr (failure, e) ↦ elim (Bool-cases (is_missing not_exist failure)) [
                  | inl missing ↦ rw (fits, e, missing, startup_with) first
                  | inr refused ↦ rw (fits, e, refused, startup_with) tt
                ]
              ]
        ]

    startup_with-size :
        (now : ℕ) (file : ConfigFile F Y) (flags : Flags) (buckets : Text) (events : List (Event D))
        (p : Program prom D)
        → startup_with prom F Y not_exist net probing new_dialer sort parse_float registry now file
            flags buckets
          ≡ ok (events, p)
        → InRange flags.size
    unfolding startup_with
    startup_with-size now file flags buckets events p e = elim (Bool-cases (bad_size flags.size)) [
      | inl large ↦ absurd (ground arith)
      | inr fits ↦ in_range flags.size fits
    ]

    -- When the program starts without an exit, no host of the command line is empty and the packet
    -- size of the flags is in the range 24 to 65535. From then on, after any reloads in which
    -- package prometheus does not panic: the configuration in use is valid; from the start on, the
    -- calls of `Run`, `Start` and `Stop` leave running exactly what the program has as started, and
    -- stop nothing that does not run; this is one pinger for each host of the command line and of
    -- the groups of a valid configuration, with a packet size in range; and the collector shows it,
    -- with the label names of that configuration. New pingers and `Resolve` keep to their
    -- documentation.
    pub startup-IsServing :
        (now : ℕ) (file : ConfigFile F Y) (args : List Text) (flags : Flags) (buckets : Text)
        (events more : List (Event D)) (p q : Program prom D) (files : List (ℕ × ConfigFile F Y))
        → startup prom F Y not_exist net probing new_dialer sort parse_float registry now file args
            flags buckets
          ≡ ok (events, p)
        → reload_all prom F Y net probing new_dialer sort (record flags { hosts = args }) files p
          ≡ ok (more, q)
        → All (λ v. v ≢ []) args × InRange flags.size × IsServing net sort args (events ++ more) q
    unfolding startup
    startup-IsServing now file args flags buckets events more p q files e reloads =
        elim (Option-cases (set_hosts args [])) [
          | inl refused ↦ absurd (ground arith)
          | inr (hosts, set) ↦
              let (same, filled) = set_hosts_lem args [] hosts set in
              let given = record flags { hosts = args } in
              let begun =
                subst
                  (λ hs.
                    startup_with prom F Y not_exist net probing new_dialer sort parse_float registry
                      now file (record flags { hosts = hs }) buckets
                    ≡ ok (events, p))
                  same (ground arith) in
              let serving =
                subst (Starts args) begun (startup_with-Starts now file given buckets) in
              let fits = startup_with-size now file given buckets events p begun in
              (
                filled,
                fits,
                reload_all-IsServing prom F Y net probing new_dialer sort given keeps fits files p q
                    events more reloads serving,
              )
        ]
