-- ===== src/Prober/Reload.antt =====
-- One round of the reload loop of main.go, from the file to the running pingers, and the HTTP
-- handler that asks for one.
use smokeping_prober.Prelude.{
  ℕ, false, not, none, some, List, [], ◌++◌, ◌≡◌, ◌⊎◌, inl, inr, refl, sym, ap, Text, codes,
  text_eq, Result, ok, err, Result-cases, Bool-cases, ◌==◌, if◌then◌else◌,
}
use mathlib.Core.Path.{subst}
use smokeping_prober.Config.{Config, Router}
use smokeping_prober.Config.Valid.{IsConfig}
use smokeping_prober.Config.Reload.{
  SafeConfig, ConfigFile, ReloadError, reload_config, reload_config_lem,
}
use smokeping_prober.Net.{Net}
use smokeping_prober.Prober.{Probing, Flags, SmokePingers}
use smokeping_prober.Prober.Labels.{build_label_names}
use smokeping_prober.Prober.Prepare.{Failed, prepare}
use smokeping_prober.Prober.Prepare.Covers.{KeepsPinger, InRange, Covers, group_hosts}
use smokeping_prober.Prober.Prepare.Bounds.{prepare_lem}
use smokeping_prober.Prober.Running.{Event, size_of_prepared, start}
use smokeping_prober.Prober.Running.Generations.{launch, Grouped}
use smokeping_prober.Prober.Running.Reloads.{Leads, launch-Leads, prepare-started}
use smokeping_prober.Prober.Opening.{open_collector, Shows, open_collector-Shows}
use smokeping_prober.Collector.Handlers.{Panic, Prometheus, World, renew_vectors}
use smokeping_prober.Collector.Handlers.Created.{SmokepingCollector}

-- What the loop keeps: `sc`, the pingers, the buckets, the vectors with their label names, and the
-- registered collector.
pub record Program (prom : Prometheus) (D : Type 0) : Type 0 where
  pub config : SafeConfig
  pub pingers : SmokePingers D
  pub buckets : List prom.Bucket
  pub world : World prom
  pub vector_names : List Text
  pub collector : SmokepingCollector

-- What the callbacks of a round get.
pub data Reply (C P : Type 0) : Type 0 where
  config_failed : C → Reply C P
  prepare_failed : P → Reply C P
  no_targets reloaded : Reply C P

-- The handler of /-/reload: the status for a method, with the reply of the loop to the request.
unfoldable pub handle_reload : {C P : Type 0} → Text → Reply C P → ℕ
handle_reload method reply =
    if not (text_eq method (codes "POST")) then 405 else elim reply [ reloaded ↦ 200 | _ ↦ 500 ]

pub launched :
    {D : Type 0} (s : SmokePingers D)
    → size_of_prepared s == 0 ≡ false
    → ((launch s).1.started ≡ s.prepared)
      × ((launch s).1.started_remote ≡ s.prepared_remote)
      × ((launch s).1.max_interval ≡ s.max_interval)
unfolding launch start
launched s e = rw (e, launch, start) (refl, refl, refl)

module _ (prom : Prometheus) (F Y : Type 0) (net : Net) (probing : Probing) {E D : Type 0}
    (new_dialer : Router → Result E D) (sort : List Text → List Text) (flags : Flags) where
  abbrev pub Answer : Type 0
  Answer = Reply (ReloadError F Y) (Failed net probing new_dialer)

  abbrev pub Round : Type 0
  Round = Answer × List (Event D) × Program prom D

  -- The part of a round after `initMetrics` and the registration of the histogram.
  unfoldable pub apply_vectors :
      SafeConfig → List Text → World prom → Program prom D → Result Panic Round
  apply_vectors sc names w p =
      let (failed, s) = prepare net probing new_dialer flags sc.current names p.pingers in
      let new_vectors : Program prom D = record {
        config = sc;
        pingers = s;
        buckets = p.buckets;
        world = w;
        vector_names = names;
        collector = p.collector;
      } in
      elim failed [
        | some e ↦ ok (prepare_failed e, [], new_vectors)
        | none ↦
            if size_of_prepared s == 0
            then ok (no_targets, [], new_vectors)
            else (let (events, s') = launch s in
                elim (open_collector prom names s' (record w {
                  registry =
                      prom.unregister (codes "smokeping_requests_total") p.collector.label_names
                        w.registry;
                })) [
                  | err e ↦ err e
                  | ok (c, w') ↦ ok (
                    reloaded,
                    events,
                    record new_vectors { pingers = s'; world = w'; collector = c },
                  )
                ])
      ]

  -- The part of a round for a configuration that was accepted.
  unfoldable pub apply_config : SafeConfig → Program prom D → Result Panic Round
  unfolding apply_vectors
  apply_config sc p =
      let names = build_label_names sort sc.current in
      elim (renew_vectors prom p.vector_names names p.buckets p.world) [
        | err e ↦ err e
        | ok w ↦ apply_vectors sc names w p
      ]

  -- A round of the loop, at a time, for what the file holds. A panic ends the program.
  unfoldable pub reload : ℕ → ConfigFile F Y → Program prom D → Result Panic Round
  unfolding apply_config
  reload now file p =
      let (failed, sc) = reload_config net now file p.config in
      elim failed [
        | some e ↦ ok (config_failed e, [], record p { config = sc })
        | none ↦ apply_config sc p
      ]

  -- The ends of a round that does not panic. Without success, what runs stays as it was. With
  -- success, the calls of the round lead from the pingers and schedulers that ran to the new ones.
  abbrev pub Reloaded : ConfigFile F Y → Program prom D → Round → Type 0
  Reloaded file p (answer, events, q) =
      ((e : ReloadError F Y) × (answer ≡ config_failed e)
        × (events ≡ [])
        × (q.pingers ≡ p.pingers)
        × (q.config.current ≡ p.config.current)
        × (q.world ≡ p.world)
        × (q.vector_names ≡ p.vector_names)
        × (q.collector ≡ p.collector))
      ⊎ (((answer ≡ no_targets)
            ⊎ ((e : Failed net probing new_dialer) × (answer ≡ prepare_failed e)))
          × (events ≡ [])
          × (file ≡ ok (ok q.config.current))
          × IsConfig net q.config.current
          × (q.pingers.started ≡ p.pingers.started)
          × (q.pingers.started_remote ≡ p.pingers.started_remote)
          × (q.pingers.has_group ≡ p.pingers.has_group)
          × (q.collector ≡ p.collector))
      ⊎ ((answer ≡ reloaded)
          × (file ≡ ok (ok q.config.current))
          × IsConfig net q.config.current
          × Covers q.pingers.started (flags.hosts ++ group_hosts q.config.current.targets)
              q.pingers.max_interval
          × Leads net probing new_dialer flags p.pingers (events, q.pingers)
          × (q.vector_names ≡ build_label_names sort q.config.current)
          × Shows prom q.vector_names q.pingers q.collector)

  -- A round that panics has accepted its file.
  abbrev pub Ends : ConfigFile F Y → Program prom D → Result Panic Round → Type 0
  Ends file p (err e) = (c : Config) × (file ≡ ok (ok c)) × IsConfig net c
  Ends file p (ok out) = Reloaded file p out

  module _ (keeps : KeepsPinger probing) (fits : InRange flags.size) where
    apply_vectors-Ends :
        (file : ConfigFile F Y) (sc : SafeConfig) (w : World prom) (p : Program prom D)
        → file ≡ ok (ok sc.current)
        → IsConfig net sc.current
        → Grouped p.pingers
        → Ends file p (apply_vectors sc (build_label_names sort sc.current) w p)
    unfolding apply_vectors
    apply_vectors-Ends file sc w p same valid grouped =
        let names = build_label_names sort sc.current in
        let out = prepare net probing new_dialer flags sc.current names p.pingers in
        let kept = prepare-started net probing new_dialer flags sc.current names p.pingers in
        elim (prepare_lem net probing keeps new_dialer flags sc.current names p.pingers fits) [
          | inl (e, q) ↦
              rw (ap (λ o. o.0) q, apply_vectors)
                (inr (inl (inr (e, refl), refl, same, valid, kept.0, kept.1, kept.2, refl)))
          | inr (q, started, remote, covers, _) ↦ elim (Bool-cases (size_of_prepared out.1 == 0)) [
            | inl z ↦
                rw (q, z, apply_vectors)
                  (inr (inl (inl refl, refl, same, valid, kept.0, kept.1, kept.2, refl)))
            | inr z ↦
                let (now, _, most) = launched out.1 z in
                let hosts = flags.hosts ++ group_hosts sc.current.targets in
                let running =
                  subst (λ x. Covers x hosts (launch out.1).1.max_interval) (sym now)
                    (subst (λ m. Covers out.1.prepared hosts m) (sym most) covers) in
                let calls =
                  launch-Leads net probing new_dialer flags p.pingers out.1 grouped kept in
                let clean : World prom = record w {
                  registry =
                      prom.unregister (codes "smokeping_requests_total") p.collector.label_names
                        w.registry;
                } in
                elim (Result-cases (open_collector prom names (launch out.1).1 clean)) [
                  | inr (x, r) ↦ rw (q, z, r, apply_vectors) (sc.current, same, valid)
                  | inl ((c, w'), r) ↦
                      let shows = open_collector-Shows prom names (launch out.1).1 clean c w' r in
                      rw (q, z, r, apply_vectors)
                        (inr (inr (refl, same, valid, running, calls, refl, shows.0)))
                ]
          ]
        ]

    -- A round ends in one of four ways, if new pingers and `Resolve` keep to their documentation and
    -- the packet size of the flags is in range. The file is refused: everything stays, but for the
    -- gauge. Nothing can be prepared from it, or there is nothing to ping: the configuration is the
    -- new one, and what runs stays, with the collector that it has. The round succeeds: the
    -- configuration is valid and is that of the file; the calls of the round stop what ran and run
    -- what is started, which is one pinger for each host of the flags and of the groups, in order,
    -- with an interval up to the maximum and a packet size in range; and the collector shows what
    -- is started, with the label names of the file. Or the program ends by a panic of package
    -- prometheus, and only for a file that was accepted.
    pub reload-Ends :
        (now : ℕ) (file : ConfigFile F Y) (p : Program prom D)
        → Grouped p.pingers
        → Ends file p (reload now file p)
    unfolding reload apply_config
    reload-Ends now file p grouped = elim (reload_config_lem net now file p.config) [
      | inl (e, q, kept, _, _) ↦ rw (q, reload) (inl (e, refl, refl, refl, kept, refl, refl, refl))
      | inr (q, same, valid, _, _) ↦
          let sc = (reload_config net now file p.config).1 in
          let names = build_label_names sort sc.current in
          elim (Result-cases (renew_vectors prom p.vector_names names p.buckets p.world)) [
            | inr (x, r) ↦ rw (q, r, reload, apply_config) (sc.current, same, valid)
            | inl (w, r) ↦
                rw (q, r, reload, apply_config) (apply_vectors-Ends file sc w p same valid grouped)
          ]
    ]
