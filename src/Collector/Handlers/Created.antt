-- ===== src/Collector/Handlers/Created.antt =====
-- `NewSmokepingCollector` of collector.go, and what the collector does from then on.
use smokeping_prober.Prelude.{
  ℕ, true, List, [], ◌∷◌, map, ◌≡◌, ◌≢◌, refl, codes, arith, Text, Result, ok, err, length,
  length-map, length-append, All, All-append, ◌+◌,
}
use smokeping_prober.Prober.{Pinger, Probe}
use smokeping_prober.Remote.Targets.{Target}
use smokeping_prober.Collector.{probe_metric, target_metric, collect}
use smokeping_prober.Collector.Handlers.{
  Panic, Prometheus, Documented, Report, World, init_metrics, handle_all, update_probes,
}
use smokeping_prober.Collector.Handlers.Consistent.{
  handlers-safe, init_metrics-Consistent, length-build_label_values, length-remote_label_values,
}

-- The description of its counter is that of these label names.
pub record SmokepingCollector : Type 0 where
  pub label_names : List Text
  pub probes : List Probe
  pub remote : List Target

module _ (prom : Prometheus) where
  -- `NewSmokepingCollector`, with the vectors as `updateProbes` leaves them.
  unfoldable pub new_collector :
      List Probe
      → List Target
      → List Text
      → World prom
      → Result Panic (SmokepingCollector × World prom)
  new_collector probes targets names w = elim (update_probes prom names probes targets w) [
    | err e ↦ err e
    | ok w' ↦ ok (record { label_names = names; probes = probes; remote = targets }, w')
  ]

-- `Collect` of a collector.
abbrev pub scrape : (Pinger → Text × ℕ) → SmokepingCollector → List (List Text × ℕ)
scrape statistics c = collect statistics c.label_names c.probes c.remote

module _ (statistics : Pinger → Text × ℕ) (names : List Text) where
  All-probe_metric :
      (prs : List Probe)
      → All (λ m. length m.0 ≡ length names) (map (probe_metric statistics names) prs)
  All-probe_metric [] = tt
  All-probe_metric (pr ∷ prs) = (length-build_label_values names pr _, All-probe_metric prs)

  All-target_metric :
      (ts : List Target)
      → All (λ m. length m.0 ≡ length names) (map (target_metric statistics names) ts)
  All-target_metric [] = tt
  All-target_metric (t ∷ ts) = (length-remote_label_values names t, All-target_metric ts)

module _ (prom : Prometheus) (docs : Documented prom) where
  -- With a client that keeps to its documentation: when `initMetrics` returns, no label name is "le"
  -- and the buckets are in increasing order, `NewSmokepingCollector` for the same label names
  -- succeeds; after it no series of reports of the pingers makes a handler panic, and a scrape gives
  -- one metric for each probe and each target, with as many label values as names.
  pub new_collector-safe :
      (names : List Text) (buckets : List prom.Bucket) (reg : prom.Registry) (w : World prom)
      (probes : List Probe) (targets : List Target)
      → init_metrics prom names buckets reg ≡ ok w
      → All (λ n. n ≢ codes "le") names
      → prom.increasing buckets ≡ true
      → (c : SmokepingCollector) × (w' : World prom) × (new_collector prom probes targets names w
          ≡ ok (c, w'))
        × (c.label_names ≡ names)
        × (c.probes ≡ probes)
        × (c.remote ≡ targets)
        × ((reports : List (Probe × Report))
            → (w'' : World prom) × (handle_all prom c.label_names reports w' ≡ ok w''))
        × ((statistics : Pinger → Text × ℕ)
            → (length (scrape statistics c) ≡ length probes + length targets)
              × All (λ m. length m.0 ≡ length c.label_names) (scrape statistics c))
  unfolding collect new_collector
  new_collector-safe names buckets reg w probes targets made no_le sorted =
      let ready = init_metrics-Consistent prom docs names buckets reg w made no_le sorted in
      let (w', updated, safe) = handlers-safe prom docs names probes targets w ready in
      (
        record { label_names = names; probes = probes; remote = targets },
        w',
        rw (updated, new_collector) refl,
        refl,
        refl,
        refl,
        safe,
        λ statistics. (
          omega (
            arith,
            length-append (map (probe_metric statistics names) probes)
                (map (target_metric statistics names) targets),
            length-map (probe_metric statistics names) probes,
            length-map (target_metric statistics names) targets,
          ),
          All-append (λ m. length m.0 ≡ length names) _ _ (All-probe_metric statistics names probes)
              (All-target_metric statistics names targets),
        ),
      )
