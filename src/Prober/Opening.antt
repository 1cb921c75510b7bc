-- ===== src/Prober/Opening.antt =====
-- The collector that main.go makes for what is started, and its registration.
use smokeping_prober.Prelude.{
  List, ◌≡◌, inl, inr, refl, arith, Text, codes, Result, ok, err, Result-cases,
}
use mathlib.Core.Path.{subst}
use smokeping_prober.Prober.{SmokePingers}
use smokeping_prober.Prober.Running.{remote_targets}
use smokeping_prober.Collector.Handlers.{Panic, Prometheus, World, update_probes}
use smokeping_prober.Collector.Handlers.Created.{SmokepingCollector, new_collector}

module _ (prom : Prometheus) {D : Type 0} where
  -- `NewSmokepingCollector` for what is started, and its registration under the name that it
  -- describes.
  unfoldable pub open_collector :
      List Text → SmokePingers D → World prom → Result Panic (SmokepingCollector × World prom)
  open_collector names s w = elim (new_collector prom s.started (remote_targets s) names w) [
    | err e ↦ err e
    | ok (c, w') ↦ elim (prom.must_register (codes "smokeping_requests_total") names w.registry) [
      | err e ↦ err e
      | ok reg ↦ ok (c, record w' { registry = reg })
    ]
  ]

  -- The collector has these label names and shows what is started.
  abbrev pub Shows : List Text → SmokePingers D → SmokepingCollector → Type 0
  Shows names s c = (c.label_names ≡ names) × (c.probes ≡ s.started) × (c.remote ≡ remote_targets s)

  pub open_collector-Shows :
      (names : List Text) (s : SmokePingers D) (w : World prom) (c : SmokepingCollector)
      (w' : World prom)
      → open_collector names s w ≡ ok (c, w')
      → Shows names s c
        × (prom.must_register (codes "smokeping_requests_total") names w.registry ≡ ok w'.registry)
  unfolding open_collector new_collector
  open_collector-Shows names s w c w' e =
      elim (Result-cases (update_probes prom names s.started (remote_targets s) w)) [
        | inr (p, q) ↦ absurd (ground arith)
        | inl (w1, q) ↦
            elim (Result-cases
              (prom.must_register (codes "smokeping_requests_total") names w.registry)) [
                | inr (p, r) ↦ absurd (ground arith)
                | inl (reg, r) ↦
                    let made : SmokepingCollector = record {
                      label_names = names;
                      probes = s.started;
                      remote = remote_targets s;
                    } in
                    let same : made ≡ c = ground arith in
                    let last : reg ≡ w'.registry = ground arith in
                    (subst (Shows names s) same (refl, refl, refl), ground arith)
              ]
      ]
