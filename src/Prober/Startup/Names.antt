-- ===== src/Prober/Startup/Names.antt =====
-- The label names over the life of the program of main.go, where the registry of client_golang fixes
-- those of a metric.
use smokeping_prober.Prelude.{
  ℕ, List, [], ◌∷◌, ◌≡◌, inl, inr, arith, Text, Result, ok, err, Bool-cases, Option-cases,
  Result-cases, ◌==◌, codes,
}
use mathlib.Core.Path.{subst}
use smokeping_prober.Config.{Router}
use smokeping_prober.Config.Reload.{SafeConfig, ConfigFile, reload_config}
use smokeping_prober.Net.{Net}
use smokeping_prober.Prober.{Probing, Flags}
use smokeping_prober.Prober.Labels.{build_label_names}
use smokeping_prober.Prober.Prepare.{prepare}
use smokeping_prober.Prober.Running.{Event, size_of_prepared}
use smokeping_prober.Prober.Running.Generations.{launch}
use smokeping_prober.Prober.Opening.{open_collector, open_collector-Shows}
use smokeping_prober.Prober.Reload.{Program, Round, apply_vectors, apply_config, reload}
use smokeping_prober.Prober.Startup.Serving.{reload_all}
use smokeping_prober.Collector.Handlers.{Panic, Prometheus, World, renew_vectors}
use smokeping_prober.Collector.Handlers.Renewed.{
  KeepsNames, SameNames, Named, later, unregistered, renew_vectors-SameNames,
}

module _ (prom : Prometheus) (docs : KeepsNames prom) {D : Type 0} where
  -- The registry has these label names for the vectors, and the current ones are the same.
  abbrev pub HasNames : List Text → Program prom D → Type 0
  HasNames ns p = SameNames ns p.vector_names × Named prom docs ns p.world.registry

module _ (prom : Prometheus) (docs : KeepsNames prom) (F Y : Type 0) (net : Net) (probing : Probing)
    {E D : Type 0} (new_dialer : Router → Result E D) (sort : List Text → List Text)
    (flags : Flags) where
  -- A round that does not panic leaves these label names.
  abbrev KeepsThem :
      List Text → Result Panic (Round prom F Y net probing new_dialer sort flags) → Type 0
  KeepsThem ns (err _) = Unit
  KeepsThem ns (ok out) = HasNames prom docs ns out.2

  apply_vectors-HasNames :
      (sc : SafeConfig) (ns names : List Text) (w : World prom) (p : Program prom D)
      → SameNames ns names
      → Named prom docs ns w.registry
      → KeepsThem ns (apply_vectors prom F Y net probing new_dialer sort flags sc names w p)
  unfolding apply_vectors
  apply_vectors-HasNames sc ns names w p same named =
      let made = prepare net probing new_dialer flags sc.current names p.pingers in
      let clean : World prom = record w {
        registry =
            prom.unregister (codes "smokeping_requests_total") p.collector.label_names w.registry;
      } in
      elim (Option-cases made.0) [
        | inr (x, f) ↦ rw (f, apply_vectors) (same, named)
        | inl f ↦ elim (Bool-cases (size_of_prepared made.1 == 0)) [
          | inl z ↦ rw (f, z, apply_vectors) (same, named)
          | inr z ↦ elim (Result-cases (open_collector prom names (launch made.1).1 clean)) [
            | inr (x, o) ↦ rw (f, z, o, apply_vectors) tt
            | inl ((c, w'), o) ↦
                let shows = open_collector-Shows prom names (launch made.1).1 clean c w' o in
                let cleaned =
                  unregistered prom docs _ p.collector.label_names ns w.registry named in
                let kept = later prom docs _ names ns clean.registry w'.registry shows.1 cleaned in
                rw (f, z, o, apply_vectors) (same, kept)
          ]
        ]
      ]

  reload-HasNames :
      (now : ℕ) (file : ConfigFile F Y) (ns : List Text) (p : Program prom D)
      → HasNames prom docs ns p
      → KeepsThem ns (reload prom F Y net probing new_dialer sort flags now file p)
  unfolding reload apply_config
  reload-HasNames now file ns p (same, named) =
      let loaded = reload_config net now file p.config in
      let names = build_label_names sort loaded.1.current in
      elim (Option-cases loaded.0) [
        | inr (x, f) ↦ rw (f, reload) (same, named)
        | inl f ↦ elim (Result-cases (renew_vectors prom p.vector_names names p.buckets p.world)) [
          | inr (x, r) ↦ rw (f, r, reload, apply_config) tt
          | inl (w, r) ↦
              let (same', named') =
                renew_vectors-SameNames prom docs p.vector_names names ns p.buckets p.world w r
                  named in
              rw (f, r, reload, apply_config)
                (apply_vectors-HasNames loaded.1 ns names w p same' named')
        ]
      ]

  -- If the registry keeps to its documentation, by which a metric has the label names of its first
  -- registration for the life of the program: through any reloads in which it does not panic, the
  -- vectors keep the label names that they have, up to their order. A reload that would change them
  -- panics.
  pub reload_all-HasNames :
      (files : List (ℕ × ConfigFile F Y)) (ns : List Text) (p q : Program prom D)
      (events : List (Event D))
      → reload_all prom F Y net probing new_dialer sort flags files p ≡ ok (events, q)
      → HasNames prom docs ns p
      → HasNames prom docs ns q
  unfolding reload_all
  reload_all-HasNames [] ns p q events e h =
      let same : p ≡ q = ground arith in subst (HasNames prom docs ns) same h
  reload_all-HasNames ((now, file) ∷ files) ns p q events e h =
      let round = reload-HasNames now file ns p h in
      elim (Result-cases (reload prom F Y net probing new_dialer sort flags now file p)) [
        | inr (x, r) ↦ absurd (ground arith)
        | inl (out, r) ↦
            elim (Result-cases
              (reload_all prom F Y net probing new_dialer sort flags files out.2)) [
                | inr (x, r') ↦ absurd (ground arith)
                | inl ((rest, last), r') ↦
                    let now_named = rw r at round in
                    let after = reload_all-HasNames files ns out.2 last rest r' now_named in
                    let same : last ≡ q = ground arith in subst (HasNames prom docs ns) same after
              ]
      ]
