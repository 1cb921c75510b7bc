-- ===== src/Collector/Handlers/Consistent.antt =====
-- No handler panics while the global vectors have the label names of the collector.
use smokeping_prober.Prelude.{
  true, List, [], ◌∷◌, ◌≡◌, ◌≢◌, ◌∙◌, inl, inr, sym, refl, arith, Text, codes, ok, length, All,
  Result-cases,
}
use mathlib.Core.Path.{subst}
use smokeping_prober.Prober.{Probe}
use smokeping_prober.Remote.Targets.{Target}
use smokeping_prober.Collector.{build_label_values, remote_label_values}
use smokeping_prober.Collector.Series.{length-label_values}
use smokeping_prober.Collector.Handlers.{
  Update, created, increments, observes, sets, Prometheus, Documented, Report, received, duplicate,
  finished, receive_failed, send_failed, World, register_globals, init_metrics, handle, handle_all,
  create_probes, create_targets, update_probes, reset_all,
}

pub length-build_label_values :
    (names : List Text) (pr : Probe) (ip : Text)
    → length (build_label_values names pr ip) ≡ length names
unfolding build_label_values
length-build_label_values names pr ip = length-label_values names _ _

pub length-remote_label_values :
    (names : List Text) (t : Target) → length (remote_label_values names t) ≡ length names
unfolding remote_label_values
length-remote_label_values names t = length-label_values names _ _

module _ (prom : Prometheus) (docs : Documented prom) where
  -- A vector with as many label names as these, on which a call with as many values does not panic.
  abbrev pub Ready : List Text → prom.Vec → Type 0
  Ready names v = (prom.width v ≡ length names) × docs.Works v

  -- Each vector is ready for these label names.
  pub record Consistent (names : List Text) (w : World prom) : Type 0 where
    pub ttl_fits : Ready names w.ttl
    pub duplicates_fit : Ready names w.duplicates
    pub send_errors_fit : Ready names w.send_errors
    pub seconds_fit : Ready names w.seconds

  -- An update of a vector whose width is that of the names.
  pub fits :
      (names vals : List Text) (v : prom.Vec) (u : Update)
      → length vals ≡ length names
      → Ready names v
      → (v' : prom.Vec) × (prom.with_label_values v vals u ≡ ok v') × Ready names v'
  fits names vals v u as_many (wide, works) =
      let (v', e) = docs.accepts v vals u works (as_many ∙ sym wide) in
      (v', e, (docs.width-with v v' vals u e ∙ wide, docs.works-with v v' vals u e works))

  reset-Ready : (names : List Text) (v : prom.Vec) → Ready names v → Ready names (prom.reset v)
  reset-Ready names v (wide, works) = (docs.width-reset v ∙ wide, docs.works-reset v works)

  -- What `initMetrics` makes, if no label name is "le" and the buckets are in increasing order.
  pub init_metrics-Consistent :
      (names : List Text) (buckets : List prom.Bucket) (reg : prom.Registry) (w : World prom)
      → init_metrics prom names buckets reg ≡ ok w
      → All (λ n. n ≢ codes "le") names
      → prom.increasing buckets ≡ true
      → Consistent names w
  unfolding init_metrics
  init_metrics-Consistent names buckets reg w e no_le sorted =
      elim (Result-cases (register_globals prom names reg)) [
        | inr (p, q) ↦ absurd (ground arith)
        | inl (reg', q) ↦
            let made : World prom = record {
              ttl = prom.new_vec names;
              duplicates = prom.new_vec names;
              receive_errors = 0;
              send_errors = prom.new_vec names;
              seconds = prom.new_histogram names buckets;
              registry = reg';
            } in
            let same : made ≡ w = ground arith in
            let plain : Ready names (prom.new_vec names) =
              (docs.width-new_vec names, docs.works-new_vec names) in
            subst (Consistent names) same record {
              ttl_fits = plain;
              duplicates_fit = plain;
              send_errors_fit = plain;
              seconds_fit = (
                docs.width-new_histogram names buckets,
                docs.works-new_histogram names buckets no_le sorted,
              );
            }
      ]

  handle-Consistent :
      (names : List Text) (pr : Probe) (report : Report) (w : World prom)
      → Consistent names w
      → (w' : World prom) × (handle prom names pr report w ≡ ok w') × Consistent names w'
  unfolding handle
  handle-Consistent names pr (received ip rtt ttl) w c =
      let as_many = length-build_label_values names pr ip in
      let (h, eh, ch) = fits names _ w.seconds (observes rtt) as_many c.seconds_fit in
      let (t, et, ct) = fits names _ w.ttl (sets ttl) as_many c.ttl_fits in
      (record w { seconds = h; ttl = t }, rw (eh, et, handle) refl, ground arith)
  handle-Consistent names pr (duplicate ip) w c =
      let (d, e, cd) =
        fits names _ w.duplicates increments (length-build_label_values names pr ip)
          c.duplicates_fit in
      (record w { duplicates = d }, rw (e, handle) refl, ground arith)
  handle-Consistent names pr finished w c = (w, refl, c)
  handle-Consistent names pr (receive_failed timeout) w c = (_, refl, ground arith)
  handle-Consistent names pr (send_failed ip) w c =
      let (d, e, cd) =
        fits names _ w.send_errors increments (length-build_label_values names pr ip)
          c.send_errors_fit in
      (record w { send_errors = d }, rw (e, handle) refl, ground arith)

  handle_all-Consistent :
      (names : List Text) (reports : List (Probe × Report)) (w : World prom)
      → Consistent names w
      → (w' : World prom) × (handle_all prom names reports w ≡ ok w') × Consistent names w'
  unfolding handle_all
  handle_all-Consistent names [] w c = (w, refl, c)
  handle_all-Consistent names ((pr, report) ∷ reports) w c =
      let (w', e, c') = handle-Consistent names pr report w c in
      let (w'', e', c'') = handle_all-Consistent names reports w' c' in
      (w'', rw (e, handle_all) e', c'')

  create_probes-Consistent :
      (names : List Text) (probes : List Probe) (w : World prom)
      → Consistent names w
      → (w' : World prom) × (create_probes prom names probes w ≡ ok w') × Consistent names w'
  unfolding create_probes
  create_probes-Consistent names [] w c = (w, refl, c)
  create_probes-Consistent names (pr ∷ prs) w c =
      let as_many = length-build_label_values names pr [] in
      let (d, ed, cd) = fits names _ w.duplicates created as_many c.duplicates_fit in
      let (h, eh, ch) = fits names _ w.seconds created as_many c.seconds_fit in
      let (t, et, ct) = fits names _ w.ttl created as_many c.ttl_fits in
      let (s, es, cs) = fits names _ w.send_errors created as_many c.send_errors_fit in
      let w' : World prom = record w { duplicates = d; seconds = h; ttl = t; send_errors = s } in
      let (w'', e, c') = create_probes-Consistent names prs w' (ground arith) in
      (w'', rw (ed, eh, et, es, create_probes) e, c')

  create_targets-Consistent :
      (names : List Text) (targets : List Target) (w : World prom)
      → Consistent names w
      → (w' : World prom) × (create_targets prom names targets w ≡ ok w') × Consistent names w'
  unfolding create_targets
  create_targets-Consistent names [] w c = (w, refl, c)
  create_targets-Consistent names (t ∷ ts) w c =
      let as_many = length-remote_label_values names t in
      let (h, eh, ch) = fits names _ w.seconds created as_many c.seconds_fit in
      let (g, eg, cg) = fits names _ w.ttl created as_many c.ttl_fits in
      let w' : World prom = record w { seconds = h; ttl = g } in
      let (w'', e, c') = create_targets-Consistent names ts w' (ground arith) in
      (w'', rw (eh, eg, create_targets) e, c')

  update_probes-Consistent :
      (names : List Text) (probes : List Probe) (targets : List Target) (w : World prom)
      → Consistent names w
      → (w' : World prom) × (update_probes prom names probes targets w ≡ ok w')
        × Consistent names w'
  unfolding update_probes
  update_probes-Consistent names probes targets w c =
      let clean : Consistent names (reset_all prom w) = record {
        ttl_fits = reset-Ready names w.ttl c.ttl_fits;
        duplicates_fit = reset-Ready names w.duplicates c.duplicates_fit;
        send_errors_fit = reset-Ready names w.send_errors c.send_errors_fit;
        seconds_fit = reset-Ready names w.seconds c.seconds_fit;
      } in
      let (w', e, c') = create_probes-Consistent names probes (reset_all prom w) clean in
      let (w'', e', c'') = create_targets-Consistent names targets w' c' in
      (w'', rw (e, update_probes) e', c'')

  -- `updateProbes` succeeds on vectors that are ready for its label names, and after it no series of
  -- reports of the pingers makes a handler panic.
  pub handlers-safe :
      (names : List Text) (probes : List Probe) (targets : List Target) (w : World prom)
      → Consistent names w
      → (w' : World prom) × (update_probes prom names probes targets w ≡ ok w')
        × ((reports : List (Probe × Report))
            → (w'' : World prom) × (handle_all prom names reports w' ≡ ok w''))
  handlers-safe names probes targets w ready =
      let (w', e, c) = update_probes-Consistent names probes targets w ready in
      (w', e, λ reports. let (w'', e', _) = handle_all-Consistent names reports w' c in (w'', e'))
