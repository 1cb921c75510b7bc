-- ===== src/Collector.antt =====
-- collector.go: the label values of a series, the recorder of remote results, and what a scrape
-- collects. The vectors of client_golang are seen as lists of what the prober does to them.
pub mod Series
pub mod Distinct
pub mod Recorded
pub mod Handlers
use smokeping_prober.Prelude.{
  ℕ, List, [], ◌∷◌, ◌++◌, Text, codes, Dict, Option, none, some, lookup, show_ℕ, map, is_empty,
  if◌then◌else◌,
}
use smokeping_prober.Config.{Duration}
use smokeping_prober.Prober.{Pinger, Probe}
use smokeping_prober.Remote.Targets.{Target}
use smokeping_prober.Remote.Huawei.Parse.{PingResult, Reply}

-- `custom[k]`: the empty string for a key that is missing.
abbrev pub value_or_empty : Option Text → Text
value_or_empty none = []
value_or_empty (some v) = v

-- `labelValues`
unfoldable pub label_values : List Text → Dict Text → Dict Text → List Text
label_values [] base custom = []
label_values (k ∷ ks) base custom =
    let rest = label_values ks base custom in
    elim (lookup k base) [ some v ↦ v ∷ rest | none ↦ value_or_empty (lookup k custom) ∷ rest ]

-- The literal map that `buildLabelValues` and `remoteLabelValues` pass.
abbrev pub base_labels : Text → Text → Text → Text → Text → Dict Text
base_labels ip host source tos link =
    (codes "ip", ip)
    ∷ (codes "host", host)
    ∷ (codes "source", source)
    ∷ (codes "tos", tos)
    ∷ (codes "link", link)
    ∷ []

-- `buildLabelValues`
unfoldable pub build_label_values : List Text → Probe → Text → List Text
build_label_values names pr override_ip =
    let p = pr.pinger in
    let ip = if is_empty override_ip then p.ip else override_ip in
    label_values names (base_labels ip p.addr p.source (show_ℕ p.traffic_class) []) pr.labels

unfoldable pub remote_label_values : List Text → Target → List Text
remote_label_values names t =
    label_values names (base_labels t.job.target t.host t.job.source (show_ℕ t.job.tos) t.link)
      t.labels

-- The calls of `Observe` on the histogram and of `Set` on the gauge, oldest first.
pub record Vectors : Type 0 where
  pub observed : List (List Text × Duration)
  pub ttls : List (List Text × ℕ)

-- The loop over the replies, and `res.Replies[n-1]`.
observe_all : List Text → List Reply → Vectors → Vectors
observe_all vals [] v = v
observe_all vals (rep ∷ reps) v =
    observe_all vals reps (record v { observed = v.observed ++ (vals, rep.rtt) ∷ [] })

last_reply : List Reply → Option Reply
last_reply [] = none
last_reply (rep ∷ reps) =
    let rest = last_reply reps in elim rest [ none ↦ some rep | some r ↦ some r ]

-- `Record` of a recorder with these label names.
unfoldable pub record_result : List Text → Target → PingResult → Vectors → Vectors
unfolding observe_all last_reply
record_result names t res v =
    let vals = remote_label_values names t in
    let v' = observe_all vals res.replies v in
    elim (last_reply res.replies) [
      | none ↦ v'
      | some rep ↦ record v' { ttls = v'.ttls ++ (vals, rep.ttl) ∷ [] }
    ]

-- `Collect`: the counter of each series, with `Statistics` of a pinger as a parameter: its address
-- and the packets that it sent.
module _ (statistics : Pinger → Text × ℕ) (names : List Text) where
  abbrev pub probe_metric : Probe → List Text × ℕ
  probe_metric pr = let (ip, sent) = statistics pr.pinger in (build_label_values names pr ip, sent)

  abbrev pub target_metric : Target → List Text × ℕ
  target_metric t = (remote_label_values names t, t.sent)

  unfoldable pub collect : List Probe → List Target → List (List Text × ℕ)
  collect probes targets = map probe_metric probes ++ map target_metric targets

-- `updateProbes`: the series that it creates in the histogram and in the gauge.
unfoldable pub initial_series : List Text → List Probe → List Target → List (List Text)
initial_series names probes targets =
    map (λ pr. build_label_values names pr []) probes ++ map (remote_label_values names) targets
