-- ===== src/Tests/CollectorTests.antt =====
-- Runs and instances for collector.go.
use smokeping_prober.Prelude.{
  pos, text_eq, show_ℕ, false, none, some, List, [], ◌∷◌, ◌++◌, ◌≡◌, ◌≢◌, arith, refl, inl, Text,
  Dict, codes, lookup, length, contains, Permuted,
}
use smokeping_prober.Config.{Config}
use smokeping_prober.Prober.{Probe}
use smokeping_prober.Prober.Labels.{add_labels, base_names, build_label_names, HasLabel}
use smokeping_prober.Remote.Targets.{Target}
use smokeping_prober.Remote.Huawei.Parse.{PingResult}
use smokeping_prober.Collector.{Vectors, label_values, build_label_values, remote_label_values}
use smokeping_prober.Collector.Series.{series_labels, remote_label_values_lem, label_values-apart}
use smokeping_prober.Tests.Fixtures.{sample_job, remote_group}

abbrev labels : Dict Text
labels = (codes "site", codes "north") ∷ (codes "host", codes "hidden") ∷ []

abbrev labelled : Config
labelled = record { routers = []; targets = record remote_group { labels = labels } ∷ [] }

abbrev pub target : Target
target = record {
  host = codes "dns";
  link = codes "isp-a";
  interval = pos 60000000000;
  labels = labels;
  job = sample_job;
  sent = 20;
  pending = false;
}

abbrev pub sort : List Text → List Text
sort xs = xs

pub same_order : (xs : List Text) → Permuted xs (sort xs)
same_order [] = Permuted.nothing
same_order (x ∷ xs) = Permuted.keep x (same_order xs)

abbrev names : List Text
names = build_label_names sort labelled

names_text : names ≡ base_names ++ codes "site" ∷ []
unfolding build_label_names text_eq add_labels
names_text = refl

values_text :
    remote_label_values names target
    ≡ codes "8.8.8.8"
      ∷ codes "dns"
      ∷ codes "192.0.2.1"
      ∷ codes "0"
      ∷ codes "isp-a"
      ∷ codes "north"
      ∷ []
unfolding build_label_names text_eq add_labels remote_label_values label_values show_ℕ
values_text = refl

remote_label_values_lem_example :
    (length (remote_label_values names target) ≡ length names)
    × ((k : Text)
        → HasLabel k labels
        → contains base_names k ≡ false
        → lookup k (series_labels names (remote_label_values names target)) ≡ lookup k labels)
    × (lookup (codes "link") (series_labels names (remote_label_values names target))
        ≡ some (codes "isp-a"))
remote_label_values_lem_example = remote_label_values_lem sort labelled same_order target (inl refl)

abbrev pub probe : Probe
probe = record {
  pinger = record {
    addr = codes "dns";
    ip = codes "8.8.8.8";
    network = none;
    interval = pos 1000000000;
    size = pos 56;
    traffic_class = 0;
    source = codes "192.0.2.1";
    privileged = none;
    record_rtts = false;
    record_ttls = false;
  };
  labels = labels;
}

label_values-apart_example : build_label_values names probe [] ≢ remote_label_values names target
label_values-apart_example =
    label_values-apart sort labelled same_order probe [] target (ground arith)

abbrev pub result : PingResult
result = record {
  sent = 2;
  replies =
      record { seq = 1; rtt = pos 3000000; ttl = 60 }
      ∷ record { seq = 2; rtt = pos 4000000; ttl = 61 }
      ∷ [];
  timeouts = 0;
}

abbrev empty : Vectors
empty = record { observed = []; ttls = [] }
