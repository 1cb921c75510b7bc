-- ===== src/Collector/Series.antt =====
-- What the series of collector.go show.
use smokeping_prober.Prelude.{
  List, [], ◌∷◌, ◌++◌, ◌≡◌, ◌≢◌, refl, ap, ◌∙◌, sym, Permuted, length, suc, arith, inl, inr, Text,
  codes, Dict, none, some, lookup, show_ℕ, map, Any, Any-map, append_assoc, append-nil, text_eq,
  text_eq_iff, contains, false, Bool-cases, Option-cases,
}
use mathlib.Core.Path.{subst}
use mathlib.Core.Option.{some-injective, none-ne-some}
use smokeping_prober.Config.{Config}
use smokeping_prober.Prober.{Probe}
use smokeping_prober.Prober.Labels.{
  base_names, build_label_names, build_label_names_lem, Has, HasLabel,
}
use smokeping_prober.Remote.Targets.{Target}
use smokeping_prober.Remote.Huawei.Parse.{PingResult, Reply}
use smokeping_prober.Collector.{
  value_or_empty, label_values, base_labels, build_label_values, remote_label_values, Vectors,
  observe_all, last_reply, record_result,
}

-- The labels of a series: the names with their values.
abbrev pub series_labels : List Text → List Text → Dict Text
series_labels [] vals = []
series_labels (n ∷ names) [] = []
series_labels (n ∷ names) (v ∷ vals) = (n, v) ∷ series_labels names vals

-- The value that a name has in a series: that of the first map that has it.
abbrev pub shown : Dict Text → Dict Text → Text → Text
shown base custom k = elim (lookup k base) [ some v ↦ v | none ↦ value_or_empty (lookup k custom) ]

label_values-cons :
    (n : Text) (names : List Text) (base custom : Dict Text)
    → label_values (n ∷ names) base custom ≡ shown base custom n ∷ label_values names base custom
unfolding label_values
label_values-cons n names base custom = elim (Option-cases (lookup n base)) [
  | inl e ↦ rw (e, label_values, shown) refl
  | inr (v, e) ↦ rw (e, label_values, shown) refl
]

pub lookup-label_values :
    (names : List Text) (base custom : Dict Text) (k : Text)
    → Has k names
    → lookup k (series_labels names (label_values names base custom)) ≡ some (shown base custom k)
lookup-label_values [] base custom k h = absurd h
lookup-label_values (n ∷ names) base custom k h = elim (Bool-cases (text_eq n k)) [
  | inl e ↦
      rw (label_values-cons n names base custom, e)
        (ap (λ x. some (shown base custom x)) ((text_eq_iff n k).0 e))
  | inr e ↦
      rw (label_values-cons n names base custom, e)
        (lookup-label_values names base custom k (ground (arith, h, e, text_eq_iff n k)))
]

pub length-label_values :
    (names : List Text) (base custom : Dict Text)
    → length (label_values names base custom) ≡ length names
unfolding label_values
length-label_values [] base custom = refl
length-label_values (n ∷ names) base custom =
    rw (label_values-cons n names base custom) (ap suc (length-label_values names base custom))

HasLabel-lookup :
    (labels : Dict Text) (k : Text)
    → HasLabel k labels
    → lookup k labels ≡ some (value_or_empty (lookup k labels))
HasLabel-lookup [] k h = absurd h
HasLabel-lookup ((j, v) ∷ labels) k h = elim (Bool-cases (text_eq j k)) [
  | inl e ↦ rw (e) refl
  | inr e ↦ rw (e) (HasLabel-lookup labels k (ground (arith, h, e, text_eq_iff j k)))
]

lookup-absent :
    (base : Dict Text) (k : Text) → contains (map (λ e. e.0) base) k ≡ false → lookup k base ≡ none
lookup-absent [] k h = refl
lookup-absent ((j, v) ∷ base) k h = ground (arith, h, lookup-absent base k)

shown-absent :
    (base custom : Dict Text) (k : Text)
    → lookup k base ≡ none
    → shown base custom k ≡ value_or_empty (lookup k custom)
shown-absent base custom k e = rw (e, shown) refl

abbrev pub target_labels : Target → Dict Text
target_labels t = base_labels t.job.target t.host t.job.source (show_ℕ t.job.tos) t.link

module _ (sort : List Text → List Text) (c : Config)
    (perm : (xs : List Text) → Permuted xs (sort xs)) where
  abbrev all_names : List Text
  all_names = build_label_names sort c

  pub link-named : Has (codes "link") all_names
  link-named =
      ((build_label_names_lem sort c perm).1 (codes "link")).1
        (inl (inr (inr (inr (inr (inl refl))))))

  -- If the sort permutes its list: the series of a target whose labels are those of a group of the
  -- configuration has one value for each name, and the value of each label of the group that is no
  -- base name is the label's, and that of the name "link" is the target's link.
  pub remote_label_values_lem :
      (t : Target)
      → Any (λ tg. tg.labels ≡ t.labels) c.targets
      → (length (remote_label_values all_names t) ≡ length all_names)
        × ((k : Text)
            → HasLabel k t.labels
            → contains base_names k ≡ false
            → lookup k (series_labels all_names (remote_label_values all_names t))
              ≡ lookup k t.labels)
        × (lookup (codes "link") (series_labels all_names (remote_label_values all_names t))
            ≡ some t.link)
  unfolding remote_label_values text_eq
  remote_label_values_lem t member = (
    length-label_values all_names _ _,
    λ k h extra.
        lookup-label_values all_names _ _ k (
          ((build_label_names_lem sort c perm).1 k).1
            (inr (Any-map c.targets (λ tg q. subst (HasLabel k) (sym q) h) member)))
        ∙ ap some
            (shown-absent (target_labels t) t.labels k (lookup-absent (target_labels t) k extra))
        ∙ sym (HasLabel-lookup t.labels k h),
    lookup-label_values all_names _ _ (codes "link") link-named,
  )

  -- If the sort permutes its list, the series of a probe of this host is not the series of a target
  -- whose link has a name.
  pub label_values-apart :
      (pr : Probe) (ip : Text) (t : Target)
      → t.link ≢ []
      → build_label_values all_names pr ip ≢ remote_label_values all_names t
  unfolding build_label_values remote_label_values text_eq
  label_values-apart pr ip t named same =
      let probe = lookup-label_values all_names _ pr.labels (codes "link") link-named in
      let target = lookup-label_values all_names _ t.labels (codes "link") link-named in
      named (
        some-injective _ _ (
          sym target
          ∙ ap (λ vals. lookup (codes "link") (series_labels all_names vals)) (sym same)
          ∙ probe))

observe_all_lem :
    (vals : List Text) (reps : List Reply) (v : Vectors)
    → (observe_all vals reps v).observed ≡ v.observed ++ map (λ r. (vals, r.rtt)) reps
unfolding observe_all
observe_all_lem vals [] v = sym (append-nil v.observed)
observe_all_lem vals (rep ∷ reps) v =
    observe_all_lem vals reps (record v { observed = v.observed ++ (vals, rep.rtt) ∷ [] })
    ∙ append_assoc v.observed ((vals, rep.rtt) ∷ []) _

observe_all-ttls :
    (vals : List Text) (reps : List Reply) (v : Vectors) → (observe_all vals reps v).ttls ≡ v.ttls
unfolding observe_all
observe_all-ttls vals [] v = refl
observe_all-ttls vals (rep ∷ reps) v = observe_all-ttls vals reps _

last_reply-last : (reps : List Reply) (r : Reply) → last_reply (reps ++ r ∷ []) ≡ some r
unfolding last_reply
last_reply-last [] r = refl
last_reply-last (rep ∷ reps) r = rw (last_reply-last reps r) refl

-- Recording a result observes the round trip time of each reply, in order, in the series of the
-- target, and sets the gauge of the same series to the TTL of the last reply; without a reply it
-- does nothing.
pub record_result_lem :
    (names : List Text) (t : Target) (res : PingResult) (v : Vectors)
    → let vals = remote_label_values names t in
      let v' = record_result names t res v in
      (v'.observed ≡ v.observed ++ map (λ r. (vals, r.rtt)) res.replies)
      × ((reps : List Reply) (r : Reply)
          → res.replies ≡ reps ++ r ∷ []
          → v'.ttls ≡ v.ttls ++ (vals, r.ttl) ∷ [])
      × (res.replies ≡ [] → v' ≡ v)
unfolding record_result
record_result_lem names t res v =
    let vals = remote_label_values names t in
    let last = λ (reps : List Reply) (r : Reply) (q : res.replies ≡ reps ++ r ∷ []).
      ap last_reply q ∙ last_reply-last reps r in
    elim (Option-cases (last_reply res.replies)) [
      | inl e ↦
          rw (e, record_result)
            (
              observe_all_lem vals res.replies v,
              (λ reps r q. absurd (none-ne-some _ (sym e ∙ last reps r q))),
              λ q. ap (λ reps. observe_all vals reps v) q,
            )
      | inr (rep, e) ↦
          rw (e, record_result)
            (
              observe_all_lem vals res.replies v,
              (λ reps r q.
                  ap (λ ttls. ttls ++ (vals, rep.ttl) ∷ []) (observe_all-ttls vals res.replies v)
                  ∙ ap (λ x. v.ttls ++ (vals, x.ttl) ∷ [])
                      (some-injective _ _ (sym e ∙ last reps r q))),
              λ q. absurd (none-ne-some _ (ap last_reply (sym q) ∙ e)),
            )
    ]
