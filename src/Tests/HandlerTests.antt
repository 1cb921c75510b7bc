-- ===== src/Tests/HandlerTests.antt =====
-- Runs and instances for the metric vectors of collector.go.
use smokeping_prober.Prelude.{
  ℕ, Bool, true, false, ◌&&◌, Option, none, some, List, [], ◌∷◌, ◌≡◌, ◌≢◌, inl, inr, refl, arith,
  Text, codes, Result, ok, err, length, ◌==◌, ◌+◌, if◌then◌else◌, All, text_eq, text_eq_iff,
  Bool-cases, Option-cases,
}
use mathlib.Core.Path.{subst}
use smokeping_prober.Prober.{Pinger, Probe}
use smokeping_prober.Prober.Labels.{base_names}
use smokeping_prober.Collector.Handlers.{
  Update, Panic, label_count, label_names, Prometheus, Documented, Report, World, init_metrics,
  handle_all,
}
use smokeping_prober.Collector.Handlers.Renewed.{KeepsNames, SameNames}
use smokeping_prober.Collector.Handlers.Created.{
  SmokepingCollector, new_collector, scrape, new_collector-safe,
}
use smokeping_prober.Tests.CollectorTests.{target, probe}

-- The number of names of a vector, and what was done to it, newest first.
abbrev SmallVec : Type 0
SmallVec = ℕ × List (List Text × Update)

abbrev use_values : SmallVec → List Text → Update → Result Panic SmallVec
use_values (n, calls) vals u =
    if length vals == n then ok (n, (vals, u) ∷ calls) else err label_count

abbrev same_list : List Text → List Text → Bool
same_list [] [] = true
same_list (x ∷ xs) (y ∷ ys) = text_eq x y && same_list xs ys
same_list _ _ = false

same_list-lem : (xs ys : List Text) → same_list xs ys ≡ true → xs ≡ ys
same_list-lem [] [] e = refl
same_list-lem [] (y ∷ ys) e = ground arith
same_list-lem (x ∷ xs) [] e = ground arith
same_list-lem (x ∷ xs) (y ∷ ys) e =
    let rest = same_list-lem xs ys (ground arith) in ground (arith, text_eq_iff x y)

-- A registry that holds the label names of each name.
abbrev pub register :
    Text → List Text → (Text → Option (List Text)) → Result Panic (Text → Option (List Text))
register name names reg = elim (reg name) [
  | none ↦ ok (λ n. if text_eq n name then some names else reg n)
  | some ns ↦ if same_list ns names then ok reg else err label_names
]

abbrev pub small_client : Prometheus
small_client = record {
  Vec = SmallVec;
  Bucket = Bool;
  Registry = Text → Option (List Text);
  new_vec = λ names. (length names, []);
  new_histogram = λ names buckets. (length names, []);
  must_register = register;
  unregister = λ name names reg. reg;
  reset = λ v. (v.0, []);
  with_label_values = use_values;
  width = λ v. v.0;
  increasing = λ buckets. true;
}

abbrev pub empty_registry : Text → Option (List Text)
empty_registry name = none

keeps_width :
    (v w : SmallVec) (vals : List Text) (u : Update) → use_values v vals u ≡ ok w → w.0 ≡ v.0
keeps_width (n, calls) (m, more) vals u e = ground (arith, e)

small_client-Documented : Documented small_client
small_client-Documented = record {
  Works = λ v. Unit;
  works-new_vec = λ names. tt;
  works-new_histogram = λ names buckets no_le sorted. tt;
  works-reset = λ v works. tt;
  works-with = λ v w vals u e works. tt;
  width-new_vec = λ names. refl;
  width-new_histogram = λ names buckets. refl;
  width-reset = λ v. refl;
  width-with = keeps_width;
  accepts = λ v vals u works e. ((v.0, (vals, u) ∷ v.1), ground (arith, e));
  panics = λ v vals u ne. (label_count, ground (arith, ne));
}

same-SameNames : (xs ys : List Text) → xs ≡ ys → SameNames xs ys
same-SameNames xs ys e = subst (SameNames xs) e (λ n. ((λ a. a), (λ a. a)))

pub small_registered :
    (name : Text) (names : List Text) (reg reg' : Text → Option (List Text))
    → register name names reg ≡ ok reg'
    → (ns : List Text) × (reg' name ≡ some ns) × SameNames ns names
small_registered name names reg reg' e = elim (Option-cases (reg name)) [
  | inl fresh ↦
      let added : Text → Option (List Text) = λ n. if text_eq n name then some names else reg n in
      let same : added ≡ reg' = ground (arith, e, fresh) in
      let itself = (text_eq_iff name name).1 refl in
      let there : added name ≡ some names = rw itself refl in
      (names, subst (λ r. r name ≡ some names) same there, same-SameNames names names refl)
  | inr (ns, known) ↦ elim (Bool-cases (same_list ns names)) [
    | inl equal ↦
        let same : reg ≡ reg' = ground (arith, e, known, equal) in
        (
          ns,
          subst (λ r. r name ≡ some ns) same known,
          same-SameNames ns names (same_list-lem ns names equal),
        )
    | inr differ ↦ absurd (ground (arith, e, known, differ))
  ]
]

pub small_lasting :
    (name : Text) (names : List Text) (reg reg' : Text → Option (List Text)) (n : Text)
    (ns : List Text)
    → register name names reg ≡ ok reg'
    → reg n ≡ some ns
    → reg' n ≡ some ns
small_lasting name names reg reg' n ns e there = elim (Option-cases (reg name)) [
  | inl fresh ↦
      let added : Text → Option (List Text) = λ m. if text_eq m name then some names else reg m in
      let same : added ≡ reg' = ground (arith, e, fresh) in
      let still : added n ≡ some ns = elim (Bool-cases (text_eq n name)) [
        | inl it ↦
            let is = (text_eq_iff n name).0 it in
            absurd (ground (arith, subst (λ m. reg m ≡ some ns) is there, fresh))
        | inr other ↦ rw other there
      ] in
      subst (λ r. r n ≡ some ns) same still
  | inr (old, known) ↦ elim (Bool-cases (same_list old names)) [
    | inl equal ↦
        let same : reg ≡ reg' = ground (arith, e, known, equal) in
        subst (λ r. r n ≡ some ns) same there
    | inr differ ↦ absurd (ground (arith, e, known, differ))
  ]
]

abbrev pub small_client-KeepsNames : KeepsNames small_client
small_client-KeepsNames = record {
  names_for = λ reg name. reg name;
  registered = small_registered;
  lasting = small_lasting;
  names-unregister = λ name names reg n. refl;
}

no_le : All (λ n. n ≢ codes "le") base_names
no_le = (
  (λ e. ground arith),
  ((λ e. ground arith), ((λ e. ground arith), ((λ e. ground arith), ((λ e. ground arith), tt)))),
)

abbrev made : World small_client
made = record {
  ttl = (5, []);
  duplicates = (5, []);
  receive_errors = 0;
  send_errors = (5, []);
  seconds = (5, []);
  registry = elim (init_metrics small_client base_names (true ∷ []) empty_registry) [
    | ok w ↦ w.registry
    | err _ ↦ empty_registry
  ];
}

new_collector-safe_example :
    (c : SmokepingCollector) × (w' : World small_client) × (new_collector small_client
        (probe ∷ [])
        (target ∷ [])
        base_names
        made
      ≡ ok (c, w'))
    × (c.label_names ≡ base_names)
    × (c.probes ≡ probe ∷ [])
    × (c.remote ≡ target ∷ [])
    × ((reports : List (Probe × Report))
        → (w'' : World small_client) × (handle_all small_client c.label_names reports w' ≡ ok w''))
    × ((statistics : Pinger → Text × ℕ)
        → (length (scrape statistics c) ≡ length (probe ∷ []) + length (target ∷ []))
          × All (λ m. length m.0 ≡ length c.label_names) (scrape statistics c))
unfolding init_metrics text_eq
new_collector-safe_example =
    new_collector-safe small_client small_client-Documented base_names (true ∷ []) empty_registry
      made (probe ∷ []) (target ∷ []) refl no_le refl
