-- ===== src/Prober/Labels.antt =====
-- `buildLabelNamesFromConfig` of main.go: the names of the labels of every series. `slices.Sort` is
-- a parameter, and so is the order in which a map is walked: it is that of the entries.
use smokeping_prober.Prelude.{
  sym, All-map, Permuted, Bool, Bool-cases, refl, All-append, Distinct-Permuted, Any-Permuted,
  Permuted-sym, false, List, [], ◌∷◌, ◌++◌, ◌≡◌, ◌≢◌, ◌↔◌, ◌⊎◌, inl, inr, arith, Text, codes, Dict,
  contains, contains_iff, contains-false_iff, if◌then◌else◌, Any, All, DistinctBy,
}
use mathlib.Core.Path.{subst}
use smokeping_prober.Config.{Config, TargetGroup}

abbrev pub base_names : List Text
base_names = codes "ip" ∷ codes "host" ∷ codes "source" ∷ codes "tos" ∷ codes "link" ∷ []

-- `m[k] = struct{}{}`, on a set without duplicates.
add_name : Text → List Text → List Text
add_name k m = if contains m k then m else k ∷ m

-- The loop over the labels of one group, and the one over the groups; `base` is the local variable.
unfoldable pub add_labels : List Text → Dict Text → List Text → List Text
unfolding add_name
add_labels base [] m = m
add_labels base ((k, v) ∷ labels) m =
    add_labels base labels (if contains base k then m else add_name k m)

unfoldable pub extra_names : List Text → List TargetGroup → List Text → List Text
extra_names base [] m = m
extra_names base (tg ∷ tgs) m = extra_names base tgs (add_labels base tg.labels m)

unfoldable pub build_label_names : (List Text → List Text) → Config → List Text
unfolding extra_names
build_label_names sort c = base_names ++ sort (extra_names base_names c.targets [])

abbrev pub Has : Text → List Text → Type 0
Has k names = Any (λ n. n ≡ k) names

-- A map has an entry for a key.
abbrev pub HasLabel : Text → Dict Text → Type 0
HasLabel k labels = Any (λ e. e.0 ≡ k) labels

add_name-Has : (j : Text) (m : List Text) (k : Text) → Has k (add_name j m) ↔ (Has k m ⊎ (j ≡ k))
unfolding add_name
add_name-Has j m k = elim (Bool-cases (contains m j)) [
  | inl e ↦ rw (e) (
    (λ h. inl h),
    λ h. elim h [ inl a ↦ a | inr q ↦ subst (λ x. Has x m) q ((contains_iff m j).0 e) ],
  )
  | inr e ↦ rw (e) (ground arith)
]

add_name-Distinct :
    (j : Text) (m : List Text) → DistinctBy (λ n. n) m → DistinctBy (λ n. n) (add_name j m)
unfolding add_name
add_name-Distinct j m d = elim (Bool-cases (contains m j)) [
  | inl e ↦ rw (e) d
  | inr e ↦ rw (e) (All-map m (λ n ne q. ne (sym q)) ((contains-false_iff m j).0 e), d)
]

same-contained :
    (base : List Text) (j k : Text) {b : Bool} → j ≡ k → contains base j ≡ b → contains base k ≡ b
same-contained base j k {b} q e = subst (λ x. contains base x ≡ b) q e

-- What the two loops add: the labels whose names are not base names.
module _ (base : List Text) (k : Text) where
  add_labels-Has :
      (labels : Dict Text) (m : List Text)
      → Has k (add_labels base labels m)
        ↔ (Has k m ⊎ (HasLabel k labels × (contains base k ≡ false)))
  unfolding add_labels
  add_labels-Has [] m = ground arith
  add_labels-Has ((j, v) ∷ labels) m = elim (Bool-cases (contains base j)) [
    | inl e ↦ rw (e) (ground (arith, add_labels-Has labels m, same-contained base j k))
    | inr e ↦ rw (e) (
        ground (
          arith,
          add_labels-Has labels (add_name j m),
          add_name-Has j m k,
          same-contained base j k,
        ))
  ]

  extra_names-Has :
      (tgs : List TargetGroup) (m : List Text)
      → Has k (extra_names base tgs m)
        ↔ (Has k m ⊎ (Any (λ tg. HasLabel k tg.labels) tgs × (contains base k ≡ false)))
  unfolding extra_names
  extra_names-Has [] m = ground arith
  extra_names-Has (tg ∷ tgs) m =
      ground (arith, extra_names-Has tgs (add_labels base tg.labels m), add_labels-Has tg.labels m)

module _ (base : List Text) where
  add_labels-Distinct :
      (labels : Dict Text) (m : List Text)
      → DistinctBy (λ n. n) m
      → DistinctBy (λ n. n) (add_labels base labels m)
  unfolding add_labels
  add_labels-Distinct [] m d = d
  add_labels-Distinct ((j, v) ∷ labels) m d = elim (Bool-cases (contains base j)) [
    | inl e ↦ rw (e) (add_labels-Distinct labels m d)
    | inr e ↦ rw (e) (add_labels-Distinct labels (add_name j m) (add_name-Distinct j m d))
  ]

  extra_names-Distinct :
      (tgs : List TargetGroup) (m : List Text)
      → DistinctBy (λ n. n) m
      → DistinctBy (λ n. n) (extra_names base tgs m)
  unfolding extra_names
  extra_names-Distinct [] m d = d
  extra_names-Distinct (tg ∷ tgs) m d =
      extra_names-Distinct tgs (add_labels base tg.labels m) (add_labels-Distinct tg.labels m d)

absent : {x : Text} (ys : List Text) → ((k : Text) → Has k ys → x ≢ k) → All (λ y. x ≢ y) ys
absent [] h = tt
absent (y ∷ ys) h = (h y (inl refl), absent ys λ k a. h k (inr a))

Distinct-append :
    (xs ys : List Text)
    → DistinctBy (λ n. n) xs
    → DistinctBy (λ n. n) ys
    → ((k : Text) → Has k ys → All (λ x. x ≢ k) xs)
    → DistinctBy (λ n. n) (xs ++ ys)
Distinct-append [] ys dx dy apart = dy
Distinct-append (x ∷ xs) ys dx dy apart = (
  All-append (λ y. x ≢ y) xs ys dx.0 (absent ys λ k h. (apart k h).0),
  Distinct-append xs ys dx.1 dy (λ k h. (apart k h).1),
)

Has-append : (xs ys : List Text) (k : Text) → Has k (xs ++ ys) ↔ (Has k xs ⊎ Has k ys)
Has-append [] ys k = ground arith
Has-append (x ∷ xs) ys k = ground (arith, Has-append xs ys k)

base_names-Distinct : DistinctBy (λ n. n) base_names
base_names-Distinct = ground arith

-- The sorted names that are added.
sorted_names-Has :
    (sort : List Text → List Text) (c : Config) (k : Text)
    → ((xs : List Text) → Permuted xs (sort xs))
    → Has k (sort (extra_names base_names c.targets []))
      ↔ (Any (λ tg. HasLabel k tg.labels) c.targets × (contains base_names k ≡ false))
sorted_names-Has sort c k perm =
    let extras = extra_names base_names c.targets [] in
    ground (
      arith,
      extra_names-Has base_names k c.targets [],
      Any-Permuted (λ n. n ≡ k) (perm extras),
      Any-Permuted (λ n. n ≡ k) (Permuted-sym (perm extras)),
    )

names_iff :
    {Q : Type 0} (k : Text) (names : List Text)
    → (Has k names ↔ (Q × (contains base_names k ≡ false)))
    → Has k (base_names ++ names) ↔ (Has k base_names ⊎ Q)
names_iff k names h = elim (Bool-cases (contains base_names k)) [
  | inl e ↦ ground (arith, h, Has-append base_names names k, (contains_iff base_names k).0 e)
  | inr e ↦ ground (arith, h, e, Has-append base_names names k)
]

-- If the sort permutes its list, no label name occurs twice, and the names are the base names and
-- the names of the labels of the target groups.
pub build_label_names_lem :
    (sort : List Text → List Text) (c : Config)
    → ((xs : List Text) → Permuted xs (sort xs))
    → DistinctBy (λ n. n) (build_label_names sort c)
      × ((k : Text)
          → Has k (build_label_names sort c)
            ↔ (Has k base_names ⊎ Any (λ tg. HasLabel k tg.labels) c.targets))
unfolding build_label_names
build_label_names_lem sort c perm =
    let extras = extra_names base_names c.targets [] in
    (
      Distinct-append base_names (sort extras) base_names-Distinct
          (Distinct-Permuted (perm extras) (extra_names-Distinct base_names c.targets [] tt))
          (λ k h. (contains-false_iff base_names k).0 ((sorted_names-Has sort c k perm).0 h).1),
      λ k. names_iff k (sort extras) (sorted_names-Has sort c k perm),
    )
