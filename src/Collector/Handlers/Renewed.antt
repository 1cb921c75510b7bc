-- ===== src/Collector/Handlers/Renewed.antt =====
-- What the registry of client_golang makes of vectors that a reload registers with other label names.
use smokeping_prober.Prelude.{
  List, [], ◌≡◌, ◌↔◌, inl, inr, arith, Text, codes, Option, some, Any, ok, Result-cases,
}
use mathlib.Core.Path.{subst}
use smokeping_prober.Collector.Handlers.{
  Prometheus, World, register_globals, init_metrics, make_vectors, renew_vectors,
}

-- The same label names, in any order.
abbrev pub SameNames : List Text → List Text → Type 0
SameNames xs ys = (n : Text) → Any (λ x. x ≡ n) xs ↔ Any (λ y. y ≡ n) ys

-- What the registry documents: the label names of a metric name are those of its first registration
-- for the life of the program, whatever is unregistered; a registration with others panics.
pub record KeepsNames (prom : Prometheus) : Type 0 where
  pub names_for : prom.Registry → Text → Option (List Text)
  pub registered :
      (name : Text) (names : List Text) (reg reg' : prom.Registry)
      → prom.must_register name names reg ≡ ok reg'
      → (ns : List Text) × (names_for reg' name ≡ some ns) × SameNames ns names
  pub lasting :
      (name : Text) (names : List Text) (reg reg' : prom.Registry) (n : Text) (ns : List Text)
      → prom.must_register name names reg ≡ ok reg'
      → names_for reg n ≡ some ns
      → names_for reg' n ≡ some ns
  pub names-unregister :
      (name : Text) (names : List Text) (reg : prom.Registry) (n : Text)
      → names_for (prom.unregister name names reg) n ≡ names_for reg n

module _ (prom : Prometheus) (docs : KeepsNames prom) where
  -- The label names that the vectors of the registry have.
  unfoldable pub Named : List Text → prom.Registry → Type 0
  Named ns reg = docs.names_for reg (codes "smokeping_response_ttl") ≡ some ns

  pub later :
      (name : Text) (names ns : List Text) (reg reg' : prom.Registry)
      → prom.must_register name names reg ≡ ok reg'
      → Named ns reg
      → Named ns reg'
  unfolding Named
  later name names ns reg reg' e named = docs.lasting name names reg reg' _ ns e named

  pub unregistered :
      (name : Text) (names ns : List Text) (reg : prom.Registry)
      → Named ns reg
      → Named ns (prom.unregister name names reg)
  unfolding Named
  unregistered name names ns reg named = rw (docs.names-unregister name names reg) named

  first_names :
      (names : List Text) (reg reg' : prom.Registry)
      → prom.must_register (codes "smokeping_response_ttl") names reg ≡ ok reg'
      → (ns : List Text) × Named ns reg' × SameNames ns names
  unfolding Named
  first_names names reg reg' e = docs.registered _ names reg reg' e

  other_names :
      (names ns : List Text) (reg reg' : prom.Registry)
      → prom.must_register (codes "smokeping_response_ttl") names reg ≡ ok reg'
      → Named ns reg
      → SameNames ns names
  unfolding Named
  other_names names ns reg reg' e named =
      let (ns', now, same) = docs.registered _ names reg reg' e in
      let kept = docs.lasting _ names reg reg' _ ns e named in
      let equal : ns' ≡ ns = ground (arith, now, kept) in subst (λ x. SameNames x names) equal same

  -- The registration of the vectors starts with that of the first name.
  steps :
      (names : List Text) (buckets : List prom.Bucket) (reg : prom.Registry) (w : World prom)
      → make_vectors prom names buckets reg ≡ ok w
      → (reg1 : prom.Registry) × (prom.must_register (codes "smokeping_response_ttl") names reg
          ≡ ok reg1)
        × ((ns : List Text) → Named ns reg1 → Named ns w.registry)
  unfolding make_vectors init_metrics register_globals
  steps names buckets reg w e =
      elim (Result-cases (prom.must_register (codes "smokeping_response_ttl") names reg)) [
        | inr (p, q) ↦ absurd (ground arith)
        | inl (r1, q1) ↦
            elim (Result-cases
              (prom.must_register (codes "smokeping_response_duplicates_total") names r1)) [
                | inr (p, q) ↦ absurd (ground arith)
                | inl (r2, q2) ↦
                    elim (Result-cases
                      (prom.must_register (codes "smokeping_receive_errors_total") [] r2)) [
                        | inr (p, q) ↦ absurd (ground arith)
                        | inl (r3, q3) ↦
                            elim (Result-cases
                              (prom.must_register (codes "smokeping_send_errors_total") names r3)) [
                                | inr (p, q) ↦ absurd (ground arith)
                                | inl (r4, q4) ↦
                                    elim (Result-cases (
                                      prom.must_register
                                        (codes "smokeping_response_duration_seconds") names r4)) [
                                          | inr (p, q) ↦ absurd (ground arith)
                                          | inl (r5, q5) ↦
                                              let last : w.registry ≡ r5 = ground arith in
                                              (
                                                r1,
                                                q1,
                                                λ ns named. rw last (
                                                    later _ _ ns r4 r5 q5 (
                                                      later _ _ ns r3 r4 q4 (
                                                        later _ _ ns r2 r3 q3
                                                          (later _ _ ns r1 r2 q2 named)))),
                                              )
                                        ]
                              ]
                      ]
              ]
      ]

  pub make_vectors-Named :
      (names : List Text) (buckets : List prom.Bucket) (reg : prom.Registry) (w : World prom)
      → make_vectors prom names buckets reg ≡ ok w
      → (ns : List Text) × Named ns w.registry × SameNames ns names
  make_vectors-Named names buckets reg w e =
      let (reg1, registered, keeps) = steps names buckets reg w e in
      let (ns, named, same) = first_names names reg reg1 registered in (ns, keeps ns named, same)

  pub renew_vectors-SameNames :
      (old names ns : List Text) (buckets : List prom.Bucket) (w w' : World prom)
      → renew_vectors prom old names buckets w ≡ ok w'
      → Named ns w.registry
      → SameNames ns names × Named ns w'.registry
  unfolding renew_vectors
  renew_vectors-SameNames old names ns buckets w w' e named =
      let kept = unregistered _ old ns _ (
        unregistered _ [] ns _ (
          unregistered _ old ns _
            (unregistered _ old ns _ (unregistered _ old ns w.registry named)))) in
      let (reg1, registered, keeps) = steps names buckets _ w' e in
      (
        other_names names ns _ reg1 registered kept,
        keeps ns (later _ names ns _ reg1 registered kept),
      )
