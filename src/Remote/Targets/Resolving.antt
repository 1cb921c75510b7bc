-- ===== src/Remote/Targets/Resolving.antt =====
-- What `Resolve` returns for every answer of package net.
use smokeping_prober.Prelude.{
  true, false, some, none, List, [], ◌∷◌, ◌≡◌, ◌⊎◌, inl, inr, refl, arith, Text, codes, text_eq,
  text_eq_iff, Any, Result, ok, err, Result-cases, Option-cases, Bool-cases,
}
use smokeping_prober.Net.{Net, Ip, is_v4}
use smokeping_prober.Remote.Targets.{
  ResolveError, not_ipv4, not_ipv6, lookup_failed, panic, first_v4, first_ip, choose_ip, resolve,
}
use smokeping_prober.Remote.Targets.Valid.{Fits}

-- One of the addresses, and for network "ip" an IPv4 address where there is one.
abbrev pub IsChoice : Text → List Ip → Ip → Type 0
IsChoice network ips ip =
    Any (λ i. i ≡ ip) ips × (network ≡ codes "ip" → Any (λ i. is_v4 i ≡ true) ips → is_v4 ip ≡ true)

module _ (net : Net) (host network : Text) where
  -- The ends of `Resolve` for an address literal.
  abbrev pub FromLiteral : Ip → Result (ResolveError net.LookupError) Ip → Type 0
  FromLiteral ip r =
      (Fits network ip × (r ≡ ok ip))
      ⊎ ((network ≡ codes "ip4") × (is_v4 ip ≡ false) × (r ≡ err (not_ipv4 host)))
      ⊎ ((network ≡ codes "ip6") × (is_v4 ip ≡ true) × (r ≡ err (not_ipv6 host)))

  -- Its ends for another name.
  abbrev pub FromLookup : Result (ResolveError net.LookupError) Ip → Type 0
  FromLookup r =
      ((e : net.LookupError) × (net.lookup_ip network host ≡ err e) × (r ≡ err (lookup_failed e)))
      ⊎ ((net.lookup_ip network host ≡ ok []) × (r ≡ err panic))
      ⊎ ((ips : List Ip) × (ip : Ip) × (net.lookup_ip network host ≡ ok ips)
          × IsChoice network ips ip
          × (r ≡ ok ip))

first_v4-Any :
    (ips : List Ip) (ip : Ip) → first_v4 ips ≡ some ip → Any (λ i. i ≡ ip) ips × (is_v4 ip ≡ true)
unfolding first_v4
first_v4-Any [] ip e = ground arith
first_v4-Any (i ∷ ips) ip e = elim (Bool-cases (is_v4 i)) [
  | inl v4 ↦ ground arith
  | inr v6 ↦ let (there, is) = first_v4-Any ips ip (ground arith) in (inr there, is)
]

no_v4 : (ips : List Ip) → first_v4 ips ≡ none → Any (λ i. is_v4 i ≡ true) ips → ⊥
unfolding first_v4
no_v4 [] e a = a
no_v4 (i ∷ ips) e (inl v4) = ground arith
no_v4 (i ∷ ips) e (inr a) = no_v4 ips (ground arith) a

choose_ip-IsChoice :
    {E : Type 0} (network : Text) (i : Ip) (ips : List Ip)
    → (ip : Ip) × (choose_ip {E = E} network (i ∷ ips) ≡ ok ip) × IsChoice network (i ∷ ips) ip
unfolding choose_ip first_ip
choose_ip-IsChoice network i ips = elim (Bool-cases (text_eq network (codes "ip"))) [
  | inl e ↦ elim (Option-cases (first_v4 (i ∷ ips))) [
    | inl miss ↦ (i, rw (e, miss) refl, (inl refl, λ n a. absurd (no_v4 (i ∷ ips) miss a)))
    | inr (ip, hit) ↦
        let (there, v4) = first_v4-Any (i ∷ ips) ip hit in
        (ip, rw (e, hit) refl, (there, λ n a. v4))
  ]
  | inr e ↦
      (i, rw e refl, (inl refl, λ n a. absurd (ground (arith, text_eq_iff network (codes "ip")))))
]

module _ (net : Net) (host network : Text) where
  literal :
      (ip : Ip)
      → net.parse_ip host ≡ some ip
      → FromLiteral net host network ip (resolve net host network)
  unfolding resolve
  literal ip e =
      ground (arith, text_eq_iff network (codes "ip4"), text_eq_iff network (codes "ip6"))

  looked_up : net.parse_ip host ≡ none → FromLookup net host network (resolve net host network)
  unfolding resolve choose_ip first_ip first_v4
  looked_up e = elim (Result-cases (net.lookup_ip network host)) [
    | inr (failure, l) ↦ inl (failure, l, rw (e, l, resolve) refl)
    | inl ([], l) ↦ inr (inl (l, ground arith))
    | inl (i ∷ ips, l) ↦
        let (ip, chosen, is) = choose_ip-IsChoice {E = net.LookupError} network i ips in
        inr (inr (i ∷ ips, ip, l, is, rw (e, l, resolve) chosen))
  ]

  -- For an address literal, `Resolve` returns it if it has the family that the network names, and
  -- else the error of that family, and no resolver is asked. For any other name it returns the
  -- error of the resolver, or one of the addresses that the resolver gives, and for network "ip" an
  -- IPv4 address where there is one; it indexes an empty slice exactly if the resolver gives no
  -- address and no error.
  pub resolve-Resolved :
      ((ip : Ip) × (net.parse_ip host ≡ some ip)
        × FromLiteral net host network ip (resolve net host network))
      ⊎ ((net.parse_ip host ≡ none) × FromLookup net host network (resolve net host network))
  resolve-Resolved = elim (Option-cases (net.parse_ip host)) [
    | inr (ip, e) ↦ inl (ip, e, literal ip e)
    | inl e ↦ inr (e, looked_up e)
  ]
