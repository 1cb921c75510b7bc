-- ===== src/Remote/Targets/Valid.antt =====
-- A group that `Validate` accepts gets its targets: `Validate`, `Resolve` and `BuildTargets` agree
-- on the families of addresses.
use smokeping_prober.Prelude.{
  not, true, false, none, some, List, [], ◌∷◌, ◌++◌, ◌≡◌, ◌≢◌, inl, inr, refl, arith, Text, codes,
  text_eq, text_eq_iff, is_empty, All, Any, ok, err, Result-cases, Option-cases, Bool-cases,
}
use smokeping_prober.Net.{Net, Ip, is_v4}
use smokeping_prober.Config.{Link, Router, TargetGroup, select_links}
use smokeping_prober.Config.Valid.{IsServed, IsRemoteGroup, HasSource, HasSource6}
use smokeping_prober.Remote.Targets.{
  panic, first_v4, first_ip, choose_ip, resolve, Target, source_of, add_hosts, build_targets,
}
use smokeping_prober.Remote.Targets.Built.{link_targets, add_hosts-cons}

-- `LookupIP` gives an address at least when it gives no error, and only addresses of the family
-- that the network names.
abbrev pub LooksUpFamily : Net → Type 0
LooksUpFamily net =
    (network host : Text) (ips : List Ip)
    → net.lookup_ip network host ≡ ok ips
    → (ips ≢ [])
      × (network ≡ codes "ip4" → All (λ ip. is_v4 ip ≡ true) ips)
      × (network ≡ codes "ip6" → All (λ ip. is_v4 ip ≡ false) ips)

-- The address has the family that the network names.
abbrev pub Fits : Text → Ip → Type 0
Fits network ip =
    (network ≡ codes "ip4" → is_v4 ip ≡ true) × (network ≡ codes "ip6" → is_v4 ip ≡ false)

first_v4_lem : (ips : List Ip) (ip : Ip) → first_v4 ips ≡ some ip → is_v4 ip ≡ true
unfolding first_v4
first_v4_lem [] ip e = ground arith
first_v4_lem (i ∷ ips) ip e = ground (arith, first_v4_lem ips ip)

first_v4-none : (ips : List Ip) → first_v4 ips ≡ none → All (λ ip. is_v4 ip ≡ false) ips
unfolding first_v4
first_v4-none [] e = tt
first_v4-none (i ∷ ips) e = ground (arith, first_v4-none ips)

choose_ip_lem :
    {E : Type 0} (network : Text) (ips : List Ip)
    → ips ≢ []
    → (network ≡ codes "ip4" → All (λ ip. is_v4 ip ≡ true) ips)
    → (network ≡ codes "ip6" → All (λ ip. is_v4 ip ≡ false) ips)
    → (ip : Ip) × (choose_ip {E = E} network ips ≡ ok ip) × Fits network ip
unfolding choose_ip first_ip
choose_ip_lem network [] some_ip v4 v6 = absurd (some_ip refl)
choose_ip_lem network (i ∷ ips) some_ip v4 v6 = elim (Bool-cases (text_eq network (codes "ip"))) [
  | inl e ↦ elim (Option-cases (first_v4 (i ∷ ips))) [
    | inl miss ↦ (i, ground arith, ground (arith, text_eq_iff network (codes "ip")))
    | inr (ip, hit) ↦ (ip, ground arith, ground (arith, text_eq_iff network (codes "ip")))
  ]
  | inr e ↦ (i, ground arith, ground arith)
]

module _ (net : Net) (documented : LooksUpFamily net) (host network : Text) where
  literal-Fits :
      (ip found : Ip)
      → net.parse_ip host ≡ some ip
      → resolve net host network ≡ ok found
      → Fits network found
  unfolding resolve
  literal-Fits ip found e p =
      ground (arith, text_eq_iff network (codes "ip4"), text_eq_iff network (codes "ip6"))

  literal_no_panic : (ip : Ip) → net.parse_ip host ≡ some ip → resolve net host network ≢ err panic
  unfolding resolve
  literal_no_panic ip e p = ground arith

  name_lem :
      (ips : List Ip)
      → net.parse_ip host ≡ none
      → net.lookup_ip network host ≡ ok ips
      → (ip : Ip) × (resolve net host network ≡ ok ip) × Fits network ip
  unfolding resolve
  name_lem ips e l =
      let (some_ip, v4, v6) = documented network host ips l in
      let (ip, chosen, fits) = choose_ip_lem {E = net.LookupError} network ips some_ip v4 v6 in
      (ip, ground arith, fits)

  -- `Resolve` for a resolver that gives an address whenever it gives no error.
  pub resolve_lem :
      (resolve net host network ≢ err panic)
      × ((found : Ip) → resolve net host network ≡ ok found → Fits network found)
  unfolding resolve
  resolve_lem = elim (Option-cases (net.parse_ip host)) [
    | inr (ip, e) ↦ (literal_no_panic ip e, λ found p. literal-Fits ip found e p)
    | inl e ↦ elim (Result-cases (net.lookup_ip network host)) [
      | inr (failure, l) ↦ (λ p. ground arith, λ found p. absurd (ground arith))
      | inl (ips, l) ↦
          let (ip, r, fits) = name_lem ips e l in (λ p. ground arith, λ found p. ground arith)
    ]
  ]

-- A host for which `BuildTargets` has to succeed: it resolves, and where the network leaves the
-- family open it is a literal, whose family `Validate` sees.
abbrev pub IsFound : Net → Text → Text → Type 0
IsFound net network host =
    (ip : Ip) × (resolve net host network ≡ ok ip)
    × (network ≡ codes "ip" → net.parse_ip host ≡ some ip)

module _ (net : Net) (tg : TargetGroup) where
  link_targets-ne-nil :
      (host : Text) (ip : Ip) (ls : List Link)
      → Any (λ l. source_of (not (is_v4 ip)) l ≢ []) ls
      → is_empty (link_targets net tg host ip ls) ≡ false
  link_targets-ne-nil host ip [] a = absurd a
  link_targets-ne-nil host ip (l ∷ ls) a = ground (arith, link_targets-ne-nil host ip ls)

  served_link :
      (r : Router) (host : Text) (ip : Ip)
      → IsRemoteGroup net r tg
      → (tg.network ≡ codes "ip"
          → (is_v4 ip ≡ true → HasSource net (select_links r tg.links))
            × (is_v4 ip ≡ false → HasSource6 net (select_links r tg.links)))
      → Fits tg.network ip
      → Any (λ l. source_of (not (is_v4 ip)) l ≢ []) (select_links r tg.links)
  served_link r host ip valid served fits = elim (Bool-cases (is_v4 ip)) [
    | inl e ↦ rw e (elim valid.known_network [
      | inl n ↦ (served n).0 e
      | inr (inl n) ↦ valid.served4 n
      | inr (inr n) ↦ absurd (ground (arith, fits.1 n))
    ])
    | inr e ↦ rw e (elim valid.known_network [
      | inl n ↦ (served n).1 e
      | inr (inl n) ↦ absurd (ground (arith, fits.0 n))
      | inr (inr n) ↦ valid.served6 n
    ])
  ]

  add_hosts_total :
      (r : Router) (hosts : List Text) (targets : List Target)
      → LooksUpFamily net
      → IsRemoteGroup net r tg
      → (tg.network ≡ codes "ip" → All (IsServed net (select_links r tg.links)) hosts)
      → All (IsFound net tg.network) hosts
      → (ts : List Target) × (add_hosts net tg r (resolve net) hosts targets ≡ ok ts)
  add_hosts_total r [] targets documented valid served found = (targets, unfold add_hosts in refl)
  add_hosts_total r (host ∷ hosts) targets documented valid served ((ip, e, literal), found) =
      let fits = (resolve_lem net documented host tg.network).1 ip e in
      let link = served_link r host ip valid (λ n. (served n).0 ip (literal n)) fits in
      let some_new = link_targets-ne-nil host ip (select_links r tg.links) link in
      let new = link_targets net tg host ip (select_links r tg.links) in
      let (ts, rest) =
        add_hosts_total r hosts (targets ++ new) documented valid (λ n. (served n).1) found in
      (ts, ground (arith, add_hosts-cons net tg r (resolve net) host hosts targets ip e))

  -- A group that `Validate` accepts for a router gets its targets, if its hosts resolve and those
  -- of a group with network "ip" are address literals: no host is left without a link.
  pub build_targets_total :
      (r : Router)
      → LooksUpFamily net
      → IsRemoteGroup net r tg
      → All (IsFound net tg.network) tg.hosts
      → (ts : List Target) × (build_targets net tg r (resolve net) ≡ ok ts)
  unfolding build_targets
  build_targets_total r documented valid found =
      add_hosts_total r tg.hosts [] documented valid valid.served found
