-- ===== src/Collector/Distinct.antt =====
-- Which targets of a group have a series of their own in collector.go.
use smokeping_prober.Prelude.{
  text_eq, not, Bool-cases, List, [], ◌∷◌, ◌≡◌, ◌≢◌, ◌↔◌, refl, ap, ◌∙◌, sym, inl, inr, arith, Text,
  codes, ok, none, some, is_empty, contains, lookup, Permuted, Result, All, Any, All-map,
  All-append, DistinctBy, DistinctBy-append, append-DistinctBy, DistinctBy-select, All-none,
  All-Any, Any-exists, Any-append, Any-behind, Apart,
}
use mathlib.Core.Option.{some-injective}
use mathlib.Core.Path.{subst}
use smokeping_prober.Net.{Net, Ip, is_v4}
use smokeping_prober.Config.{Link, Router, TargetGroup, Config, router_named, select_links}
use smokeping_prober.Config.Check.{validate}
use smokeping_prober.Config.Check.Groups.{validate_iff}
use smokeping_prober.Prober.Labels.{build_label_names, build_label_names_lem, Has}
use smokeping_prober.Remote.Targets.{Target, source_of, new_target, build_targets}
use smokeping_prober.Remote.Targets.Built.{
  link_targets, Built, none_left, host_built, build_targets-Built,
}
use smokeping_prober.Remote.Targets.Commands.{find_router-IsRouter}
use smokeping_prober.Collector.{remote_label_values}
use smokeping_prober.Collector.Series.{
  series_labels, link-named, lookup-label_values, target_labels,
}

-- The hosts and the links of a list of targets.
abbrev HostIn : List Text → Target → Type 0
HostIn hosts t = Any (λ h. h ≡ t.host) hosts

module _ (net : Net) (tg : TargetGroup) where
  link_targets-host :
      (host : Text) (ip : Ip) (ls : List Link)
      → All (λ t. t.host ≡ host) (link_targets net tg host ip ls)
  link_targets-host host ip [] = tt
  link_targets-host host ip (l ∷ ls) = ground (arith, link_targets-host host ip ls)

  link_targets-link :
      (P : Text → Type 0) (host : Text) (ip : Ip) (ls : List Link)
      → All (λ l. P l.name) ls
      → All (λ t. P t.link) (link_targets net tg host ip ls)
  link_targets-link P host ip [] h = tt
  link_targets-link P host ip (l ∷ ls) (p, h) = ground (arith, p, link_targets-link P host ip ls h)

  module _ {E : Type 0} (r : Router) (resolver : Text → Text → Result E Ip) where
    Built-HostIn :
        (hosts : List Text) (ts : List Target)
        → Built net tg r resolver hosts ts
        → All (HostIn hosts) ts
    Built-HostIn [] [] none_left = tt
    Built-HostIn [] (_ ∷ _) odd = elim odd [ ]
    Built-HostIn (host ∷ hosts) _ (host_built {ts = ts} ip found new rest) =
        All-append (HostIn (host ∷ hosts)) (link_targets net tg host ip (select_links r tg.links))
          ts (All-map _ (λ t e. inl (sym e)) (link_targets-host host ip (select_links r tg.links)))
          (All-map ts (λ t a. inr a) (Built-HostIn hosts ts rest))

module _ (sort : List Text → List Text) (c : Config)
    (perm : (xs : List Text) → Permuted xs (sort xs)) where
  -- The label values of the series of a target.
  abbrev pub series : Target → List Text
  series t = remote_label_values (build_label_names sort c) t

  host-named : Has (codes "host") (build_label_names sort c)
  host-named = ((build_label_names_lem sort c perm).1 (codes "host")).1 (inl (inr (inl refl)))

  series-shown : (t u : Target) → series t ≡ series u → (t.host ≡ u.host) × (t.link ≡ u.link)
  unfolding remote_label_values text_eq
  series-shown t u same =
      let names = build_label_names sort c in
      let see = λ (k : Text). ap (λ vals. lookup k (series_labels names vals)) same in
      let found = λ (x : Target) (k : Text) (named : Has k names).
        lookup-label_values names (target_labels x) x.labels k named in
      let link = link-named sort c perm in
      (
        some-injective _ _ (
            sym (found t (codes "host") host-named)
            ∙ see (codes "host")
            ∙ found u (codes "host") host-named),
        some-injective _ _
            (sym (found t (codes "link") link) ∙ see (codes "link") ∙ found u (codes "link") link),
      )

  -- Targets that come again have the series of the first.
  copied :
      (us ts : List Target)
      → us ≢ []
      → ((P : Target → Type 0) → Any P us → Any P ts)
      → Apart series us ts
      → ⊥
  copied [] ts some_first copy apart = some_first refl
  copied (u ∷ us) ts some_first copy (differs, apart) =
      let again = copy (λ t. series u ≡ series t) (inl refl) in
      let (t, both) =
        Any-exists ts
          (All-Any (λ x. series u ≢ series x) (λ x. series u ≡ series x) ts differs again) in
      both.0 both.1

  module _ (net : Net) (tg : TargetGroup) where
    link_targets-Distinct :
        (host : Text) (ip : Ip) (ls : List Link)
        → DistinctBy (λ (l : Link). l.name) ls
        → DistinctBy series (link_targets net tg host ip ls)
    link_targets-Distinct host ip [] d = tt
    link_targets-Distinct host ip (l ∷ ls) (new, d) =
        let rest = link_targets-Distinct host ip ls d in
        let t = new_target net tg host ip l in
        let others = link_targets net tg host ip ls in
        let apart =
          All-map others (λ u differs same. differs (series-shown t u same).1)
            (link_targets-link net tg (λ name. l.name ≢ name) host ip ls new) in
        elim (Bool-cases (is_empty (source_of (not (is_v4 ip)) l))) [
          | inl e ↦ rw e rest
          | inr e ↦ rw e (apart, rest)
        ]

    module _ {E : Type 0} (r : Router) (resolver : Text → Text → Result E Ip) where
      abbrev links : List Link
      links = select_links r tg.links

      other_host :
          (host : Text) (ip : Ip) (hosts : List Text) (ts : List Target)
          → All (λ h. host ≢ h) hosts
          → All (HostIn hosts) ts
          → Apart series (link_targets net tg host ip links) ts
      other_host host ip hosts ts new known =
          All-map (link_targets net tg host ip links)
            (λ t here.
              All-map ts
                (λ u there same.
                  let (h, both) =
                    Any-exists hosts (All-Any (λ h. host ≢ h) (λ h. h ≡ u.host) hosts new there) in
                  both.0 (sym here ∙ (series-shown t u same).0 ∙ sym both.1))
                known)
            (link_targets-host net tg host ip links)

      Built-Distinct :
          (hosts : List Text) (ts : List Target)
          → DistinctBy (λ (l : Link). l.name) links
          → Built net tg r resolver hosts ts
          → DistinctBy (λ h. h) hosts
          → DistinctBy series ts
      Built-Distinct [] [] d none_left dh = tt
      Built-Distinct [] (_ ∷ _) d odd dh = elim odd [ ]
      Built-Distinct (host ∷ hosts) _ d (host_built {ts = ts} ip found new rest) (fresh, dh) =
          DistinctBy-append series (link_targets net tg host ip links) ts
            (link_targets-Distinct host ip links d) (Built-Distinct hosts ts d rest dh)
            (other_host host ip hosts ts fresh (Built-HostIn net tg r resolver hosts ts rest))

      -- A host that is in the list brings the targets of this host.
      Built-again :
          (P : Target → Type 0) (host : Text) (ip : Ip) (hosts : List Text) (ts : List Target)
          → resolver host tg.network ≡ ok ip
          → Any P (link_targets net tg host ip links)
          → Any (λ h. host ≡ h) hosts
          → Built net tg r resolver hosts ts
          → Any P ts
      Built-again P host ip [] ts found a again built = elim again [ ]
      Built-again P host ip (h ∷ hosts) _ found a (inl e)
            (host_built {ts = ts} ip' found' some_new rest) =
          let same : link_targets net tg host ip links ≡ link_targets net tg h ip' links = cc in
          Any-append P (link_targets net tg h ip' links) ts (subst (Any P) same a)
      Built-again P host ip (h ∷ hosts) _ found a (inr again)
            (host_built {ts = ts} ip' found' some_new rest) =
          Any-behind P (link_targets net tg h ip' links) ts
            (Built-again P host ip hosts ts found a again rest)

      Distinct-Built :
          (hosts : List Text) (ts : List Target)
          → Built net tg r resolver hosts ts
          → DistinctBy series ts
          → DistinctBy (λ h. h) hosts
      Distinct-Built [] [] none_left d = tt
      Distinct-Built [] (_ ∷ _) odd d = elim odd [ ]
      Distinct-Built (host ∷ hosts) _ (host_built {ts = ts} ip found some_new rest) d =
          let (later, apart) = append-DistinctBy series (link_targets net tg host ip links) ts d in
          (
            All-none (λ h. host ≡ h) hosts
                (λ again.
                  copied (link_targets net tg host ip links) ts some_new
                    (λ P a. Built-again P host ip hosts ts found a again rest) apart),
            Distinct-Built hosts ts rest later,
          )

      links-Distinct :
          DistinctBy (λ (l : Link). l.name) r.links → DistinctBy (λ (l : Link). l.name) links
      unfolding select_links
      links-Distinct d = elim (Bool-cases (is_empty tg.links)) [
        | inl e ↦ rw (e, select_links) d
        | inr e ↦
            rw (e, select_links)
              (DistinctBy-select (λ (l : Link). l.name) (λ l. contains tg.links l.name) r.links d)
      ]

    -- For a group and its router under a configuration that `Validate` accepts, if the sort permutes
    -- its list and the resolver gives the same address each time: the targets that `BuildTargets`
    -- makes have series whose label values differ from one another exactly if no host stands twice
    -- in the group.
    pub build_targets-Distinct :
        {E : Type 0} (r : Router) (resolver : Text → Text → Result E Ip) (ts : List Target)
        → validate net c ≡ none
        → router_named c tg.router ≡ some r
        → build_targets net tg r resolver ≡ ok ts
        → DistinctBy series ts ↔ DistinctBy (λ h. h) tg.hosts
    unfolding router_named
    build_targets-Distinct r resolver ts accepted named e =
        let valid = (validate_iff net c).0 accepted in
        let router = find_router-IsRouter net c.routers tg.router r valid.routers_valid named in
        let built = build_targets-Built net tg r resolver ts e in
        (
          Distinct-Built r resolver tg.hosts ts built,
          Built-Distinct r resolver tg.hosts ts (links-Distinct r resolver router.links_valid.1)
              built,
        )
