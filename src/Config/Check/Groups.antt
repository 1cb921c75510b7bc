-- ===== src/Config/Check/Groups.antt =====
-- The loop of `Validate` over the target groups, and `Validate` as a whole.
use mathlib.Core.Path.{fun_ext}
use smokeping_prober.Prelude.{
  ℕ, suc, none, List, [], ◌∷◌, ◌≡◌, ◌≢◌, ◌↔◌, arith, Text, codes, All, Any, any, any_iff, Dict,
  lookup, text_eq_iff, text_eq, Result-cases, inl, inr, Option-cases, Bool-cases, not, true, false,
  is_empty, is_empty_iff,
}
use smokeping_prober.Net.{Net}
use smokeping_prober.Config.{Link, Router, TargetGroup, Config, router_named, select_links}
use smokeping_prober.Config.Check.{
  has_source, has_source6, sets_remote_field, check_names, check_host, check_hosts, check_families,
  check_remote_group, check_group, check_groups, validate, check_routers,
}
use smokeping_prober.Config.Check.Routers.{
  check_routers-HaveRouters, HaveRouters-check_routers, lookup-check_routers,
}
use smokeping_prober.Config.Valid.{
  HasSource, HasSource6, IsServed, IsLocalGroup, IsRemoteGroup, IsGroup, IsConfig,
}

non_empty_iff : (t : Text) → (not (is_empty t) ≡ true) ↔ (t ≢ [])
non_empty_iff t = ground arith

has_source_iff :
    (links : List Link) → (any has_source links ≡ true) ↔ Any (λ l. l.source ≢ []) links
has_source_iff links = any_iff has_source links λ l. non_empty_iff l.source

has_source6_iff :
    (links : List Link) → (any has_source6 links ≡ true) ↔ Any (λ l. l.source6 ≢ []) links
has_source6_iff links = any_iff has_source6 links λ l. non_empty_iff l.source6

module _ (net : Net) where
  check_names_iff :
      (i : ℕ) (r : Router) (names : List Text)
      → (check_names net i r names ≡ none) ↔ All (λ name. Any (λ l. l.name ≡ name) r.links) names
  unfolding check_names
  check_names_iff i r [] = ground arith
  check_names_iff i r (name ∷ names) = ground (
    arith,
    any_iff (λ (l : Link). text_eq l.name name) r.links (λ (l : Link). text_eq_iff l.name name),
    check_names_iff i r names,
  )

  check_host_iff :
      (i : ℕ) (router : Text) (links : List Link) (host : Text)
      → (check_host net i router links host ≡ none) ↔ IsServed net links host
  unfolding check_host
  check_host_iff i router links host = (
    λ accepted ip e. ground (arith, has_source_iff links, has_source6_iff links),
    λ served. elim (Option-cases (net.parse_ip host)) [
      | inl e ↦ ground arith
      | inr (ip, e) ↦ ground (arith, served ip e, has_source_iff links, has_source6_iff links)
    ],
  )

  check_hosts_iff :
      (i : ℕ) (router : Text) (links : List Link) (hosts : List Text)
      → (check_hosts net i router links hosts ≡ none) ↔ All (IsServed net links) hosts
  unfolding check_hosts
  check_hosts_iff i router links [] = ground arith
  check_hosts_iff i router links (host ∷ hosts) =
      ground (arith, check_host_iff i router links host, check_hosts_iff i router links hosts)

  check_families_iff :
      (i : ℕ) (r : Router) (links : List Link) (tg : TargetGroup)
      → (check_families net i r links tg ≡ none) ↔ (
          (tg.network ≡ codes "ip6" → HasSource6 net links)
          × (tg.network ≡ codes "ip4" → HasSource net links)
          × (tg.network ≡ codes "ip" → All (IsServed net links) tg.hosts))
  unfolding check_families
  check_families_iff i r links tg = ground (
    arith,
    has_source_iff links,
    has_source6_iff links,
    text_eq_iff tg.network (codes "ip"),
    text_eq_iff tg.network (codes "ip4"),
    text_eq_iff tg.network (codes "ip6"),
    check_hosts_iff i r.name links tg.hosts,
  )

  pub check_remote_group_iff :
      (i : ℕ) (r : Router) (tg : TargetGroup)
      → (check_remote_group net i r tg ≡ none) ↔ IsRemoteGroup net r tg
  unfolding check_remote_group
  check_remote_group_iff i r tg = ground (
    arith,
    text_eq_iff tg.network (codes "ip"),
    text_eq_iff tg.network (codes "ip4"),
    text_eq_iff tg.network (codes "ip6"),
    check_names_iff i r tg.links,
    check_families_iff i r (select_links r tg.links) tg,
  )

  local_iff : (tg : TargetGroup) → (sets_remote_field net tg ≡ false) ↔ IsLocalGroup net tg
  local_iff tg = ground arith

  check_group_iff :
      (i : ℕ) (m : Dict Router) (tg : TargetGroup)
      → (check_group net i m tg ≡ none) ↔ IsGroup net (λ name. lookup name m) tg
  unfolding check_group
  check_group_iff i m tg = (
    λ h. elim (Option-cases (lookup tg.router m)) [
      | inl e ↦ ground (arith, local_iff tg, is_empty_iff tg.router)
      | inr (r, e) ↦ elim (Bool-cases (is_empty tg.router)) [
        | inl empty ↦ inl (ground (arith, is_empty_iff tg.router), ground arith)
        | inr named ↦ inr (
          ground (arith, is_empty_iff tg.router),
          (r, e, ground (arith, check_remote_group_iff i r tg)),
        )
      ]
    ],
    elim [
      | inl (e, g) ↦ ground arith
      | inr (ne, (r, e, g)) ↦ ground (arith, check_remote_group_iff i r tg)
    ],
  )

  check_groups_iff :
      (i : ℕ) (m : Dict Router) (tgs : List TargetGroup)
      → (check_groups net i m tgs ≡ none) ↔ All (IsGroup net (λ name. lookup name m)) tgs
  unfolding check_groups
  check_groups_iff i m [] = ground arith
  check_groups_iff i m (tg ∷ tgs) =
      ground (arith, check_group_iff i m tg, check_groups_iff (suc i) m tgs)

  -- `Validate` returns no error exactly on the valid configurations.
  pub validate_iff : (c : Config) → (validate net c ≡ none) ↔ IsConfig net c
  unfolding validate router_named
  validate_iff c = (
    λ accepted. elim (Result-cases (check_routers net 0 [] c.routers)) [
      | inl (m, e) ↦
          let (routers, distinct) = check_routers-HaveRouters net c.routers e in
          let same = fun_ext λ name. lookup-check_routers net c.routers name e in
          record {
            routers_valid = routers;
            routers_distinct = distinct;
            targets_valid = rw same at ((check_groups_iff 0 m c.targets).0 (ground arith));
          }
      | inr (failure, e) ↦ ground arith
    ],
    λ valid.
        let (m, e) =
          HaveRouters-check_routers net c.routers (valid.routers_valid, valid.routers_distinct) in
        let same = fun_ext λ name. lookup-check_routers net c.routers name e in
        rw (e, validate) ((check_groups_iff 0 m c.targets).1 (rw same valid.targets_valid)),
  )
