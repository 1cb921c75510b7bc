-- ===== src/Config/Check.antt =====
-- `Config.Validate` of config/config.go: one function for each of its loops.
pub mod Links
pub mod Routers
pub mod Groups
use smokeping_prober.Prelude.{
  ℕ, suc, pos, Bool, true, false, not, ◌&&◌, ◌||◌, Option, none, some, List, [], ◌∷◌, Text, codes,
  text_eq, contains, any, all, is_empty, is_zero, leb_ℤ, ltb_ℤ, leb, Dict, lookup, insert,
  if◌then◌else◌, Result, ok, err, ◌==◌,
}
use smokeping_prober.Net.{Net, is_v4}
use smokeping_prober.Config.{Link, Router, TargetGroup, Config, select_links}

-- One constructor for each error that `Validate` returns, with the arguments of its message.
pub data ConfigError : Type 0 where
  router_name_required : ℕ → ConfigError
  duplicate_router : Text → ConfigError
  address_required : Text → ConfigError
  username_required : Text → ConfigError
  credentials_required : Text → ConfigError
  known_hosts_required : Text → ConfigError
  sessions_required : Text → ConfigError
  links_required : Text → ConfigError
  link_name_required : Text → ConfigError
  duplicate_link : Text → Text → ConfigError
  link_source_required : Text → Text → ConfigError
  bad_vpn_instance : Text → Text → Text → ConfigError
  bad_source : Text → Text → Text → ConfigError
  bad_source6 : Text → Text → Text → ConfigError
  router_required : ℕ → ConfigError
  unknown_router : ℕ → Text → ConfigError
  source_with_router : ℕ → ConfigError
  bad_network : ℕ → ConfigError
  bad_count : ℕ → ConfigError
  bad_interval : ℕ → ConfigError
  bad_local_interval : ℕ → ConfigError
  unknown_link : ℕ → Text → Text → ConfigError
  no_source6 : ℕ → ConfigError
  no_source : ℕ → ConfigError
  host_needs_source6 : ℕ → Text → Text → ConfigError
  host_needs_source : ℕ → Text → Text → ConfigError

-- [A-Za-z0-9_.-]
abbrev pub vpn_char : ℕ → Bool
vpn_char c =
    (leb b'A' c && leb c b'Z')
    || (leb b'a' c && leb c b'z')
    || (leb b'0' c && leb c b'9')
    || c == b'_'
    || c == b'.'
    || c == b'-'

-- `vpnInstanceRe`: one or more of these, and nothing else.
abbrev pub matches_vpn_instance : Text → Bool
matches_vpn_instance t = not (is_empty t) && all vpn_char t

abbrev pub has_source : Link → Bool
has_source l = not (is_empty l.source)

abbrev pub has_source6 : Link → Bool
has_source6 l = not (is_empty l.source6)

module _ (net : Net) where
  -- `ip == nil || ip.To4() == nil`, the other way round.
  abbrev pub is_v4_text : Text → Bool
  is_v4_text t = elim (net.parse_ip t) [ none ↦ false | some ip ↦ is_v4 ip ]

  abbrev pub is_v6_text : Text → Bool
  is_v6_text t = elim (net.parse_ip t) [ none ↦ false | some ip ↦ not (is_v4 ip) ]

  -- The body of the loop over a router's links; `seen` holds the names before this one.
  unfoldable pub check_link : Text → List Text → Link → Option ConfigError
  check_link router seen l =
      if is_empty l.name
      then some (link_name_required router)
      else if contains seen l.name
      then some (duplicate_link router l.name)
      else if is_empty l.source && is_empty l.source6
      then some (link_source_required router l.name)
      else if not (is_empty l.vpn_instance) && not (matches_vpn_instance l.vpn_instance)
      then some (bad_vpn_instance router l.name l.vpn_instance)
      else if has_source l && not (is_v4_text l.source)
      then some (bad_source router l.name l.source)
      else if has_source6 l && not (is_v6_text l.source6)
      then some (bad_source6 router l.name l.source6)
      else none

  unfoldable pub check_links : Text → List Text → List Link → Option ConfigError
  check_links router seen [] = none
  check_links router seen (l ∷ ls) =
      let rest = check_links router (l.name ∷ seen) ls in
      elim (check_link router seen l) [ some e ↦ some e | none ↦ rest ]

  -- The body of the loop over the routers.
  unfoldable pub check_router : ℕ → Dict Router → Router → Option ConfigError
  check_router i routers r =
      if is_empty r.name
      then some (router_name_required i)
      else if (elim (lookup r.name routers) [ some _ ↦ true | none ↦ false ])
      then some (duplicate_router r.name)
      else if is_empty r.address
      then some (address_required r.name)
      else if is_empty r.username
      then some (username_required r.name)
      else if is_empty r.password_file && is_empty r.private_key_file
      then some (credentials_required r.name)
      else if is_empty r.known_hosts && not r.insecure_skip_host_key
      then some (known_hosts_required r.name)
      else if ltb_ℤ r.sessions (pos 1)
      then some (sessions_required r.name)
      else if is_empty r.links
      then some (links_required r.name)
      else check_links r.name [] r.links

  -- The loop gives the map of routers to the loop over the targets.
  unfoldable pub check_routers : ℕ → Dict Router → List Router → Result ConfigError (Dict Router)
  check_routers i routers [] = ok routers
  check_routers i routers (r ∷ rs) =
      let rest = check_routers (suc i) (insert r.name r routers) rs in
      elim (check_router i routers r) [ some e ↦ err e | none ↦ rest ]

  unfoldable pub check_names : ℕ → Router → List Text → Option ConfigError
  check_names i r [] = none
  check_names i r (name ∷ names) =
      if any (λ l. text_eq l.name name) r.links
      then check_names i r names
      else some (unknown_link i r.name name)

  -- The body of the loop over the hosts of a group whose network is "ip".
  unfoldable pub check_host : ℕ → Text → List Link → Text → Option ConfigError
  check_host i router links host = elim (net.parse_ip host) [
    | none ↦ none
    | some ip ↦
        if not (is_v4 ip)
        then (if any has_source6 links then none else some (host_needs_source6 i host router))
        else if any has_source links
        then none
        else some (host_needs_source i host router)
  ]

  unfoldable pub check_hosts : ℕ → Text → List Link → List Text → Option ConfigError
  check_hosts i router links [] = none
  check_hosts i router links (host ∷ hosts) =
      let rest = check_hosts i router links hosts in
      elim (check_host i router links host) [ some e ↦ some e | none ↦ rest ]

  -- The checks that need the links which the group selects.
  unfoldable pub check_families : ℕ → Router → List Link → TargetGroup → Option ConfigError
  check_families i r links tg =
      if text_eq tg.network (codes "ip6") && not (any has_source6 links)
      then some (no_source6 i)
      else if text_eq tg.network (codes "ip4") && not (any has_source links)
      then some (no_source i)
      else if text_eq tg.network (codes "ip")
      then check_hosts i r.name links tg.hosts
      else none

  abbrev pub sets_remote_field : TargetGroup → Bool
  sets_remote_field tg =
      not (is_zero tg.count)
      || not (is_zero tg.packet_interval)
      || not (is_zero tg.timeout)
      || not (is_zero tg.local_interval)
      || not (is_empty tg.links)

  abbrev pub known_network : Text → Bool
  known_network n = text_eq n (codes "ip") || text_eq n (codes "ip4") || text_eq n (codes "ip6")

  -- The checks of a group behind the router that its name stands for.
  unfoldable pub check_remote_group : ℕ → Router → TargetGroup → Option ConfigError
  check_remote_group i r tg =
      if not (is_empty tg.source)
      then some (source_with_router i)
      else if not (known_network tg.network)
      then some (bad_network i)
      else if ltb_ℤ tg.count (pos 1)
      then some (bad_count i)
      else if leb_ℤ tg.interval (pos 0)
      then some (bad_interval i)
      else if leb_ℤ tg.local_interval (pos 0)
      then some (bad_local_interval i)
      else elim (check_names i r tg.links) [
        | some e ↦ some e
        | none ↦ check_families i r (select_links r tg.links) tg
      ]

  -- The body of the loop over the target groups.
  unfoldable pub check_group : ℕ → Dict Router → TargetGroup → Option ConfigError
  check_group i routers tg =
      if is_empty tg.router
      then (if sets_remote_field tg then some (router_required i) else none)
      else elim (lookup tg.router routers) [
        | none ↦ some (unknown_router i tg.router)
        | some r ↦ check_remote_group i r tg
      ]

  unfoldable pub check_groups : ℕ → Dict Router → List TargetGroup → Option ConfigError
  check_groups i routers [] = none
  check_groups i routers (tg ∷ tgs) =
      let rest = check_groups (suc i) routers tgs in
      elim (check_group i routers tg) [ some e ↦ some e | none ↦ rest ]

  -- `Config.Validate`, with a nil error as `none`.
  unfoldable pub validate : Config → Option ConfigError
  validate c = elim (check_routers 0 [] c.routers) [
    | err e ↦ some e
    | ok routers ↦ check_groups 0 routers c.targets
  ]
