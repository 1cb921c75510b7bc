-- ===== src/Remote/Targets/Described.antt =====
-- What `BuildTargets` returns, in terms of the links and the group alone.
use smokeping_prober.Prelude.{
  true, false, not, List, [], ◌∷◌, ◌++◌, ◌≡◌, ◌≢◌, inl, inr, refl, arith, Text, is_empty,
  is_empty_iff, Result, ok, Bool-cases,
}
use smokeping_prober.Net.{Net, Ip, is_v4}
use smokeping_prober.Config.{Link, Router, TargetGroup, select_links}
use smokeping_prober.Remote.Targets.{Target, source_of, new_target, build_targets}
use smokeping_prober.Remote.Targets.Built.{
  link_targets, Built, none_left, host_built, build_targets-Built,
}

-- The source address of the link for IPv4 or for IPv6, as the address of the host asks for.
abbrev pub HasFamilySource : Ip → Link → Text → Type 0
HasFamilySource ip l source =
    (is_v4 ip ≡ true → source ≡ l.source) × (is_v4 ip ≡ false → source ≡ l.source6)

module _ (net : Net) (tg : TargetGroup) where
  -- The target of a host for a link: the names of both, the address and its family, the source of
  -- this family, and the settings of the group and of the link.
  pub record IsTargetOf (host : Text) (ip : Ip) (l : Link) (t : Target) : Type 0 where
    pub of_host : t.host ≡ host
    pub of_link : t.link ≡ l.name
    pub interval_kept : t.interval ≡ tg.interval
    pub labels_kept : t.labels ≡ tg.labels
    pub to_address : t.job.target ≡ net.ip_string ip
    pub family4 : is_v4 ip ≡ true → t.job.ipv6 ≡ false
    pub family6 : is_v4 ip ≡ false → t.job.ipv6 ≡ true
    pub from_source : HasFamilySource ip l t.job.source
    pub has_source : t.job.source ≢ []
    pub count_kept : t.job.count ≡ tg.count
    pub packet_interval_kept : t.job.packet_interval ≡ tg.packet_interval
    pub timeout_kept : t.job.timeout ≡ tg.timeout
    pub size_kept : t.job.size ≡ tg.size
    pub tos_kept : t.job.tos ≡ tg.tos
    pub vpn_kept : t.job.vpn_instance ≡ l.vpn_instance
    pub none_sent : t.sent ≡ 0
    pub at_rest : t.pending ≡ false

  -- The targets of a host for some links, in their order.
  pub data LinksServed (host : Text) (ip : Ip) : List Link → List Target → Type 0 where
    no_links : LinksServed host ip [] []
    skipped :
        {l : Link} {ls : List Link} {ts : List Target}
        → HasFamilySource ip l []
        → LinksServed host ip ls ts
        → LinksServed host ip (l ∷ ls) ts
    served :
        {l : Link} {ls : List Link} {t : Target} {ts : List Target}
        → IsTargetOf host ip l t
        → LinksServed host ip ls ts
        → LinksServed host ip (l ∷ ls) (t ∷ ts)

  new_target-IsTargetOf :
      (host : Text) (ip : Ip) (l : Link)
      → is_empty (source_of (not (is_v4 ip)) l) ≡ false
      → IsTargetOf host ip l (new_target net tg host ip l)
  new_target-IsTargetOf host ip l some_source = record {
    of_host = refl;
    of_link = refl;
    interval_kept = refl;
    labels_kept = refl;
    to_address = refl;
    family4 = λ e. ground arith;
    family6 = λ e. ground arith;
    from_source = (λ e. ground arith, λ e. ground arith);
    has_source = λ e. ground (arith, is_empty_iff (source_of (not (is_v4 ip)) l));
    count_kept = refl;
    packet_interval_kept = refl;
    timeout_kept = refl;
    size_kept = refl;
    tos_kept = refl;
    vpn_kept = refl;
    none_sent = refl;
    at_rest = refl;
  }

  no_source :
      (ip : Ip) (l : Link)
      → is_empty (source_of (not (is_v4 ip)) l) ≡ true
      → HasFamilySource ip l []
  no_source ip l e =
      (λ v4. ground (arith, is_empty_iff l.source), λ v6. ground (arith, is_empty_iff l.source6))

  link_targets-LinksServed :
      (host : Text) (ip : Ip) (ls : List Link)
      → LinksServed host ip ls (link_targets net tg host ip ls)
  link_targets-LinksServed host ip [] = no_links
  link_targets-LinksServed host ip (l ∷ ls) =
      elim (Bool-cases (is_empty (source_of (not (is_v4 ip)) l))) [
        | inl e ↦ rw e (skipped (no_source ip l e) (link_targets-LinksServed host ip ls))
        | inr e ↦
            rw e (served (new_target-IsTargetOf host ip l e) (link_targets-LinksServed host ip ls))
      ]

  module _ {E : Type 0} (r : Router) (resolver : Text → Text → Result E Ip) where
    -- The targets of each host in turn, which resolves and has one at least.
    pub data HostsServed : List Text → List Target → Type 0 where
      no_hosts : HostsServed [] []
      host_served :
          {host : Text} {hosts : List Text} {new ts : List Target} (ip : Ip)
          → resolver host tg.network ≡ ok ip
          → LinksServed host ip (select_links r tg.links) new
          → new ≢ []
          → HostsServed hosts ts
          → HostsServed (host ∷ hosts) (new ++ ts)

    Built-HostsServed :
        {hosts : List Text} {ts : List Target}
        → Built net tg r resolver hosts ts
        → HostsServed hosts ts
    Built-HostsServed none_left = no_hosts
    Built-HostsServed (host_built ip found some_new built) =
        host_served ip found (link_targets-LinksServed _ ip (select_links r tg.links)) some_new
          (Built-HostsServed built)

    -- The targets that `BuildTargets` returns are, host by host and in the order of the hosts, one
    -- for each selected link that has a source of the family of the host's address, in the order
    -- of the links, and each host has one at least: with the address and its family, the source of
    -- that family, the name and the VPN instance of the link, the settings of the group, nothing
    -- sent and no run pending. A link is skipped only if its source of the family is empty.
    pub build_targets-HostsServed :
        (ts : List Target) → build_targets net tg r resolver ≡ ok ts → HostsServed tg.hosts ts
    build_targets-HostsServed ts e = Built-HostsServed (build_targets-Built net tg r resolver ts e)
