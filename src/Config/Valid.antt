-- ===== src/Config/Valid.antt =====
-- What a valid configuration is, without the order in which `Validate` looks.
use smokeping_prober.Prelude.{
  ℕ, pos, ◌≤◌, ◌≤ℤ◌, ◌<ℤ◌, Bool, true, false, Option, some, List, [], ◌≡◌, ◌≢◌, ◌⊎◌, Text, codes,
  All, Any, DistinctBy,
}
use smokeping_prober.Net.{Net, Ip, is_v4}
use smokeping_prober.Config.{Link, Router, TargetGroup, Config, router_named, select_links}

abbrev pub IsVpnChar : ℕ → Type 0
IsVpnChar c =
    ((b'A' ≤ c) × (c ≤ b'Z'))
    ⊎ ((b'a' ≤ c) × (c ≤ b'z'))
    ⊎ ((b'0' ≤ c) × (c ≤ b'9'))
    ⊎ (c ≡ b'_')
    ⊎ (c ≡ b'.')
    ⊎ (c ≡ b'-')

module _ (net : Net) where
  -- The text is an address literal of the family.
  abbrev pub IsLiteral : Bool → Text → Type 0
  IsLiteral v4 t = (ip : Ip) × (net.parse_ip t ≡ some ip) × (is_v4 ip ≡ v4)

  pub record IsLink (l : Link) : Type 0 where
    pub named : l.name ≢ []
    pub sourced : (l.source ≢ []) ⊎ (l.source6 ≢ [])
    pub safe_vpn : All IsVpnChar l.vpn_instance
    pub source_v4 : (l.source ≡ []) ⊎ IsLiteral true l.source
    pub source_v6 : (l.source6 ≡ []) ⊎ IsLiteral false l.source6

  abbrev pub AreLinks : List Link → Type 0
  AreLinks ls = All IsLink ls × DistinctBy (λ (l : Link). l.name) ls

  pub record IsRouter (r : Router) : Type 0 where
    pub named : r.name ≢ []
    pub reachable : r.address ≢ []
    pub has_user : r.username ≢ []
    pub has_credentials : (r.password_file ≢ []) ⊎ (r.private_key_file ≢ [])
    pub host_key_decided : (r.known_hosts ≢ []) ⊎ (r.insecure_skip_host_key ≡ true)
    pub has_session : pos 1 ≤ℤ r.sessions
    pub has_link : r.links ≢ []
    pub links_valid : AreLinks r.links

  abbrev pub HasSource : List Link → Type 0
  HasSource = Any (λ l. l.source ≢ [])

  abbrev pub HasSource6 : List Link → Type 0
  HasSource6 = Any (λ l. l.source6 ≢ [])

  -- A host that is an address literal finds a link with a source of its family.
  abbrev pub IsServed : List Link → Text → Type 0
  IsServed links host =
      (ip : Ip)
      → net.parse_ip host ≡ some ip
      → (is_v4 ip ≡ true → HasSource links) × (is_v4 ip ≡ false → HasSource6 links)

  pub record IsRemoteGroup (r : Router) (tg : TargetGroup) : Type 0 where
    pub no_source : tg.source ≡ []
    pub known_network :
        (tg.network ≡ codes "ip") ⊎ (tg.network ≡ codes "ip4") ⊎ (tg.network ≡ codes "ip6")
    pub has_count : pos 1 ≤ℤ tg.count
    pub has_interval : pos 0 <ℤ tg.interval
    pub has_local_interval : pos 0 <ℤ tg.local_interval
    pub links_known : All (λ name. Any (λ l. l.name ≡ name) r.links) tg.links
    pub served6 : tg.network ≡ codes "ip6" → HasSource6 (select_links r tg.links)
    pub served4 : tg.network ≡ codes "ip4" → HasSource (select_links r tg.links)
    pub served : tg.network ≡ codes "ip" → All (IsServed (select_links r tg.links)) tg.hosts

  pub record IsLocalGroup (tg : TargetGroup) : Type 0 where
    pub no_count : tg.count ≡ pos 0
    pub no_packet_interval : tg.packet_interval ≡ pos 0
    pub no_timeout : tg.timeout ≡ pos 0
    pub no_local_interval : tg.local_interval ≡ pos 0
    pub no_links : tg.links ≡ []

  abbrev pub IsGroup : (Text → Option Router) → TargetGroup → Type 0
  IsGroup find tg =
      ((tg.router ≡ []) × IsLocalGroup tg)
      ⊎ ((tg.router ≢ []) × ((r : Router) × (find tg.router ≡ some r) × IsRemoteGroup r tg))

  pub record IsConfig (c : Config) : Type 0 where
    pub routers_valid : All IsRouter c.routers
    pub routers_distinct : DistinctBy (λ (r : Router). r.name) c.routers
    pub targets_valid : All (IsGroup (router_named c)) c.targets
