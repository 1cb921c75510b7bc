-- ===== src/Remote/Targets.antt =====
-- remote/targets.go: the addresses to ping, and the targets of a group behind a router.
pub mod Built
pub mod Described
pub mod Valid
pub mod Resolving
pub mod Commands
use smokeping_prober.Prelude.{
  ℕ, Bool, not, true, false, ◌&&◌, Option, none, some, List, [], ◌∷◌, ◌++◌, Text, codes, Dict,
  text_eq, length, is_empty, if◌then◌else◌, ◌==◌, Result, ok, err, ◌>>=◌,
}
use smokeping_prober.Net.{Net, Ip, is_v4}
use smokeping_prober.Config.{Duration, Link, Router, TargetGroup, select_links}
use smokeping_prober.Remote.Huawei.{Job}

-- The struct of remote/scheduler.go.
pub record Target : Type 0 where
  pub host : Text
  pub link : Text
  pub interval : Duration
  pub labels : Dict Text
  pub job : Job
  pub sent : ℕ
  pub pending : Bool

-- `panic` is `ips[0]` of an empty slice.
pub data ResolveError (E : Type 0) : Type 0 where
  not_ipv4 : Text → ResolveError E
  not_ipv6 : Text → ResolveError E
  lookup_failed : E → ResolveError E
  panic : ResolveError E

first_v4 : List Ip → Option Ip
first_v4 [] = none
first_v4 (ip ∷ ips) = if is_v4 ip then some ip else first_v4 ips

first_ip : {E : Type 0} → List Ip → Result (ResolveError E) Ip
first_ip [] = err panic
first_ip (ip ∷ ips) = ok ip

choose_ip : {E : Type 0} → Text → List Ip → Result (ResolveError E) Ip
choose_ip network ips =
    if text_eq network (codes "ip")
    then elim (first_v4 ips) [ some ip ↦ ok ip | none ↦ first_ip ips ]
    else first_ip ips

-- `Resolve`, with the host's literal as `net.ParseIP` reads it.
unfoldable pub resolve : (net : Net) → Text → Text → Result (ResolveError net.LookupError) Ip
unfolding choose_ip first_v4 first_ip
resolve net host network = elim (net.parse_ip host) [
  | some ip ↦
      if text_eq network (codes "ip4") && not (is_v4 ip)
      then err (not_ipv4 host)
      else if text_eq network (codes "ip6") && is_v4 ip
      then err (not_ipv6 host)
      else ok ip
  | none ↦ elim (net.lookup_ip network host) [
    | err e ↦ err (lookup_failed e)
    | ok ips ↦ choose_ip network ips
  ]
]

pub data BuildError (E : Type 0) : Type 0 where
  resolve_failed : Text → E → BuildError E
  no_source_address : Text → Text → BuildError E

-- The source address of a link for a family.
abbrev pub source_of : Bool → Link → Text
source_of v6 l = if v6 then l.source6 else l.source

module _ (net : Net) (tg : TargetGroup) where
  -- The literal that the loop over the links appends.
  abbrev pub new_target : Text → Ip → Link → Target
  new_target host ip l = record {
    host = host;
    link = l.name;
    interval = tg.interval;
    labels = tg.labels;
    job = record {
      target = net.ip_string ip;
      ipv6 = not (is_v4 ip);
      source = source_of (not (is_v4 ip)) l;
      count = tg.count;
      packet_interval = tg.packet_interval;
      timeout = tg.timeout;
      size = tg.size;
      tos = tg.tos;
      vpn_instance = l.vpn_instance;
    };
    sent = 0;
    pending = false;
  }

  -- The loop over the links; the warning about a link that is skipped is left out.
  unfoldable pub add_links : Text → Ip → List Link → List Target → List Target
  add_links host ip [] targets = targets
  add_links host ip (l ∷ ls) targets = add_links host ip ls (
      if is_empty (source_of (not (is_v4 ip)) l)
      then targets
      else targets ++ new_target host ip l ∷ [])

  module _ {E : Type 0} (r : Router) (resolver : Text → Text → Result E Ip) where
    unfoldable pub add_hosts : List Text → List Target → Result (BuildError E) (List Target)
    add_hosts [] targets = ok targets
    add_hosts (host ∷ hosts) targets = elim (resolver host tg.network) [
      | err e ↦ err (resolve_failed host e)
      | ok ip ↦
          let more = add_links host ip (select_links r tg.links) targets in
          let rest = add_hosts hosts more in
          if length more == length targets then err (no_source_address host r.name) else rest
    ]

    -- `BuildTargets`
    unfoldable pub build_targets : Result (BuildError E) (List Target)
    unfolding add_links add_hosts
    build_targets = add_hosts tg.hosts []
