-- ===== src/Tests/Fixtures.antt =====
-- A router with two links, two target groups, and a network of two addresses.
use smokeping_prober.Prelude.{
  ℕ, pos, false, Option, none, some, List, [], ◌∷◌, Text, codes, text_eq, if◌then◌else◌, Result, ok,
}
use smokeping_prober.Net.{Net, Ip, is_v4}
use smokeping_prober.Config.{Link, Router, TargetGroup, Config}
use smokeping_prober.Config.Unmarshal.{default_target_group}
use smokeping_prober.Remote.Huawei.{Job}

abbrev pub address4 : Ip
address4 = 192 ∷ 0 ∷ 2 ∷ 1 ∷ []

abbrev pub address6 : Ip
address6 = 32 ∷ 1 ∷ 13 ∷ 184 ∷ 0 ∷ 0 ∷ 0 ∷ 0 ∷ 0 ∷ 0 ∷ 0 ∷ 0 ∷ 0 ∷ 0 ∷ 0 ∷ 1 ∷ []

abbrev parse_ip : Text → Option Ip
parse_ip t =
    if text_eq t (codes "192.0.2.1")
    then some address4
    else if text_eq t (codes "2001:db8::1")
    then some address6
    else none

abbrev pub lookup_ip : Text → Text → Result ℕ (List Ip)
lookup_ip network host =
    if text_eq network (codes "ip6") then ok (address6 ∷ []) else ok (address4 ∷ [])

abbrev pub small_net : Net
small_net = record {
  LookupError = ℕ;
  parse_ip = parse_ip;
  ip_string = λ ip. if is_v4 ip then codes "192.0.2.1" else codes "2001:db8::1";
  lookup_ip = lookup_ip;
}

abbrev isp_a : Link
isp_a = record {
  name = codes "isp-a";
  vpn_instance = codes "upstream-1";
  source = codes "192.0.2.1";
  source6 = codes "2001:db8::1";
}

abbrev isp_b : Link
isp_b = record { name = codes "isp-b"; vpn_instance = []; source = codes "192.0.2.1"; source6 = [] }

abbrev pub ne8k : Router
ne8k = record {
  name = codes "ne8k";
  address = codes "10.0.0.1:22";
  username = codes "smokeping";
  password_file = codes "/etc/ne8k.pass";
  private_key_file = [];
  known_hosts = codes "/etc/known_hosts";
  insecure_skip_host_key = false;
  sessions = pos 5;
  links = isp_a ∷ isp_b ∷ [];
}

abbrev pub remote_group : TargetGroup
remote_group = record default_target_group {
  hosts = codes "192.0.2.1" ∷ [];
  router = codes "ne8k";
  count = pos 10;
  packet_interval = pos 50000000;
  timeout = pos 500000000;
  local_interval = pos 1000000000;
}

abbrev local_group : TargetGroup
local_group = record default_target_group { hosts = codes "host1" ∷ [] }

abbrev pub sample : Config
sample = record { routers = ne8k ∷ []; targets = remote_group ∷ local_group ∷ [] }

abbrev pub sample_job : Job
sample_job = record {
  target = codes "8.8.8.8";
  ipv6 = false;
  source = codes "192.0.2.1";
  count = pos 10;
  packet_interval = pos 50000000;
  timeout = pos 500000000;
  size = pos 56;
  tos = 0;
  vpn_instance = codes "upstream-1";
}
