-- ===== src/Config.antt =====
-- config/config.go: the configuration's data, and the lookups on it.
pub mod Check
pub mod Valid
pub mod Unmarshal
pub mod Reload
use smokeping_prober.Prelude.{
  ℕ, ℤ, pos, Bool, false, Option, none, some, List, [], ◌∷◌, Text, text_eq, contains, select,
  is_empty, Dict, if◌then◌else◌,
}

-- Durations are in nanoseconds.
abbrev pub Duration : Type 0
Duration = ℤ

pub record Link : Type 0 where
  pub name : Text
  pub vpn_instance : Text
  pub source : Text
  pub source6 : Text

pub record Router : Type 0 where
  pub name : Text
  pub address : Text
  pub username : Text
  pub password_file : Text
  pub private_key_file : Text
  pub known_hosts : Text
  pub insecure_skip_host_key : Bool
  pub sessions : ℤ
  pub links : List Link

pub record TargetGroup : Type 0 where
  pub hosts : List Text
  pub host : Text
  pub interval : Duration
  pub network : Text
  pub protocol : Text
  pub size : ℤ
  pub source : Text
  pub tos : ℕ
  pub labels : Dict Text
  pub router : Text
  pub links : List Text
  pub count : ℤ
  pub packet_interval : Duration
  pub timeout : Duration
  pub local_interval : Duration

pub record Config : Type 0 where
  pub routers : List Router
  pub targets : List TargetGroup

abbrev pub no_router : Router
no_router = record {
  name = [];
  address = [];
  username = [];
  password_file = [];
  private_key_file = [];
  known_hosts = [];
  insecure_skip_host_key = false;
  sessions = pos 0;
  links = [];
}

unfoldable pub find_router : List Router → Text → Option Router
find_router [] name = none
find_router (r ∷ rs) name = if text_eq r.name name then some r else find_router rs name

-- `Config.Router`: the value and the `bool` are an option.
unfoldable pub router_named : Config → Text → Option Router
unfolding find_router
router_named c name = find_router c.routers name

-- `Router.SelectLinks`
unfoldable pub select_links : Router → List Text → List Link
select_links r names =
    if is_empty names then r.links else select (λ l. contains names l.name) r.links
