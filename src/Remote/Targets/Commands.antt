-- ===== src/Remote/Targets/Commands.antt =====
-- The commands of the targets that `BuildTargets` makes under an accepted configuration, as the
-- router reads them and as `Run` looks for their answer.
use smokeping_prober.Prelude.{
  ℕ, Bool, contains, not, true, false, none, some, List, [], ◌∷◌, ◌≡◌, ◌≢◌, inl, inr, arith, Text,
  is_empty, is_empty_iff, All, All-map, All-append, ok, Result, Bool-cases, is_space, IsToken,
  fields, select,
}
use smokeping_prober.Net.{Net, Ip, is_v4}
use smokeping_prober.Config.{
  Link, Router, TargetGroup, Config, find_router, router_named, select_links,
}
use smokeping_prober.Config.Valid.{IsVpnChar, IsLink, IsRouter}
use smokeping_prober.Config.Check.{validate}
use smokeping_prober.Config.Check.Groups.{validate_iff}
use smokeping_prober.Remote.Huawei.{Job, build_command}
use smokeping_prober.Remote.Huawei.Command.{
  IsWritable, tokens, build_command-one_line, fields-build_command,
}
use smokeping_prober.Remote.Session.{last_of, last_token}
use smokeping_prober.Remote.Targets.{Target, source_of, new_target, build_targets}
use smokeping_prober.Remote.Targets.Built.{
  link_targets, Built, none_left, host_built, build_targets-Built,
}

-- `IP.String` never prints white space, nor nothing; and `ParseIP` reads no text with white space.
pub record WritesWords (net : Net) : Type 0 where
  pub printed : (ip : Ip) → IsToken (net.ip_string ip)
  pub literal : (t : Text) (ip : Ip) → net.parse_ip t ≡ some ip → All (λ c. is_space c ≡ false) t

-- The command is one line, the router reads the words of the job in it, and the anchor of `Run` is
-- the target, a word.
pub record IsObeyed (t : Target) : Type 0 where
  pub one_line : All (λ c. c ≢ 10) (build_command t.job)
  pub words : fields (build_command t.job) ≡ tokens t.job
  pub anchor : last_token (build_command t.job) ≡ t.job.target
  pub target_token : IsToken t.job.target

last_of-tokens : (j : Job) (t : Text) → last_of t (tokens j) ≡ j.target
unfolding last_of
last_of-tokens j t = ground arith

pub IsWritable-IsObeyed : (t : Target) → IsWritable t.job → IsObeyed t
unfolding last_token
IsWritable-IsObeyed t w =
    let read = fields-build_command t.job w in
    record {
      one_line = build_command-one_line t.job w;
      words = read;
      anchor = rw read (last_of-tokens t.job (build_command t.job));
      target_token = w.target_token;
    }

vpn_char-no_space : (c : ℕ) → IsVpnChar c → is_space c ≡ false
vpn_char-no_space c v = ground arith

All-select :
    (P : Link → Type 0) (names : List Text) (ls : List Link)
    → All P ls
    → All P (select (λ l. contains names l.name) ls)
All-select P names [] h = tt
All-select P names (l ∷ ls) h = ground (arith, All-select P names ls)

module _ (net : Net) where
  pub find_router-IsRouter :
      (rs : List Router) (name : Text) (r : Router)
      → All (IsRouter net) rs
      → find_router rs name ≡ some r
      → IsRouter net r
  unfolding find_router
  find_router-IsRouter [] name r valid e = ground arith
  find_router-IsRouter (q ∷ rs) name r (valid, others) e =
      let rest = find_router-IsRouter rs name r others in ground arith

module _ (net : Net) (words : WritesWords net) where
  source-IsToken :
      (v6 : Bool) (l : Link) → IsLink net l → source_of v6 l ≢ [] → IsToken (source_of v6 l)
  source-IsToken true l valid filled = elim valid.source_v6 [
    | inl e ↦ absurd (filled e)
    | inr (ip, e, _) ↦ (filled, words.literal l.source6 ip e)
  ]
  source-IsToken false l valid filled = elim valid.source_v4 [
    | inl e ↦ absurd (filled e)
    | inr (ip, e, _) ↦ (filled, words.literal l.source ip e)
  ]

  new_target-IsWritable :
      (tg : TargetGroup) (host : Text) (ip : Ip) (l : Link)
      → IsLink net l
      → source_of (not (is_v4 ip)) l ≢ []
      → IsWritable (new_target net tg host ip l).job
  new_target-IsWritable tg host ip l valid filled = record {
    target_token = words.printed ip;
    source_token = source-IsToken (not (is_v4 ip)) l valid filled;
    vpn_token = All-map l.vpn_instance vpn_char-no_space valid.safe_vpn;
  }

  link_targets-IsObeyed :
      (tg : TargetGroup) (host : Text) (ip : Ip) (ls : List Link)
      → All (IsLink net) ls
      → All IsObeyed (link_targets net tg host ip ls)
  link_targets-IsObeyed tg host ip [] valid = tt
  link_targets-IsObeyed tg host ip (l ∷ ls) (valid, others) =
      let rest = link_targets-IsObeyed tg host ip ls others in
      let source = source_of (not (is_v4 ip)) l in
      elim (Bool-cases (is_empty source)) [
        | inl e ↦ rw e rest
        | inr e ↦
            let filled : source ≢ [] = λ no. absurd (ground (arith, is_empty_iff source)) in
            rw e (
              IsWritable-IsObeyed (new_target net tg host ip l)
                  (new_target-IsWritable tg host ip l valid filled),
              rest,
            )
      ]

  Built-IsObeyed :
      {E : Type 0} (tg : TargetGroup) (r : Router) (resolver : Text → Text → Result E Ip)
      (hosts : List Text) (ts : List Target)
      → All (IsLink net) r.links
      → Built net tg r resolver hosts ts
      → All IsObeyed ts
  unfolding select_links
  Built-IsObeyed tg r resolver [] [] valid none_left = tt
  Built-IsObeyed tg r resolver [] (_ ∷ _) valid odd = elim odd [ ]
  Built-IsObeyed tg r resolver (host ∷ hosts) _ valid (host_built {ts = ts} ip found new rest) =
      All-append IsObeyed (link_targets net tg host ip (select_links r tg.links)) ts
        (link_targets-IsObeyed tg host ip (select_links r tg.links)
          (ground (arith, All-select (IsLink net) tg.links r.links valid)))
        (Built-IsObeyed tg r resolver hosts ts valid rest)

  -- For the targets that `BuildTargets` makes of a group and its router under a configuration that
  -- `Validate` accepts, the command is one line, the router reads exactly the words of the job in
  -- it, whatever the configuration sets, and `Run` looks for the answer behind the address of the
  -- target, which is a word; if package net prints addresses as words and reads no text with
  -- white space as an address.
  pub build_targets-IsObeyed :
      {E : Type 0} (c : Config) (tg : TargetGroup) (r : Router)
      (resolver : Text → Text → Result E Ip) (ts : List Target)
      → validate net c ≡ none
      → router_named c tg.router ≡ some r
      → build_targets net tg r resolver ≡ ok ts
      → All IsObeyed ts
  unfolding router_named
  build_targets-IsObeyed c tg r resolver ts accepted named e =
      let valid = (validate_iff net c).0 accepted in
      let router = find_router-IsRouter net c.routers tg.router r valid.routers_valid named in
      Built-IsObeyed tg r resolver tg.hosts ts router.links_valid.0
        (build_targets-Built net tg r resolver ts e)
