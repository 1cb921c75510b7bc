-- ===== src/Remote/Targets/Built.antt =====
-- What `BuildTargets` returns.
use smokeping_prober.Prelude.{
  not, List, [], ◌∷◌, ◌++◌, ◌≡◌, ◌≢◌, inl, inr, sym, arith, append_assoc, append-nil, Text, length,
  length-append, is_empty, Result, ok, err, if◌then◌else◌, ◌==◌, Result-cases, ◌∙◌, is_empty_iff,
}
use smokeping_prober.Net.{Net, Ip, is_v4}
use smokeping_prober.Config.{Link, Router, TargetGroup, select_links}
use smokeping_prober.Remote.Targets.{
  Target, no_source_address, source_of, new_target, add_links, add_hosts, build_targets,
}

same_length : (xs ys : List Target) → (length (xs ++ ys) == length xs) ≡ is_empty ys
same_length xs [] = ground (arith, length-append xs [])
same_length xs (y ∷ ys) = ground (arith, length-append xs (y ∷ ys))

module _ (net : Net) (tg : TargetGroup) where
  -- The targets of one host: one for each link that has a source of the family, in link order.
  abbrev pub link_targets : Text → Ip → List Link → List Target
  link_targets host ip [] = []
  link_targets host ip (l ∷ ls) =
      if is_empty (source_of (not (is_v4 ip)) l)
      then link_targets host ip ls
      else new_target net tg host ip l ∷ link_targets host ip ls

  pub add_links-append :
      (host : Text) (ip : Ip) (ls : List Link) (targets : List Target)
      → add_links net tg host ip ls targets ≡ targets ++ link_targets host ip ls
  unfolding add_links
  add_links-append host ip [] targets = sym (append-nil targets)
  add_links-append host ip (l ∷ ls) targets = ground (
    arith,
    add_links-append host ip ls targets,
    add_links-append host ip ls (targets ++ new_target net tg host ip l ∷ []),
    append_assoc targets (new_target net tg host ip l ∷ []) (link_targets host ip ls),
  )

  module _ {E : Type 0} (r : Router) (resolver : Text → Text → Result E Ip) where
    -- The targets of a list of hosts: those of each in turn, each host resolved and with one at
    -- least.
    pub data Built : List Text → List Target → Type 0 where
      none_left : Built [] []
      host_built :
          {host : Text} {hosts : List Text} {ts : List Target} (ip : Ip)
          → resolver host tg.network ≡ ok ip
          → link_targets host ip (select_links r tg.links) ≢ []
          → Built hosts ts
          → Built (host ∷ hosts) (link_targets host ip (select_links r tg.links) ++ ts)

    abbrev new_targets : Text → Ip → List Target
    new_targets host ip = link_targets host ip (select_links r tg.links)

    pub add_hosts-cons :
        (host : Text) (hosts : List Text) (targets : List Target) (ip : Ip)
        → resolver host tg.network ≡ ok ip
        → add_hosts net tg r resolver (host ∷ hosts) targets ≡ (
            if is_empty (link_targets host ip (select_links r tg.links))
            then err (no_source_address host r.name)
            else add_hosts net tg r resolver hosts
                (targets ++ link_targets host ip (select_links r tg.links)))
    unfolding add_hosts
    add_hosts-cons host hosts targets ip e = ground (
      arith,
      add_links-append host ip (select_links r tg.links) targets,
      same_length targets (new_targets host ip),
    )

    add_hosts_inv :
        (host : Text) (hosts : List Text) (targets ts : List Target)
        → add_hosts net tg r resolver (host ∷ hosts) targets ≡ ok ts
        → (ip : Ip) × (resolver host tg.network ≡ ok ip)
          × (new_targets host ip ≢ [])
          × (add_hosts net tg r resolver hosts (targets ++ new_targets host ip) ≡ ok ts)
    unfolding add_hosts
    add_hosts_inv host hosts targets ts e = elim (Result-cases (resolver host tg.network)) [
      | inl (ip, found) ↦
          let step = add_hosts-cons host hosts targets ip found in
          let some_new = is_empty_iff (new_targets host ip) in
          (ip, found, ground arith, ground arith)
      | inr (failure, missing) ↦ absurd (ground arith)
    ]

    -- Behind the targets so far come those of the hosts.
    add_hosts-Built :
        (hosts : List Text) (targets ts : List Target)
        → add_hosts net tg r resolver hosts targets ≡ ok ts
        → (new : List Target) × (ts ≡ targets ++ new) × Built hosts new
    add_hosts-Built [] targets ts e =
        unfold add_hosts in ([], ground (arith, append-nil targets), none_left)
    add_hosts-Built (host ∷ hosts) targets ts e =
        let (ip, found, some_new, rest) = add_hosts_inv host hosts targets ts e in
        let (new, split, built) = add_hosts-Built hosts (targets ++ new_targets host ip) ts rest in
        (
          new_targets host ip ++ new,
          split ∙ append_assoc targets (new_targets host ip) new,
          host_built ip found some_new built,
        )

    -- The targets that `BuildTargets` returns are, host by host and in the order of the hosts, one
    -- for each selected link that has a source of the family of the host's address, with the
    -- settings of the group; and each host has one at least.
    pub build_targets-Built :
        (ts : List Target) → build_targets net tg r resolver ≡ ok ts → Built tg.hosts ts
    unfolding build_targets
    build_targets-Built ts e =
        let (new, same, built) = add_hosts-Built tg.hosts [] ts e in rw same built
