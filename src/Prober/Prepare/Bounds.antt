-- ===== src/Prober/Prepare/Bounds.antt =====
-- What `prepare` of main.go leaves in the prober.
use smokeping_prober.Prelude.{
  ℤ, ◌≤ℤ◌, false, none, some, List, [], ◌∷◌, ◌++◌, ◌≡◌, ◌⊎◌, inl, inr, refl, sym, ◌∙◌, arith, Text,
  All, append_assoc, append-nil, Result, ok, Result-cases, Bool-cases,
}
use mathlib.Core.Path.{subst}
use smokeping_prober.Config.{Config, Duration, Router, TargetGroup}
use smokeping_prober.Net.{Net}
use smokeping_prober.Prober.{Probe, Probing, Scheduler, SmokePingers, Flags}
use smokeping_prober.Prober.Prepare.{
  flag_probe, group_probe, group_pinger, local_interval_of, max_duration, Prepared, add_flag_hosts,
  add_group_hosts, add_remote, prepare_group, prepare_groups, add_schedulers, prepare_all, prepare,
  bad_size, Failed,
}
use smokeping_prober.Prober.Prepare.Covers.{
  KeepsPinger, InRange, group_hosts, Covers, Covers-nil, Covers-add, Covers-raise, Covers-same,
  ok-injective, max_duration-bound,
}

pub in_range : (size : ℤ) → bad_size size ≡ false → InRange size
in_range size e = ground arith

module _ (net : Net) (probing : Probing) (keeps : KeepsPinger probing) {E D : Type 0}
    (new_dialer : Router → Result E D) where
  add_flag_hosts-Covers :
      (flags : Flags)
      → InRange flags.size
      → (hosts : List Text) (probes : List Probe) (done : List Text) (out : List Probe)
      → Covers probes done flags.interval
      → add_flag_hosts net probing new_dialer flags hosts probes ≡ ok out
      → Covers out (done ++ hosts) flags.interval
  unfolding add_flag_hosts KeepsPinger
  add_flag_hosts-Covers flags fits [] probes done out h e =
      Covers-same _ _ _ _ _ h (ok-injective e) (sym (append-nil done))
  add_flag_hosts-Covers flags fits (host ∷ hosts) probes done out h e =
      elim (Result-cases (probing.resolve_pinger (probing.new_pinger host))) [
        | inl (p, q) ↦
            let added =
              Covers-add probes done flags.interval (flag_probe flags p) host h
                ((keeps.1 _ p q).0 ∙ keeps.0 host) (omega arith) fits in
            Covers-same _ _ _ _ _
              (add_flag_hosts-Covers flags fits hosts (probes ++ flag_probe flags p ∷ [])
                (done ++ host ∷ []) out added (ground (arith, e, q)))
              refl (append_assoc done (host ∷ []) hosts)
        | inr (x, q) ↦ ground (arith, e, q)
      ]

  add_group_hosts-Covers :
      (tg : TargetGroup) (bound : Duration)
      → local_interval_of tg ≤ℤ bound
      → InRange tg.size
      → (hosts : List Text) (probes : List Probe) (done : List Text) (out : List Probe)
      → Covers probes done bound
      → add_group_hosts net probing new_dialer tg hosts probes ≡ ok out
      → Covers out (done ++ hosts) bound
  unfolding add_group_hosts KeepsPinger
  add_group_hosts-Covers tg bound le fits [] probes done out h e =
      Covers-same _ _ _ _ _ h (ok-injective e) (sym (append-nil done))
  add_group_hosts-Covers tg bound le fits (host ∷ hosts) probes done out h e =
      let raw = group_pinger tg (local_interval_of tg) (probing.new_pinger host) in
      elim (Result-cases (probing.resolve_pinger raw)) [
        | inl (p, q) ↦
            let added =
              Covers-add probes done bound (group_probe tg p) host h
                ((keeps.1 raw p q).0 ∙ keeps.0 host)
                (subst (λ x. x ≤ℤ bound) (sym (keeps.1 raw p q).1) le)
                (subst InRange (sym (keeps.1 raw p q).2) fits) in
            Covers-same _ _ _ _ _
              (add_group_hosts-Covers tg bound le fits hosts (probes ++ group_probe tg p ∷ [])
                (done ++ host ∷ []) out added (ground (arith, e, q)))
              refl (append_assoc done (host ∷ []) hosts)
        | inr (x, q) ↦ ground (arith, e, q)
      ]

  -- What the loop over the groups keeps, with the flags' interval as the first bound.
  prepare_group-Covers :
      (c : Config) (tg : TargetGroup) (p q : Prepared) (done : List Text)
      → Covers p.probes done p.max_interval
      → prepare_group net probing new_dialer c tg p ≡ ok q
      → Covers q.probes (done ++ tg.hosts) q.max_interval × InRange tg.size
  unfolding prepare_group
  prepare_group-Covers c tg p q done h e =
      let bound = max_duration (local_interval_of tg) p.max_interval in
      elim (Bool-cases (bad_size tg.size)) [
        | inl b ↦ ground (arith, e, b)
        | inr b ↦ elim (Result-cases (add_remote net probing new_dialer c tg p.remote)) [
          | inr (x, r) ↦ ground (arith, e, b, r)
          | inl (remote, r) ↦
              elim (Result-cases (add_group_hosts net probing new_dialer tg tg.hosts p.probes)) [
                | inr (x, g) ↦ ground (arith, e, b, r, g)
                | inl (probes, g) ↦
                    let made : Prepared = record {
                      probes = probes;
                      remote = remote;
                      max_interval = bound;
                    } in
                    let same : made ≡ q = ground (arith, e, b, r, g) in
                    (
                      subst (λ x. Covers x.probes (done ++ tg.hosts) x.max_interval) same
                          (add_group_hosts-Covers tg bound
                            (max_duration-bound (local_interval_of tg) p.max_interval).0
                            (in_range tg.size b) tg.hosts p.probes done probes
                            (Covers-raise p.probes done p.max_interval bound
                              (max_duration-bound (local_interval_of tg) p.max_interval).1 h)
                            g),
                      in_range tg.size b,
                    )
              ]
        ]
      ]

  prepare_groups-Covers :
      (c : Config) (tgs : List TargetGroup) (p q : Prepared) (done : List Text)
      → Covers p.probes done p.max_interval
      → prepare_groups net probing new_dialer c tgs p ≡ ok q
      → Covers q.probes (done ++ group_hosts tgs) q.max_interval × All (λ tg. InRange tg.size) tgs
  unfolding prepare_groups
  prepare_groups-Covers c [] p q done h e = (
    subst (λ x. Covers x.probes (done ++ []) x.max_interval) (ok-injective e)
        (Covers-same _ _ _ _ _ h refl (sym (append-nil done))),
    tt,
  )
  prepare_groups-Covers c (tg ∷ tgs) p q done h e =
      elim (Result-cases (prepare_group net probing new_dialer c tg p)) [
        | inr (x, r) ↦ ground (arith, e, r)
        | inl (p', r) ↦
            let first = prepare_group-Covers c tg p p' done h r in
            let rest =
              prepare_groups-Covers c tgs p' q (done ++ tg.hosts) first.0 (ground (arith, e, r)) in
            (
              Covers-same _ _ _ _ _ rest.0 refl (append_assoc done tg.hosts (group_hosts tgs)),
              (first.1, rest.1),
            )
      ]

  prepare_all-Covers :
      (flags : Flags) (c : Config) (names : List Text) (p : Prepared) (schs : List (Scheduler D))
      → InRange flags.size
      → prepare_all net probing new_dialer flags c names ≡ ok (p, schs)
      → Covers p.probes (flags.hosts ++ group_hosts c.targets) p.max_interval
        × All (λ tg. InRange tg.size) c.targets
  unfolding prepare_all
  prepare_all-Covers flags c names p schs fits e =
      elim (Result-cases (add_flag_hosts net probing new_dialer flags flags.hosts [])) [
        | inr (x, f) ↦ ground (arith, e, f)
        | inl (probes, f) ↦
            let first : Prepared = record {
              probes = probes;
              remote = [];
              max_interval = flags.interval;
            } in
            elim (Result-cases (prepare_groups net probing new_dialer c c.targets first)) [
              | inr (x, g) ↦ ground (arith, e, f, g)
              | inl (q, g) ↦
                  elim (Result-cases
                    (add_schedulers net probing new_dialer names q.remote c.routers [])) [
                      | inr (x, t) ↦ ground (arith, e, f, g, t)
                      | inl (out, t) ↦
                          let covered =
                            add_flag_hosts-Covers flags fits flags.hosts [] [] probes
                              (Covers-nil flags.interval) f in
                          let all =
                            prepare_groups-Covers c c.targets first q flags.hosts covered g in
                          let same : q ≡ p = ground (arith, e, f, g, t) in
                          (
                            subst
                                (λ x.
                                  Covers x.probes (flags.hosts ++ group_hosts c.targets)
                                    x.max_interval)
                                same all.0,
                            all.1,
                          )
                    ]
            ]
      ]

  -- If new pingers have the address that they are made for, `Resolve` changes neither address nor
  -- interval nor packet size, and the packet size of the flags is in the range 24 to 65535: either `prepare` reports an error and the prober is as before, or it reports none
  -- and leaves what is started alone; the prepared probes are then one for each host of the flags
  -- and one for each host of each group, in order, none has an interval above the stored maximum,
  -- and the packet sizes of all of them, and of every group, are in this range.
  pub prepare_lem :
      (flags : Flags) (c : Config) (names : List Text) (s : SmokePingers D)
      → InRange flags.size
      → let out = prepare net probing new_dialer flags c names s in
        ((e : Failed net probing new_dialer) × (out ≡ (some e, s)))
        ⊎ ((out.0 ≡ none)
            × (out.1.started ≡ s.started)
            × (out.1.started_remote ≡ s.started_remote)
            × Covers out.1.prepared (flags.hosts ++ group_hosts c.targets) out.1.max_interval
            × All (λ tg. InRange tg.size) c.targets)
  unfolding prepare
  prepare_lem flags c names s fits =
      elim (Result-cases (prepare_all net probing new_dialer flags c names)) [
        | inr (x, e) ↦ rw (e, prepare) (inl (x, refl))
        | inl ((p, schs), e) ↦
            rw (e, prepare)
              (let all = prepare_all-Covers flags c names p schs fits e in
                inr (refl, refl, refl, all.0, all.1))
      ]
