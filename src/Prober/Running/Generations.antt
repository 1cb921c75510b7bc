-- ===== src/Prober/Running/Generations.antt =====
-- The pingers and schedulers that run over the life of the prober of main.go.
use smokeping_prober.Prelude.{
  true, false, List, [], ◌∷◌, ◌++◌, ◌≡◌, inl, inr, refl, sym, arith, map, append_assoc, append-nil,
  Bool-cases, ◌==◌, if◌then◌else◌,
}
use mathlib.Core.Path.{subst}
use smokeping_prober.Prober.{Pinger, Probe, Scheduler, SmokePingers}
use smokeping_prober.Prober.Running.{
  Event, runs, stops, starts_remote, stops_remote, size_of_prepared, stop, start, start_remote,
}

abbrev pub pinger_of : Probe → Pinger
pinger_of pr = pr.pinger

module _ {D : Type 0} where
  -- From these pingers and schedulers running, the calls lead to those; what is stopped runs. A
  -- pinger or a scheduler runs from the call that starts it to the one that stops it.
  pub data Replay
      : List (Event D)
        → List Pinger
        → List (Scheduler D)
        → List Pinger
        → List (Scheduler D)
        → Type 0 where
    finished : {ps : List Pinger} {rs : List (Scheduler D)} → Replay [] ps rs ps rs
    run :
        {es : List (Event D)} {ps qs : List Pinger} {rs ss : List (Scheduler D)} (p : Pinger)
        → Replay es (ps ++ p ∷ []) rs qs ss
        → Replay (runs p ∷ es) ps rs qs ss
    stop_one :
        {es : List (Event D)} {ps qs : List Pinger} {rs ss : List (Scheduler D)} (p : Pinger)
        → Replay es ps rs qs ss
        → Replay (stops p ∷ es) (p ∷ ps) rs qs ss
    run_remote :
        {es : List (Event D)} {ps qs : List Pinger} {rs ss : List (Scheduler D)} (r : Scheduler D)
        → Replay es ps (rs ++ r ∷ []) qs ss
        → Replay (starts_remote r ∷ es) ps rs qs ss
    stop_remote :
        {es : List (Event D)} {ps qs : List Pinger} {rs ss : List (Scheduler D)} (r : Scheduler D)
        → Replay es ps rs qs ss
        → Replay (stops_remote r ∷ es) ps (r ∷ rs) qs ss

  -- The pingers that a state has as started.
  abbrev pub pingers_of : SmokePingers D → List Pinger
  pingers_of s = map pinger_of s.started

  stops-Replay :
      (ps : List Probe) {es : List (Event D)} {qs : List Pinger} {rs ss : List (Scheduler D)}
      → Replay es [] rs qs ss
      → Replay (map (λ pr. stops pr.pinger) ps ++ es) (map pinger_of ps) rs qs ss
  stops-Replay [] h = h
  stops-Replay (p ∷ ps) h = stop_one p.pinger (stops-Replay ps h)

  stops_remote-Replay :
      (rs : List (Scheduler D)) {es : List (Event D)} {ps qs : List Pinger}
      {ss : List (Scheduler D)}
      → Replay es ps [] qs ss
      → Replay (map stops_remote rs ++ es) ps rs qs ss
  stops_remote-Replay [] h = h
  stops_remote-Replay (r ∷ rs) h = stop_remote r (stops_remote-Replay rs h)

  runs-Replay :
      (qs : List Probe) (ps : List Pinger) (rs : List (Scheduler D))
      → Replay (map (λ pr. runs pr.pinger) qs) ps rs (ps ++ map pinger_of qs) rs
  runs-Replay [] ps rs = subst (λ xs. Replay [] ps rs xs rs) (sym (append-nil ps)) finished
  runs-Replay (q ∷ qs) ps rs = run q.pinger (
      subst (λ xs. Replay (map (λ pr. runs pr.pinger) qs) (ps ++ q.pinger ∷ []) rs xs rs)
        (append_assoc ps (q.pinger ∷ []) _) (runs-Replay qs (ps ++ q.pinger ∷ []) rs))

  starts_remote-Replay :
      (ss : List (Scheduler D)) (ps : List Pinger) (rs : List (Scheduler D))
      → Replay (map starts_remote ss) ps rs ps (rs ++ ss)
  starts_remote-Replay [] ps rs = subst (λ xs. Replay [] ps rs ps xs) (sym (append-nil rs)) finished
  starts_remote-Replay (s ∷ ss) ps rs = run_remote s (
      subst (λ xs. Replay (map starts_remote ss) ps (rs ++ s ∷ []) ps xs)
        (append_assoc rs (s ∷ []) ss) (starts_remote-Replay ss ps (rs ++ s ∷ [])))

  pub Replay-append :
      {es fs : List (Event D)} {ps qs os : List Pinger} {rs ss ts : List (Scheduler D)}
      → Replay es ps rs qs ss
      → Replay fs qs ss os ts
      → Replay (es ++ fs) ps rs os ts
  Replay-append finished g = g
  Replay-append (run p h) g = run p (Replay-append h g)
  Replay-append (stop_one p h) g = stop_one p (Replay-append h g)
  Replay-append (run_remote r h) g = run_remote r (Replay-append h g)
  Replay-append (stop_remote r h) g = stop_remote r (Replay-append h g)

  -- The part of the reload loop after `prepare`; the one at the start of the program is the same.
  unfoldable pub launch : SmokePingers D → List (Event D) × SmokePingers D
  launch s =
      let (events, s') = start s in
      if size_of_prepared s == 0 then ([], s) else (events ++ start_remote s', s')

  -- What the prober has at any time: no probes without a group.
  unfoldable pub Grouped : SmokePingers D → Type 0
  Grouped s = s.has_group ≡ false → s.started ≡ []

  pub stop-Replay :
      (s : SmokePingers D) → Grouped s → Replay (stop s).0 (pingers_of s) s.started_remote [] []
  unfolding stop Grouped
  stop-Replay s grouped = stops_remote-Replay s.started_remote (elim (Bool-cases s.has_group) [
    | inl e ↦ rw (e) (
        subst (λ es. Replay es (pingers_of s) [] [] []) (append-nil _)
          (stops-Replay s.started finished))
    | inr e ↦
        rw (e) (subst (λ ps. Replay [] (map pinger_of ps) [] [] []) (sym (grouped e)) finished)
  ])

  start-Replay :
      (s : SmokePingers D)
      → size_of_prepared s == 0 ≡ false
      → Grouped s
      → Replay
          ((start s).0 ++ start_remote (start s).1)
          (pingers_of s)
          s.started_remote
          (pingers_of (start s).1)
          (start s).1.started_remote
  unfolding start start_remote
  start-Replay s some_prepared grouped = rw (some_prepared) (
      Replay-append (Replay-append (stop-Replay s grouped) (runs-Replay s.prepared [] []))
        (starts_remote-Replay s.prepared_remote _ []))

  start-has_group :
      (s : SmokePingers D) → size_of_prepared s == 0 ≡ false → (start s).1.has_group ≡ true
  unfolding start
  start-has_group s some_prepared = rw (some_prepared) refl

  pub launch-Replay :
      (s : SmokePingers D)
      → Grouped s
      → let s' = (launch s).1 in
        Replay (launch s).0 (pingers_of s) s.started_remote (pingers_of s') s'.started_remote
        × Grouped s'
  unfolding launch Grouped
  launch-Replay s grouped = elim (Bool-cases (size_of_prepared s == 0)) [
    | inl e ↦ rw (e) (finished, grouped)
    | inr e ↦
        rw (e) (start-Replay s e grouped, λ h. absurd (ground (arith, start-has_group s e, h)))
  ]
