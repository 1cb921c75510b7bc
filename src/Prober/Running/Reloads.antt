-- ===== src/Prober/Running/Reloads.antt =====
-- The first start and the reload loop of main.go, over the whole life of the prober.
use smokeping_prober.Prelude.{
  pos, Result-cases, false, none, some, List, [], ◌∷◌, ◌++◌, ◌≡◌, inl, inr, refl, sym, ◌∙◌, Text,
  map, Result,
}
use mathlib.Core.Path.{subst}
use smokeping_prober.Config.{Config, Router}
use smokeping_prober.Net.{Net}
use smokeping_prober.Prober.Prepare.{prepare, prepare_all}
use smokeping_prober.Prober.{Probing, Flags, SmokePingers}
use smokeping_prober.Prober.Running.{Event}
use smokeping_prober.Prober.Running.Generations.{
  Replay, pinger_of, pingers_of, launch, Grouped, launch-Replay,
}

-- `var smokePingers smokePingers`
abbrev pub no_pingers : {D : Type 0} → SmokePingers D
no_pingers = record {
  started = [];
  prepared = [];
  started_remote = [];
  prepared_remote = [];
  has_group = false;
  max_interval = pos 0;
}

module _ (net : Net) (probing : Probing) {E D : Type 0} (new_dialer : Router → Result E D)
    (flags : Flags) where
  -- One round of the loop of `main`, and the first start of the program: `prepare` for the
  -- configuration that is in use, and the launch unless `prepare` fails.
  unfoldable pub reload_round :
      Config × List Text → SmokePingers D → List (Event D) × SmokePingers D
  unfolding launch
  reload_round (c, names) s =
      let (failed, s') = prepare net probing new_dialer flags c names s in
      elim failed [ some e ↦ ([], s') | none ↦ launch s' ]

  unfoldable pub serve :
      List (Config × List Text) → SmokePingers D → List (Event D) × SmokePingers D
  unfolding reload_round
  serve [] s = ([], s)
  serve (x ∷ xs) s =
      let (events, s') = reload_round x s in let (more, s'') = serve xs s' in (events ++ more, s'')

  pub prepare-started :
      (c : Config) (names : List Text) (s : SmokePingers D)
      → let s' = (prepare net probing new_dialer flags c names s).1 in
        (s'.started ≡ s.started)
        × (s'.started_remote ≡ s.started_remote)
        × (s'.has_group ≡ s.has_group)
  unfolding prepare
  prepare-started c names s =
      elim (Result-cases (prepare_all net probing new_dialer flags c names)) [
        | inl ((p, schedulers), e) ↦ rw (e, prepare) (refl, refl, refl)
        | inr (x, e) ↦ rw (e, prepare) (refl, refl, refl)
      ]

  -- What runs in a state is what these calls lead to from what ran in another.
  unfoldable pub Leads : SmokePingers D → List (Event D) × SmokePingers D → Type 0
  Leads s out =
      Replay out.0 (pingers_of s) s.started_remote (pingers_of out.1) out.1.started_remote
      × Grouped out.1

  pub launch-Leads :
      (s s' : SmokePingers D)
      → Grouped s
      → (s'.started ≡ s.started)
        × (s'.started_remote ≡ s.started_remote)
        × (s'.has_group ≡ s.has_group)
      → Leads s (launch s')
  unfolding Leads Grouped
  launch-Leads s s' grouped same =
      let g : Grouped s' = λ h. same.0 ∙ grouped (sym same.2 ∙ h) in
      let l = launch-Replay s' g in
      let out = launch s' in
      (
        subst
            (λ ps.
              Replay out.0 (map pinger_of ps) s.started_remote (pingers_of out.1)
                out.1.started_remote)
            same.0
            (subst (λ rs. Replay out.0 (pingers_of s') rs (pingers_of out.1) out.1.started_remote)
              same.1 l.0),
        l.1,
      )
