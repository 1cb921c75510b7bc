-- ===== src/Prober/Startup/Serving.antt =====
-- What the program of main.go serves through any reloads.
use smokeping_prober.Prelude.{
  ℕ, List, [], ◌∷◌, ◌++◌, ◌≡◌, inl, inr, refl, sym, ap, ◌∙◌, arith, append-nil, append_assoc, Text,
  Result, ok, err, Result-cases,
}
use mathlib.Core.Path.{subst}
use smokeping_prober.Config.{Config, Router, Duration}
use smokeping_prober.Config.Valid.{IsConfig}
use smokeping_prober.Config.Reload.{ConfigFile}
use smokeping_prober.Net.{Net}
use smokeping_prober.Prober.{Probe, Probing, Flags, SmokePingers}
use smokeping_prober.Prober.Labels.{build_label_names}
use smokeping_prober.Prober.Prepare.Covers.{KeepsPinger, InRange, Covers, group_hosts}
use smokeping_prober.Prober.Running.{Event, remote_targets}
use smokeping_prober.Prober.Running.Generations.{Replay, Replay-append, pingers_of, Grouped}
use smokeping_prober.Prober.Running.Reloads.{Leads}
use smokeping_prober.Prober.Opening.{Shows}
use smokeping_prober.Prober.Reload.{Program, Round, Reloaded, reload, reload-Ends}
use smokeping_prober.Collector.Handlers.{Panic, Prometheus}

-- From the start on, these calls have left running exactly the pingers and schedulers that the
-- program has as started, and nothing was stopped that did not run.
abbrev pub LeftRunning : {D : Type 0} → List (Event D) → SmokePingers D → Type 0
LeftRunning events s = Replay events [] [] (pingers_of s) s.started_remote × Grouped s

-- The configuration in use is valid; what runs is one pinger for each of these hosts and of the
-- hosts of the groups of a valid configuration, with a packet size in range; and the collector shows
-- what runs, with the label names of that configuration.
abbrev pub IsServing :
    {prom : Prometheus} {D : Type 0}
    → Net
    → (List Text → List Text)
    → List Text
    → List (Event D)
    → Program prom D
    → Type 0
IsServing {prom} net sort hosts events p =
    IsConfig net p.config.current
    × LeftRunning events p.pingers
    × ((c : Config) × (bound : Duration) × IsConfig net c
        × Covers p.pingers.started (hosts ++ group_hosts c.targets) bound
        × Shows prom (build_label_names sort c) p.pingers p.collector)

same_targets :
    {prom : Prometheus} {D : Type 0} (p q : Program prom D)
    → q.pingers.started_remote ≡ p.pingers.started_remote
    → remote_targets q.pingers ≡ remote_targets p.pingers
unfolding remote_targets
same_targets p q e = rw e refl

module _ (prom : Prometheus) (F Y : Type 0) (net : Net) (probing : Probing) {E D : Type 0}
    (new_dialer : Router → Result E D) (sort : List Text → List Text) (flags : Flags) where
  -- Reloads at given times, with what they call; a panic ends the program.
  unfoldable pub reload_all :
      List (ℕ × ConfigFile F Y) → Program prom D → Result Panic (List (Event D) × Program prom D)
  reload_all [] p = ok ([], p)
  reload_all ((now, file) ∷ files) p =
      elim (reload prom F Y net probing new_dialer sort flags now file p) [
        | err e ↦ err e
        | ok (_, events, q) ↦ elim (reload_all files q) [
          | err e ↦ err e
          | ok (more, last) ↦ ok (events ++ more, last)
        ]
      ]

  module _ (keeps : KeepsPinger probing) (fits : InRange flags.size) where
    Reloaded-IsServing :
        (file : ConfigFile F Y) (p : Program prom D) (before : List (Event D))
        (out : Round prom F Y net probing new_dialer sort flags)
        → Reloaded prom F Y net probing new_dialer sort flags file p out
        → IsServing net sort flags.hosts before p
        → IsServing net sort flags.hosts (before ++ out.1) out.2
    unfolding Leads
    Reloaded-IsServing file p before (answer, events, q) h
          (valid, running, (c, bound, fit, covers, shows)) =
        let Started = λ (ps : List Probe). Covers ps (flags.hosts ++ group_hosts c.targets) bound in
        elim h [
          | inl (_, _, none_called, same, current, _, _, kept) ↦ (
            subst (λ x. IsConfig net x) (sym current) valid,
            subst (λ es. LeftRunning es q.pingers)
                (sym (append-nil before) ∙ ap (λ es. before ++ es) (sym none_called))
                (subst (LeftRunning before) (sym same) running),
            (
              c,
              bound,
              fit,
              subst Started (sym (ap (λ (s : SmokePingers D). s.started) same)) covers,
              subst (λ s. Shows prom (build_label_names sort c) s q.collector) (sym same)
                  (subst (Shows prom (build_label_names sort c) p.pingers) (sym kept) shows),
            ),
          )
          | inr (inl (_, none_called, _, valid', started, remote, group, kept)) ↦ (
            valid',
            (
              subst (λ es. Replay es [] [] (pingers_of q.pingers) q.pingers.started_remote)
                  (sym (append-nil before) ∙ ap (λ es. before ++ es) (sym none_called))
                  (rw (started, remote) running.0),
              unfold Grouped in λ e. started ∙ running.1 (sym group ∙ e),
            ),
            (
              c,
              bound,
              fit,
              subst Started (sym started) covers,
              rw kept (shows.0, shows.1 ∙ sym started, shows.2 ∙ sym (same_targets p q remote)),
            ),
          )
          | inr (inr (_, _, valid', covers', calls, names, shows')) ↦ (
            valid',
            (Replay-append running.0 calls.0, calls.1),
            (
              q.config.current,
              q.pingers.max_interval,
              valid',
              covers',
              subst (λ ns. Shows prom ns q.pingers q.collector) names shows',
            ),
          )
        ]

    pub reload_all-IsServing :
        (files : List (ℕ × ConfigFile F Y)) (p q : Program prom D) (before more : List (Event D))
        → reload_all files p ≡ ok (more, q)
        → IsServing net sort flags.hosts before p
        → IsServing net sort flags.hosts (before ++ more) q
    unfolding reload_all
    reload_all-IsServing [] p q before more e h =
        let same : p ≡ q = ground arith in
        let none_called : more ≡ [] = ground arith in
        subst (IsServing net sort flags.hosts (before ++ more)) same (
          subst (λ es. IsServing net sort flags.hosts es p)
            (sym (append-nil before) ∙ ap (λ es. before ++ es) (sym none_called)) h)
    reload_all-IsServing ((now, file) ∷ files) p q before more e h =
        let ends =
          reload-Ends prom F Y net probing new_dialer sort flags keeps fits now file p h.1.1 in
        elim (Result-cases (reload prom F Y net probing new_dialer sort flags now file p)) [
          | inr (x, r) ↦ absurd (ground arith)
          | inl ((answer, events, p'), r) ↦ elim (Result-cases (reload_all files p')) [
            | inr (x, r') ↦ absurd (ground arith)
            | inl ((rest, last), r') ↦
                let now_serving =
                  Reloaded-IsServing file p before (answer, events, p') (rw r at ends) h in
                let later =
                  reload_all-IsServing files p' last (before ++ events) rest r' now_serving in
                let same : last ≡ q = ground arith in
                let calls : events ++ rest ≡ more = ground arith in
                subst (IsServing net sort flags.hosts (before ++ more)) same (
                  subst (λ es. IsServing net sort flags.hosts es last)
                    (append_assoc before events rest ∙ ap (λ es. before ++ es) calls) later)
          ]
        ]
