-- ===== src/Collector/Recorded.antt =====
-- What the recorder of collector.go has observed after the jobs of a session.
use smokeping_prober.Prelude.{
  ℕ, Option, none, some, List, [], ◌∷◌, ◌++◌, map, ◌≡◌, ap, sym, ◌∙◌, append_assoc, append-nil,
  Text,
}
use smokeping_prober.Config.{Duration}
use smokeping_prober.Remote.Huawei.Parse.{PingResult}
use smokeping_prober.Remote.Targets.{Target}
use smokeping_prober.Remote.Session.{Session}
use smokeping_prober.Remote.Session.Live.{IsLive}
use smokeping_prober.Remote.Session.Runs.{Exchange, session_runner}
use smokeping_prober.Remote.Scheduler.{State}
use smokeping_prober.Remote.Scheduler.Serve.{served, missed, serve_jobs}
use smokeping_prober.Remote.Scheduler.Serve.Series.{jobs_of, settle, Talk, serve_jobs-Talk}
use smokeping_prober.Collector.{Vectors, remote_label_values, record_result}
use smokeping_prober.Collector.Series.{record_result_lem}

module _ (names : List Text) (targets : ℕ → Target) where
  -- `Record` for each result, which stand newest first.
  unfoldable pub record_all : List (ℕ × PingResult) → Vectors → Vectors
  record_all [] v = v
  record_all ((i, res) ∷ older) v = record_result names (targets i) res (record_all older v)

  -- The series and the times that the runs show, in order.
  abbrev pub observations : List (ℕ × Option PingResult) → List (List Text × Duration)
  observations [] = []
  observations ((i, none) ∷ outcomes) = observations outcomes
  observations ((i, some res) ∷ outcomes) =
      map (λ r. (remote_label_values names (targets i), r.rtt)) res.replies ++ observations outcomes

  settle-observations :
      (s : State) (outcomes : List (ℕ × Option PingResult)) (v : Vectors)
      → (record_all (settle s outcomes).recorded v).observed
        ≡ (record_all s.recorded v).observed ++ observations outcomes
  unfolding record_all
  settle-observations s [] v = sym (append-nil _)
  settle-observations s ((i, none) ∷ outcomes) v = settle-observations (missed s i) outcomes v
  settle-observations s ((i, some res) ∷ outcomes) v =
      settle-observations (served s i res) outcomes v
      ∙ ap (λ o. o ++ observations outcomes)
          (record_result_lem names (targets i) res (record_all s.recorded v)).0
      ∙ append_assoc (record_all s.recorded v).observed _ (observations outcomes)

  -- When the router answers or misses a series of jobs on a session with this prompt and an open
  -- channel, then the recorder has observed, behind what it had before, the round trip time of each
  -- reply that the router printed, in order, in the series of the target with the index of the job;
  -- a job that timed out adds nothing.
  pub serve_jobs-observations :
      (name : Text) (end : ℕ) {session u : Session} {asked : List (ℕ × Target)} {xs : List Exchange}
      {outcomes : List (ℕ × Option PingResult)} (s : State) (v : Vectors)
      → Talk name end session asked xs outcomes u
      → IsLive session.chunks
      → session.prompt ≡ name ++ end ∷ []
      → let t =
          (serve_jobs session_runner
            (jobs_of asked)
            (record { session = session; exchanges = xs })
            s).0 in
        (record_all t.recorded v).observed
        ≡ (record_all s.recorded v).observed ++ observations outcomes
  serve_jobs-observations name end {outcomes = outcomes} s v talk live prompt =
      ap (λ r. (record_all r.0.recorded v).observed) (serve_jobs-Talk name end s talk live prompt)
      ∙ settle-observations s outcomes v
