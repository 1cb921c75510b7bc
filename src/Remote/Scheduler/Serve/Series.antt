-- ===== src/Remote/Scheduler/Serve/Series.antt =====
-- A series of jobs on one session: each answer goes to the job that asked.
use smokeping_prober.Prelude.{
  ℕ, Bool, true, Option, none, some, List, [], ◌∷◌, ◌++◌, ◌≡◌, refl, ap, ◌∙◌, Text, err,
}
use smokeping_prober.Remote.Huawei.{Job, build_command}
use smokeping_prober.Remote.Huawei.Parse.{PingResult}
use smokeping_prober.Remote.Huawei.Parse.Lines.{Answer}
use smokeping_prober.Remote.Session.{Signal, Session, run, timed_out}
use smokeping_prober.Remote.Session.Answer.{answered_session}
use smokeping_prober.Remote.Session.Closing.{run-prompt}
use smokeping_prober.Remote.Session.Live.{IsLive, drain-IsLive, run-IsLive}
use smokeping_prober.Remote.Session.Runs.{Exchange, session_runner, run_link}
use smokeping_prober.Remote.Session.Reading.{read_loop, reads_of}
use smokeping_prober.Remote.Session.Wait.{joined}
use smokeping_prober.Remote.Targets.{Target}
use smokeping_prober.Remote.Targets.Commands.{IsObeyed}
use smokeping_prober.Remote.Scheduler.{State}
use smokeping_prober.Remote.Scheduler.Serve.{
  served, missed, serve_jobs, serve_jobs-kept, serve_job-missed,
}
use smokeping_prober.Remote.Scheduler.Serve.Answered.{
  IsReply, IsPrintable, result_of, serve_job-answered,
}

-- The jobs of these targets.
abbrev pub jobs_of : List (ℕ × Target) → List (ℕ × Job)
jobs_of [] = []
jobs_of ((i, t) ∷ asked) = (i, t.job) ∷ jobs_of asked

-- The state after runs with and without a result.
abbrev pub settle : State → List (ℕ × Option PingResult) → State
settle s [] = s
settle s ((i, some res) ∷ outcomes) = settle (served s i res) outcomes
settle s ((i, none) ∷ outcomes) = settle (missed s i) outcomes

-- One run on an open channel after another: the router with this prompt answers the command, or the
-- command times out, with any output before and after the Ctrl-C that brings the prompt back.
pub data Talk (name : Text) (end : ℕ)
    : Session
      → List (ℕ × Target)
      → List Exchange
      → List (ℕ × Option PingResult)
      → Session
      → Type 0 where
  over : {s : Session} → Talk name end s [] [] [] s
  answers :
      {s u : Session} {asked : List (ℕ × Target)} {xs : List Exchange}
      {outcomes : List (ℕ × Option PingResult)} (i : ℕ) (t : Target) (v6 : Bool) (address : Text)
      (size : ℕ) (lines : List Answer) (sent : ℕ) (footer w : Text) (reads : List Text)
      (more second : List Signal)
      → IsObeyed t
      → IsReply (build_command t.job) name end v6 address size lines sent footer w
      → IsPrintable lines sent footer
      → joined reads ≡ w ++ end ∷ []
      → IsLive more
      → Talk name end (answered_session (build_command t.job) s more) asked xs outcomes u
      → Talk name end s
          ((i, t) ∷ asked)
          (record { write_ok = true; first = read_loop (reads_of reads) ++ more; second = second }
            ∷ xs)
          ((i, some (result_of lines sent)) ∷ outcomes)
          u
  times_out :
      {s u : Session} {asked : List (ℕ × Target)} {xs : List Exchange}
      {outcomes : List (ℕ × Option PingResult)} (i : ℕ) (t : Target) (x : Exchange)
      → IsLive x.first
      → IsLive x.second
      → (run (build_command t.job) x.write_ok x.first x.second s).0 ≡ err timed_out
      → Talk name end
          (run (build_command t.job) x.write_ok x.first x.second s).1
          asked
          xs
          outcomes
          u
      → Talk name end s ((i, t) ∷ asked) (x ∷ xs) ((i, none) ∷ outcomes) u

module _ (name : Text) (end : ℕ) where
  -- When the router answers or misses a series of jobs on a session with this prompt and an open
  -- channel, then the worker ends with the same session; each run that the router printed is
  -- recorded, in order, for the target whose job asked for it, and its packets are counted for this
  -- target; each job that timed out counts one timeout and nothing else, whatever the router printed
  -- before the prompt came back and after it; and no target of the series is pending.
  pub serve_jobs-Talk :
      {session u : Session} {asked : List (ℕ × Target)} {xs : List Exchange}
      {outcomes : List (ℕ × Option PingResult)} (s : State)
      → Talk name end session asked xs outcomes u
      → IsLive session.chunks
      → session.prompt ≡ name ++ end ∷ []
      → serve_jobs session_runner (jobs_of asked) (record { session = session; exchanges = xs }) s
        ≡ (settle s outcomes, some (record { session = u; exchanges = [] }))
  unfolding serve_jobs run_link
  serve_jobs-Talk s over live prompt = refl
  serve_jobs-Talk {session = session} s
        (answers {asked = asked} {xs = xs} i t v6 address size lines sent footer w reads more second
          obeyed reply printable whole later talk)
        live prompt =
      let rest = serve_jobs-Talk (served s i (result_of lines sent)) talk later prompt in
      let same =
        serve_job-answered t v6 address size name end lines sent footer w session reads more second
          i s xs obeyed reply printable (drain-IsLive session live) prompt whole in
      serve_jobs-kept session_runner t.job (jobs_of asked) i _ _ s _ same ∙ rest
  serve_jobs-Talk {session = session} s
        (times_out {asked = asked} {xs = xs} i t x first second missing talk) live prompt =
      let cmd = build_command t.job in
      let (r, next) = run cmd x.write_ok x.first x.second session in
      let same =
        serve_job-missed session_runner t.job i (record { session = session; exchanges = x ∷ xs })
          (record { session = next; exchanges = xs }) s
          (ap (λ p. (p, record { session = next; exchanges = xs })) missing) in
      let rest =
        serve_jobs-Talk (missed s i) talk
          (run-IsLive cmd x.write_ok x.first x.second session first second live)
          (run-prompt cmd x.write_ok x.first x.second session ∙ prompt) in
      serve_jobs-kept session_runner t.job (jobs_of asked) i _ _ s _ same ∙ rest
