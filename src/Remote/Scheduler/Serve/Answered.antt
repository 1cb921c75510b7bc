-- ===== src/Remote/Scheduler/Serve/Answered.antt =====
-- A job of a target on a session whose router answers it, from the command to the recorder.
use smokeping_prober.Prelude.{
  ok, ℕ, ◌≤◌, Bool, true, false, some, List, [], ◌∷◌, ◌++◌, ◌≡◌, ◌≢◌, ap, sym, ◌∙◌, append_assoc,
  All, All-map, arith, Text, any, contains_text, from_index, length, max_int,
}
use smokeping_prober.Prelude.Strings.Trims.{Trims}
use smokeping_prober.Prelude.Strings.Occurs.{from_index-line}
use smokeping_prober.Remote.Huawei.{build_command}
use smokeping_prober.Remote.Huawei.Command.{build_command-target}
use smokeping_prober.Remote.Huawei.Parse.{PingResult, parse_output}
use smokeping_prober.Remote.Huawei.Parse.Lines.{IsAddressByte, Answer}
use smokeping_prober.Remote.Huawei.Parse.Passing.{reply_head, timeout_head}
use smokeping_prober.Remote.Huawei.Parse.Printed.{print_run, replies_of, lost_of}
use smokeping_prober.Remote.Huawei.Parse.RoundTrip.{Fits}
use smokeping_prober.Remote.Session.{Signal, Session, text, is_pad, drain, last_token, run}
use smokeping_prober.Remote.Session.Answer.{answered_session}
use smokeping_prober.Remote.Session.Pinged.{run-print_run}
use smokeping_prober.Remote.Session.Plain.{IsPlain}
use smokeping_prober.Remote.Session.Runs.{Exchange, Wire, session_runner, run_link}
use smokeping_prober.Remote.Session.Reading.{read_loop, reads_of, read_loop-chunks}
use smokeping_prober.Remote.Session.Wait.{joined}
use smokeping_prober.Remote.Targets.{Target}
use smokeping_prober.Remote.Targets.Commands.{IsObeyed}
use smokeping_prober.Remote.Scheduler.{State}
use smokeping_prober.Remote.Scheduler.Serve.{served, serve_job, serve_job-served}

-- What a router with this prompt prints for a command, in whatever bytes: the echo of the command,
-- the output of a run with these answers and counts, and the prompt. The last byte of the prompt is
-- no space and comes nowhere before, and no byte starts an ANSI sequence.
pub record IsReply (cmd name : Text) (end : ℕ) (v6 : Bool) (address : Text) (size : ℕ)
    (answers : List Answer) (sent : ℕ) (footer w : Text) : Type 0 where
  pub shown :
      text (w ++ end ∷ [])
      ≡ (cmd ++ 10 ∷ print_run v6 address size answers sent (length (replies_of answers)) footer)
        ++ (name ++ end ∷ [])
  pub plain : All (IsPlain end) w
  pub solid : is_pad end ≡ false
  pub address_bytes : All IsAddressByte address

-- The numbers of a run fit the machine's, and what stands behind its counts is no reply and no
-- timeout, and more than white space.
pub record IsPrintable (answers : List Answer) (sent : ℕ) (footer : Text) : Type 0 where
  pub fits : All Fits answers
  pub sent_fits : sent ≤ max_int
  pub received_fits : length (replies_of answers) ≤ max_int
  pub left : Text
  pub trims : Trims footer left
  pub no_reply : any reply_head left ≡ false
  pub no_timeout : any timeout_head left ≡ false

-- The result of the run.
abbrev pub result_of : List Answer → ℕ → PingResult
result_of answers sent = record {
  sent = sent;
  replies = replies_of answers;
  timeouts = lost_of answers;
}

-- The session before the command: what is read then, and what comes later.
abbrev pub wire_before : Session → List Text → List Signal → List Signal → List Exchange → Wire
wire_before s reads more second later = record {
  session = s;
  exchanges =
      record { write_ok = true; first = read_loop (reads_of reads) ++ more; second = second }
      ∷ later;
}

-- The session after the answer, and what comes later.
abbrev pub wire_after : Text → Session → List Signal → List Exchange → Wire
wire_after cmd s more later = record { session = answered_session cmd s more; exchanges = later }

module _ (t : Target) (v6 : Bool) (address : Text) (size : ℕ) (name : Text) (end : ℕ)
    (answers : List Answer) (sent : ℕ) (footer w : Text) where
  -- The first place of the target in what the router prints is in the echo of the command.
  echoed :
      IsObeyed t
      → IsReply (build_command t.job) name end v6 address size answers sent footer w
      → let body = print_run v6 address size answers sent (length (replies_of answers)) footer in
        (line : Text) × (from_index (last_token (build_command t.job)) (text (w ++ end ∷ []))
          ≡ some ((line ++ 10 ∷ body) ++ (name ++ end ∷ [])))
        × All (λ c. c ≢ 10) line
        × (contains_text line (last_token (build_command t.job)) ≡ true)
  echoed obeyed reply =
      let cmd = build_command t.job in
      let prompt = name ++ end ∷ [] in
      let body = print_run v6 address size answers sent (length (replies_of answers)) footer in
      let one = All-map t.job.target (λ c h. ground arith) obeyed.target_token.1 in
      let (line, found, one_line, holds) =
        from_index-line (λ c. c ≢ 10) t.job.target cmd (body ++ prompt) one obeyed.one_line
          (build_command-target t.job) in
      let first =
        ap (from_index t.job.target) (reply.shown ∙ append_assoc cmd (10 ∷ body) prompt)
        ∙ found
        ∙ ap some (sym (append_assoc line (10 ∷ body) prompt)) in
      (
        line,
        ap (λ a. from_index a (text (w ++ end ∷ []))) obeyed.anchor ∙ first,
        one_line,
        ap (contains_text line) obeyed.anchor ∙ holds,
      )

  module _ (session : Session) (reads : List Text) (more second : List Signal) where
    run-reply :
        IsObeyed t
        → IsReply (build_command t.job) name end v6 address size answers sent footer w
        → IsPrintable answers sent footer
        → (drain session).chunks ≡ []
        → session.prompt ≡ name ++ end ∷ []
        → joined reads ≡ w ++ end ∷ []
        → (out : Text) × (run
              (build_command t.job)
              true
              (read_loop (reads_of reads) ++ more)
              second
              session
            ≡ (ok out, answered_session (build_command t.job) session more))
          × (parse_output out ≡ ok (result_of answers sent))
    run-reply obeyed reply printable quiet prompt whole =
        let cmd = build_command t.job in
        let (line, first, one_line, holds) = echoed obeyed reply in
        let (cs, chunked, filled, same) = read_loop-chunks reads in
        let some_anchor : last_token cmd ≢ [] =
          λ e. obeyed.target_token.0 (sym obeyed.anchor ∙ e) in
        let (out, ran, parsed) =
          run-print_run v6 address size reply.address_bytes cmd w line cs more second session end
            name answers sent footer printable.left quiet prompt reply.solid reply.plain filled
            (same ∙ whole) some_anchor one_line holds first printable.trims printable.fits
            printable.sent_fits printable.received_fits printable.no_reply printable.no_timeout in
        (out, ap (λ signals. run cmd true (signals ++ more) second session) chunked ∙ ran, parsed)

    -- For a target whose command the router obeys, on a session with this prompt and an empty
    -- channel: when the router answers the command of a job with its echo, the printed output of a
    -- run and its prompt, in whatever reads these bytes come, then the worker records exactly that
    -- run for this target and adds its packets to the target's count, modulo 2 ^ 64; the target is
    -- no longer pending, nothing else of the state of the scheduler changes, and the worker goes on
    -- with the same session, on which the command is written and the signals behind the answer are
    -- unread.
    pub serve_job-answered :
        (i : ℕ) (s : State) (later : List Exchange)
        → IsObeyed t
        → IsReply (build_command t.job) name end v6 address size answers sent footer w
        → IsPrintable answers sent footer
        → (drain session).chunks ≡ []
        → session.prompt ≡ name ++ end ∷ []
        → joined reads ≡ w ++ end ∷ []
        → let next = wire_after (build_command t.job) session more later in
          serve_job session_runner t.job i (wire_before session reads more second later) s
          ≡ (served s i (result_of answers sent), some next, next)
    unfolding run_link
    serve_job-answered i s later obeyed reply printable quiet prompt whole =
        let (out, ran, parsed) = run-reply obeyed reply printable quiet prompt whole in
        serve_job-served session_runner t.job i (wire_before session reads more second later)
          (wire_after (build_command t.job) session more later) s out (result_of answers sent)
          (ap (λ r. (r.0, record { session = r.1; exchanges = later })) ran) parsed
