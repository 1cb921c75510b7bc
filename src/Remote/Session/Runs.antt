-- ===== src/Remote/Session/Runs.antt =====
-- A session with what it will receive, as the runner of a scheduler.
use smokeping_prober.Prelude.{
  ℤ, Bool, true, not, ◌&&◌, List, [], ◌∷◌, ◌≡◌, refl, ap, sym, ◌∙◌, inl, inr, arith, Text, Result,
  ok, err,
}
use smokeping_prober.Remote.Runner.{RunnerInterface, IsLawful}
use smokeping_prober.Remote.Session.{RunError, Signal, Session, run, close}
use smokeping_prober.Remote.Session.Closing.{Ended, run-Ended}

-- What comes during one run: whether the write succeeds, and the signals before the deadline of the
-- command and after a Ctrl-C.
pub record Exchange : Type 0 where
  pub write_ok : Bool
  pub first : List Signal
  pub second : List Signal

-- A session, and what comes during each of the next runs.
pub record Wire : Type 0 where
  pub session : Session
  pub exchanges : List Exchange

-- Without an exchange nothing comes at all.
abbrev silence : Exchange
silence = record { write_ok = true; first = []; second = [] }

abbrev next_exchange : List Exchange → Exchange
next_exchange [] = silence
next_exchange (x ∷ xs) = x

abbrev later_exchanges : List Exchange → List Exchange
later_exchanges [] = []
later_exchanges (x ∷ xs) = xs

-- `Run` on a wire.
unfoldable pub run_link : Text → ℤ → Wire → Result RunError Text × Wire
run_link cmd deadline l =
    let x = next_exchange l.exchanges in
    let (r, s) = run cmd x.write_ok x.first x.second l.session in
    (r, record { session = s; exchanges = later_exchanges l.exchanges })

-- `Session` as a `Runner`.
abbrev pub session_runner : RunnerInterface
session_runner = record {
  Conn = Wire;
  run_command = run_link;
  close_conn = λ l. record l { session = close l.session };
  conn_open = λ l. l.session.is_open;
}

Ended-ok :
    (r : Result RunError Text × Session) (out : Text) → Ended r → r.0 ≡ ok out → r.1.is_open ≡ true
Ended-ok r out (inl (_, _, e)) q = e
Ended-ok r out (inr (inl (p, e))) q = ground arith
Ended-ok r out (inr (inr (inl (p, e)))) q = ground arith
Ended-ok r out (inr (inr (inr (p, e)))) q = ground arith

Ended-err :
    (r : Result RunError Text × Session) (e : RunError)
    → Ended r
    → r.0 ≡ err e
    → r.1.is_open ≡ (e.is_timeout && not e.is_closed)
Ended-err r e (inl (_, p, _)) q = ground arith
Ended-err r e (inr (inl (p, o))) q = ground arith
Ended-err r e (inr (inr (inl (p, o)))) q = ground arith
Ended-err r e (inr (inr (inr (p, o)))) q = ground arith

-- `Run` and `Close` of a session keep what a scheduler relies on.
pub session_runner-IsLawful : IsLawful session_runner
unfolding run_link close
session_runner-IsLawful = record {
  open-ok = λ cmd deadline l l' out o q.
      let x = next_exchange l.exchanges in
      let ended = run-Ended cmd x.write_ok x.first x.second l.session o in
      ap (λ p. p.1.session.is_open) (sym q)
      ∙ Ended-ok (run cmd x.write_ok x.first x.second l.session) out ended (ap (λ p. p.0) q);
  open-err = λ cmd deadline l l' e o q.
      let x = next_exchange l.exchanges in
      let ended = run-Ended cmd x.write_ok x.first x.second l.session o in
      ap (λ p. p.1.session.is_open) (sym q)
      ∙ Ended-err (run cmd x.write_ok x.first x.second l.session) e ended (ap (λ p. p.0) q);
  open-close = λ l. refl;
}
