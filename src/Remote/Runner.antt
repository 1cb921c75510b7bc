-- ===== src/Remote/Runner.antt =====
-- The interface `Runner` of remote/scheduler.go: what a scheduler asks of a session on a router.
use smokeping_prober.Prelude.{ℤ, Bool, true, false, not, ◌&&◌, ◌≡◌, Text, Result, ok, err}
use smokeping_prober.Remote.Session.{RunError}

-- The two methods, over a state that a run changes, and whether the session is open.
pub record RunnerInterface : Type 1 where
  pub Conn : Type 0
  pub run_command : Text → ℤ → Conn → Result RunError Text × Conn
  pub close_conn : Conn → Conn
  pub conn_open : Conn → Bool

-- What `runJob` relies on: a run on an open session leaves it open unless its error says that it is
-- closed, or is no timeout; and `Close` closes.
pub record IsLawful (runner : RunnerInterface) : Type 0 where
  pub open-ok :
      (cmd : Text) (deadline : ℤ) (c c' : runner.Conn) (out : Text)
      → runner.conn_open c ≡ true
      → runner.run_command cmd deadline c ≡ (ok out, c')
      → runner.conn_open c' ≡ true
  pub open-err :
      (cmd : Text) (deadline : ℤ) (c c' : runner.Conn) (e : RunError)
      → runner.conn_open c ≡ true
      → runner.run_command cmd deadline c ≡ (err e, c')
      → runner.conn_open c' ≡ (e.is_timeout && not e.is_closed)
  pub open-close : (c : runner.Conn) → runner.conn_open (runner.close_conn c) ≡ false
