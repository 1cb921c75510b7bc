-- ===== src/Remote/Dialer/Dial.antt =====
-- `Dial` and `startShell` of remote/session.go. What package ssh and the router answer is a
-- parameter; a context that is cancelled meanwhile closes the connection, so that the calls fail.
pub mod Dialed
pub mod Opened
use smokeping_prober.Prelude.{
  Bool, true, false, Option, none, some, List, [], codes, Text, Result, ok, err, ◌>>=◌, ◌>>◌,
}
use smokeping_prober.Remote.Session.{RunError, Signal, Session, run}
use smokeping_prober.Remote.Session.Login.{LearnError, learn_prompt}
use smokeping_prober.Remote.Dialer.{
  SshConfig, HostKey, AuthMethod, DialError, host_key_callback, auth_methods,
}

-- The calls of package ssh that `startShell` makes, in order.
pub data ShellCall : Type 0 where
  new_session stdin_pipe stdout_pipe request_pty shell : ShellCall

pub data ConnectError (F : Type 0) : Type 0 where
  refused : DialError F → ConnectError F
  dial_failed handshake_failed : F → ConnectError F
  call_failed : ShellCall → F → ConnectError F
  login_failed : LearnError → ConnectError F
  paging_failed : RunError → ConnectError F

-- The answers: an error, or none, of each call; what the router sends before the timer of the login
-- fires; and for the command that disables paging those that `Run` takes.
pub record Answers (F : Type 0) : Type 0 where
  pub dialing : Option F
  pub call : ShellCall → Option F
  pub greeting : List Signal
  pub write_ok : Bool
  pub first : List Signal
  pub second : List Signal

-- `ssh.ClientConfig`, without the timeout.
pub record ClientConfig (H S : Type 0) : Type 0 where
  pub user : Text
  pub auth : List (AuthMethod S)
  pub host_key_callback : HostKey H

-- The TCP connection: whether it is open, and whether a deadline is set on it.
pub record Conn : Type 0 where
  pub is_open : Bool
  pub has_deadline : Bool

abbrev pub fresh_session : Session
fresh_session = record { chunks = []; buf = []; prompt = []; is_open = true; written = [] }

module _ {F : Type 0} (answers : Answers F) where
  request : ShellCall → Result (ConnectError F) (Unit {0})
  request c = elim (answers.call c) [ none ↦ ok tt | some e ↦ err (call_failed c e) ]

  -- The command that disables paging has run; an error closes the session, and with it the
  -- connection.
  after_paging : Conn → Result RunError Text × Session → Result (ConnectError F) Session × Conn
  after_paging conn (err e, s) = (err (paging_failed e), record conn { is_open = false })
  after_paging conn (ok _, s) = (ok s, conn)

  -- `learnPrompt` has returned.
  after_login :
      Conn → Result LearnError (Unit {0}) × Session → Result (ConnectError F) Session × Conn
  unfolding after_paging
  after_login conn (err e, s) = (err (login_failed e), record conn { is_open = false })
  after_login conn (ok _, s) =
      after_paging conn
        (run (codes "screen-length 0 temporary") answers.write_ok answers.first answers.second s)

  requests : Result (ConnectError F) (Unit {0})
  unfolding request
  requests = do
    request new_session
    request stdin_pipe
    request stdout_pipe
    request request_pty
    request shell

  -- `startShell`
  unfoldable pub start_shell : Conn → Result (ConnectError F) Session × Conn
  unfolding requests after_login
  start_shell conn = elim requests [
    | err e ↦ (err e, conn)
    | ok _ ↦ after_login conn (learn_prompt answers.greeting fresh_session)
  ]

  after_shell :
      Result (ConnectError F) Session × Conn → Result (ConnectError F) Session × Option Conn
  after_shell (err e, conn) = (err e, some (record conn { is_open = false }))
  after_shell (ok s, conn) = (ok s, some (record conn { has_deadline = false }))

  -- `Dial` behind its checks of the settings, with the answer of `ssh.NewClientConn`. No connection
  -- is `none`.
  unfoldable pub connect : Option F → Result (ConnectError F) Session × Option Conn
  unfolding start_shell after_shell
  connect handshake = elim answers.dialing [
    | some e ↦ (err (dial_failed e), none)
    | none ↦ elim handshake [
      | some e ↦ (err (handshake_failed e), some (record { is_open = false; has_deadline = true }))
      | none ↦ after_shell (start_shell (record { is_open = true; has_deadline = true }))
    ]
  ]

-- `ssh.NewClientConn` for an address and a configuration, with its error, is a parameter.
module _ {F H S : Type 0} (known_hosts : Text → Result F H) (parse_key : Text → Result F S)
    (new_client_conn : Text → ClientConfig H S → Option F) where
  -- `Dial`
  unfoldable pub dial : SshConfig → Answers F → Result (ConnectError F) Session × Option Conn
  unfolding connect
  dial cfg answers = elim (host_key_callback known_hosts parse_key cfg) [
    | err e ↦ (err (refused e), none)
    | ok host_key ↦ elim (auth_methods known_hosts parse_key cfg) [
      | err e ↦ (err (refused e), none)
      | ok auth ↦ connect answers (
          new_client_conn cfg.address
            record { user = cfg.username; auth = auth; host_key_callback = host_key })
    ]
  ]
