-- ===== src/Remote/Dialer/Dial/Opened.antt =====
-- The dialer of `NewSSHDialer` of remote/targets.go, from the configuration of a router to an open
-- session.
use smokeping_prober.Prelude.{
  Bool, Bool-cases, is_empty, is_empty_iff, true, false, Option, none, some, [], ◌≡◌, ◌≢◌, ◌⊎◌, inl,
  inr, arith, sym, ap, ◌∙◌, Text, Result, ok,
}
use mathlib.Core.Path.{subst}
use smokeping_prober.Net.{Net}
use smokeping_prober.Config.{Router}
use smokeping_prober.Config.Valid.{IsRouter}
use smokeping_prober.Remote.Session.{Session}
use smokeping_prober.Remote.Session.Login.{IsPrompt}
use smokeping_prober.Remote.Dialer.{
  SshConfig, HostKey, ignores, checks, new_ssh_dialer, new_ssh_dialer-keeps, host_key_callback,
  auth_methods-nonempty, new_ssh_dialer_lem, DecidesHostKey,
}
use smokeping_prober.Remote.Dialer.Dial.{ClientConfig, ConnectError, Answers, Conn, dial}
use smokeping_prober.Remote.Dialer.Dial.Dialed.{Dialed, dial-Dialed, dial-ClientConfig}

opened :
    {F : Type 0} (r : Result (ConnectError F) Session) (conn : Option Conn) (s : Session)
    → Dialed (r, conn)
    → r ≡ ok s
    → (s.is_open ≡ true)
      × IsPrompt s.prompt
      × (conn ≡ some (record { is_open = true; has_deadline = false }))
opened r conn s (inl (s', p, is_open, prompt, there)) e =
    let same : s' ≡ s = cc in
    (
      ap (λ (x : Session). x.is_open) (sym same) ∙ is_open,
      subst (λ (x : Session). IsPrompt x.prompt) same prompt,
      there,
    )
opened r conn s (inr (x, p, _)) e = cc

module _ {F H S : Type 0} (known_hosts : Text → Result F H) (parse_key : Text → Result F S)
    (new_client_conn : Text → ClientConfig H S → Option F) where
  -- The dialer that `NewSSHDialer` returns; the warning about the host key is left out.
  abbrev pub dialer : SshConfig → Answers F → Result (ConnectError F) Session × Option Conn
  dialer cfg answers = dial known_hosts parse_key new_client_conn cfg answers

  -- The documentation of `HostKeyCallback`: a handshake succeeds only if the callback accepts the
  -- key that the router presents.
  abbrev pub AsksCallback : (H → Bool) → Type 0
  AsksCallback accepts =
      (address : Text) (client : ClientConfig H S) (cb : H)
      → client.host_key_callback ≡ checks cb
      → new_client_conn address client ≡ none
      → accepts cb ≡ true

  -- The known hosts of the router were loaded and accept the key that it presents, unless its
  -- configuration skips the check.
  abbrev pub IsVerified : (H → Bool) → Router → HostKey H → Type 0
  IsVerified accepts r host_key =
      ((r.insecure_skip_host_key ≡ true) × (host_key ≡ ignores))
      ⊎ ((r.insecure_skip_host_key ≡ false)
          × ((cb : H) × (known_hosts r.known_hosts ≡ ok cb)
              × (host_key ≡ checks cb)
              × (accepts cb ≡ true)))

  verified :
      (accepts : H → Bool)
      → AsksCallback accepts
      → (r : Router) (cfg : SshConfig) (client : ClientConfig H S)
      → new_client_conn cfg.address client ≡ none
      → DecidesHostKey known_hosts parse_key cfg r.insecure_skip_host_key r.known_hosts
      → host_key_callback known_hosts parse_key cfg ≡ ok client.host_key_callback
      → IsVerified accepts r client.host_key_callback
  verified accepts asks r cfg client made (inl (k', skips)) k = inl (skips, ground arith)
  verified accepts asks r cfg client made (inr (no_skip, inl (cb, loaded, k'))) k =
      let same : client.host_key_callback ≡ checks cb = ground arith in
      inr (no_skip, (cb, loaded, same, asks cfg.address client cb same made))
  verified accepts asks r cfg client made (inr (no_skip, inr (e, _, failed))) k = cc

  -- If a handshake succeeds only when the callback for the host key accepts the key of the router:
  -- when the dialer of a valid router gives a session, this is open, with a learned prompt, on an
  -- open connection without a deadline; package ssh made the connection to the address of the
  -- router, for its user and with a way to log in, and the known hosts of the router were loaded
  -- and accept its key, unless its configuration skips the check.
  pub dialer-IsVerified :
      (net : Net) (read_file : Text → Result F Text) (r : Router) (cfg : SshConfig)
      (answers : Answers F) (s : Session) (accepts : H → Bool)
      → AsksCallback accepts
      → IsRouter net r
      → new_ssh_dialer read_file r ≡ ok cfg
      → (dialer cfg answers).0 ≡ ok s
      → (s.is_open ≡ true)
        × IsPrompt s.prompt
        × ((dialer cfg answers).1 ≡ some (record { is_open = true; has_deadline = false }))
        × ((client : ClientConfig H S) × (new_client_conn r.address client ≡ none)
            × (client.user ≡ r.username)
            × (client.auth ≢ [])
            × IsVerified accepts r client.host_key_callback)
        × ((cfg.private_key ≢ []) ⊎ (cfg.password ≢ []))
  dialer-IsVerified net read_file r cfg answers s accepts asks valid read e =
      let (decides, lacks) =
        new_ssh_dialer_lem known_hosts parse_key net read_file r cfg valid read in
      let (_, _, address, user) = new_ssh_dialer-keeps read_file r cfg read in
      let (dialed, _) = dial-Dialed known_hosts parse_key new_client_conn cfg answers in
      let (client, made, name, k, m) =
        dial-ClientConfig known_hosts parse_key new_client_conn cfg answers s e in
      let (is_open, prompt, conn) = opened _ _ s dialed e in
      (
        is_open,
        prompt,
        conn,
        (
          client,
          subst (λ a. new_client_conn a client ≡ none) address made,
          name ∙ user,
          auth_methods-nonempty known_hosts parse_key cfg client.auth m,
          verified accepts asks r cfg client made decides k,
        ),
        elim (Bool-cases (is_empty cfg.private_key)) [
          | inr key ↦ inl (ground (arith, is_empty_iff cfg.private_key))
          | inl no_key ↦ inr (λ no_password.
              let failed = lacks.1 ((is_empty_iff cfg.private_key).0 no_key, no_password) in cc)
        ],
      )
