-- ===== src/Remote/Dialer/Dial/Dialed.antt =====
-- What `Dial` of remote/session.go gives, on every path.
use smokeping_prober.Prelude.{
  true, false, Option, none, some, List, [], ◌≡◌, ◌≢◌, ◌⊎◌, inl, inr, refl, arith, sym, ap, codes,
  Text, Result, ok, err, Option-cases, Result-cases,
}
use mathlib.Core.Path.{subst}
use smokeping_prober.Remote.Session.{RunError, Session, run}
use smokeping_prober.Remote.Session.Closing.{Ended, run-Ended, run-prompt}
use smokeping_prober.Remote.Session.Login.{
  LearnError, learn_prompt, IsPrompt, Learned, learn_prompt-Learned, learn_prompt-is_open,
}
use smokeping_prober.Remote.Dialer.{
  SshConfig, HostKey, AuthMethod, host_key_callback, auth_methods, auth_methods-nonempty,
}
use smokeping_prober.Remote.Dialer.Dial.{
  ClientConfig, ConnectError, paging_failed, login_failed, dial_failed, handshake_failed, refused,
  Answers, Conn, fresh_session, requests, after_paging, after_login, after_shell, start_shell,
  connect, dial,
}

-- An open session with a prompt, on an open connection without a deadline, or an error and no
-- connection that is open.
abbrev pub Dialed : {F : Type 0} → Result (ConnectError F) Session × Option Conn → Type 0
Dialed {F} (r, conn) =
    ((s : Session) × (r ≡ ok s)
      × (s.is_open ≡ true)
      × IsPrompt s.prompt
      × (conn ≡ some (record { is_open = true; has_deadline = false })))
    ⊎ ((e : ConnectError F) × (r ≡ err e)
        × ((conn ≡ none) ⊎ ((c : Conn) × (conn ≡ some c) × (c.is_open ≡ false))))

-- An output leaves the session open.
still_open :
    (r : Result RunError Text) (s : Session) (out : Text)
    → r ≡ ok out
    → Ended (r, s)
    → s.is_open ≡ true
still_open r s out e ended = ground (arith, e, ended)

prompt_of_login :
    (r : Result LearnError (Unit {0})) (s : Session)
    → r ≡ ok tt
    → Learned fresh_session (r, s)
    → IsPrompt s.prompt
prompt_of_login r s e (inl (_, p, _)) = p
prompt_of_login r s e (inr (x, odd, _)) = cc

module _ {F : Type 0} (answers : Answers F) where
  -- The same before `Dial` clears the deadline, or closes what is left open.
  abbrev Started : Result (ConnectError F) Session × Conn → Type 0
  Started (r, conn) =
      ((s : Session) × (r ≡ ok s) × (s.is_open ≡ true) × IsPrompt s.prompt × (conn.is_open ≡ true))
      ⊎ ((e : ConnectError F) × (r ≡ err e))

  after_paging-Started :
      (conn : Conn) (r : Result RunError Text) (s : Session)
      → conn.is_open ≡ true
      → IsPrompt s.prompt
      → ((out : Text) → r ≡ ok out → s.is_open ≡ true)
      → Started (after_paging answers conn (r, s))
  unfolding after_paging
  after_paging-Started conn (err e) s o p h = inr (paging_failed e, refl)
  after_paging-Started conn (ok out) s o p h = inl (s, refl, h out refl, p, o)

  after_login-Started :
      (conn : Conn) (r : Result LearnError (Unit {0})) (s : Session)
      → conn.is_open ≡ true
      → s.is_open ≡ true
      → (r ≡ ok tt → IsPrompt s.prompt)
      → Started (after_login answers conn (r, s))
  unfolding after_login
  after_login-Started conn (err e) s o open_before h = inr (login_failed e, refl)
  after_login-Started conn (ok u) s o open_before h =
      let cmd = codes "screen-length 0 temporary" in
      let ended = run-Ended cmd answers.write_ok answers.first answers.second s open_before in
      let kept = run-prompt cmd answers.write_ok answers.first answers.second s in
      let (r, s') = run cmd answers.write_ok answers.first answers.second s in
      after_paging-Started conn r s' o (subst IsPrompt (sym kept) (h refl))
        (λ out e. still_open r s' out e ended)

  start_shell-Started : (conn : Conn) → conn.is_open ≡ true → Started (start_shell answers conn)
  unfolding start_shell
  start_shell-Started conn o =
      let learned = learn_prompt-Learned answers.greeting fresh_session in
      let opened = learn_prompt-is_open answers.greeting fresh_session in
      let (r, s) = learn_prompt answers.greeting fresh_session in
      elim (Result-cases (requests answers)) [
        | inr (e, q) ↦ rw (q, start_shell) (inr (e, refl))
        | inl (u, q) ↦
            rw (q, start_shell)
              (after_login-Started conn r s o opened (λ e. prompt_of_login r s e learned))
      ]

  after_shell-Dialed :
      (r : Result (ConnectError F) Session) (conn : Conn)
      → Started (r, conn)
      → Dialed (after_shell answers (r, conn))
  unfolding after_shell
  after_shell-Dialed (err e) conn h = inr (e, refl, inr (_, refl, refl))
  after_shell-Dialed (ok s) conn (inl (t, e, o, p, c)) =
      inl (t, e, o, p, ap (λ x. some (record { is_open = x; has_deadline = false })) c)
  after_shell-Dialed (ok s) conn (inr (e, odd)) = cc

  connect-Dialed : (handshake : Option F) → Dialed (connect answers handshake)
  unfolding connect
  connect-Dialed handshake = elim (Option-cases answers.dialing) [
    | inr (e, q) ↦ rw (q, connect) (inr (dial_failed e, refl, inl refl))
    | inl q ↦ elim (Option-cases handshake) [
      | inr (e, h) ↦ rw (q, h, connect) (inr (handshake_failed e, refl, inr (_, refl, refl)))
      | inl h ↦
          let started = start_shell-Started (record { is_open = true; has_deadline = true }) refl in
          let (r, conn) = start_shell answers (record { is_open = true; has_deadline = true }) in
          rw (q, h, connect) (after_shell-Dialed r conn started)
    ]
  ]

module _ {F H S : Type 0} (known_hosts : Text → Result F H) (parse_key : Text → Result F S)
    (new_client_conn : Text → ClientConfig H S → Option F) where
  -- `Dial` returns an open session whose prompt is learned, on an open connection whose deadline
  -- is cleared, and only with a host key policy and credentials that the settings give; or it
  -- returns an error and leaves no connection open.
  pub dial-Dialed :
      (cfg : SshConfig) (answers : Answers F)
      → Dialed (dial known_hosts parse_key new_client_conn cfg answers)
        × ((s : Session)
            → (dial known_hosts parse_key new_client_conn cfg answers).0 ≡ ok s
            → ((k : HostKey H) × (host_key_callback known_hosts parse_key cfg ≡ ok k))
              × ((auth : List (AuthMethod S)) × (auth_methods known_hosts parse_key cfg ≡ ok auth)
                  × (auth ≢ [])))
  unfolding dial
  dial-Dialed cfg answers = elim (Result-cases (host_key_callback known_hosts parse_key cfg)) [
    | inr (e, k) ↦ rw (k, dial) (inr (refused e, refl, inl refl), λ s odd. cc)
    | inl (host_key, k) ↦ elim (Result-cases (auth_methods known_hosts parse_key cfg)) [
      | inr (e, m) ↦ rw (k, m, dial) (inr (refused e, refl, inl refl), λ s odd. cc)
      | inl (auth, m) ↦
          let given = auth_methods-nonempty known_hosts parse_key cfg auth m in
          rw (k, m, dial) (connect-Dialed answers _, λ s e. ((host_key, refl), (auth, refl, given)))
    ]
  ]

  -- The configuration that `Dial` gives to package ssh when it returns a session.
  pub dial-ClientConfig :
      (cfg : SshConfig) (answers : Answers F) (s : Session)
      → (dial known_hosts parse_key new_client_conn cfg answers).0 ≡ ok s
      → (client : ClientConfig H S) × (new_client_conn cfg.address client ≡ none)
        × (client.user ≡ cfg.username)
        × (host_key_callback known_hosts parse_key cfg ≡ ok client.host_key_callback)
        × (auth_methods known_hosts parse_key cfg ≡ ok client.auth)
  unfolding dial connect
  dial-ClientConfig cfg answers s e =
      elim (Result-cases (host_key_callback known_hosts parse_key cfg)) [
        | inr (x, k) ↦ absurd (ground arith)
        | inl (host_key, k) ↦ elim (Result-cases (auth_methods known_hosts parse_key cfg)) [
          | inr (x, m) ↦ absurd (ground arith)
          | inl (auth, m) ↦
              let client : ClientConfig H S = record {
                user = cfg.username;
                auth = auth;
                host_key_callback = host_key;
              } in
              elim (Option-cases (new_client_conn cfg.address client)) [
                | inl made ↦ (client, made, refl, k, m)
                | inr (x, failed) ↦ elim (Option-cases answers.dialing) [
                  | inl q ↦ absurd (ground arith)
                  | inr (y, q) ↦ absurd (ground arith)
                ]
              ]
        ]
      ]
