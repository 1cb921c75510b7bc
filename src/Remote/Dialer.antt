-- ===== src/Remote/Dialer.antt =====
-- `NewSSHDialer` of remote/targets.go, and `hostKeyCallback` and `authMethods` of
-- remote/session.go. The file system and the parsers of package ssh are parameters.
pub mod Dial
use smokeping_prober.Prelude.{
  ℕ, Bool, true, false, ◌||◌, List, [], ◌∷◌, ◌++◌, ◌≡◌, ◌≢◌, ◌⊎◌, ◌↔◌, inl, inr, sym, arith, Text,
  is_empty, is_empty_iff, trim_right, ◌==◌, if◌then◌else◌, Result, ok, err, Result-cases,
  Bool-cases, ◌>>=◌,
}
use mathlib.Core.Path.{subst}
use smokeping_prober.Net.{Net}
use smokeping_prober.Config.{Router}
use smokeping_prober.Config.Valid.{IsRouter}

-- `DialTimeout` is ten seconds for every router.
pub record SshConfig : Type 0 where
  pub address : Text
  pub username : Text
  pub password : Text
  pub private_key : Text
  pub known_hosts_file : Text
  pub insecure_skip_host_key : Bool

pub data DialError (F : Type 0) : Type 0 where
  reading_password reading_private_key : F → DialError F
  known_hosts_required no_credentials : DialError F
  bad_known_hosts bad_private_key : F → DialError F

pub data HostKey (H : Type 0) : Type 0 where
  ignores : HostKey H
  checks : H → HostKey H

-- `public_keys` has the signer of the key; the interactive method answers each question with the
-- password.
pub data AuthMethod (S : Type 0) : Type 0 where
  public_keys : S → AuthMethod S
  password keyboard_interactive : Text → AuthMethod S

-- The bytes of `TrimRight(_, "\r\n")`.
abbrev is_line_end : ℕ → Bool
is_line_end c = c == b'\r' || c == b'\n'

module _ {F : Type 0} (read_file : Text → Result F Text) where
  -- The contents of a file if a name is given.
  abbrev read_optional : (F → DialError F) → Text → Result (DialError F) Text
  read_optional failed name =
      if is_empty name
      then ok []
      else elim (read_file name) [ err e ↦ err (failed e) | ok b ↦ ok b ]

  -- `NewSSHDialer`: the settings that the dialer keeps.
  unfoldable pub new_ssh_dialer : Router → Result (DialError F) SshConfig
  new_ssh_dialer r = read_optional reading_password r.password_file >>= λ word.
      read_optional reading_private_key r.private_key_file >>= λ key. ok record {
        address = r.address;
        username = r.username;
        password = trim_right is_line_end word;
        private_key = key;
        known_hosts_file = r.known_hosts;
        insecure_skip_host_key = r.insecure_skip_host_key;
      }

  pub new_ssh_dialer-keeps :
      (r : Router) (cfg : SshConfig)
      → new_ssh_dialer r ≡ ok cfg
      → (cfg.insecure_skip_host_key ≡ r.insecure_skip_host_key)
        × (cfg.known_hosts_file ≡ r.known_hosts)
        × (cfg.address ≡ r.address)
        × (cfg.username ≡ r.username)
  unfolding new_ssh_dialer
  new_ssh_dialer-keeps r cfg e =
      elim (Result-cases (read_optional reading_password r.password_file)) [
        | inr (x, f) ↦ ground (arith, e, f)
        | inl (word, f) ↦
            elim (Result-cases (read_optional reading_private_key r.private_key_file)) [
              | inr (x, g) ↦ ground (arith, e, f, g)
              | inl (key, g) ↦ ground (arith, e, f, g)
            ]
      ]

module _ {F H S : Type 0} (known_hosts : Text → Result F H) (parse_key : Text → Result F S) where
  unfoldable pub host_key_callback : SshConfig → Result (DialError F) (HostKey H)
  host_key_callback cfg =
      if cfg.insecure_skip_host_key
      then ok ignores
      else if is_empty cfg.known_hosts_file
      then err known_hosts_required
      else elim (known_hosts cfg.known_hosts_file) [
        | err e ↦ err (bad_known_hosts e)
        | ok cb ↦ ok (checks cb)
      ]

  key_methods : SshConfig → Result (DialError F) (List (AuthMethod S))
  key_methods cfg = if is_empty cfg.private_key then ok [] else elim (parse_key cfg.private_key) [
    | err e ↦ err (bad_private_key e)
    | ok signer ↦ ok (public_keys signer ∷ [])
  ]

  password_methods : SshConfig → List (AuthMethod S)
  password_methods cfg =
      if is_empty cfg.password
      then []
      else password cfg.password ∷ keyboard_interactive cfg.password ∷ []

  unfoldable pub auth_methods : SshConfig → Result (DialError F) (List (AuthMethod S))
  unfolding key_methods password_methods
  auth_methods cfg = key_methods cfg >>= λ keys.
      let auth = keys ++ password_methods cfg in
      if is_empty auth then err no_credentials else ok auth

  -- What the callback of some settings is, if the host key is checked or the check is skipped.
  abbrev pub DecidesHostKey : SshConfig → Bool → Text → Type 0
  DecidesHostKey cfg skip file =
      ((host_key_callback cfg ≡ ok ignores) × (skip ≡ true))
      ⊎ ((skip ≡ false)
          × (((cb : H) × (known_hosts file ≡ ok cb) × (host_key_callback cfg ≡ ok (checks cb)))
              ⊎ ((e : F) × (known_hosts file ≡ err e)
                  × (host_key_callback cfg ≡ err (bad_known_hosts e)))))

  host_key_callback-Decides :
      (cfg : SshConfig)
      → (cfg.known_hosts_file ≢ []) ⊎ (cfg.insecure_skip_host_key ≡ true)
      → DecidesHostKey cfg cfg.insecure_skip_host_key cfg.known_hosts_file
  unfolding host_key_callback
  host_key_callback-Decides cfg h = elim (Bool-cases cfg.insecure_skip_host_key) [
    | inl skip ↦ inl (ground (arith, skip))
    | inr skip ↦ elim (Result-cases (known_hosts cfg.known_hosts_file)) [
      | inl (cb, k) ↦
          inr (skip, inl (cb, k, (ground (arith, skip, k, h, is_empty_iff cfg.known_hosts_file))))
      | inr (x, k) ↦
          inr (skip, inr (x, k, (ground (arith, skip, k, h, is_empty_iff cfg.known_hosts_file))))
    ]
  ]

  auth_methods_iff :
      (cfg : SshConfig)
      → (auth_methods cfg ≡ err no_credentials) ↔ ((cfg.private_key ≡ []) × (cfg.password ≡ []))
  unfolding auth_methods key_methods password_methods
  auth_methods_iff cfg = elim (Bool-cases (is_empty cfg.private_key)) [
    | inl k ↦ elim (Bool-cases (is_empty cfg.password)) [
      | inl w ↦ ground (arith, k, w, is_empty_iff cfg.private_key, is_empty_iff cfg.password)
      | inr w ↦ ground (arith, k, w, is_empty_iff cfg.private_key, is_empty_iff cfg.password)
    ]
    | inr k ↦ elim (Result-cases (parse_key cfg.private_key)) [
      | inl (signer, q) ↦ ground (arith, k, q, is_empty_iff cfg.private_key)
      | inr (x, q) ↦ ground (arith, k, q, is_empty_iff cfg.private_key)
    ]
  ]

  pub auth_methods-nonempty :
      (cfg : SshConfig) (auth : List (AuthMethod S)) → auth_methods cfg ≡ ok auth → auth ≢ []
  unfolding auth_methods
  auth_methods-nonempty cfg auth e = elim (Result-cases (key_methods cfg)) [
    | inl (keys, k) ↦ ground (arith, e, k, is_empty_iff (keys ++ password_methods cfg))
    | inr (x, k) ↦ ground (arith, e, k)
  ]

  -- The dialer of a valid router whose files can be read skips the check of the host key exactly if
  -- the configuration says so, and else checks it against the known hosts, or fails to load them;
  -- it lacks credentials exactly if the key and the password that it has read are empty.
  pub new_ssh_dialer_lem :
      (net : Net) (read_file : Text → Result F Text) (r : Router) (cfg : SshConfig)
      → IsRouter net r
      → new_ssh_dialer read_file r ≡ ok cfg
      → DecidesHostKey cfg r.insecure_skip_host_key r.known_hosts
        × ((auth_methods cfg ≡ err no_credentials) ↔ ((cfg.private_key ≡ []) × (cfg.password ≡ [])))
  new_ssh_dialer_lem net read_file r cfg valid e =
      let (skips, file, _, _) = new_ssh_dialer-keeps read_file r cfg e in
      let given =
        subst (λ b. (cfg.known_hosts_file ≢ []) ⊎ (b ≡ true)) (sym skips)
          (subst (λ f. (f ≢ []) ⊎ (r.insecure_skip_host_key ≡ true)) (sym file)
            valid.host_key_decided) in
      (
        subst (λ b. DecidesHostKey cfg b r.known_hosts) skips
            (subst (DecidesHostKey cfg cfg.insecure_skip_host_key) file
              (host_key_callback-Decides cfg given)),
        auth_methods_iff cfg,
      )
