-- ===== src/Tests/DialTests.antt =====
-- Runs and instances for the dialer of remote/targets.go and `Dial` of remote/session.go.
use smokeping_prober.Prelude.{
  ℕ, Bool, arith, ◌==◌, if◌then◌else◌, true, false, none, some, List, [], ◌∷◌, ◌≡◌, ◌≢◌, refl, Text,
  codes, Result, ok, err, Option, text_eq, fields, split, trim_space, from_index, strip_suffix,
}
use smokeping_prober.Remote.Session.{
  Session, chunk, run, wait_prompt, wait_from, write, drain, prompted, last_token, clean_output,
  close, text,
}
use smokeping_prober.Remote.Session.Login.{IsPrompt, learn_prompt, learn_from}
use smokeping_prober.Prelude.Matching.{find, spaces}
use smokeping_prober.Remote.Dialer.{
  SshConfig, HostKey, ignores, checks, AuthMethod, new_ssh_dialer, host_key_callback, auth_methods,
}
use smokeping_prober.Remote.Dialer.Dial.{
  ClientConfig, Answers, ConnectError, Conn, dial, connect, start_shell,
}
use smokeping_prober.Prelude.{◌⊎◌}
use smokeping_prober.Remote.Dialer.Dial.Opened.{dialer, AsksCallback, IsVerified, dialer-IsVerified}
use smokeping_prober.Remote.Dialer.Dial.Dialed.{Dialed, dial-Dialed}
use smokeping_prober.Tests.Fixtures.{small_net, ne8k}
use smokeping_prober.Tests.ConfigTests.{sample-IsConfig}

-- A password file with a line end, and no key.
abbrev read_file : Text → Result ℕ Text
read_file name = ok (codes "secret\n")

abbrev known_hosts : Text → Result ℕ ℕ
known_hosts file = ok 1

abbrev parse_key : Text → Result ℕ ℕ
parse_key key = err 1

abbrev ne8k_config : SshConfig
ne8k_config = record {
  address = codes "10.0.0.1:22";
  username = codes "smokeping";
  password = codes "secret";
  private_key = [];
  known_hosts_file = codes "/etc/known_hosts";
  insecure_skip_host_key = false;
}

ne8k_dialer : new_ssh_dialer read_file ne8k ≡ ok ne8k_config
unfolding new_ssh_dialer
ne8k_dialer = refl

abbrev answers : Answers ℕ
answers = record {
  dialing = none;
  call = λ c. none;
  greeting = chunk (codes "<R") ∷ chunk (codes ">") ∷ [];
  write_ok = true;
  first = chunk (codes "screen-length 0 temporary\r\n<R>") ∷ [];
  second = [];
}

-- The router presents the key that the first of the known hosts accepts.
abbrev accepts : ℕ → Bool
accepts cb = cb == 1

abbrev shake : Text → ClientConfig ℕ ℕ → Option ℕ
shake address client = elim client.host_key_callback [
  | ignores ↦ none
  | checks cb ↦ if accepts cb then none else some 2
]

shake-AsksCallback : AsksCallback known_hosts parse_key shake accepts
shake-AsksCallback address client cb e made = ground arith

abbrev dialed : Result (ConnectError ℕ) Session × Option Conn
dialed = dial known_hosts parse_key shake ne8k_config answers

-- The router refuses the connection.
abbrev refuses : Answers ℕ
refuses = record answers { dialing = some 111 }

dial-Dialed_example :
    Dialed dialed
    × ((s : Session)
        → dialed.0 ≡ ok s
        → ((k : HostKey ℕ) × (host_key_callback known_hosts parse_key ne8k_config ≡ ok k))
          × ((auth : List (AuthMethod ℕ)) × (auth_methods known_hosts parse_key ne8k_config
                ≡ ok auth)
              × (auth ≢ [])))
dial-Dialed_example = dial-Dialed known_hosts parse_key shake ne8k_config answers

dialed_conn : dialed.1 ≡ some (record { is_open = true; has_deadline = false })
unfolding dial host_key_callback auth_methods connect start_shell learn_prompt learn_from find
    spaces text text_eq run wait_prompt wait_from write drain prompted last_token fields split
    trim_space from_index strip_suffix clean_output close
dialed_conn = refl

refused_conn : (dial known_hosts parse_key shake ne8k_config refuses).1 ≡ none
unfolding dial host_key_callback auth_methods
refused_conn = refl

abbrev ready : Session
ready = record {
  chunks = [];
  buf = [];
  prompt = codes "<R>";
  is_open = true;
  written = codes "screen-length 0 temporary\n" ∷ [];
}

dialed_ready : dialed.0 ≡ ok ready
unfolding dial host_key_callback auth_methods connect start_shell learn_prompt learn_from find
    spaces text text_eq run wait_prompt wait_from write drain prompted last_token fields split
    trim_space from_index strip_suffix clean_output close
dialed_ready = refl

dialer-IsVerified_example :
    (ready.is_open ≡ true)
    × IsPrompt ready.prompt
    × ((dialer known_hosts parse_key shake ne8k_config answers).1
        ≡ some (record { is_open = true; has_deadline = false }))
    × ((client : ClientConfig ℕ ℕ) × (shake ne8k.address client ≡ none)
        × (client.user ≡ ne8k.username)
        × (client.auth ≢ [])
        × IsVerified known_hosts parse_key shake accepts ne8k client.host_key_callback)
    × ((ne8k_config.private_key ≢ []) ⊎ (ne8k_config.password ≢ []))
dialer-IsVerified_example =
    dialer-IsVerified known_hosts parse_key shake small_net read_file ne8k ne8k_config answers ready
      accepts shake-AsksCallback sample-IsConfig.routers_valid.0 ne8k_dialer dialed_ready
