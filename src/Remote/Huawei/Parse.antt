-- ===== src/Remote/Huawei/Parse.antt =====
-- The output of a ping run: the regular expressions and `ParseOutput` of remote/huawei.go.
pub mod Accepts
pub mod Passing
pub mod Lines
pub mod Printed
pub mod RoundTrip
use smokeping_prober.Prelude.{
  ℕ, ◌*◌, Bool, not, Option, none, some, List, [], ◌∷◌, Text, codes, length, is_empty, map,
  if◌then◌else◌, ◌==◌, Result, ok, err, atoi, split, trim_space, strip_prefix, wrap64, ℤ, pos,
}
use smokeping_prober.Prelude.Matching.{Matcher, digits1, spaces, spaces1, find, find_all}
use smokeping_prober.Config.{Duration}

pub record Reply : Type 0 where
  pub seq : ℕ
  pub rtt : Duration
  pub ttl : ℕ

-- The struct `Result`.
pub record PingResult : Type 0 where
  pub sent : ℕ
  pub replies : List Reply
  pub timeouts : ℕ

-- What `ErrParse` wraps.
pub data ParseError : Type 0 where
  not_a_result : Text → ParseError
  no_received_count : Text → ParseError
  reply_mismatch : ℕ → ℕ → ParseError

infixl 5 ◌>>=◌
abbrev ◌>>=◌ {ℓ κ} : {A : Type ℓ} {B : Type κ} → Option A → (A → Option B) → Option B
none >>= f = none
some a >>= f = f a

-- (\d+)\s+packet\(s\)\s+ and a word: `sentRe` and `receivedRe`.
pub count_re : Text → Matcher Text
count_re word s = do
  (n, s1) ← digits1 s
  s2 ← spaces1 s1
  s3 ← strip_prefix (codes "packet(s)") s2
  s4 ← spaces1 s3
  s5 ← strip_prefix word s4
  some (n, s5)

abbrev or_else {ℓ} : {A : Type ℓ} → Option A → Option A → Option A
or_else none o = o
or_else (some a) o = some a

-- Sequence=(\d+)\s+(?:ttl|hop limit)=(\d+)\s+time\s*=\s*(\d+)\s*ms
pub reply_re : Matcher (Text × Text × Text)
reply_re s = do
  s1 ← strip_prefix (codes "Sequence=") s
  (seq, s2) ← digits1 s1
  s3 ← spaces1 s2
  s4 ← or_else (strip_prefix (codes "ttl") s3) (strip_prefix (codes "hop limit") s3)
  s5 ← strip_prefix (codes "=") s4
  (ttl, s6) ← digits1 s5
  s7 ← spaces1 s6
  s8 ← strip_prefix (codes "time") s7
  s9 ← strip_prefix (codes "=") (spaces s8)
  (rtt, s10) ← digits1 (spaces s9)
  s11 ← strip_prefix (codes "ms") (spaces s10)
  some ((seq, ttl, rtt), s11)

pub timeout_re : Matcher (Unit {0})
timeout_re s = do rest ← strip_prefix (codes "Request time out") s; some (tt, rest)

first_non_empty : List Text → Text
first_non_empty [] = codes "(empty output)"
first_non_empty (line ∷ lines) =
    if not (is_empty (trim_space line)) then trim_space line else first_non_empty lines

-- `firstLine`
unfoldable pub first_line : Text → Text
unfolding first_non_empty
first_line s = first_non_empty (split s 10)

-- One round of the loop: `Atoi` without its error, and the milliseconds as an int64 duration.
to_reply : Text × Text × Text → Reply
to_reply (seq, ttl, rtt) = record {
  seq = atoi seq;
  rtt = wrap64 (pos (atoi rtt * 1000000));
  ttl = atoi ttl;
}

unfoldable pub replies_in : Text → List Reply
unfolding reply_re to_reply
replies_in out = map to_reply (find_all reply_re out)

unfoldable pub timeouts_in : Text → ℕ
unfolding timeout_re
timeouts_in out = length (find_all timeout_re out)

-- `sentRe.FindStringSubmatch` and `receivedRe.FindStringSubmatch`, the captured digits as a number.
unfoldable pub sent_in : Text → Option ℕ
unfolding count_re
sent_in out = find (count_re (codes "transmitted")) out >>= λ n. some (atoi n)

unfoldable pub received_in : Text → Option ℕ
unfolding count_re
received_in out = find (count_re (codes "received")) out >>= λ n. some (atoi n)

-- `ParseOutput`
unfoldable pub parse_output : Text → Result ParseError PingResult
unfolding sent_in received_in replies_in timeouts_in first_line
parse_output out = elim (sent_in out) [
  | none ↦ err (not_a_result (first_line out))
  | some sent ↦
      let res : PingResult = record {
        sent = sent;
        replies = replies_in out;
        timeouts = timeouts_in out;
      } in
      elim (received_in out) [
        | none ↦ err (no_received_count (first_line out))
        | some received ↦
            if not (received == length (replies_in out))
            then err (reply_mismatch received (length (replies_in out)))
            else ok res
      ]
]
