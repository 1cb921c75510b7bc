-- ===== src/Remote/Session.antt =====
-- remote/session.go: the shell on the router, its buffer and its prompt, and the commands run on it.
-- What the router sends is a list of signals: the chunks that `readLoop` passes on, and the end of
-- the channel. A wait whose list is used up ends by its timer.
pub mod Login
pub mod Closing
pub mod Wait
pub mod Prompted
pub mod Answer
pub mod Plain
pub mod Runs
pub mod Live
pub mod Reading
pub mod Pinged
use smokeping_prober.Prelude.{
  ℕ, zero, suc, Bool, true, false, not, ◌&&◌, ◌||◌, Option, none, some, List, [], ◌∷◌, ◌++◌, Text,
  codes, is_empty, length, if◌then◌else◌, leb, ◌==◌, Result, ok, err, fields, split, join,
  trim_space, trim_right, from_index, strip_suffix, contains_text, remove_byte,
}
use smokeping_prober.Prelude.Matching.{take_while, is_digit}

-- An error as `errors.Is` sees it: whether it wraps `ErrTimeout`, and whether it wraps `ErrClosed`.
pub record RunError : Type 0 where
  pub is_timeout : Bool
  pub is_closed : Bool

abbrev pub timed_out : RunError
timed_out = record { is_timeout = true; is_closed = false }

abbrev pub closed : RunError
closed = record { is_timeout = false; is_closed = true }

abbrev pub timed_out_closed : RunError
timed_out_closed = record { is_timeout = true; is_closed = true }

pub data Signal : Type 0 where
  chunk : Text → Signal
  closes : Signal

-- `chunks` is what waits in the channel, and `written` what went to the router, newest first.
pub record Session : Type 0 where
  pub chunks : List Signal
  pub buf : Text
  pub prompt : Text
  pub is_open : Bool
  pub written : List Text

abbrev is_letter : ℕ → Bool
is_letter c = (leb b'A' c && leb c b'Z') || (leb b'a' c && leb c b'z')

-- [0-9;?]*[A-Za-z]: the length of the match at the head.
ansi_tail : Text → Option ℕ
ansi_tail [] = none
ansi_tail (c ∷ s) =
    let rest = ansi_tail s in
    if is_digit c || c == b';' || c == b'?'
    then elim rest [ some n ↦ some (suc n) | none ↦ none ]
    else if is_letter c
    then some 1
    else none

-- `ansiRe`: \x1b\[ and the above.
ansi_length : Text → Option ℕ
unfolding ansi_tail
ansi_length (e ∷ b ∷ s) =
    if e == 27 && b == b'['
    then elim (ansi_tail s) [ some n ↦ some (suc (suc n)) | none ↦ none ]
    else none
ansi_length _ = none

-- `ReplaceAllString` by nothing; `skip` bytes are left of the match before.
strip_ansi_from : ℕ → Text → Text
strip_ansi_from skip [] = []
strip_ansi_from (suc skip) (c ∷ s) = strip_ansi_from skip s
strip_ansi_from zero (c ∷ s) = elim (ansi_length (c ∷ s)) [
  | some zero ↦ c ∷ strip_ansi_from zero s
  | some (suc n) ↦ strip_ansi_from n s
  | none ↦ c ∷ strip_ansi_from zero s
]

-- `Session.text`
unfoldable pub text : Text → Text
unfolding strip_ansi_from ansi_length
text buf = remove_byte 13 (strip_ansi_from 0 buf)

unfoldable pub last_of : Text → List Text → Text
last_of t [] = t
last_of t (u ∷ us) = last_of u us

-- `lastToken`
unfoldable pub last_token : Text → Text
unfolding last_of
last_token cmd = last_of cmd (fields cmd)

-- strings.TrimRight(search, " \n")
abbrev pub is_pad : ℕ → Bool
is_pad c = c == 32 || c == 10

-- What a round of `waitPrompt` finds in the text: the output before the prompt.
unfoldable pub prompted : Text → Text → Text → Option Text
prompted prompt anchor t = elim (if is_empty anchor then some t else from_index anchor t) [
  | none ↦ none
  | some search ↦ strip_suffix prompt (trim_right is_pad search)
]

-- The loop of `waitPrompt` over the signals: a round looks at the text, and then waits.
unfoldable pub wait_from : Text → Session → List Signal → Result RunError Text × Session
wait_from anchor s [] = elim (prompted s.prompt anchor (text s.buf)) [
  | some out ↦ (ok out, record s { buf = []; chunks = [] })
  | none ↦ (err timed_out, record s { chunks = [] })
]
wait_from anchor s (closes ∷ rest) = elim (prompted s.prompt anchor (text s.buf)) [
  | some out ↦ (ok out, record s { buf = []; chunks = closes ∷ rest })
  | none ↦ (err closed, record s { chunks = closes ∷ rest })
]
wait_from anchor s (chunk c ∷ rest) =
    let later = wait_from anchor (record s { buf = s.buf ++ c }) rest in
    elim (prompted s.prompt anchor (text s.buf)) [
      | some out ↦ (ok out, record s { buf = []; chunks = chunk c ∷ rest })
      | none ↦ later
    ]

-- `waitPrompt`, with the signals that come before its timer fires.
unfoldable pub wait_prompt : Text → List Signal → Session → Result RunError Text × Session
wait_prompt anchor signals s = wait_from anchor s (s.chunks ++ signals)

-- `Close`, which `closeOnce` makes idempotent.
unfoldable pub close : Session → Session
close s = record s { is_open = false }

-- The channel holds no chunk any more; its end stays.
drop_chunks : List Signal → List Signal
drop_chunks [] = []
drop_chunks (chunk _ ∷ rest) = drop_chunks rest
drop_chunks (closes ∷ rest) = closes ∷ rest

-- `drain`
unfoldable pub drain : Session → Session
unfolding drop_chunks
drain s = record s { buf = []; chunks = drop_chunks s.chunks }

unfoldable pub write : Text → Session → Session
write line s = record s { written = line ∷ s.written }

drop_first : Text → List Text → List Text
drop_first anchor [] = []
drop_first anchor (line ∷ lines) = if contains_text line anchor then lines else line ∷ lines

-- `cleanOutput`
unfoldable pub clean_output : Text → Text → Text
unfolding drop_first
clean_output out anchor = trim_space (join (drop_first anchor (split out 10)) 10)

-- The wait after a Ctrl-C: with the prompt back, only the command is lost.
after_interrupt : Result RunError Text × Session → Result RunError Text × Session
after_interrupt (ok _, s) = (err timed_out, s)
after_interrupt (err _, s) = (err timed_out_closed, close s)

-- After a timeout: Ctrl-C, and a wait of its own for the prompt.
interrupt : List Signal → Session → Result RunError Text × Session
unfolding after_interrupt
interrupt signals s = after_interrupt (wait_prompt [] signals (write (3 ∷ []) s))

-- The `switch` of `Run`.
after_wait : Text → List Signal → Result RunError Text × Session → Result RunError Text × Session
unfolding interrupt
after_wait anchor second (ok out, s) = (ok (clean_output out anchor), s)
after_wait anchor second (err e, s) = if e.is_timeout then interrupt second s else (err e, close s)

-- `Run`: `write_ok` tells whether the write succeeds, `first` comes before the deadline of the
-- command, and `second` after a Ctrl-C.
unfoldable pub run :
    Text → Bool → List Signal → List Signal → Session → Result RunError Text × Session
unfolding after_wait
run cmd false first second s = (err closed, close (drain s))
run cmd true first second s =
    after_wait (last_token cmd) second
      (wait_prompt (last_token cmd) first (write (cmd ++ codes "\n") (drain s)))
