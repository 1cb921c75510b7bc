-- ===== src/Remote/Session/Answer.antt =====
-- What `Run` returns when the router answers, however its bytes are cut into chunks.
use smokeping_prober.Prelude.{
  ℕ, none, some, List, [], ◌∷◌, ◌++◌, map, ◌≡◌, ◌≢◌, refl, ap, sym, ◌∙◌, append_assoc, append-nil,
  All, Text, codes, ok, true,
}
use mathlib.Core.Path.{subst}
use smokeping_prober.Remote.Session.{
  Signal, chunk, Session, text, prompted, wait_from, wait_prompt, drain, write, last_token,
  clean_output, after_wait, run,
}
use smokeping_prober.Remote.Session.Wait.{joined, found_now, waits_on}

abbrev pub proper_prefixes : Text → List Text
proper_prefixes [] = []
proper_prefixes (c ∷ s) = [] ∷ map (◌∷◌ c) (proper_prefixes s)

-- These bytes are the answer to a command: the text of all of them ends in the prompt behind the
-- anchor, with this output before it, and that of no proper prefix of them does.
pub record IsAnswer (prompt anchor bytes out : Text) : Type 0 where
  pub complete : prompted prompt anchor (text bytes) ≡ some out
  pub not_before : All (λ u. prompted prompt anchor (text u) ≡ none) (proper_prefixes bytes)

All-map_cons :
    (P : Text → Type 0) (c : ℕ) (us : List Text) → All P (map (◌∷◌ c) us) → All (λ u. P (c ∷ u)) us
All-map_cons P c [] h = h
All-map_cons P c (u ∷ us) (p, h) = (p, All-map_cons P c us h)

All-proper_prefixes :
    (P : Text → Type 0) (u v : Text) → v ≢ [] → All P (proper_prefixes (u ++ v)) → P u
All-proper_prefixes P [] [] filled h = elim (filled refl) [ ]
All-proper_prefixes P [] (c ∷ v) filled (p, _) = p
All-proper_prefixes P (c ∷ u) v filled (_, h) =
    All-proper_prefixes (λ w. P (c ∷ w)) u v filled (All-map_cons P c (proper_prefixes (u ++ v)) h)

no_head : (c d : Text) → c ++ d ≡ [] → c ≡ []
no_head [] d e = refl
no_head (x ∷ c) d e = cc

module _ (anchor bytes out : Text) (more : List Signal) where
  wait_from-answer :
      (s : Session) (cs : List Text)
      → IsAnswer s.prompt anchor bytes out
      → All (λ c. c ≢ []) cs
      → s.buf ++ joined cs ≡ bytes
      → wait_from anchor s (map chunk cs ++ more) ≡ (ok out, record s { buf = []; chunks = more })
  wait_from-answer s [] a filled whole =
      found_now anchor s more out
        (ap (λ b. prompted s.prompt anchor (text b)) (sym (append-nil s.buf) ∙ whole) ∙ a.complete)
  wait_from-answer s (c ∷ cs) a (filled, others) whole =
      waits_on anchor c s (map chunk cs ++ more) (
        All-proper_prefixes _ s.buf (c ++ joined cs) (λ e. filled (no_head c (joined cs) e))
          (subst (λ b. All (λ u. prompted s.prompt anchor (text u) ≡ none) (proper_prefixes b))
            (sym whole) a.not_before))
      ∙ wait_from-answer (record s { buf = s.buf ++ c }) cs a others
          (append_assoc s.buf c (joined cs) ∙ whole)

  wait_prompt-answer :
      (s : Session) (cs : List Text)
      → s.chunks ≡ []
      → s.buf ≡ []
      → IsAnswer s.prompt anchor bytes out
      → All (λ c. c ≢ []) cs
      → joined cs ≡ bytes
      → wait_prompt anchor (map chunk cs ++ more) s ≡ (ok out, record s { buf = []; chunks = more })
  unfolding wait_prompt
  wait_prompt-answer s cs quiet empty a filled whole =
      ap (λ k. wait_from anchor s (k ++ (map chunk cs ++ more))) quiet
      ∙ wait_from-answer s cs a filled (ap (λ b. b ++ joined cs) empty ∙ whole)

-- The session after an answer: the buffer is empty, the line of the command written, and the signals
-- behind the answer wait in the channel.
abbrev pub answered_session : Text → Session → List Signal → Session
answered_session cmd s more = record s {
  chunks = more;
  buf = [];
  written = (cmd ++ codes "\n") ∷ s.written;
}

-- On a session with an empty channel, the bytes of the answer in the time of the command make
-- `Run` return their cleaned output, in whatever non-empty chunks they come; the buffer is empty
-- then, the line of the command written, the signals behind the answer are unread, and the prompt
-- and the state of the connection are as before.
pub run-answer :
    (cmd bytes out : Text) (cs : List Text) (more second : List Signal) (s : Session)
    → (drain s).chunks ≡ []
    → IsAnswer s.prompt (last_token cmd) bytes out
    → All (λ c. c ≢ []) cs
    → joined cs ≡ bytes
    → run cmd true (map chunk cs ++ more) second s
      ≡ (ok (clean_output out (last_token cmd)), answered_session cmd s more)
unfolding run after_wait write drain
run-answer cmd bytes out cs more second s quiet a filled whole =
    ap (after_wait (last_token cmd) second) (
      wait_prompt-answer (last_token cmd) bytes out more (write (cmd ++ codes "\n") (drain s)) cs
        quiet refl a filled whole)
