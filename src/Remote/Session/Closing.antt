-- ===== src/Remote/Session/Closing.antt =====
-- When `Run` closes the session.
use smokeping_prober.Prelude.{
  Bool, true, false, List, [], ◌∷◌, ◌++◌, codes, ◌∙◌, ◌≡◌, ◌⊎◌, inl, inr, refl, arith, Text, Result,
  ok, err,
}
use smokeping_prober.Remote.Session.{
  RunError, timed_out, closed, timed_out_closed, Signal, Session, wait_prompt, close, drain, write,
  last_token, clean_output, after_interrupt, interrupt, after_wait, run,
}
use smokeping_prober.Remote.Session.Wait.{Answered, wait_prompt-Waited}

-- The four ends of `Run`, with the state of the session.
abbrev pub Ended : Result RunError Text × Session → Type 0
Ended (r, s) =
    ((out : Text) × (r ≡ ok out) × (s.is_open ≡ true))
    ⊎ ((r ≡ err timed_out) × (s.is_open ≡ true))
    ⊎ ((r ≡ err timed_out_closed) × (s.is_open ≡ false))
    ⊎ ((r ≡ err closed) × (s.is_open ≡ false))

after_interrupt-Ended :
    (r : Result RunError Text) (s : Session) → s.is_open ≡ true → Ended (after_interrupt (r, s))
unfolding after_interrupt close
after_interrupt-Ended (ok out) s e = inr (inl (refl, e))
after_interrupt-Ended (err x) s e = inr (inr (inl (refl, refl)))

interrupt-Ended :
    (signals : List Signal) (s : Session) → s.is_open ≡ true → Ended (interrupt signals s)
unfolding interrupt write
interrupt-Ended signals s e =
    let waited = wait_prompt-Waited [] signals (write (3 ∷ []) s) in
    let (r, s') = wait_prompt [] signals (write (3 ∷ []) s) in
    after_interrupt-Ended r s' (ground arith)

after_wait-Ended :
    (anchor : Text) (second : List Signal) (r : Result RunError Text) (s : Session)
    → s.is_open ≡ true
    → ((out : Text) × (r ≡ ok out)) ⊎ (r ≡ err timed_out) ⊎ (r ≡ err closed)
    → Ended (after_wait anchor second (r, s))
after_wait-Ended anchor second r s e (inl (out, p)) =
    rw p (unfold after_wait in inl (clean_output out anchor, refl, e))
after_wait-Ended anchor second r s e (inr (inl p)) =
    rw p (unfold after_wait in interrupt-Ended second s e)
after_wait-Ended anchor second r s e (inr (inr p)) =
    rw p (unfold after_wait close in inr (inr (inr (refl, refl))))

drained :
    (cmd : Text) (s : Session)
    → s.is_open ≡ true
    → (write (cmd ++ codes "\n") (drain s)).is_open ≡ true
unfolding write drain
drained cmd s e = e

outcome :
    (anchor : Text) (s : Session) (signals : List Signal) (r : Result RunError Text × Session)
    → Answered anchor s signals r ⊎ (r.0 ≡ err timed_out) ⊎ (r.0 ≡ err closed)
    → ((out : Text) × (r.0 ≡ ok out)) ⊎ (r.0 ≡ err timed_out) ⊎ (r.0 ≡ err closed)
outcome anchor s signals r (inl (_, _, out, _, _, same, _, _)) = inl (out, same)
outcome anchor s signals r (inr h) = inr h

-- From an open session, `Run` returns an output, or a timeout after which the prompt came back,
-- and leaves the session open; or it returns an error that wraps `ErrClosed`, and has closed it.
pub run-Ended :
    (cmd : Text) (write_ok : Bool) (first second : List Signal) (s : Session)
    → s.is_open ≡ true
    → Ended (run cmd write_ok first second s)
unfolding run
run-Ended cmd false first second s e = unfold close in inr (inr (inr (refl, refl)))
run-Ended cmd true first second s e =
    let sent = write (cmd ++ codes "\n") (drain s) in
    let (state, _, _, ends) = wait_prompt-Waited (last_token cmd) first sent in
    let (r, s') = wait_prompt (last_token cmd) first sent in
    after_wait-Ended (last_token cmd) second r s' (state ∙ drained cmd s e)
      (outcome (last_token cmd) sent _ (r, s') ends)

-- `Run` never changes the prompt.
after_interrupt-prompt :
    (r : Result RunError Text) (s : Session) → (after_interrupt (r, s)).1.prompt ≡ s.prompt
unfolding after_interrupt close
after_interrupt-prompt (ok _) s = refl
after_interrupt-prompt (err _) s = refl

interrupt-prompt : (signals : List Signal) (s : Session) → (interrupt signals s).1.prompt ≡ s.prompt
unfolding interrupt write
interrupt-prompt signals s =
    let (_, kept, _, _) = wait_prompt-Waited [] signals (write (3 ∷ []) s) in
    let (r, s') = wait_prompt [] signals (write (3 ∷ []) s) in after_interrupt-prompt r s' ∙ kept

after_wait-prompt :
    (anchor : Text) (second : List Signal) (r : Result RunError Text) (s : Session)
    → (after_wait anchor second (r, s)).1.prompt ≡ s.prompt
unfolding after_wait close
after_wait-prompt anchor second (ok out) s = refl
after_wait-prompt anchor second (err e) s = ground (arith, interrupt-prompt second s)

pub run-prompt :
    (cmd : Text) (write_ok : Bool) (first second : List Signal) (s : Session)
    → (run cmd write_ok first second s).1.prompt ≡ s.prompt
unfolding run write drain close
run-prompt cmd false first second s = refl
run-prompt cmd true first second s =
    let sent = write (cmd ++ codes "\n") (drain s) in
    let (_, kept, _, _) = wait_prompt-Waited (last_token cmd) first sent in
    let (r, s') = wait_prompt (last_token cmd) first sent in
    after_wait-prompt (last_token cmd) second r s' ∙ kept
