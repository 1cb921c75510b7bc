-- ===== src/Remote/Session/Live.antt =====
-- Runs during which the channel of a session is not closed.
use smokeping_prober.Prelude.{
  Bool, true, false, List, [], ◌∷◌, ◌++◌, codes, ◌≡◌, refl, arith, Text, Result, ok, err, inl, inr,
  Option-cases,
}
use smokeping_prober.Remote.Session.{
  RunError, Signal, chunk, closes, Session, text, prompted, wait_from, wait_prompt, close,
  drop_chunks, drain, write, last_token, after_interrupt, interrupt, after_wait, run,
}

-- The channel is not closed.
abbrev pub IsLive : List Signal → Type 0
IsLive [] = Unit
IsLive (chunk _ ∷ rest) = IsLive rest
IsLive (closes ∷ rest) = ⊥

IsLive-append : (a b : List Signal) → IsLive a → IsLive b → IsLive (a ++ b)
IsLive-append [] b h g = g
IsLive-append (chunk c ∷ a) b h g = IsLive-append a b h g
IsLive-append (closes ∷ a) b h g = elim h [ ]

wait_from-IsLive :
    (anchor : Text) (signals : List Signal) (s : Session)
    → IsLive signals
    → IsLive (wait_from anchor s signals).1.chunks
unfolding wait_from
wait_from-IsLive anchor [] s h = ground arith
wait_from-IsLive anchor (closes ∷ rest) s h = elim h [ ]
wait_from-IsLive anchor (chunk c ∷ rest) s h =
    let later = wait_from-IsLive anchor rest (record s { buf = s.buf ++ c }) h in
    elim (Option-cases (prompted s.prompt anchor (text s.buf))) [
      | inl e ↦ rw (e, wait_from) later
      | inr (out, e) ↦ rw (e, wait_from) h
    ]

wait_prompt-IsLive :
    (anchor : Text) (signals : List Signal) (s : Session)
    → IsLive signals
    → IsLive s.chunks
    → IsLive (wait_prompt anchor signals s).1.chunks
unfolding wait_prompt
wait_prompt-IsLive anchor signals s h g =
    wait_from-IsLive anchor (s.chunks ++ signals) s (IsLive-append s.chunks signals g h)

after_interrupt-chunks :
    (r : Result RunError Text) (s : Session) → (after_interrupt (r, s)).1.chunks ≡ s.chunks
unfolding after_interrupt close
after_interrupt-chunks (ok _) s = refl
after_interrupt-chunks (err _) s = refl

after_wait-IsLive :
    (anchor : Text) (second : List Signal) (r : Result RunError Text) (s : Session)
    → IsLive second
    → IsLive s.chunks
    → IsLive (after_wait anchor second (r, s)).1.chunks
unfolding after_wait interrupt write close
after_wait-IsLive anchor second (ok out) s h g = g
after_wait-IsLive anchor second (err e) s h g =
    let w = write (3 ∷ []) s in
    let waited = wait_prompt-IsLive [] second w h g in
    let (r', s') = wait_prompt [] second w in
    let same = after_interrupt-chunks r' s' in ground arith

drop_chunks-IsLive : (signals : List Signal) → IsLive signals → drop_chunks signals ≡ []
unfolding drop_chunks
drop_chunks-IsLive [] h = refl
drop_chunks-IsLive (chunk _ ∷ rest) h = drop_chunks-IsLive rest h
drop_chunks-IsLive (closes ∷ rest) h = elim h [ ]

-- A session whose channel is open can be drained.
pub drain-IsLive : (s : Session) → IsLive s.chunks → (drain s).chunks ≡ []
unfolding drain
drain-IsLive s h = drop_chunks-IsLive s.chunks h

drained-IsLive : (s : Session) → IsLive s.chunks → IsLive (drain s).chunks
drained-IsLive s h = rw (drain-IsLive s h) tt

-- If the channel is not closed before a run and during it, then it is not closed after it.
pub run-IsLive :
    (cmd : Text) (write_ok : Bool) (first second : List Signal) (s : Session)
    → IsLive first
    → IsLive second
    → IsLive s.chunks
    → IsLive (run cmd write_ok first second s).1.chunks
unfolding run write drain close
run-IsLive cmd false first second s h g l = drained-IsLive s l
run-IsLive cmd true first second s h g l =
    let sent = write (cmd ++ codes "\n") (drain s) in
    let waited = wait_prompt-IsLive (last_token cmd) first sent h (drained-IsLive s l) in
    let (r, s') = wait_prompt (last_token cmd) first sent in
    after_wait-IsLive (last_token cmd) second r s' g waited
