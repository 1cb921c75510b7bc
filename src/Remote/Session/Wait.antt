-- ===== src/Remote/Session/Wait.antt =====
-- What `waitPrompt` and `Run` return.
use smokeping_prober.Prelude.{
  none, some, List, [], ◌∷◌, ◌++◌, map, ◌≡◌, ◌⊎◌, inl, inr, refl, ap, arith, append_assoc,
  append-nil, Text, Result, ok, err, Option-cases,
}
use smokeping_prober.Remote.Session.{
  RunError, timed_out, closed, Signal, chunk, closes, Session, text, prompted, wait_from,
  wait_prompt,
}

-- The bytes of the chunks that a wait reads.
abbrev pub joined : List Text → Text
joined [] = []
joined (c ∷ cs) = c ++ joined cs

-- The wait returned an output: it read some of the chunks, and with these in the buffer the text
-- holds the anchor, and from there on ends in the prompt, before which stands the output.
abbrev pub Answered : Text → Session → List Signal → Result RunError Text × Session → Type 0
Answered anchor s signals (r, s') =
    (read : List Text) × (rest : List Signal) × (out : Text) × (signals ≡ map chunk read ++ rest)
    × (prompted s.prompt anchor (text (s.buf ++ joined read)) ≡ some out)
    × (r ≡ ok out)
    × (s'.chunks ≡ rest)
    × (s'.buf ≡ [])

-- What a wait keeps of the session, and its three ends.
abbrev pub Waited : Text → Session → List Signal → Result RunError Text × Session → Type 0
Waited anchor s signals (r, s') =
    (s'.is_open ≡ s.is_open)
    × (s'.prompt ≡ s.prompt)
    × (s'.written ≡ s.written)
    × (Answered anchor s signals (r, s') ⊎ (r ≡ err timed_out) ⊎ (r ≡ err closed))

-- A round that finds the prompt returns at once.
pub found_now :
    (anchor : Text) (s : Session) (signals : List Signal) (out : Text)
    → prompted s.prompt anchor (text s.buf) ≡ some out
    → wait_from anchor s signals ≡ (ok out, record s { buf = []; chunks = signals })
unfolding wait_from
found_now anchor s [] out e = ground arith
found_now anchor s (closes ∷ rest) out e = ground arith
found_now anchor s (chunk c ∷ rest) out e = ground arith

Waited-found :
    (anchor : Text) (s : Session) (signals : List Signal) (out : Text)
    → prompted s.prompt anchor (text s.buf) ≡ some out
    → Waited anchor s signals (wait_from anchor s signals)
Waited-found anchor s signals out e =
    rw (found_now anchor s signals out e)
      (refl, refl, refl, inl ([], signals, out, refl, rw append-nil e, refl, refl, refl))

-- A chunk is put behind the buffer.
Answered-chunk :
    (anchor c : Text) (s : Session) (rest : List Signal) (r : Result RunError Text × Session)
    → Answered anchor (record s { buf = s.buf ++ c }) rest r
    → Answered anchor s (chunk c ∷ rest) r
Answered-chunk anchor c s rest (r, s') (read, left, out, split, hit, same, chunks, buf) =
    (c ∷ read, left, out, ap (◌∷◌ (chunk c)) split, rw append_assoc at hit, same, chunks, buf)

pub waits_on :
    (anchor c : Text) (s : Session) (rest : List Signal)
    → prompted s.prompt anchor (text s.buf) ≡ none
    → wait_from anchor s (chunk c ∷ rest) ≡ wait_from anchor (record s { buf = s.buf ++ c }) rest
unfolding wait_from
waits_on anchor c s rest e = ground arith

Waited-chunk :
    (anchor c : Text) (s : Session) (rest : List Signal) (r : Result RunError Text × Session)
    → Waited anchor (record s { buf = s.buf ++ c }) rest r
    → Waited anchor s (chunk c ∷ rest) r
Waited-chunk anchor c s rest r (state, prompt, written, inl a) =
    (state, prompt, written, inl (Answered-chunk anchor c s rest r a))
Waited-chunk anchor c s rest r (state, prompt, written, inr e) = (state, prompt, written, inr e)

-- A round without the prompt that gets no chunk.
ends_now :
    (anchor : Text) (s : Session) (signals : List Signal)
    → prompted s.prompt anchor (text s.buf) ≡ none
    → ((signals ≡ [])
        × (wait_from anchor s signals ≡ (err timed_out, record s { chunks = signals })))
      ⊎ ((rest : List Signal) × (signals ≡ closes ∷ rest)
          × (wait_from anchor s signals ≡ (err closed, record s { chunks = signals })))
      ⊎ ((c : Text) × (rest : List Signal) × (signals ≡ chunk c ∷ rest))
unfolding wait_from
ends_now anchor s [] e = inl (refl, ground arith)
ends_now anchor s (closes ∷ rest) e = inr (inl (rest, refl, ground arith))
ends_now anchor s (chunk c ∷ rest) e = inr (inr (c, rest, refl))

wait_from-Waited :
    (anchor : Text) (s : Session) (signals : List Signal)
    → Waited anchor s signals (wait_from anchor s signals)
wait_from-Waited anchor s [] = elim (Option-cases (prompted s.prompt anchor (text s.buf))) [
  | inr (out, e) ↦ Waited-found anchor s [] out e
  | inl e ↦ elim (ends_now anchor s [] e) [
    | inl (_, now) ↦ rw now (refl, refl, refl, inr (inl refl))
    | inr (inl (_, odd, _)) ↦ cc
    | inr (inr (_, _, odd)) ↦ cc
  ]
]
wait_from-Waited anchor s (closes ∷ rest) =
    elim (Option-cases (prompted s.prompt anchor (text s.buf))) [
      | inr (out, e) ↦ Waited-found anchor s (closes ∷ rest) out e
      | inl e ↦ elim (ends_now anchor s (closes ∷ rest) e) [
        | inl (odd, _) ↦ cc
        | inr (inl (_, _, now)) ↦ rw now (refl, refl, refl, inr (inr refl))
        | inr (inr (_, _, odd)) ↦ cc
      ]
    ]
wait_from-Waited anchor s (chunk c ∷ rest) =
    elim (Option-cases (prompted s.prompt anchor (text s.buf))) [
      | inr (out, e) ↦ Waited-found anchor s (chunk c ∷ rest) out e
      | inl e ↦ rw (waits_on anchor c s rest e) (
          Waited-chunk anchor c s rest _
            (wait_from-Waited anchor (record s { buf = s.buf ++ c }) rest))
    ]

-- A wait leaves the session open and its prompt alone, and ends in one of three ways: with an
-- output, behind which, from the first anchor in what was read, the text ends in the prompt; by its
-- timer; or by the end of the channel.
pub wait_prompt-Waited :
    (anchor : Text) (signals : List Signal) (s : Session)
    → Waited anchor s (s.chunks ++ signals) (wait_prompt anchor signals s)
unfolding wait_prompt
wait_prompt-Waited anchor signals s = wait_from-Waited anchor s (s.chunks ++ signals)
