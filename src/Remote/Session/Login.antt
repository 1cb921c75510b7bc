-- ===== src/Remote/Session/Login.antt =====
-- The prompt that the session learns after login, and the questions that end it.
use mathlib.Core.Path.{subst}
use smokeping_prober.Prelude.{
  ℕ, Bool, true, false, not, ◌&&◌, ◌||◌, Option, none, some, List, [], ◌∷◌, ◌++◌, ◌≡◌, ◌≢◌, ◌⊎◌,
  inl, inr, refl, arith, All, Text, codes, is_empty, if◌then◌else◌, ◌==◌, Result, ok, err,
  trim_space, trim_right, drop_while, has_suffix, contains_text, to_upper, Option-cases, Bool-cases,
}
use smokeping_prober.Prelude.Matching.{Matcher, find, take_while, is_re_space, spaces}
use smokeping_prober.Remote.Session.{Signal, chunk, closes, Session, text}

pub data LearnError : Type 0 where
  asked_question : Text → LearnError
  closed_during_login : LearnError
  no_prompt : LearnError

-- [^\s<>\[\]]
abbrev pub is_prompt_char : ℕ → Bool
is_prompt_char c = not (is_re_space c || c == b'<' || c == b'>' || c == b'[' || c == b']')

-- What stands behind the name: the closing bracket, and white space up to the end of the text.
prompt_end : ℕ → Text → Text → Option (Text × Text)
prompt_end o name [] = none
prompt_end o name (c ∷ s) =
    if (c == b'>' || c == b']') && is_empty (spaces s)
    then some (o ∷ (name ++ c ∷ []), [])
    else none

-- `promptRe`: ([<\[][~*]?[^\s<>\[\]]+[>\]])\s*$. The optional byte is one of the class that follows,
-- so name and option together are one byte or more of that class.
prompt_re : Matcher Text
prompt_re [] = none
prompt_re (o ∷ s) =
    if (o == b'<' || o == b'[') && not (is_empty (take_while is_prompt_char s))
    then prompt_end o (take_while is_prompt_char s) (drop_while is_prompt_char s)
    else none

-- strings.TrimRight(text, " \t\r\n:")
abbrev is_question_pad : ℕ → Bool
is_question_pad c = c == 32 || c == 9 || c == 13 || c == 10 || c == b':'

asks : Text → Bool
asks t = has_suffix (to_upper (trim_right is_question_pad t)) (codes "[Y/N]")

-- What a round of `learnPrompt` decides from the text, if anything.
learn_now : Text → Option (Result LearnError Text)
unfolding asks prompt_re prompt_end
learn_now t =
    if asks t then some (err (asked_question (trim_space t))) else elim (find prompt_re t) [
      | none ↦ none
      | some m ↦
          if contains_text (to_upper m) (codes "Y/N")
          then some (err (asked_question (trim_space t)))
          else some (ok m)
    ]

learned : Session → List Signal → Result LearnError Text → Result LearnError (Unit {0}) × Session
learned s rest (ok m) = (ok tt, record s { prompt = m; buf = []; chunks = rest })
learned s rest (err e) = (err e, record s { chunks = rest })

unfoldable pub learn_from : Session → List Signal → Result LearnError (Unit {0}) × Session
unfolding learn_now learned
learn_from s [] = elim (learn_now (text s.buf)) [
  | some r ↦ learned s [] r
  | none ↦ (err no_prompt, record s { chunks = [] })
]
learn_from s (closes ∷ rest) = elim (learn_now (text s.buf)) [
  | some r ↦ learned s (closes ∷ rest) r
  | none ↦ (err closed_during_login, record s { chunks = closes ∷ rest })
]
learn_from s (chunk c ∷ rest) =
    let later = learn_from (record s { buf = s.buf ++ c }) rest in
    elim (learn_now (text s.buf)) [ some r ↦ learned s (chunk c ∷ rest) r | none ↦ later ]

-- `learnPrompt`, with the signals that come before its timer fires.
unfoldable pub learn_prompt : List Signal → Session → Result LearnError (Unit {0}) × Session
learn_prompt signals s = learn_from s (s.chunks ++ signals)

-- A bracket, a name with no white space and no bracket, a bracket.
abbrev pub Shape : Text → Type 0
Shape p =
    (o : ℕ) × (name : Text) × (c : ℕ) × (p ≡ o ∷ (name ++ c ∷ []))
    × ((o ≡ b'<') ⊎ (o ≡ b'['))
    × (name ≢ [])
    × All (λ x. is_prompt_char x ≡ true) name
    × ((c ≡ b'>') ⊎ (c ≡ b']'))

-- A prompt of the router, which is not a question.
pub record IsPrompt (p : Text) : Type 0 where
  pub shape : Shape p
  pub no_question : contains_text (to_upper p) (codes "Y/N") ≡ false

take_while-All : (s : Text) → All (λ x. is_prompt_char x ≡ true) (take_while is_prompt_char s)
take_while-All [] = tt
take_while-All (c ∷ s) = elim (Bool-cases (is_prompt_char c)) [
  | inl e ↦ rw e (e, take_while-All s)
  | inr e ↦ rw e tt
]

prompt_end-Shape :
    (o : ℕ) (name rest : Text) (r : Text × Text)
    → ((o ≡ b'<') ⊎ (o ≡ b'['))
    → name ≢ []
    → All (λ x. is_prompt_char x ≡ true) name
    → prompt_end o name rest ≡ some r
    → Shape r.0
unfolding prompt_end
prompt_end-Shape o name [] r ho hn ha e = cc
prompt_end-Shape o name (c ∷ s) r ho hn ha e = (o, name, c, ground arith, ho, hn, ha, ground arith)

prompt_re-Shape : (t : Text) (r : Text × Text) → prompt_re t ≡ some r → Shape r.0
unfolding prompt_re
prompt_re-Shape [] r e = cc
prompt_re-Shape (o ∷ s) r e =
    prompt_end-Shape o (take_while is_prompt_char s) (drop_while is_prompt_char s) r (ground arith)
      (ground arith) (take_while-All s) (ground arith)

find-Shape : (t p : Text) → find prompt_re t ≡ some p → Shape p
unfolding find prompt_re
find-Shape [] p e = cc
find-Shape (c ∷ s) p e = elim (Option-cases (prompt_re (c ∷ s))) [
  | inl m ↦ find-Shape s p (ground arith)
  | inr ((q, rest), m) ↦ subst Shape (ground arith) (prompt_re-Shape (c ∷ s) (q, rest) m)
]

learn_now-IsPrompt : (t p : Text) → learn_now t ≡ some (ok p) → IsPrompt p
unfolding learn_now
learn_now-IsPrompt t p e = elim (Option-cases (find prompt_re t)) [
  | inl m ↦ ground arith
  | inr (q, m) ↦ record {
    shape = subst Shape (ground arith) (find-Shape t q m);
    no_question = ground arith;
  }
]

-- What `learnPrompt` leaves: a prompt and an empty buffer, or an error and the prompt as before.
abbrev pub Learned : Session → Result LearnError (Unit {0}) × Session → Type 0
Learned s (r, s') =
    ((r ≡ ok tt) × IsPrompt s'.prompt × (s'.buf ≡ []))
    ⊎ ((e : LearnError) × (r ≡ err e) × (s'.prompt ≡ s.prompt))

learned-Learned :
    (s : Session) (rest : List Signal) (r : Result LearnError Text)
    → learn_now (text s.buf) ≡ some r
    → Learned s (learned s rest r)
unfolding learned
learned-Learned s rest (ok m) e = inl (refl, learn_now-IsPrompt (text s.buf) m e, refl)
learned-Learned s rest (err x) e = inr (x, refl, refl)

learn_from-Learned : (s : Session) (signals : List Signal) → Learned s (learn_from s signals)
unfolding learn_from
learn_from-Learned s [] = elim (Option-cases (learn_now (text s.buf))) [
  | inr (r, e) ↦ rw (e, learn_from) (learned-Learned s [] r e)
  | inl e ↦ rw (e, learn_from) (inr (no_prompt, refl, refl))
]
learn_from-Learned s (closes ∷ rest) = elim (Option-cases (learn_now (text s.buf))) [
  | inr (r, e) ↦ rw (e, learn_from) (learned-Learned s (closes ∷ rest) r e)
  | inl e ↦ rw (e, learn_from) (inr (closed_during_login, refl, refl))
]
learn_from-Learned s (chunk c ∷ rest) = elim (Option-cases (learn_now (text s.buf))) [
  | inr (r, e) ↦ rw (e, learn_from) (learned-Learned s (chunk c ∷ rest) r e)
  | inl e ↦ rw (e, learn_from) (learn_from-Learned (record s { buf = s.buf ++ c }) rest)
]

-- The prompt that `learnPrompt` stores is a bracketed name without white space and no question; on
-- an error the session keeps the prompt that it had.
pub learn_prompt-Learned :
    (signals : List Signal) (s : Session) → Learned s (learn_prompt signals s)
unfolding learn_prompt
learn_prompt-Learned signals s = learn_from-Learned s (s.chunks ++ signals)

-- Reading up to the prompt leaves the session open.
learn_from-is_open :
    (s : Session) (signals : List Signal) → (learn_from s signals).1.is_open ≡ s.is_open
unfolding learn_from
learn_from-is_open s [] = ground arith
learn_from-is_open s (closes ∷ rest) = ground arith
learn_from-is_open s (chunk c ∷ rest) =
    ground (arith, learn_from-is_open (record s { buf = s.buf ++ c }) rest)

pub learn_prompt-is_open :
    (signals : List Signal) (s : Session) → (learn_prompt signals s).1.is_open ≡ s.is_open
unfolding learn_prompt
learn_prompt-is_open signals s = learn_from-is_open s (s.chunks ++ signals)
