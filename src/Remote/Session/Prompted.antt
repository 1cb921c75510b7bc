-- ===== src/Remote/Session/Prompted.antt =====
-- What `waitPrompt` of remote/session.go takes for the end of an output, byte by byte.
use smokeping_prober.Prelude.{
  ℕ, ◌≤◌, true, false, ◌&&◌, some, List, [], ◌∷◌, ◌++◌, map, ◌≡◌, ◌⊎◌, inl, inr, refl, sym, ap, ◌∙◌,
  arith, Text, text_eq, text_eq_iff, is_empty, is_empty_iff, length, All, Result, ok, err,
  Bool-cases, Option-cases, from_index, strip_suffix, strip_prefix, has_prefix, trim_right, ◌==◌,
}
use smokeping_prober.Remote.Session.{
  RunError, timed_out, closed, Signal, chunk, Session, text, is_pad, prompted, wait_prompt,
}
use smokeping_prober.Remote.Session.Wait.{joined, wait_prompt-Waited}

strip_prefix_inv : (w s u : Text) → strip_prefix w s ≡ some u → s ≡ w ++ u
strip_prefix_inv [] s u e = ground arith
strip_prefix_inv (c ∷ w) [] u e = ground arith
strip_prefix_inv (c ∷ w) (d ∷ s) u e = elim (Bool-cases (c == d)) [
  | inl same ↦ let rest = strip_prefix_inv w s u (ground arith) in ground arith
  | inr other ↦ absurd (ground arith)
]

has_prefix-append : (w s : Text) → has_prefix w (w ++ s) ≡ true
has_prefix-append [] s = refl
has_prefix-append (c ∷ w) s = ground (arith, has_prefix-append w s)

has_prefix_inv : (w s : Text) → has_prefix w s ≡ true → (u : Text) × (s ≡ w ++ u)
has_prefix_inv w s e = elim (Option-cases (strip_prefix w s)) [
  | inl none_left ↦ absurd (ground arith)
  | inr (u, left) ↦ (u, strip_prefix_inv w s u left)
]

-- The text from the first place on where the word stands.
pub record IsFrom (word t search : Text) : Type 0 where
  pub front : Text
  pub tail : Text
  pub split : t ≡ front ++ search
  pub starts : search ≡ word ++ tail
  pub first : (f g : Text) → t ≡ f ++ word ++ g → length front ≤ length f

later_first :
    (word : Text) (c : ℕ) (t : Text)
    → has_prefix word (c ∷ t) ≡ false
    → (front : Text) → ((f g : Text) → t ≡ f ++ word ++ g → length front ≤ length f)
    → (f g : Text) → c ∷ t ≡ f ++ word ++ g
    → length (c ∷ front) ≤ length f
later_first word c t later front first [] g p = absurd (ground (arith, has_prefix-append word g))
later_first word c t later front first (d ∷ f) g p =
    let shorter = first f g (ground arith) in ground arith

from_index-IsFrom : (word t search : Text) → from_index word t ≡ some search → IsFrom word t search
unfolding from_index
from_index-IsFrom word [] search e =
    let none_left : word ≡ [] = ground (arith, is_empty_iff word) in
    let nothing : search ≡ [] = ground (arith, is_empty_iff word) in
    record {
      front = [];
      tail = [];
      split = sym nothing;
      starts = rw (none_left, nothing) refl;
      first = λ f g p. omega arith;
    }
from_index-IsFrom word (c ∷ t) search e = elim (Bool-cases (has_prefix word (c ∷ t))) [
  | inl here ↦
      let (u, starts) = has_prefix_inv word (c ∷ t) here in
      let same : c ∷ t ≡ search = ground arith in
      record {
        front = [];
        tail = u;
        split = same;
        starts = sym same ∙ starts;
        first = λ f g p. omega arith;
      }
  | inr later ↦
      let h = from_index-IsFrom word t search (ground arith) in
      record {
        front = c ∷ h.front;
        tail = h.tail;
        split = ap (◌∷◌ c) h.split;
        starts = h.starts;
        first = λ f g p. later_first word c t later h.front h.first f g p;
      }
]

strip_suffix_inv : (w s out : Text) → strip_suffix w s ≡ some out → s ≡ out ++ w
unfolding strip_suffix
strip_suffix_inv w [] out e = ground (arith, is_empty_iff w)
strip_suffix_inv w (c ∷ s) out e = elim (Bool-cases (text_eq w (c ∷ s))) [
  | inl whole ↦ ground (arith, text_eq_iff w (c ∷ s))
  | inr longer ↦ elim (Option-cases (strip_suffix w s)) [
    | inl miss ↦ absurd (ground arith)
    | inr (before, hit) ↦
        let rest = strip_suffix_inv w s before hit in
        let same : out ≡ c ∷ before = ground arith in rw (same) (ap (◌∷◌ c) rest)
  ]
]

trim_right-pad :
    (s : Text)
    → (pad : Text) × (s ≡ trim_right is_pad s ++ pad) × All (λ c. (c ≡ 32) ⊎ (c ≡ 10)) pad
trim_right-pad [] = ([], refl, tt)
trim_right-pad (c ∷ s) =
    let (pad, same, blank) = trim_right-pad s in
    elim (Bool-cases (is_empty (trim_right is_pad s) && is_pad c)) [
      | inl gone ↦
          let all : s ≡ pad = ground (arith, is_empty_iff (trim_right is_pad s)) in
          rw (gone) (c ∷ pad, ap (◌∷◌ c) all, (ground arith, blank))
      | inr kept ↦ rw (kept) (pad, ap (◌∷◌ c) same, blank)
    ]

-- From the first anchor on, the text is the output, the prompt, and spaces and line ends; the empty
-- anchor stands at the start.
abbrev pub EndsIn : Text → Text → Text → Text → Type 0
EndsIn prompt anchor t out =
    (search : Text) × (pad : Text) × IsFrom anchor t search
    × (search ≡ out ++ prompt ++ pad)
    × All (λ c. (c ≡ 32) ⊎ (c ≡ 10)) pad

ends :
    (prompt search out : Text)
    → strip_suffix prompt (trim_right is_pad search) ≡ some out
    → (pad : Text) × (search ≡ out ++ prompt ++ pad) × All (λ c. (c ≡ 32) ⊎ (c ≡ 10)) pad
ends prompt search out e =
    let (pad, same, blank) = trim_right-pad search in
    let stripped = strip_suffix_inv prompt (trim_right is_pad search) out e in
    (pad, same ∙ ap (λ x. x ++ pad) stripped, blank)

prompted-EndsIn :
    (prompt anchor t out : Text) → prompted prompt anchor t ≡ some out → EndsIn prompt anchor t out
unfolding prompted
prompted-EndsIn prompt anchor t out e = elim (Bool-cases (is_empty anchor)) [
  | inl empty ↦
      let (pad, same, blank) = ends prompt t out (ground arith) in
      let nothing = (is_empty_iff anchor).0 empty in
      (
        t,
        pad,
        record {
          front = [];
          tail = t;
          split = refl;
          starts = rw nothing refl;
          first = λ f g p. omega arith;
        },
        same,
        blank,
      )
  | inr some_anchor ↦ elim (Option-cases (from_index anchor t)) [
    | inl miss ↦ absurd (ground arith)
    | inr (search, hit) ↦
        let (pad, same, blank) = ends prompt search out (ground arith) in
        (search, pad, from_index-IsFrom anchor t search hit, same, blank)
  ]
]

-- The three ends of a wait.
abbrev pub WaitEnds : Text → Session → List Signal → Result RunError Text × Session → Type 0
WaitEnds anchor s signals (r, s') =
    (s'.is_open ≡ s.is_open)
    × (s'.prompt ≡ s.prompt)
    × (s'.written ≡ s.written)
    × (((read : List Text) × (rest : List Signal) × (out : Text) × (signals
            ≡ map chunk read ++ rest)
          × EndsIn s.prompt anchor (text (s.buf ++ joined read)) out
          × (r ≡ ok out)
          × (s'.chunks ≡ rest)
          × (s'.buf ≡ []))
        ⊎ (r ≡ err timed_out)
        ⊎ (r ≡ err closed))

-- `waitPrompt` leaves the session open and its prompt alone, writes nothing, and ends in one of
-- three ways: by its timer; by the end of the channel; or with an output. Then the text of the
-- buffer and of the chunks that it has read holds the anchor, and from its first place on is the
-- output, the prompt, and nothing but spaces and line ends; the chunks that it has not read are
-- left, and the buffer is empty.
pub wait_prompt-EndsIn :
    (anchor : Text) (signals : List Signal) (s : Session)
    → WaitEnds anchor s (s.chunks ++ signals) (wait_prompt anchor signals s)
wait_prompt-EndsIn anchor signals s =
    let (kept, prompt, written, end) = wait_prompt-Waited anchor signals s in
    (
      kept,
      prompt,
      written,
      elim end [
        | inl (read, rest, out, split, hit, same, left, empty) ↦
            inl (read, rest, out, split, prompted-EndsIn _ _ _ _ hit, same, left, empty)
        | inr failed ↦ inr failed
      ],
    )
