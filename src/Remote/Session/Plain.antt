-- ===== src/Remote/Session/Plain.antt =====
-- Answers of the router in which the last byte of the prompt comes once, at the end.
use smokeping_prober.Prelude.{
  ℕ, Bool, false, none, some, List, [], ◌∷◌, ◌++◌, map, ◌≡◌, ◌≢◌, inl, inr, refl, ap, sym, ◌∙◌,
  arith, All, All-map, append_assoc, is_empty_iff, Text, text_eq, text_eq_iff, is_empty,
  remove_byte, from_index, strip_suffix, trim_right, Option-cases, Bool-cases, length,
  length-append,
}
use mathlib.Core.Path.{subst}
use smokeping_prober.Remote.Session.{strip_ansi_from, ansi_length, text, is_pad, prompted}
use smokeping_prober.Remote.Session.Answer.{proper_prefixes, IsAnswer}

-- The byte is not this one, and starts no ANSI sequence.
abbrev pub IsPlain : ℕ → ℕ → Type 0
IsPlain end c = (c ≢ end) × (c ≢ 27)

strip_ansi_from-plain : (s : Text) → All (λ c. c ≢ 27) s → strip_ansi_from 0 s ≡ s
unfolding strip_ansi_from ansi_length
strip_ansi_from-plain [] h = refl
strip_ansi_from-plain (c ∷ []) (p, h) = refl
strip_ansi_from-plain (c ∷ d ∷ s) (p, h) =
    let rest = strip_ansi_from-plain (d ∷ s) h in ground arith

module _ (P : ℕ → Type 0) where
  All-remove_byte : (b : ℕ) (s : Text) → All P s → All P (remove_byte b s)
  All-remove_byte b [] h = tt
  All-remove_byte b (c ∷ s) (p, h) = ground (arith, All-remove_byte b s h)

  All-trim_right : (p : ℕ → Bool) (s : Text) → All P s → All P (trim_right p s)
  All-trim_right p [] h = tt
  All-trim_right p (c ∷ s) (x, h) = ground (arith, All-trim_right p s h)

  All-from_index : (w s t : Text) → from_index w s ≡ some t → All P s → All P t
  unfolding from_index
  All-from_index w [] t e h = ground arith
  All-from_index w (c ∷ s) t e (p, h) = ground (arith, All-from_index w s t)

holds_end : (end : ℕ) (name : Text) → All (λ c. c ≢ end) (name ++ end ∷ []) → ⊥
holds_end end [] (p, _) = p refl
holds_end end (c ∷ name) (_, h) = holds_end end name h

not_empty : (end : ℕ) (name : Text) → is_empty (name ++ end ∷ []) ≡ false
not_empty end [] = refl
not_empty end (c ∷ name) = refl

strip_suffix-none :
    (end : ℕ) (name s : Text) → All (λ c. c ≢ end) s → strip_suffix (name ++ end ∷ []) s ≡ none
unfolding strip_suffix
strip_suffix-none end name [] h = ground (arith, not_empty end name)
strip_suffix-none end name (c ∷ s) (p, h) =
    let no_end : name ++ end ∷ [] ≢ c ∷ s =
      λ e. holds_end end name (subst (λ x. All (λ b. b ≢ end) x) (sym e) (p, h)) in
    let rest = strip_suffix-none end name s h in
    ground (arith, text_eq_iff (name ++ end ∷ []) (c ∷ s))

All-map_back :
    (Q : Text → Type 0) (c : ℕ) (us : List Text) → All (λ u. Q (c ∷ u)) us → All Q (map (◌∷◌ c) us)
All-map_back Q c [] h = tt
All-map_back Q c (u ∷ us) (q, h) = (q, All-map_back Q c us h)

-- A proper prefix of a text holds bytes in front of the last one.
proper_prefixes-All :
    (P : ℕ → Type 0) (Q : Text → Type 0) (w : Text) (end : ℕ)
    → All P w
    → ((u : Text) → All P u → Q u)
    → All Q (proper_prefixes (w ++ end ∷ []))
proper_prefixes-All P Q [] end h f = (f [] tt, tt)
proper_prefixes-All P Q (c ∷ w) end (p, h) f = (
  f [] tt,
  All-map_back Q c (proper_prefixes (w ++ end ∷ []))
      (proper_prefixes-All P (λ u. Q (c ∷ u)) w end h (λ u a. f (c ∷ u) (p, a))),
)

prompted-none :
    (end : ℕ) (name anchor u : Text)
    → All (IsPlain end) u
    → prompted (name ++ end ∷ []) anchor (text u) ≡ none
unfolding prompted text
prompted-none end name anchor u h =
    let shown =
      All-remove_byte (λ c. c ≢ end) 13 (strip_ansi_from 0 u)
        (subst (λ x. All (λ c. c ≢ end) x)
          (sym (strip_ansi_from-plain u (All-map u (λ c p. p.1) h))) (All-map u (λ c p. p.0) h)) in
    let missing : (s : Text)
        → All (λ c. c ≢ end) s
        → strip_suffix (name ++ end ∷ []) (trim_right is_pad s) ≡ none =
      λ s a.
        strip_suffix-none end name (trim_right is_pad s)
          (All-trim_right (λ c. c ≢ end) is_pad s a) in
    elim (Bool-cases (is_empty anchor)) [
      | inl no_anchor ↦
          rw (no_anchor, prompted) (missing (remove_byte 13 (strip_ansi_from 0 u)) shown)
      | inr some_anchor ↦
          elim (Option-cases (from_index anchor (remove_byte 13 (strip_ansi_from 0 u)))) [
            | inl e ↦ rw (some_anchor, e, prompted) refl
            | inr (t, e) ↦
                rw (some_anchor, e, prompted)
                  (missing t (All-from_index (λ c. c ≢ end) anchor _ t e shown))
          ]
    ]

trim_right-last :
    (s : Text) (end : ℕ) → is_pad end ≡ false → trim_right is_pad (s ++ end ∷ []) ≡ s ++ end ∷ []
trim_right-last [] end h = ground arith
trim_right-last (c ∷ s) end h = ground (arith, trim_right-last s end h, not_empty end s)

longer : (p : Text) (c : ℕ) (x : Text) → text_eq p ((c ∷ x) ++ p) ≡ false
longer p c x = elim (Bool-cases (text_eq p ((c ∷ x) ++ p))) [
  | inr e ↦ e
  | inl e ↦
      let same = ap length ((text_eq_iff p ((c ∷ x) ++ p)).0 e) in
      absurd (omega (arith, same, length-append (c ∷ x) p))
]

strip_suffix-append : (x : Text) (c : ℕ) (p : Text) → strip_suffix (c ∷ p) (x ++ c ∷ p) ≡ some x
unfolding strip_suffix
strip_suffix-append [] c p = ground (arith, text_eq_iff (c ∷ p) (c ∷ p))
strip_suffix-append (d ∷ x) c p =
    rw (longer (c ∷ p) d x, strip_suffix-append x c p, strip_suffix) refl

strip_suffix-prompt :
    (end : ℕ) (name x : Text) → strip_suffix (name ++ end ∷ []) (x ++ (name ++ end ∷ [])) ≡ some x
strip_suffix-prompt end [] x = strip_suffix-append x end []
strip_suffix-prompt end (c ∷ name) x = strip_suffix-append x c (name ++ end ∷ [])

-- The text from the first anchor on, with the prompt at its end.
prompted-found :
    (end : ℕ) (name anchor t out : Text)
    → is_pad end ≡ false
    → anchor ≢ []
    → from_index anchor t ≡ some (out ++ (name ++ end ∷ []))
    → prompted (name ++ end ∷ []) anchor t ≡ some out
unfolding prompted
prompted-found end name anchor t out solid some_anchor e =
    let split = sym (append_assoc out name (end ∷ [])) in
    let ends = ap (trim_right is_pad) split ∙ trim_right-last (out ++ name) end solid ∙ sym split in
    let anchored : is_empty anchor ≡ false = ground (arith, is_empty_iff anchor) in
    rw (anchored, e, prompted)
      (ap (strip_suffix (name ++ end ∷ [])) ends ∙ strip_suffix-prompt end name out)

-- The text that comes is the answer if it ends in the prompt, the last byte of the prompt comes
-- nowhere before, and the output is what stands between the first anchor and the prompt.
pub IsAnswer-plain :
    (end : ℕ) (name anchor w out : Text)
    → is_pad end ≡ false
    → anchor ≢ []
    → All (IsPlain end) w
    → from_index anchor (text (w ++ end ∷ [])) ≡ some (out ++ (name ++ end ∷ []))
    → IsAnswer (name ++ end ∷ []) anchor (w ++ end ∷ []) out
IsAnswer-plain end name anchor w out solid some_anchor plain whole = record {
  complete = prompted-found end name anchor (text (w ++ end ∷ [])) out solid some_anchor whole;
  not_before =
      proper_prefixes-All (IsPlain end) (λ u. prompted (name ++ end ∷ []) anchor (text u) ≡ none) w
        end plain (prompted-none end name anchor);
}
