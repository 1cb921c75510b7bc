-- ===== src/Remote/Huawei/Parse/Passing.antt =====
-- What the regular expressions of remote/huawei.go read at a number, and where they match nothing.
use smokeping_prober.Prelude.{
  ℕ, Bool, true, false, ◌==◌, none, some, [], ◌∷◌, ◌++◌, ◌≡◌, ◌≢◌, ◌⊎◌, inl, inr, refl, sym, ◌∙◌,
  ap, arith, Text, codes, All, All-map, show_ℕ, IsDigit, show_ℕ-IsDigit, show_ℕ-ne-nil,
  strip_prefix, append-nil,
}
use smokeping_prober.Prelude.Strings.{drop_while}
use smokeping_prober.Prelude.{any}
use smokeping_prober.Prelude.Matching.{find, find_all}
use smokeping_prober.Prelude.Matching.{is_digit, is_re_space, take_while, digits1, spaces, spaces1}
use smokeping_prober.Prelude.Matching.Search.{Moves, find-Moves, find_all-Moves, pass, any-false}
use smokeping_prober.Remote.Huawei.Parse.{count_re, reply_re, timeout_re}

-- No digit is next.
abbrev pub Ends : Text → Type 0
Ends s = take_while is_digit s ≡ []

take_digits : (u s : Text) → All IsDigit u → Ends s → take_while is_digit (u ++ s) ≡ u
take_digits [] s h e = e
take_digits (c ∷ u) s (d, h) e = ground (arith, take_digits u s h e)

drop_none : (s : Text) → Ends s → drop_while is_digit s ≡ s
drop_none [] e = refl
drop_none (c ∷ s) e = ground arith

drop_digits : (u s : Text) → All IsDigit u → Ends s → drop_while is_digit (u ++ s) ≡ s
drop_digits [] s h e = drop_none s e
drop_digits (c ∷ u) s (d, h) e = ground (arith, drop_digits u s h e)

-- (\d+) at a number reads all of its digits, if none follows.
pub digits1-show_ℕ : (n : ℕ) (s : Text) → Ends s → digits1 (show_ℕ n ++ s) ≡ some (show_ℕ n, s)
unfolding digits1
digits1-show_ℕ n s e =
    rw
      (take_digits (show_ℕ n) s (show_ℕ-IsDigit n) e, drop_digits (show_ℕ n) s (show_ℕ-IsDigit n) e)
      (ground (arith, show_ℕ-ne-nil n))

no_space : (u s : Text) → All IsDigit u → u ≢ [] → spaces (u ++ s) ≡ u ++ s
unfolding spaces
no_space [] s h filled = absurd (filled refl)
no_space (c ∷ u) s (d, h) filled = ground arith

pub spaces-show_ℕ : (n : ℕ) (s : Text) → spaces (show_ℕ n ++ s) ≡ show_ℕ n ++ s
spaces-show_ℕ n s = no_space (show_ℕ n) s (show_ℕ-IsDigit n) (show_ℕ-ne-nil n)

abbrev pub reply_head : ℕ → Bool
reply_head c = c == b'S'

abbrev pub timeout_head : ℕ → Bool
timeout_head c = c == b'R'

pub reply_re-none : (c : ℕ) (s : Text) → reply_head c ≡ false → reply_re (c ∷ s) ≡ none
unfolding reply_re
reply_re-none c s e = ground arith

pub timeout_re-none : (c : ℕ) (s : Text) → timeout_head c ≡ false → timeout_re (c ∷ s) ≡ none
unfolding timeout_re
timeout_re-none c s e = ground arith

pub count_re-none :
    (word : Text) (c : ℕ) (s : Text) → is_digit c ≡ false → count_re word (c ∷ s) ≡ none
unfolding count_re digits1
count_re-none word c s e = ground arith

abbrev pub IsWord : Text → Type 0
IsWord u = All (λ c. is_re_space c ≡ false) u

-- What is next does not make a number a count with this word.
unfoldable pub no_count : Text → Text → Bool
no_count word v = elim (spaces1 v) [
  | none ↦ true
  | some s ↦ elim (strip_prefix (codes "packet(s)") s) [
    | none ↦ true
    | some s1 ↦ elim (spaces1 s1) [
      | none ↦ true
      | some s2 ↦ elim (strip_prefix word s2) [ none ↦ true | some _ ↦ false ]
    ]
  ]
]

drop_word :
    (u v : Text)
    → IsWord u
    → Ends v
    → (drop_while is_digit (u ++ v) ≡ v) ⊎ (spaces1 (drop_while is_digit (u ++ v)) ≡ none)
unfolding spaces1
drop_word [] v h e = inl (drop_none v e)
drop_word (c ∷ u) v (solid, h) e = ground (arith, drop_word u v h e)

-- A count cannot start in a word that is not followed by one.
word_no_count :
    (word : Text) (c : ℕ) (u v : Text)
    → IsWord u
    → Ends v
    → no_count word v ≡ true
    → count_re word (c ∷ (u ++ v)) ≡ none
unfolding count_re digits1 no_count
word_no_count word c u v h e blocked = elim (drop_word u v h e) [
  | inl rest ↦ ground arith
  | inr stuck ↦ ground arith
]

module _ {R : Type 0} (word : Text) (F : Text → R) (moves : Moves (count_re word) F) where
  pub pass_word : (u v : Text) → IsWord u → Ends v → no_count word v ≡ true → F (u ++ v) ≡ F v
  pass_word [] v h e blocked = refl
  pass_word (c ∷ u) v (solid, h) e blocked =
      moves c (u ++ v) (word_no_count word c u v h e blocked) ∙ pass_word u v h e blocked

pub digits_silent :
    (heads : ℕ → Bool) (n : ℕ)
    → ((c : ℕ) → IsDigit c → heads c ≡ false)
    → any heads (show_ℕ n) ≡ false
digits_silent heads n h = any-false heads (show_ℕ n) h (show_ℕ-IsDigit n)

digits-IsWord : (n : ℕ) → IsWord (show_ℕ n)
digits-IsWord n = All-map (show_ℕ n) (λ c d. ground arith) (show_ℕ-IsDigit n)

pub past_reply :
    (u v : Text) → any reply_head u ≡ false → find_all reply_re (u ++ v) ≡ find_all reply_re v
past_reply u v =
    pass reply_re (find_all reply_re) (find_all-Moves reply_re) reply_head u v reply_re-none

pub past_timeout :
    (u v : Text) → any timeout_head u ≡ false → find_all timeout_re (u ++ v) ≡ find_all timeout_re v
past_timeout u v =
    pass timeout_re (find_all timeout_re) (find_all-Moves timeout_re) timeout_head u v
      timeout_re-none

module _ (word : Text) where
  pub past_count :
      (u v : Text) → any is_digit u ≡ false → find (count_re word) (u ++ v) ≡ find (count_re word) v
  past_count u v =
      pass (count_re word) (find (count_re word)) (find-Moves (count_re word)) is_digit u v
        (count_re-none word)

  pub past_word :
      (u v : Text)
      → IsWord u
      → Ends v
      → no_count word v ≡ true
      → find (count_re word) (u ++ v) ≡ find (count_re word) v
  past_word = pass_word word (find (count_re word)) (find-Moves (count_re word))

  pub past_number :
      (n : ℕ) (v : Text)
      → Ends v
      → no_count word v ≡ true
      → find (count_re word) (show_ℕ n ++ v) ≡ find (count_re word) v
  past_number n v = past_word (show_ℕ n) v (digits-IsWord n)

-- A text without a byte that a match starts with.
pub no_reply : (u : Text) → any reply_head u ≡ false → find_all reply_re u ≡ []
unfolding find_all
no_reply u h = ap (find_all reply_re) (sym (append-nil u)) ∙ past_reply u [] h

pub no_timeout : (u : Text) → any timeout_head u ≡ false → find_all timeout_re u ≡ []
unfolding find_all
no_timeout u h = ap (find_all timeout_re) (sym (append-nil u)) ∙ past_timeout u [] h
