-- ===== src/Prelude/Matching/Search.antt =====
-- How the searches of Matching go over a text: past a place without a match, and on behind a match.
use Prim.Native.Nat.{ℕ, ◌-◌}
use mathlib.Core.Path.{◌≡◌, refl, ◌∙◌}
use mathlib.Core.Bool.{Bool, false}
use mathlib.Core.List.{[], ◌∷◌, ◌++◌}
use mathlib.Core.Option.{none, some}
use native.Mathlib.Omega.{arith}
use smokeping_prober.Prelude.Lists.{length, length-append, All, any}
use smokeping_prober.Prelude.Texts.{Text}
use smokeping_prober.Prelude.Matching.{Matcher, find, find_all, find_all_from}

-- A search moves on where its expression does not match.
abbrev pub Moves : {A R : Type 0} → Matcher A → (Text → R) → Type 0
Moves m F = (c : ℕ) (s : Text) → m (c ∷ s) ≡ none → F (c ∷ s) ≡ F s

module _ {A : Type 0} (m : Matcher A) where
  pub find-Moves : Moves m (find m)
  unfolding find
  find-Moves c s e = ground arith

  pub find_all-Moves : Moves m (find_all m)
  unfolding find_all find_all_from
  find_all-Moves c s e = ground arith

  pub find-match : (s rest : Text) (a : A) → m s ≡ some (a, rest) → find m s ≡ some a
  unfolding find
  find-match [] rest a e = ground arith
  find-match (c ∷ s) rest a e = ground arith

  skip_all : (u v : Text) → find_all_from (length u) m (u ++ v) ≡ find_all m v
  unfolding find_all find_all_from
  skip_all [] v = refl
  skip_all (c ∷ u) v = skip_all u v

  pub find_all-match :
      (c : ℕ) (u v : Text) (a : A)
      → m (c ∷ (u ++ v)) ≡ some (a, v)
      → find_all m (c ∷ (u ++ v)) ≡ a ∷ find_all m v
  unfolding find_all find_all_from
  find_all-match c u v a e =
      let taken : length (u ++ v) - length v ≡ length u = omega (arith, length-append u v) in
      ground (arith, skip_all u v)

module _ {A R : Type 0} (m : Matcher A) (F : Text → R) (moves : Moves m F) where
  -- Nothing matches where the text has no byte that a match starts with.
  pub pass :
      (heads : ℕ → Bool) (u v : Text)
      → ((c : ℕ) (s : Text) → heads c ≡ false → m (c ∷ s) ≡ none)
      → any heads u ≡ false
      → F (u ++ v) ≡ F v
  pass heads [] v starts h = refl
  pass heads (c ∷ u) v starts h =
      moves c (u ++ v) (starts c (u ++ v) (ground arith)) ∙ pass heads u v starts (ground arith)

-- Bytes that are no heads.
pub any-false :
    {P : ℕ → Type 0} (heads : ℕ → Bool) (u : Text)
    → ((c : ℕ) → P c → heads c ≡ false)
    → All P u
    → any heads u ≡ false
any-false heads [] h a = refl
any-false heads (c ∷ u) h (p, a) = ground (arith, h c p, any-false heads u h a)
