-- ===== src/Prelude/Strings/Occurs.antt =====
-- Where a word occurs first in a text that starts with a line.
use Prim.Native.Nat.{ℕ}
use mathlib.Core.Bool.{true}
use mathlib.Core.List.{[], ◌∷◌, ◌++◌}
use mathlib.Core.Path.{◌≡◌, refl}
use mathlib.Core.Logic.{◌≢◌, inl, inr}
use mathlib.Core.Option.{some}
use native.Mathlib.Omega.{arith}
use smokeping_prober.Prelude.Tests.{Bool-cases}
use smokeping_prober.Prelude.Lists.{All}
use smokeping_prober.Prelude.Texts.{Text}
use smokeping_prober.Prelude.Strings.{from_index, has_prefix, contains_text}
use smokeping_prober.Prelude.Strings.Trims.{contains_text-same}

has_prefix-line :
    (w line rest : Text)
    → All (λ c. c ≢ 10) w
    → has_prefix w (line ++ 10 ∷ rest) ≡ has_prefix w line
has_prefix-line [] line rest h = refl
has_prefix-line (c ∷ w) [] rest (p, h) = ground arith
has_prefix-line (c ∷ w) (d ∷ line) rest (p, h) =
    let later = has_prefix-line w line rest h in ground arith

contains_text-front :
    (c : ℕ) (s w : Text) → contains_text s w ≡ true → contains_text (c ∷ s) w ≡ true
unfolding from_index
contains_text-front c s w e = ground arith

-- A word is in each text that ends with it.
pub contains_text-end : (front w : Text) → contains_text (front ++ w) w ≡ true
contains_text-end [] w = contains_text-same w
contains_text-end (c ∷ front) w = contains_text-front c (front ++ w) w (contains_text-end front w)

-- A word of one line that is in the first line is found first in this line: what is left of the
-- line holds the word, and bytes of the line only.
pub from_index-line :
    (P : ℕ → Type 0) (w line rest : Text)
    → All (λ c. c ≢ 10) w
    → All P line
    → contains_text line w ≡ true
    → (left : Text) × (from_index w (line ++ 10 ∷ rest) ≡ some (left ++ 10 ∷ rest))
      × All P left
      × (contains_text left w ≡ true)
unfolding from_index
from_index-line P [] [] rest one h e = ([], refl, tt, refl)
from_index-line P (c ∷ w) [] rest one h e = ground arith
from_index-line P w (d ∷ line) rest one (p, h) e =
    let same = has_prefix-line w (d ∷ line) rest one in
    elim (Bool-cases (has_prefix w (d ∷ line))) [
      | inl here ↦ (d ∷ line, ground arith, (p, h), e)
      | inr not_here ↦
          let (left, found, kept, holds) = from_index-line P w line rest one h (ground arith) in
          (left, ground arith, kept, holds)
    ]
