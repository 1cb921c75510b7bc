-- ===== src/Prelude/Texts.antt =====
-- Go strings as lists of bytes, with the part of the `strings` package that the prober uses.
use Prim.Native.Nat.{ℕ}
use Prim.Native.Char.{code}
use Prim.Native.String.{String}
use mathlib.Core.Path.{◌≡◌}
use mathlib.Core.Logic.{◌≢◌, ◌↔◌}
use mathlib.Core.Bool.{Bool, true, false, ◌&&◌}
use mathlib.Core.List.{List, [], ◌∷◌}
use native.Mathlib.Omega.{arith}
use smokeping_prober.Prelude.Tests.{◌==◌}
use smokeping_prober.Prelude.Lists.{any, Any, All, any_iff}

abbrev pub Text : Type 0
Text = List ℕ

-- The code points of a literal: its bytes, since the literals of the source are ASCII.
abbrev pub codes : String → Text
codes String.[] = []
codes (String.◌∷◌ c s) = code c ∷ codes s

unfoldable pub text_eq : Text → Text → Bool
text_eq [] [] = true
text_eq (x ∷ xs) (y ∷ ys) = x == y && text_eq xs ys
text_eq _ _ = false

pub text_eq_iff : (a b : Text) → (text_eq a b ≡ true) ↔ (a ≡ b)
unfolding text_eq
text_eq_iff [] [] = ground arith
text_eq_iff (x ∷ xs) (y ∷ ys) = ground (arith, text_eq_iff xs ys)
text_eq_iff (x ∷ xs) [] = ground arith
text_eq_iff [] (y ∷ ys) = ground arith

-- slices.Contains
abbrev pub contains : List Text → Text → Bool
contains names name = any (λ n. text_eq n name) names

pub contains_iff :
    (names : List Text) (name : Text) → (contains names name ≡ true) ↔ Any (λ n. n ≡ name) names
contains_iff names name = any_iff _ names λ n. text_eq_iff n name

pub contains-false_iff :
    (names : List Text) (name : Text) → (contains names name ≡ false) ↔ All (λ n. n ≢ name) names
contains-false_iff [] name = ground arith
contains-false_iff (n ∷ names) name =
    ground (arith, text_eq_iff n name, contains-false_iff names name)
