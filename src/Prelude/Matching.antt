-- ===== src/Prelude/Matching.antt =====
-- Regular expressions as functions: a matcher reads at the head of a text and gives its captures
-- and what follows. Every repetition in the expressions of the source is followed by a byte that it
-- does not take, so the longest run is the only one that can match.
pub mod Search
use Prim.Native.Nat.{ℕ, zero, suc, ◌-◌}
use mathlib.Core.Bool.{Bool, ◌||◌, ◌&&◌}
use mathlib.Core.List.{List, [], ◌∷◌}
use mathlib.Core.Option.{Option, none, some}
use smokeping_prober.Prelude.Tests.{◌==◌, leb, if◌then◌else◌}
use smokeping_prober.Prelude.Lists.{is_empty, length}
use smokeping_prober.Prelude.Texts.{Text}
use smokeping_prober.Prelude.Strings.{drop_while}

abbrev pub Matcher {ℓ} : Type ℓ → Type ℓ
Matcher A = Text → Option (A × Text)

infixl 5 ◌>>=◌
abbrev ◌>>=◌ {ℓ κ} : {A : Type ℓ} {B : Type κ} → Option A → (A → Option B) → Option B
none >>= f = none
some a >>= f = f a

-- \d and \s
abbrev pub is_digit : ℕ → Bool
is_digit c = leb b'0' c && leb c b'9'

abbrev pub is_re_space : ℕ → Bool
is_re_space c = c == 9 || c == 10 || c == 12 || c == 13 || c == 32

abbrev pub take_while : (ℕ → Bool) → Text → Text
take_while p [] = []
take_while p (c ∷ s) = if p c then c ∷ take_while p s else []

-- (\d+)
unfoldable pub digits1 : Matcher Text
digits1 s =
    let ds = take_while is_digit s in if is_empty ds then none else some (ds, drop_while is_digit s)

-- \s* and \s+
unfoldable pub spaces : Text → Text
spaces s = drop_while is_re_space s

unfoldable pub spaces1 : Text → Option Text
spaces1 s = if is_empty (take_while is_re_space s) then none else some (drop_while is_re_space s)

module _ {ℓ} {A : Type ℓ} where
  -- `FindStringSubmatch`: the leftmost match.
  unfoldable pub find : Matcher A → Text → Option A
  find m [] = elim (m []) [ some (a, _) ↦ some a | none ↦ none ]
  find m (c ∷ s) = let rest = find m s in elim (m (c ∷ s)) [ some (a, _) ↦ some a | none ↦ rest ]

  -- `FindAllStringSubmatch` for a matcher that takes a byte at least: `skip` bytes are left of the
  -- match before.
  find_all_from : ℕ → Matcher A → Text → List A
  find_all_from skip m [] = []
  find_all_from (suc skip) m (c ∷ s) = find_all_from skip m s
  find_all_from zero m (c ∷ s) = elim (m (c ∷ s)) [
    | some (a, rest) ↦ a ∷ find_all_from (length s - length rest) m s
    | none ↦ find_all_from zero m s
  ]

  unfoldable pub find_all : Matcher A → Text → List A
  unfolding find_all_from
  find_all m s = find_all_from 0 m s
