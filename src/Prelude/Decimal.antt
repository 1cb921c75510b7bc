-- ===== src/Prelude/Decimal.antt =====
-- Decimal numbers: `%d` of fmt, and `strconv.Atoi` on a text of digits.
use Prim.Native.Nat.{ℕ, zero, suc, ◌+◌, ◌-◌, ◌*◌, ◌/◌, ◌%◌, ◌^◌, ◌≤◌, ◌<◌, min}
use mathlib.Core.Path.{◌≡◌, refl}
use mathlib.Core.Logic.{◌≢◌}
use mathlib.Core.List.{[], ◌∷◌, ◌++◌, concat-ne-nil}
use native.Mathlib.Omega.{arith}
use smokeping_prober.Prelude.Tests.{ltb, if◌then◌else◌}
use smokeping_prober.Prelude.Lists.{All, All-append}
use smokeping_prober.Prelude.Texts.{Text}
use smokeping_prober.Prelude.Int.{ℤ, pos, negsuc}

digits_fuel : ℕ → ℕ → Text
digits_fuel zero n = []
digits_fuel (suc f) n =
    let more = digits_fuel f (n / 10) in (if ltb n 10 then [] else more) ++ (b'0' + n % 10) ∷ []

-- The digits of a number; each round divides it by ten, so it is fuel for itself.
unfoldable pub show_ℕ : ℕ → Text
unfolding digits_fuel
show_ℕ n = digits_fuel (suc n) n

unfoldable pub show_ℤ : ℤ → Text
show_ℤ (pos n) = show_ℕ n
show_ℤ (negsuc n) = b'-' ∷ show_ℕ (suc n)

-- The number that digits spell behind `n`.
abbrev pub value_from : ℕ → Text → ℕ
value_from n [] = n
value_from n (c ∷ s) = value_from (n * 10 + (c - b'0')) s

abbrev pub max_int : ℕ
max_int = 2 ^ 63 - 1

-- `Atoi` with its error ignored: past the range of `int` it gives the largest `int`.
unfoldable pub atoi : Text → ℕ
atoi s = min (value_from 0 s) max_int

abbrev pub IsDigit : ℕ → Type 0
IsDigit c = (b'0' ≤ c) × (c ≤ b'9')

digits_fuel-IsDigit : (f n : ℕ) → All IsDigit (digits_fuel f n)
unfolding digits_fuel
digits_fuel-IsDigit zero n = tt
digits_fuel-IsDigit (suc f) n =
    All-append IsDigit (if ltb n 10 then [] else digits_fuel f (n / 10)) _
      (ground (arith, digits_fuel-IsDigit f (n / 10))) ((omega arith, omega arith), tt)

pub show_ℕ-IsDigit : (n : ℕ) → All IsDigit (show_ℕ n)
unfolding show_ℕ
show_ℕ-IsDigit n = digits_fuel-IsDigit (suc n) n

value_from-append :
    (n : ℕ) (s : Text) (c : ℕ) → value_from n (s ++ c ∷ []) ≡ value_from n s * 10 + (c - b'0')
value_from-append n [] c = refl
value_from-append n (d ∷ s) c = value_from-append (n * 10 + (d - b'0')) s c

value_from-digits_fuel : (f n : ℕ) → n < f → value_from 0 (digits_fuel f n) ≡ n
unfolding digits_fuel
value_from-digits_fuel zero n h = elim h [ ]
value_from-digits_fuel (suc f) n h = ground (
  arith,
  value_from-append 0 (digits_fuel f (n / 10)) (b'0' + n % 10),
  value_from-digits_fuel f (n / 10),
)

pub value_from-show_ℕ : (n : ℕ) → value_from 0 (show_ℕ n) ≡ n
unfolding show_ℕ
value_from-show_ℕ n = value_from-digits_fuel (suc n) n (omega arith)

-- A number in the range of `int` is read back from its decimal print.
pub atoi-show_ℕ : (n : ℕ) → n ≤ max_int → atoi (show_ℕ n) ≡ n
unfolding atoi
atoi-show_ℕ n h = omega (arith, value_from-show_ℕ n)

digits_fuel-ne-nil : (f n : ℕ) → digits_fuel (suc f) n ≢ []
unfolding digits_fuel
digits_fuel-ne-nil f n = concat-ne-nil _ _

pub show_ℕ-ne-nil : (n : ℕ) → show_ℕ n ≢ []
unfolding show_ℕ
show_ℕ-ne-nil n = digits_fuel-ne-nil n n
