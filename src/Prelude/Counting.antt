-- ===== src/Prelude/Counting.antt =====
-- Families indexed by numbers: one entry replaced, sums over the first entries, occurrences in a
-- list, and the bound on the length of a list in which no index occurs twice.
use Prim.Native.Nat.{ℕ, zero, suc, ◌+◌, ◌*◌, ◌≤◌, ◌<◌}
use mathlib.Core.Path.{◌≡◌, refl, ap, ◌∙◌}
use mathlib.Core.Logic.{◌≢◌, ◌⊎◌, inl, inr}
use mathlib.Core.Bool.{Bool, true, false}
use mathlib.Core.List.{List, [], ◌∷◌, ◌++◌}
use native.Mathlib.Omega.{arith}
use native.Mathlib.Decide.{ℕ_discrete}
use smokeping_prober.Prelude.Tests.{◌==◌, if◌then◌else◌}
use smokeping_prober.Prelude.Lists.{length, All}

abbrev pub update {ℓ} : {A : Type ℓ} → (ℕ → A) → ℕ → A → ℕ → A
update f i v j = if i == j then v else f j

abbrev pub bit : Bool → ℕ
bit true = 1
bit false = 0

unfoldable pub sum_to : ℕ → (ℕ → ℕ) → ℕ
sum_to zero f = 0
sum_to (suc n) f = f n + sum_to n f

unfoldable pub count : ℕ → List ℕ → ℕ
count i [] = 0
count i (x ∷ xs) = bit (i == x) + count i xs

pub count-append : (i : ℕ) (xs ys : List ℕ) → count i (xs ++ ys) ≡ count i xs + count i ys
unfolding count
count-append i [] ys = omega arith
count-append i (x ∷ xs) ys = omega (arith, count-append i xs ys)

pub sum_to-ext : (n : ℕ) (f g : ℕ → ℕ) → ((j : ℕ) → j < n → g j ≡ f j) → sum_to n g ≡ sum_to n f
unfolding sum_to
sum_to-ext zero f g same = refl
sum_to-ext (suc n) f g same =
    omega (arith, sum_to-ext n f g (λ j h. same j (omega arith)), same n (omega arith))

-- A family that changes at one index below the bound changes its sum by the difference there.
pub sum_to-change :
    (n : ℕ) (f g : ℕ → ℕ) (i : ℕ)
    → i < n
    → ((j : ℕ) → j ≢ i → g j ≡ f j)
    → sum_to n g + f i ≡ sum_to n f + g i
unfolding sum_to
sum_to-change zero f g i h same = elim h [ ]
sum_to-change (suc n) f g i h same = elim (ℕ_discrete n i) [
  | yes e ↦ omega (arith, sum_to-ext n f g (λ j lt. same j (λ p. omega arith)), ap f e, ap g e)
  | no e ↦ omega (arith, same n e, sum_to-change n f g i (omega arith) same)
]

-- The same for a measure of a family of which one entry is replaced.
pub sum_to-update {ℓ} :
    {A : Type ℓ} (n : ℕ) (f : A → ℕ) (xs : ℕ → A) (i : ℕ) (v : A)
    → i < n
    → sum_to n (λ j. f (update xs i v j)) + f (xs i) ≡ sum_to n (λ j. f (xs j)) + f v
sum_to-update n f xs i v h =
    rw replaced at
      (sum_to-change n (λ j. f (xs j)) (λ j. f (update xs i v j)) i h (λ j ne. ground arith))
  where
    replaced : f (update xs i v i) ≡ f v
    replaced = ground arith

pub le-sum_to : (n : ℕ) (f : ℕ → ℕ) (i : ℕ) → i < n → f i ≤ sum_to n f
unfolding sum_to
le-sum_to zero f i h = elim h [ ]
le-sum_to (suc n) f i h = elim (ℕ_discrete n i) [
  | yes e ↦ omega (arith, ap f e)
  | no e ↦ omega (arith, le-sum_to n f i (omega arith))
]

pub two-le-sum_to : (n : ℕ) (f : ℕ → ℕ) (i j : ℕ) → i < n → j < n → i ≢ j → f i + f j ≤ sum_to n f
unfolding sum_to
two-le-sum_to zero f i j h k ne = elim h [ ]
two-le-sum_to (suc n) f i j h k ne = elim (ℕ_discrete n i) [
  | yes e ↦ omega (arith, ap f e, le-sum_to n f j (omega arith))
  | no e ↦ elim (ℕ_discrete n j) [
    | yes p ↦ omega (arith, ap f p, le-sum_to n f i (omega arith))
    | no p ↦ omega (arith, two-le-sum_to n f i j (omega arith) (omega arith) ne)
  ]
]

sum_to-le : (n : ℕ) (f : ℕ → ℕ) → ((j : ℕ) → f j ≤ 1) → sum_to n f ≤ n
unfolding sum_to
sum_to-le zero f small = omega arith
sum_to-le (suc n) f small = omega (arith, small n, sum_to-le n f small)

sum_to-lt : (n : ℕ) (f : ℕ → ℕ) (i : ℕ) → ((j : ℕ) → f j ≤ 1) → f i ≡ 0 → i < n → sum_to n f < n
unfolding sum_to
sum_to-lt zero f i small e h = elim h [ ]
sum_to-lt (suc n) f i small e h = elim (ℕ_discrete n i) [
  | yes p ↦ omega (arith, ap f p, sum_to-le n f small)
  | no p ↦ omega (arith, small n, sum_to-lt n f i small e (omega arith))
]

pub sum_to-zero : (n : ℕ) → sum_to n (λ i. 0) ≡ 0
unfolding sum_to
sum_to-zero zero = refl
sum_to-zero (suc n) = omega (arith, sum_to-zero n)

sum_to-count : (n : ℕ) (xs : List ℕ) → All (λ x. x < n) xs → sum_to n (λ i. count i xs) ≡ length xs
unfolding count
sum_to-count n [] h = sum_to-zero n
sum_to-count n (x ∷ xs) h = omega (
  arith,
  sum_to-count n xs h.1,
  sum_to-change n (λ i. count i xs) (λ i. bit (i == x) + count i xs) x h.0 (λ j ne. ground arith),
  count_head x,
)
  where
    count_head : (i : ℕ) → bit (i == i) ≡ 1
    count_head i = ground arith

-- A list of indices below `n` with none twice, and one of them missing, is shorter than `n`.
pub length-lt_missing :
    (n : ℕ) (xs : List ℕ) (i : ℕ)
    → All (λ x. x < n) xs
    → ((j : ℕ) → count j xs ≤ 1)
    → count i xs ≡ 0
    → i < n
    → length xs < n
length-lt_missing n xs i below once missing h =
    omega (arith, sum_to-count n xs below, sum_to-lt n (λ j. count j xs) i once missing h)

pub sum_to-le-mul : (n c : ℕ) (f : ℕ → ℕ) → ((j : ℕ) → f j ≤ c) → sum_to n f ≤ n * c
unfolding sum_to
sum_to-le-mul zero c f small = omega arith
sum_to-le-mul (suc n) c f small = ground (arith, small n, sum_to-le-mul n c f small)

-- All of the first numbers are zero, or one of them is not.
pub zeros_or : (n : ℕ) (f : ℕ → ℕ) → ((j : ℕ) → j < n → f j ≡ 0) ⊎ ((j : ℕ) × (j < n) × (f j ≢ 0))
zeros_or zero f = inl λ j h. elim h [ ]
zeros_or (suc n) f = elim (ℕ_discrete (f n) 0) [
  | no some_left ↦ inr (n, omega arith, some_left)
  | yes last ↦ elim (zeros_or n f) [
    | inl before ↦
        inl λ j h. elim (ℕ_discrete j n) [ yes e ↦ ap f e ∙ last | no e ↦ before j (omega arith) ]
    | inr (j, h, some_left) ↦ inr (j, omega arith, some_left)
  ]
]
