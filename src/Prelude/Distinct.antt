-- ===== src/Prelude/Distinct.antt =====
-- Lists whose members differ in the value of a function.
use mathlib.Core.Bool.{Bool}
use mathlib.Core.List.{List, [], ◌∷◌, ◌++◌}
use mathlib.Core.Logic.{◌≢◌, inl, inr}
use native.Mathlib.Omega.{arith}
use smokeping_prober.Prelude.Tests.{Bool-cases}
use smokeping_prober.Prelude.Lists.{All, Any, DistinctBy, All-append, select}

module _ {A B : Type 0} (f : A → B) where
  -- No member of the one has the value of a member of the other.
  abbrev pub Apart : List A → List A → Type 0
  Apart xs ys = All (λ x. All (λ y. f x ≢ f y) ys) xs

  pub DistinctBy-append :
      (xs ys : List A) → DistinctBy f xs → DistinctBy f ys → Apart xs ys → DistinctBy f (xs ++ ys)
  DistinctBy-append [] ys dx dy apart = dy
  DistinctBy-append (x ∷ xs) ys (new, dx) dy (here, apart) =
      (All-append (λ y. f x ≢ f y) xs ys new here, DistinctBy-append xs ys dx dy apart)

  All-behind : (P : A → Type 0) (xs ys : List A) → All P (xs ++ ys) → All P ys
  All-behind P [] ys h = h
  All-behind P (x ∷ xs) ys (p, h) = All-behind P xs ys h

  pub append-DistinctBy : (xs ys : List A) → DistinctBy f (xs ++ ys) → DistinctBy f ys × Apart xs ys
  append-DistinctBy [] ys d = (d, tt)
  append-DistinctBy (x ∷ xs) ys (new, d) =
      let (dy, apart) = append-DistinctBy xs ys d in
      (dy, (All-behind (λ y. f x ≢ f y) xs ys new, apart))

  All-select : (P : A → Type 0) (p : A → Bool) (xs : List A) → All P xs → All P (select p xs)
  All-select P p [] h = tt
  All-select P p (x ∷ xs) h = ground (arith, h, All-select P p xs)

  pub DistinctBy-select :
      (p : A → Bool) (xs : List A) → DistinctBy f xs → DistinctBy f (select p xs)
  DistinctBy-select p [] d = tt
  DistinctBy-select p (x ∷ xs) (new, d) = elim (Bool-cases (p x)) [
    | inl e ↦ rw e (All-select (λ y. f x ≢ f y) p xs new, DistinctBy-select p xs d)
    | inr e ↦ rw e (DistinctBy-select p xs d)
  ]

module _ {A : Type 0} where
  pub All-none : (P : A → Type 0) (xs : List A) → (Any P xs → ⊥) → All (λ x. P x → ⊥) xs
  All-none P [] h = tt
  All-none P (x ∷ xs) h = ((λ p. h (inl p)), All-none P xs λ a. h (inr a))

  pub Any-append : (P : A → Type 0) (xs ys : List A) → Any P xs → Any P (xs ++ ys)
  Any-append P [] ys a = absurd a
  Any-append P (x ∷ xs) ys (inl p) = inl p
  Any-append P (x ∷ xs) ys (inr a) = inr (Any-append P xs ys a)

  pub Any-behind : (P : A → Type 0) (xs ys : List A) → Any P ys → Any P (xs ++ ys)
  Any-behind P [] ys a = a
  Any-behind P (x ∷ xs) ys a = inr (Any-behind P xs ys a)
