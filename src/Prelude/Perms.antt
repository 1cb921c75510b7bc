-- ===== src/Prelude/Perms.antt =====
-- Permutations, and what they keep: members, and the absence of duplicates.
use mathlib.Core.Path.{sym}
use mathlib.Core.Logic.{◌≢◌, inl, inr}
use mathlib.Core.List.{List, [], ◌∷◌}
use smokeping_prober.Prelude.Lists.{Any, All, DistinctBy}

module _ {A : Type 0} where
  pub data Permuted : List A → List A → Type 0 where
    nothing : Permuted [] []
    keep : {xs ys : List A} (x : A) → Permuted xs ys → Permuted (x ∷ xs) (x ∷ ys)
    swap : (x y : A) (xs : List A) → Permuted (x ∷ y ∷ xs) (y ∷ x ∷ xs)
    both : {xs ys zs : List A} → Permuted xs ys → Permuted ys zs → Permuted xs zs

  pub Permuted-sym : {xs ys : List A} → Permuted xs ys → Permuted ys xs
  Permuted-sym nothing = nothing
  Permuted-sym (keep x p) = keep x (Permuted-sym p)
  Permuted-sym (swap x y xs) = swap y x xs
  Permuted-sym (both p q) = both (Permuted-sym q) (Permuted-sym p)

  pub Any-Permuted : (P : A → Type 0) {xs ys : List A} → Permuted xs ys → Any P xs → Any P ys
  Any-Permuted P nothing h = h
  Any-Permuted P (keep x p) (inl h) = inl h
  Any-Permuted P (keep x p) (inr h) = inr (Any-Permuted P p h)
  Any-Permuted P (swap x y xs) (inl h) = inr (inl h)
  Any-Permuted P (swap x y xs) (inr (inl h)) = inl h
  Any-Permuted P (swap x y xs) (inr (inr h)) = inr (inr h)
  Any-Permuted P (both p q) h = Any-Permuted P q (Any-Permuted P p h)

  pub All-Permuted : (P : A → Type 0) {xs ys : List A} → Permuted xs ys → All P xs → All P ys
  All-Permuted P nothing h = h
  All-Permuted P (keep x p) h = (h.0, All-Permuted P p h.1)
  All-Permuted P (swap x y xs) h = (h.1.0, (h.0, h.1.1))
  All-Permuted P (both p q) h = All-Permuted P q (All-Permuted P p h)

  pub Distinct-Permuted :
      {xs ys : List A} → Permuted xs ys → DistinctBy (λ x. x) xs → DistinctBy (λ y. y) ys
  Distinct-Permuted nothing h = h
  Distinct-Permuted (keep x p) h = (All-Permuted (λ y. x ≢ y) p h.0, Distinct-Permuted p h.1)
  Distinct-Permuted (swap x y xs) h = (((λ q. h.0.0 (sym q)), h.1.0), (h.0.1, h.1.1))
  Distinct-Permuted (both p q) h = Distinct-Permuted q (Distinct-Permuted p h)
