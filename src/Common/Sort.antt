-- ===== src/Common/Sort.antt =====
-- slices.SortStableFunc and sort.Slice on a total preorder: the stable sort.
use mathlib.Core.List.{Perm}
use mathlib.Core.List.Perm
use mathlib.Core.Path.{◌≡◌}
use mathlib.Core.Logic.{◌⊎◌, inl, inr, ◌↔◌}
use mathlib.Core.Bool.{Bool, true, false}
use mathlib.Core.List.{List, [], ◌∷◌}
use native.Mathlib.Omega.{arith}
use temporal_agent.Common.Tests.{if◌then◌else◌, Bool-cases}
use temporal_agent.Common.Lists.{In, All}

module _ {ℓ} {A : Type ℓ} (leq : A → A → Bool) where
  -- Before the first element that is not below it.
  unfoldable pub insert : A → List A → List A
  insert x [] = x ∷ []
  insert x (y ∷ ys) = if leq x y then x ∷ y ∷ ys else y ∷ insert x ys

  unfoldable pub sort : List A → List A
  unfolding insert
  sort [] = []
  sort (x ∷ xs) = insert x (sort xs)

  insert-perm : (x : A) (ys : List A) → Perm (insert x ys) (x ∷ ys)
  unfolding insert
  insert-perm x [] = Perm.refl _
  insert-perm x (y ∷ ys) = elim (Bool-cases (leq x y)) [
    | inl e ↦ rw e (Perm.refl _)
    | inr e ↦ rw e (Perm.trans (Perm.cons y (insert-perm x ys)) (Perm.swap x y ys))
  ]

  pub sort-perm : (xs : List A) → Perm (sort xs) xs
  unfolding sort
  sort-perm [] = Perm.refl _
  sort-perm (x ∷ xs) = Perm.trans (insert-perm x (sort xs)) (Perm.cons x (sort-perm xs))

  abbrev pub Sorted : List A → Type 0
  Sorted [] = Unit
  Sorted (x ∷ xs) = All (λ y. leq x y ≡ true) xs × Sorted xs

  All-weaken :
      (x y : A) (xs : List A)
      → ((a b c : A) → leq a b ≡ true → leq b c ≡ true → leq a c ≡ true)
      → leq x y ≡ true
      → All (λ z. leq y z ≡ true) xs
      → All (λ z. leq x z ≡ true) xs
  All-weaken x y [] tr h a = tt
  All-weaken x y (z ∷ xs) tr h a = (tr x y z h a.0, All-weaken x y xs tr h a.1)

  module _ {κ} (P : A → Type κ) where
    pub All-insert : (x : A) (ys : List A) → P x → All P ys → All P (insert x ys)
    unfolding insert
    All-insert x [] p a = (p, tt)
    All-insert x (y ∷ ys) p a = elim (Bool-cases (leq x y)) [
      | inl e ↦ rw e (p, a)
      | inr e ↦ rw e (a.0, All-insert x ys p a.1)
    ]

    pub All-sort : (xs : List A) → All P xs → All P (sort xs)
    unfolding sort
    All-sort [] a = tt
    All-sort (x ∷ xs) a = All-insert x (sort xs) a.0 (All-sort xs a.1)

  module _ (total : (a b : A) → leq a b ≡ false → leq b a ≡ true)
      (tr : (a b c : A) → leq a b ≡ true → leq b c ≡ true → leq a c ≡ true) where
    insert-Sorted : (x : A) (ys : List A) → Sorted ys → Sorted (insert x ys)
    unfolding insert
    insert-Sorted x [] s = (tt, tt)
    insert-Sorted x (y ∷ ys) s = elim (Bool-cases (leq x y)) [
      | inl e ↦ rw e ((e, All-weaken x y ys tr e s.0), s)
      | inr e ↦
          rw e (All-insert (λ z. leq y z ≡ true) x ys (total x y e) s.0, insert-Sorted x ys s.1)
    ]

    pub sort-Sorted : (xs : List A) → Sorted (sort xs)
    unfolding sort
    sort-Sorted [] = tt
    sort-Sorted (x ∷ xs) = insert-Sorted x (sort xs) (sort-Sorted xs)

module _ {A : Type 0} (leq : A → A → Bool) where
  pub In-insert : (a x : A) (ys : List A) → In a (insert leq x ys) ↔ ((a ≡ x) ⊎ In a ys)
  unfolding insert
  In-insert a x [] = ground arith
  In-insert a x (y ∷ ys) = ground (arith, In-insert a x ys)

  pub In-sort : (a : A) (xs : List A) → In a (sort leq xs) ↔ In a xs
  unfolding sort
  In-sort a [] = ground arith
  In-sort a (x ∷ xs) = ground (arith, In-insert a x (sort leq xs), In-sort a xs)
