-- ===== src/Common/Lists.antt =====
-- Lists measured by native numbers, and the Boolean loops over a slice.
use Prim.Native.Nat.{ℕ, suc, ◌+◌}
use mathlib.Core.Path.{◌≡◌, refl}
use mathlib.Core.Logic.{◌↔◌, ◌⊎◌, inl, inr}
use mathlib.Core.Bool.{Bool, true, false, ◌||◌, ◌&&◌}
use mathlib.Core.List.{List, [], ◌∷◌, ◌++◌}
use native.Mathlib.Omega.{arith}
use temporal_agent.Common.Tests.{if◌then◌else◌, Bool-cases}

module _ {ℓ} {A : Type ℓ} where
  abbrev pub length : List A → ℕ
  length [] = 0
  length (x ∷ xs) = suc (length xs)

  pub length-append : (xs ys : List A) → length (xs ++ ys) ≡ length xs + length ys
  length-append [] ys = omega arith
  length-append (x ∷ xs) ys = omega (arith, length-append xs ys)

  -- `for … { if f(x) { return true } } return false`, slices.ContainsFunc.
  abbrev pub any : (A → Bool) → List A → Bool
  any f [] = false
  any f (x ∷ xs) = f x || any f xs

  abbrev pub all : (A → Bool) → List A → Bool
  all f [] = true
  all f (x ∷ xs) = f x && all f xs

  -- The elements that pass the test, in order.
  abbrev pub select : (A → Bool) → List A → List A
  select f [] = []
  select f (x ∷ xs) = if f x then x ∷ select f xs else select f xs

  abbrev pub All {κ} : (A → Type κ) → List A → Type κ
  All P [] = Unit
  All P (x ∷ xs) = P x × All P xs

-- Membership with its position kept.
abbrev pub In : {A : Type 0} → A → List A → Type 0
In a [] = ⊥
In a (x ∷ xs) = (a ≡ x) ⊎ In a xs

module _ {A : Type 0} where
  pub In-append : (a : A) (xs ys : List A) → In a (xs ++ ys) ↔ (In a xs ⊎ In a ys)
  In-append a [] ys = ground arith
  In-append a (x ∷ xs) ys = ground (arith, In-append a xs ys)

  pub In-select :
      (f : A → Bool) (a : A) (xs : List A) → In a (select f xs) ↔ (In a xs × (f a ≡ true))
  In-select f a [] = ground arith
  In-select f a (x ∷ xs) = ground (arith, In-select f a xs)

  pub any→In : (f : A → Bool) (xs : List A) → any f xs ≡ true → (a : A) × In a xs × (f a ≡ true)
  any→In f [] h = cc
  any→In f (x ∷ xs) h = elim (Bool-cases (f x)) [
    | inl t ↦ (x, inl refl, t)
    | inr n ↦ let (a, m, t) = any→In f xs (ground arith) in (a, inr m, t)
  ]

  pub In→any : (f : A → Bool) (a : A) (xs : List A) → In a xs → f a ≡ true → any f xs ≡ true
  In→any f a [] m t = absurd m
  In→any f a (x ∷ xs) m t = ground (arith, In→any f a xs)

  pub any-append : (f : A → Bool) (xs ys : List A) → any f (xs ++ ys) ≡ (any f ys || any f xs)
  any-append f [] ys = ground arith
  any-append f (x ∷ xs) ys = let rest = any-append f xs ys in ground (arith, rest)

  pub all-In : (f : A → Bool) (a : A) (xs : List A) → all f xs ≡ true → In a xs → f a ≡ true
  all-In f a [] h m = absurd m
  all-In f a (x ∷ xs) h m = ground (arith, all-In f a xs)

  pub all-append : (f : A → Bool) (xs ys : List A) → all f (xs ++ ys) ≡ (all f xs && all f ys)
  all-append f [] ys = refl
  all-append f (x ∷ xs) ys = ground (arith, all-append f xs ys)

  pub all-intro : (f : A → Bool) (xs : List A) → ((a : A) → In a xs → f a ≡ true) → all f xs ≡ true
  all-intro f [] h = refl
  all-intro f (x ∷ xs) h = ground (arith, h x (inl refl), all-intro f xs (λ a m. h a (inr m)))
