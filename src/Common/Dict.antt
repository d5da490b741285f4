-- ===== src/Common/Dict.antt =====
-- A Go map as an association list: a read finds the first entry, a write leaves one entry.
use mathlib.Core.Path.{◌≡◌, subst}
use mathlib.Core.Logic.{inl, inr}
use mathlib.Core.List.{List, [], ◌∷◌}
use mathlib.Core.Option.{Option, none, some}
use native.Mathlib.Omega.{arith}
use temporal_agent.Common.Tests.{if◌then◌else◌, Bool-cases}
use temporal_agent.Common.Lists.{All}
use temporal_agent.Common.Eq.{Equality, ◌==◌}

module _ {ℓ κ} {K : Type ℓ} {V : Type κ} ⦃keys : Equality K⦄ where
  -- m[k], with whether it is there
  abbrev pub lookup : K → List (K × V) → Option V
  lookup k [] = none
  lookup k ((j, v) ∷ m) = if j == k then some v else lookup k m

  -- delete(m, k)
  abbrev pub delete : K → List (K × V) → List (K × V)
  delete k [] = []
  delete k ((j, v) ∷ m) = if j == k then delete k m else (j, v) ∷ delete k m

  -- m[k] = v
  abbrev pub put : K → V → List (K × V) → List (K × V)
  put k v m = (k, v) ∷ delete k m

  pub lookup-delete :
      (k j : K) (m : List (K × V)) → lookup j (delete k m) ≡ (if k == j then none else lookup j m)
  lookup-delete k j [] = ground arith
  lookup-delete k j ((i, w) ∷ m) =
      ground
        (arith, keys.equal_iff k j, keys.equal_iff i k, keys.equal_iff i j, lookup-delete k j m)

  pub lookup-put :
      (k j : K) (v : V) (m : List (K × V))
      → lookup j (put k v m) ≡ (if k == j then some v else lookup j m)
  lookup-put k j v m = ground (arith, lookup-delete k j m)

  -- What holds of a map's entries but the one at `k` holds of all once it is written there.
  pub All-delete {μ} :
      (P : K × V → Type μ) (k : K) (m : List (K × V))
      → All (λ entry. (entry.0 ≡ k → ⊥) → P entry) m
      → All P (delete k m)
  All-delete P k [] a = tt
  All-delete P k ((j, v) ∷ m) a = elim (Bool-cases (j == k)) [
    | inl e ↦ rw e (All-delete P k m a.1)
    | inr e ↦ rw e (a.0 (λ same. ground (arith, keys.equal_iff j k)), All-delete P k m a.1)
  ]

  pub All-lookup {μ} :
      (P : K × V → Type μ) (k : K) (m : List (K × V)) (v : V)
      → All P m
      → lookup k m ≡ some v
      → P (k, v)
  All-lookup P k [] v a h = cc
  All-lookup P k ((j, w) ∷ m) v a h = elim (Bool-cases (j == k)) [
    | inl e ↦
        let same : w ≡ v = ground arith in
        subst (λ i. P (i, v)) ((keys.equal_iff j k).0 e) (subst (λ u. P (j, u)) same a.0)
    | inr e ↦ All-lookup P k m v a.1 (rw e at h)
  ]
