-- ===== src/Common/Eq.antt =====
-- Equality tests by instance, for whatever keys a map or is looked for in a slice.
use mathlib.Core.Path.{◌≡◌}
use mathlib.Core.Logic.{◌↔◌}
use mathlib.Core.Bool.{Bool, true, false, ◌||◌}
use mathlib.Core.List.{List, [], ◌∷◌}
use native.Mathlib.Omega.{arith}
use temporal_agent.Common.Lists.{In}

-- A test of equality on the values of a Go type.
pub record Equality {ℓ} (K : Type ℓ) : Type ℓ where
  pub equal : K → K → Bool
  pub equal_iff : (j k : K) → (equal j k ≡ true) ↔ (j ≡ k)

infix 50 ◌==◌
abbrev pub ◌==◌ {ℓ} : {K : Type ℓ} ⦃keys : Equality K⦄ → K → K → Bool
◌==◌ ⦃keys⦄ j k = keys.equal j k

-- slices.Contains
module _ {K : Type 0} ⦃keys : Equality K⦄ where
  abbrev pub contains : List K → K → Bool
  contains [] k = false
  contains (j ∷ held) k = k == j || contains held k

  pub contains_iff : (held : List K) (k : K) → (contains held k ≡ true) ↔ In k held
  contains_iff [] k = (λ h. cc, λ h. absurd h)
  contains_iff (j ∷ held) k = ground (arith, keys.equal_iff k j, contains_iff held k)
