-- ===== src/Store/Keys/Cuts.antt =====
-- strings.Cut, strings.CutPrefix and LastIndexByte, for a separator of one byte.
use temporal_agent.Common.{
  ℕ, ◌≡◌, refl, Bool, true, false, not, ◌&&◌, Option, none, some, [], ◌∷◌, ◌++◌, arith, eqb,
  if◌then◌else◌, any, all, contains, Text, text_equality, number_equality,
}

-- What stands before and after the first such byte.
unfoldable pub cut : ℕ → Text → Option (Text × Text)
cut b [] = none
cut b (c ∷ s) =
    if eqb c b then some ([], s) else elim (cut b s) [ none ↦ none | some (p, q) ↦ some (c ∷ p, q) ]

-- What stands before and after the last such byte.
unfoldable pub last_cut : ℕ → Text → Option (Text × Text)
last_cut b [] = none
last_cut b (c ∷ s) = elim (last_cut b s) [
  | none ↦ if eqb c b then some ([], s) else none
  | some (p, q) ↦ some (c ∷ p, q)
]

unfoldable pub cut_prefix : Text → ℕ → Option Text
cut_prefix [] b = none
cut_prefix (c ∷ s) b = if eqb c b then some s else none

unfoldable pub starts_with : Text → Text → Bool
starts_with s [] = true
starts_with [] (b ∷ p) = false
starts_with (a ∷ s) (b ∷ p) = eqb a b && starts_with s p

unfoldable pub contains_any : Text → Text → Bool
contains_any s bytes = any (λ c. contains bytes c) s

-- The text does not hold the byte.
abbrev pub lacks : ℕ → Text → Bool
lacks b s = all (λ c. not (eqb c b)) s

pub cut-append : (b : ℕ) (p q : Text) → lacks b p ≡ true → cut b (p ++ b ∷ q) ≡ some (p, q)
unfolding cut
cut-append b [] q h = ground arith
cut-append b (c ∷ p) q h = ground (arith, cut-append b p q)

pub last_cut-lacks : (b : ℕ) (s : Text) → lacks b s ≡ true → last_cut b s ≡ none
unfolding last_cut
last_cut-lacks b [] h = refl
last_cut-lacks b (c ∷ s) h = ground (arith, last_cut-lacks b s)

pub last_cut-append :
    (b : ℕ) (p q : Text) → lacks b q ≡ true → last_cut b (p ++ b ∷ q) ≡ some (p, q)
unfolding last_cut
last_cut-append b [] q h = ground (arith, last_cut-lacks b q)
last_cut-append b (c ∷ p) q h = ground (arith, last_cut-append b p q)
