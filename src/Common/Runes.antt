-- ===== src/Common/Runes.antt =====
-- Cuts of a byte string on rune boundaries: utf8.RuneStart, and the loop that backs up to one.
use Prim.Native.Nat.{ℕ, zero, suc, ◌+◌, ◌-◌, ◌≤◌}
use mathlib.Core.Path.{◌≡◌, refl, ap, sym, ◌∙◌}
use mathlib.Core.Logic.{◌⊎◌, inl}
use mathlib.Core.Bool.{Bool, true, not, ◌&&◌}
use mathlib.Core.List.{List, [], ◌∷◌, ◌++◌}
use native.Mathlib.Omega.{arith}
use temporal_agent.Common.Tests.{ltb, leb, if◌then◌else◌}
use temporal_agent.Common.Lists.{length}
use temporal_agent.Common.Bytes.{Text}

module _ {ℓ} {A : Type ℓ} where
  abbrev pub take : ℕ → List A → List A
  take zero xs = []
  take (suc n) [] = []
  take (suc n) (x ∷ xs) = x ∷ take n xs

  abbrev pub drop : ℕ → List A → List A
  drop zero xs = xs
  drop (suc n) [] = []
  drop (suc n) (x ∷ xs) = drop n xs

  pub take-append-drop : (n : ℕ) (xs : List A) → take n xs ++ drop n xs ≡ xs
  take-append-drop zero xs = refl
  take-append-drop (suc n) [] = refl
  take-append-drop (suc n) (x ∷ xs) = ap (λ ys. x ∷ ys) (take-append-drop n xs)

  pub length-take : (n : ℕ) (xs : List A) → n ≤ length xs → length (take n xs) ≡ n
  length-take zero xs h = refl
  length-take (suc n) [] h = omega arith
  length-take (suc n) (x ∷ xs) h = omega (arith, length-take n xs (omega arith))

  pub length-drop : (n : ℕ) (xs : List A) → length (drop n xs) ≡ length xs - n
  length-drop zero xs = omega arith
  length-drop (suc n) [] = omega arith
  length-drop (suc n) (x ∷ xs) = omega (arith, length-drop n xs)

  -- What stands from `m` on and before `n`.
  pub take-drop :
      (m n : ℕ) (xs : List A) → take m xs ++ (take n (drop m xs) ++ drop n (drop m xs)) ≡ xs
  take-drop m n xs =
      ap (λ ys. take m xs ++ ys) (take-append-drop n (drop m xs)) ∙ take-append-drop m xs

  pub drop-drop : (m n : ℕ) (xs : List A) → drop n (drop m xs) ≡ drop (m + n) xs
  drop-drop zero n xs = let e : n ≡ 0 + n = omega arith in ap (λ k. drop k xs) e
  drop-drop (suc m) n [] = drop-nil n
    where
      nil : (k : ℕ) → drop k (drop 0 []) ≡ drop 0 []
      nil zero = refl
      nil (suc k) = refl

      drop-nil : (k : ℕ) → drop k (drop (suc m) []) ≡ drop (suc m + k) []
      drop-nil k = nil k ∙ sym (nil (suc m + k))
  drop-drop (suc m) n (x ∷ xs) =
      let e : suc (m + n) ≡ suc m + n = omega arith in
      drop-drop m n xs ∙ ap (λ k. drop k (x ∷ xs)) e

-- The byte there; 0 past the end, where the code would panic and no caller looks.
abbrev pub byte_at : ℕ → Text → ℕ
byte_at n [] = 0
byte_at zero (b ∷ s) = b
byte_at (suc n) (b ∷ s) = byte_at n s

-- utf8.RuneStart: not a continuation byte.
unfoldable pub is_rune_start : ℕ → Bool
is_rune_start b = not (leb 128 b && ltb b 192)

-- `for n > 0 && !utf8.RuneStart(s[n]) { n-- }`
unfoldable pub back_up : Text → ℕ → ℕ
back_up s zero = zero
back_up s (suc n) = if is_rune_start (byte_at (suc n) s) then suc n else back_up s n

pub back_up-le : (s : Text) (n : ℕ) → back_up s n ≤ n
unfolding back_up
back_up-le s zero = omega arith
back_up-le s (suc n) = ground (arith, back_up-le s n)

-- A position where the text may be cut: its start, or the first byte of a rune.
abbrev pub IsBoundary : Text → ℕ → Type 0
IsBoundary s n = (n ≡ 0) ⊎ (is_rune_start (byte_at n s) ≡ true)

pub back_up-IsBoundary : (s : Text) (n : ℕ) → IsBoundary s (back_up s n)
unfolding back_up
back_up-IsBoundary s zero = inl refl
back_up-IsBoundary s (suc n) = ground (arith, back_up-IsBoundary s n)
