-- ===== src/Common/Bytes.antt =====
-- A Go string: its bytes. A literal is encoded in UTF-8.
use Prim.Native.Nat.{ℕ, ◌+◌, ◌/◌, ◌%◌}
use Prim.Native.Char.{code}
use Prim.Native.String.{String}
use mathlib.Core.Path.{◌≡◌, refl}
use mathlib.Core.Logic.{◌↔◌}
use mathlib.Core.Bool.{Bool, true, false, ◌&&◌}
use mathlib.Core.List.{List, [], ◌∷◌, ◌++◌}
use native.Mathlib.Omega.{arith}
use temporal_agent.Common.Tests.{ltb, eqb, if◌then◌else◌, eqb_iff}
use temporal_agent.Common.Eq.{Equality}

abbrev pub Text : Type 0
Text = List ℕ

-- The bytes of one code point.
abbrev utf8 : ℕ → Text
utf8 c =
    if ltb c 128
    then c ∷ []
    else if ltb c 2048
    then (192 + c / 64) ∷ (128 + c % 64) ∷ []
    else if ltb c 65536
    then (224 + c / 4096) ∷ (128 + (c / 64) % 64) ∷ (128 + c % 64) ∷ []
    else (240 + c / 262144) ∷ (128 + (c / 4096) % 64) ∷ (128 + (c / 64) % 64) ∷ (128 + c % 64) ∷ []

abbrev pub text : String → Text
text String.[] = []
text (String.◌∷◌ c s) = utf8 (code c) ++ text s

unfoldable pub text_eq : Text → Text → Bool
text_eq [] [] = true
text_eq [] (b ∷ t) = false
text_eq (a ∷ s) [] = false
text_eq (a ∷ s) (b ∷ t) = eqb a b && text_eq s t

pub text_eq_iff : (s t : Text) → (text_eq s t ≡ true) ↔ (s ≡ t)
unfolding text_eq
text_eq_iff [] [] = ground arith
text_eq_iff [] (b ∷ t) = ground arith
text_eq_iff (a ∷ s) [] = ground arith
text_eq_iff (a ∷ s) (b ∷ t) = ground (arith, text_eq_iff s t)

instance abbrev pub text_equality : Equality Text
text_equality = record { equal = text_eq; equal_iff = text_eq_iff }

instance abbrev pub number_equality : Equality ℕ
number_equality = record { equal = eqb; equal_iff = eqb_iff }

test_text : text "é<" ≡ 195 ∷ 169 ∷ 60 ∷ []
test_text = refl
