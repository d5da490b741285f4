-- ===== src/Store/Decimal.antt =====
-- Decimal numerals: what `%d` prints of a number that is not negative, and what
-- `strconv.ParseInt(s, 10, 64)` reads of a text of digits.
use temporal_agent.Common.{
  ℕ, zero, suc, ◌+◌, ◌-◌, ◌*◌, ◌/◌, ◌%◌, ◌^◌, ◌≤◌, ◌<◌, ◌≡◌, refl, ap, ◌∙◌, inl, inr, Bool, true,
  false, ◌&&◌, Option, none, some, [], ◌∷◌, arith, ltb, leb, if◌then◌else◌, leb_iff, Bool-cases,
  all, Text,
}

abbrev pub is_digit : ℕ → Bool
is_digit c = leb b'0' c && leb c b'9'

print : ℕ → ℕ → Text → Text
print zero n acc = acc
print (suc f) n acc =
    let rest = print f (n / 10) ((b'0' + n % 10) ∷ acc) in
    if ltb n 10 then (b'0' + n) ∷ acc else rest

unfoldable pub decimal : ℕ → Text
unfolding print
decimal n = print (suc n) n []

-- A non-empty text of digits.
unfoldable pub digits : Text → Bool
digits [] = false
digits (c ∷ s) = all is_digit (c ∷ s)

unfoldable pub value : Text → ℕ → ℕ
value [] n = n
value (c ∷ s) n = value s (n * 10 + (c - b'0'))

abbrev pub max_int64 : ℕ
max_int64 = 2 ^ 63 - 1

-- On a text of digits: the only error is a number that an int64 does not hold.
unfoldable pub parse_int : Text → Option ℕ
unfolding value
parse_int s = let n = value s 0 in if leb n max_int64 then some n else none

value-print : (f n : ℕ) (acc : Text) → n < f → value (print f n acc) 0 ≡ value acc n
unfolding value print
value-print zero n acc h = elim h [ ]
value-print (suc f) n acc h = elim (Bool-cases (ltb n 10)) [
  | inl small ↦ rw small (ap (value acc) (omega arith))
  | inr large ↦ rw large (value-print f (n / 10) _ (ground arith) ∙ ap (value acc) (omega arith))
]

digits-print :
    (f n : ℕ) (acc : Text) → n < f → all is_digit acc ≡ true → digits (print f n acc) ≡ true
unfolding print digits
digits-print zero n acc h d = elim h [ ]
digits-print (suc f) n acc h d = elim (Bool-cases (ltb n 10)) [
  | inl small ↦ rw small (ground arith)
  | inr large ↦ rw large (digits-print f (n / 10) _ (ground arith) (ground arith))
]

pub digits-decimal : (n : ℕ) → digits (decimal n) ≡ true
unfolding decimal
digits-decimal n = digits-print (suc n) n [] (omega arith) refl

-- What is printed of an int64 that is not negative is read back.
pub parse_int-decimal : (n : ℕ) → n ≤ max_int64 → parse_int (decimal n) ≡ some n
unfolding parse_int decimal
parse_int-decimal n h = rw (value-print (suc n) n [] (omega arith)) (rw ((leb_iff n max_int64).1 h))

pub value-decimal : (n : ℕ) → value (decimal n) 0 ≡ n
unfolding decimal value
value-decimal n = value-print (suc n) n [] (omega arith)
