-- ===== src/Tests/Decimal.antt =====
-- How a witness prints a bigint: in decimal digits, with fuel for as many as there can be.
use Prim.Native.Nat.{◌/◌, ◌%◌}
use nebula_token.Common.{
  zero, suc, ℕ, ◌+◌, ◌*◌, ◌-◌, ◌<◌, ◌≡◌, refl, ◌∙◌, inl, inr, true, Bool-cases, some, [], ◌∷◌,
  arith, if◌then◌else◌, ltb, Text,
}
use nebula_token.Scripts.Regex.{is_digit}
use nebula_token.Scripts.Runtime.Compare.{digits_value}

unfoldable emit : ℕ → ℕ → Text → Text
emit zero n out = out
emit (suc fuel) n out =
    let longer = emit fuel (n / 10) ((b'0' + n % 10) ∷ out) in
    if ltb n 10 then (b'0' + n) ∷ out else longer

digits_value-digit :
    (a d m : ℕ) (out : Text)
    → d < 10
    → a * 10 + d ≡ m
    → digits_value a ((b'0' + d) ∷ out) ≡ digits_value m out
unfolding digits_value
digits_value-digit a d m out h e =
    let same : a * 10 + (b'0' + d - b'0') ≡ m = omega arith in
    let good : is_digit (b'0' + d) ≡ true = ground arith in rw (good, same) refl

digits_value-emit :
    (fuel n : ℕ) (out : Text) → n < fuel → digits_value 0 (emit fuel n out) ≡ digits_value n out
unfolding emit
digits_value-emit zero n out h = absurd (omega arith)
digits_value-emit (suc fuel) n out h = elim (Bool-cases (ltb n 10)) [
  | inl b ↦ rw b (digits_value-digit 0 n n out (ground arith) (omega arith))
  | inr b ↦ rw b (
      digits_value-emit fuel (n / 10) _ (ground arith)
      ∙ digits_value-digit (n / 10) (n % 10) n out (omega arith) (omega arith))
]

pub shown : ℕ → Text
shown n = emit (n + 1) n []

pub digits_value-shown : (n : ℕ) → digits_value 0 (shown n) ≡ some n
unfolding shown digits_value
digits_value-shown n = digits_value-emit (n + 1) n [] (omega arith)
