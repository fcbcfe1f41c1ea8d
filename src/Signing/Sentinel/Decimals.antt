-- ===== src/Signing/Sentinel/Decimals.antt =====
-- The decimal text of a number reads back as the number.
use blockchain_ai_tools.Base.{
  ℕ, zero, suc, ◌+◌, ◌/◌, ◌%◌, ◌≤◌, Bytes, true, false, ltb, Bool-cases, ltb→lt, [], ◌∷◌, ◌≡◌, inl,
  inr, ap, ◌∙◌, arith,
}
use blockchain_ai_tools.Signing.Numbers.Numeral.{decimal_value}
use blockchain_ai_tools.Signing.Sentinel.{digits, decimal_text}

pub digits_small :
    (fuel n : ℕ) (rest : Bytes)
    → ltb n 10 ≡ true
    → digits (suc fuel) n rest ≡ (b'0' + n % 10) ∷ rest
unfolding digits
digits_small fuel n rest h = ground arith

pub digits_large :
    (fuel n : ℕ) (rest : Bytes)
    → ltb n 10 ≡ false
    → digits (suc fuel) n rest ≡ digits fuel (n / 10) ((b'0' + n % 10) ∷ rest)
unfolding digits
digits_large fuel n rest h = ground arith

pub not_small : (n : ℕ) → ltb n 10 ≡ false → 10 ≤ n
not_small n h = ground arith

digits-decimal_value :
    (fuel n : ℕ) (rest : Bytes)
    → n ≤ fuel
    → decimal_value 0 (digits fuel n rest) ≡ decimal_value n rest
unfolding digits decimal_value
digits-decimal_value zero n rest h = ap (λ x. decimal_value x rest) (omega (arith, h))
digits-decimal_value (suc fuel) n rest h = elim (Bool-cases (ltb n 10)) [
  | inl b ↦
      let small = ltb→lt n 10 b in
      ap (decimal_value 0) (digits_small fuel n rest b)
      ∙ ap (λ x. decimal_value x rest) (omega (arith, small))
  | inr b ↦
      let large = not_small n b in
      ap (decimal_value 0) (digits_large fuel n rest b)
      ∙ digits-decimal_value fuel (n / 10) ((b'0' + n % 10) ∷ rest) (omega (arith, h, large))
      ∙ ap (λ x. decimal_value x rest) (omega arith)
]

-- The fuel of `decimal_text` is enough.
pub decimal_text-decimal_value : (n : ℕ) → decimal_value 0 (decimal_text n) ≡ n
unfolding decimal_text decimal_value
decimal_text-decimal_value n = digits-decimal_value n n [] (omega arith)
