-- ===== src/Signing/Sentinel/Encodings.antt =====
-- The encodings that the scan looks for, each by what its text says of the bytes.
use blockchain_ai_tools.Base.{
  ℕ, zero, suc, ◌+◌, ◌*◌, ◌/◌, ◌%◌, ◌<◌, ◌≤◌, Bytes, IsByte, ltb, ◌==◌, ltb→lt, Bool-cases, [], ◌∷◌,
  ◌++◌, append-nil, append_assoc, map, All, ◌≡◌, inl, inr, sym, ap, ◌∙◌, subst, arith,
}
use blockchain_ai_tools.Signing.Hex.{hex_char, hex_encode}
use blockchain_ai_tools.Signing.Sentinel.Decimals.{digits_small, digits_large, not_small}
use blockchain_ai_tools.Signing.Sentinel.{
  to_upper_char, base64_char, base64_encode, set_bytes, digits, decimal_text,
}

-- A hexadecimal digit, whose letters begin with `first`.
pub data HexDigit (first : ℕ) (v c : ℕ) : Type 0 where
  hex_numeral : v < 10 → c ≡ 48 + v → HexDigit first v c
  hex_letter : 10 ≤ v → v < 16 → c + 10 ≡ first + v → HexDigit first v c

-- Two digits for each byte, the high one first.
pub data HexText (first : ℕ) : Bytes → Bytes → Type 0 where
  no_digits : HexText first [] []
  two_digits :
      (h l : ℕ) {b c d : ℕ} {raw form : Bytes}
      → b ≡ 16 * h + l
      → HexDigit first h c
      → HexDigit first l d
      → HexText first raw form
      → HexText first (b ∷ raw) (c ∷ d ∷ form)

-- A digit of base64, whose last two are `plus` and `slash`.
pub data Base64Digit (plus slash : ℕ) (v c : ℕ) : Type 0 where
  upper_letter : v < 26 → c ≡ 65 + v → Base64Digit plus slash v c
  lower_letter : 26 ≤ v → v < 52 → c ≡ 71 + v → Base64Digit plus slash v c
  base64_numeral : 52 ≤ v → v < 62 → c + 4 ≡ v → Base64Digit plus slash v c
  last_but_one : v ≡ 62 → c ≡ plus → Base64Digit plus slash v c
  last_one : v ≡ 63 → c ≡ slash → Base64Digit plus slash v c

-- Four digits for three bytes; what is missing at the end is filled with zero bits, and `pad` stands
-- for each missing digit.
pub data Base64Text (plus slash : ℕ) (pad : Bytes) : Bytes → Bytes → Type 0 where
  no_group : Base64Text plus slash pad [] []
  one_byte :
      (v w : ℕ) {a c d : ℕ}
      → 16 * a ≡ 64 * v + w
      → Base64Digit plus slash v c
      → Base64Digit plus slash w d
      → Base64Text plus slash pad (a ∷ []) (c ∷ d ∷ pad ++ pad)
  two_bytes :
      (v w x : ℕ) {a b c d e : ℕ}
      → 4 * (256 * a + b) ≡ 4096 * v + 64 * w + x
      → Base64Digit plus slash v c
      → Base64Digit plus slash w d
      → Base64Digit plus slash x e
      → Base64Text plus slash pad (a ∷ b ∷ []) (c ∷ d ∷ e ∷ pad)
  three_bytes :
      (v w x y : ℕ) {a b b' c d e f : ℕ} {raw form : Bytes}
      → 65536 * a + 256 * b + b' ≡ 262144 * v + 4096 * w + 64 * x + y
      → Base64Digit plus slash v c
      → Base64Digit plus slash w d
      → Base64Digit plus slash x e
      → Base64Digit plus slash y f
      → Base64Text plus slash pad raw form
      → Base64Text plus slash pad (a ∷ b ∷ b' ∷ raw) (c ∷ d ∷ e ∷ f ∷ form)

-- The number of which the bytes are the digits to the base 256, the first the highest.
pub data BigEndian : Bytes → ℕ → Type 0 where
  no_bytes : BigEndian [] 0
  then_byte :
      (b : ℕ) {raw : Bytes} {n : ℕ} → BigEndian raw n → BigEndian (raw ++ b ∷ []) (n * 256 + b)

-- The decimal digits of a number, with no zero in front of others.
pub data Decimal : ℕ → Bytes → Type 0 where
  one_digit : (d : ℕ) → d < 10 → Decimal d ((48 + d) ∷ [])
  then_digit :
      (d : ℕ) {n : ℕ} {form : Bytes}
      → d < 10
      → 0 < n
      → Decimal n form
      → Decimal (10 * n + d) (form ++ (48 + d) ∷ [])

lower_digit : (n : ℕ) → n < 16 → HexDigit b'a' n (hex_char n)
lower_digit n h = elim (Bool-cases (ltb n 10)) [
  | inl e ↦ hex_numeral (ground arith) (ground arith)
  | inr e ↦ hex_letter (ground arith) h (ground arith)
]

upper_digit : (n : ℕ) → n < 16 → HexDigit b'A' n (to_upper_char (hex_char n))
upper_digit n h = elim (Bool-cases (ltb n 10)) [
  | inl e ↦ hex_numeral (ground arith) (ground arith)
  | inr e ↦ hex_letter (ground arith) h (ground arith)
]

pub hex_lower-HexText : (raw : Bytes) → All IsByte raw → HexText b'a' raw (hex_encode raw)
unfolding hex_encode
hex_lower-HexText [] h = no_digits
hex_lower-HexText (b ∷ raw) (small, h) =
    two_digits (b / 16) (b % 16) (omega arith) (lower_digit (b / 16) (omega (arith, small)))
      (lower_digit (b % 16) (omega arith)) (hex_lower-HexText raw h)

pub hex_upper-HexText :
    (raw : Bytes) → All IsByte raw → HexText b'A' raw (map to_upper_char (hex_encode raw))
unfolding hex_encode
hex_upper-HexText [] h = no_digits
hex_upper-HexText (b ∷ raw) (small, h) =
    two_digits (b / 16) (b % 16) (omega arith) (upper_digit (b / 16) (omega (arith, small)))
      (upper_digit (b % 16) (omega arith)) (hex_upper-HexText raw h)

module _ (plus slash : ℕ) where
  base64_digit : (n : ℕ) → n < 64 → Base64Digit plus slash n (base64_char plus slash n)
  base64_digit n h = elim (Bool-cases (ltb n 26)) [
    | inl e ↦ upper_letter (ground arith) (ground arith)
    | inr e ↦ elim (Bool-cases (ltb n 52)) [
      | inl f ↦ lower_letter (ground arith) (ground arith) (ground arith)
      | inr f ↦ elim (Bool-cases (ltb n 62)) [
        | inl g ↦ base64_numeral (ground arith) (ground arith) (ground arith)
        | inr g ↦ elim (Bool-cases (n == 62)) [
          | inl i ↦ last_but_one (ground arith) (ground arith)
          | inr i ↦ last_one (ground arith) (ground arith)
        ]
      ]
    ]
  ]

  pub base64-Base64Text :
      (pad raw : Bytes)
      → All IsByte raw
      → Base64Text plus slash pad raw (base64_encode (base64_char plus slash) pad raw)
  unfolding base64_encode
  base64-Base64Text pad [] h = no_group
  base64-Base64Text pad (a ∷ []) (small, h) =
      one_byte (a / 4) (a % 4 * 16) (omega arith) (base64_digit (a / 4) (omega (arith, small)))
        (base64_digit (a % 4 * 16) (omega arith))
  base64-Base64Text pad (a ∷ b ∷ []) (small, (small_b, h)) =
      two_bytes (a / 4) (a % 4 * 16 + b / 16) (b % 16 * 4) (omega arith)
        (base64_digit (a / 4) (omega (arith, small)))
        (base64_digit (a % 4 * 16 + b / 16) (omega (arith, small_b)))
        (base64_digit (b % 16 * 4) (omega arith))
  base64-Base64Text pad (a ∷ b ∷ c ∷ raw) (small, (small_b, (small_c, h))) =
      three_bytes (a / 4) (a % 4 * 16 + b / 16) (b % 16 * 4 + c / 64) (c % 64) (omega arith)
        (base64_digit (a / 4) (omega (arith, small)))
        (base64_digit (a % 4 * 16 + b / 16) (omega (arith, small_b)))
        (base64_digit (b % 16 * 4 + c / 64) (omega (arith, small_c)))
        (base64_digit (c % 64) (omega arith)) (base64-Base64Text pad raw h)

set_bytes-behind :
    (front raw : Bytes) (n : ℕ) → BigEndian front n → BigEndian (front ++ raw) (set_bytes n raw)
unfolding set_bytes
set_bytes-behind front [] n h = subst (λ s. BigEndian s n) (sym (append-nil front)) h
set_bytes-behind front (b ∷ raw) n h =
    subst (λ s. BigEndian s (set_bytes (n * 256 + b) raw)) (append_assoc front (b ∷ []) raw)
      (set_bytes-behind (front ++ b ∷ []) raw (n * 256 + b) (then_byte b h))

pub set_bytes-BigEndian : (raw : Bytes) → BigEndian raw (set_bytes 0 raw)
set_bytes-BigEndian raw = set_bytes-behind [] raw 0 no_bytes

-- Decimal digits of a number, in front of `rest`.
record DigitsBefore (n : ℕ) (rest whole : Bytes) : Type 0 where
  form : Bytes
  is_decimal : Decimal n form
  split : whole ≡ form ++ rest

one_before : (n : ℕ) (rest : Bytes) → n < 10 → DigitsBefore n rest ((b'0' + n % 10) ∷ rest)
one_before n rest h = record {
  form = (48 + n) ∷ [];
  is_decimal = one_digit n h;
  split = ap (λ d. (b'0' + d) ∷ rest) (omega (arith, h));
}

more_before :
    (n : ℕ) (rest whole : Bytes)
    → 10 ≤ n
    → DigitsBefore (n / 10) ((b'0' + n % 10) ∷ rest) whole
    → DigitsBefore n rest whole
more_before n rest whole h d = record {
  form = d.form ++ (48 + n % 10) ∷ [];
  is_decimal =
      subst (λ m. Decimal m (d.form ++ (48 + n % 10) ∷ [])) (omega arith)
        (then_digit (n % 10) (omega arith) (omega (arith, h)) d.is_decimal);
  split = d.split ∙ sym (append_assoc d.form ((48 + n % 10) ∷ []) rest);
}

digits-DigitsBefore :
    (fuel n : ℕ) (rest : Bytes) → n ≤ fuel → DigitsBefore n rest (digits fuel n rest)
unfolding digits
digits-DigitsBefore zero n rest h = one_before n rest (omega (arith, h))
digits-DigitsBefore (suc fuel) n rest h = elim (Bool-cases (ltb n 10)) [
  | inl b ↦
      subst (DigitsBefore n rest) (sym (digits_small fuel n rest b))
        (one_before n rest (ltb→lt n 10 b))
  | inr b ↦
      let large = not_small n b in
      subst (DigitsBefore n rest) (sym (digits_large fuel n rest b)) (
        more_before n rest _ large
          (digits-DigitsBefore fuel (n / 10) ((b'0' + n % 10) ∷ rest) (omega (arith, h, large))))
]

pub decimal_text-Decimal : (n : ℕ) → Decimal n (decimal_text n)
unfolding decimal_text
decimal_text-Decimal n =
    let d = digits-DigitsBefore n n [] (omega arith) in
    subst (Decimal n) (sym (d.split ∙ append-nil d.form)) d.is_decimal
