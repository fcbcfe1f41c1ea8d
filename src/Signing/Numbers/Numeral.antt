-- ===== src/Signing/Numbers/Numeral.antt =====
-- The numerals that the documentation of `parseBigInt` describes, and that the parser accepts just
-- these.
use mathlib.Core.List.{cons-ne-nil}
use blockchain_ai_tools.Base.{
  ℕ, ◌+◌, ◌-◌, ◌*◌, ◌^◌, ◌≤◌, ◌<◌, Bytes, false, Bool-cases, leb, if◌then◌else◌, [], ◌∷◌, drop, All,
  some, ok, err, ◌≡◌, ◌≢◌, ◌↔◌, ◌⊎◌, inl, inr, refl, arith, text, same, ne_of_same,
}
use blockchain_ai_tools.Signing.Errors.{Error, plain}
use blockchain_ai_tools.Signing.Numbers.{
  scan, scan_digits, set_string, has_sign, has_hex_prefix, not_negative, parse_hex, parse_decimal,
  parse_big_int, parse_uint64,
}

abbrev pub IsDecimalDigit : ℕ → Type 0
IsDecimalDigit c = (b'0' ≤ c) × (c ≤ b'9')

abbrev pub IsHexDigit : ℕ → Type 0
IsHexDigit c = ((b'0' ≤ c) × (c ≤ b'9')) ⊎ ((b'a' ≤ c) × (c ≤ b'f')) ⊎ ((b'A' ≤ c) × (c ≤ b'F'))

abbrev pub hex_digit_value : ℕ → ℕ
hex_digit_value c = if leb c b'9' then c - 48 else if leb c b'F' then c - 55 else c - 87

-- The number that the digits spell behind `n`.
unfoldable pub decimal_value : ℕ → Bytes → ℕ
decimal_value n [] = n
decimal_value n (c ∷ s) = decimal_value (10 * n + (c - b'0')) s

pub hex_value : ℕ → Bytes → ℕ
hex_value n [] = n
hex_value n (c ∷ s) = hex_value (16 * n + hex_digit_value c) s

-- Digits with no leading zero, unless the numeral is "0".
pub record IsDecimal (s : Bytes) (n : ℕ) : Type 0 where
  pub digits : All IsDecimalDigit s
  pub some_digit : s ≢ []
  pub canonical : (rest : Bytes) → s ≡ b'0' ∷ rest → rest ≡ []
  pub value : n ≡ decimal_value 0 s

-- "0x" or "0X" and digits.
pub record IsHex (s : Bytes) (n : ℕ) : Type 0 where
  pub marker : ℕ
  pub rest : Bytes
  pub shape : s ≡ b'0' ∷ marker ∷ rest
  pub marked : (marker ≡ b'x') ⊎ (marker ≡ b'X')
  pub digits : All IsHexDigit rest
  pub some_digit : rest ≢ []
  pub value : n ≡ hex_value 0 rest

abbrev pub Numeral : Bytes → ℕ → Type 0
Numeral s n = IsDecimal s n ⊎ IsHex s n

scan_decimal_sound :
    (n r : ℕ) (s : Bytes) → scan 10 n s ≡ some r → All IsDecimalDigit s × (r ≡ decimal_value n s)
unfolding scan decimal_value
scan_decimal_sound n r [] h = ground arith
scan_decimal_sound n r (c ∷ s) h = ground (arith, scan_decimal_sound (10 * n + (c - b'0')) r s)

scan_decimal_complete :
    (n : ℕ) (s : Bytes) → All IsDecimalDigit s → scan 10 n s ≡ some (decimal_value n s)
unfolding scan decimal_value
scan_decimal_complete n [] h = refl
scan_decimal_complete n (c ∷ s) h =
    ground (arith, scan_decimal_complete (10 * n + (c - b'0')) s h.1)

scan_hex_sound :
    (n r : ℕ) (s : Bytes) → scan 16 n s ≡ some r → All IsHexDigit s × (r ≡ hex_value n s)
unfolding scan hex_value
scan_hex_sound n r [] h = ground arith
scan_hex_sound n r (c ∷ s) h = ground (arith, scan_hex_sound (16 * n + hex_digit_value c) r s)

scan_hex_complete : (n : ℕ) (s : Bytes) → All IsHexDigit s → scan 16 n s ≡ some (hex_value n s)
unfolding scan hex_value
scan_hex_complete n [] h = refl
scan_hex_complete n (c ∷ s) h = ground (arith, scan_hex_complete (16 * n + hex_digit_value c) s h.1)

parse_decimal_sound :
    (s : Bytes) (n : ℕ) → s ≢ [] → has_sign s ≡ false → parse_decimal s ≡ ok n → IsDecimal s n
unfolding parse_decimal scan_digits
parse_decimal_sound [] n some_digit unsigned h = absurd (some_digit refl)
parse_decimal_sound (c ∷ []) n some_digit unsigned h = record {
  digits = ground (arith, scan_decimal_sound 0 n (c ∷ []));
  some_digit = some_digit;
  canonical = λ rest e. ground arith;
  value = ground (arith, scan_decimal_sound 0 n (c ∷ []));
}
parse_decimal_sound (c ∷ d ∷ s) n some_digit unsigned h = record {
  digits = ground (arith, scan_decimal_sound 0 n (c ∷ d ∷ s));
  some_digit = some_digit;
  canonical = λ rest e. ground arith;
  value = ground (arith, scan_decimal_sound 0 n (c ∷ d ∷ s));
}

parse_decimal_complete : (s : Bytes) (n : ℕ) → IsDecimal s n → parse_decimal s ≡ ok n
unfolding parse_decimal scan_digits
parse_decimal_complete [] n h = absurd (h.some_digit refl)
parse_decimal_complete (c ∷ []) n h = ground (arith, scan_decimal_complete 0 (c ∷ []))
parse_decimal_complete (c ∷ d ∷ s) n h =
    ground (arith, scan_decimal_complete 0 (c ∷ d ∷ s), h.canonical (d ∷ s))

parse_hex_sound :
    (s : Bytes) (n : ℕ) → parse_hex s ≡ ok n → (s ≢ []) × All IsHexDigit s × (n ≡ hex_value 0 s)
unfolding parse_hex scan_digits
parse_hex_sound [] n h = cc
parse_hex_sound (c ∷ s) n h = (
  cons-ne-nil c s,
  ground (arith, scan_hex_sound 0 n (c ∷ s)),
  ground (arith, scan_hex_sound 0 n (c ∷ s)),
)

parse_hex_complete : (s : Bytes) → s ≢ [] → All IsHexDigit s → parse_hex s ≡ ok (hex_value 0 s)
unfolding parse_hex scan_digits
parse_hex_complete [] some_digit h = absurd (some_digit refl)
parse_hex_complete (c ∷ s) some_digit h = ground (arith, scan_hex_complete 0 (c ∷ s) h)

module _ (x : ℕ) (rest : Bytes) (marked : (x ≡ b'x') ⊎ (x ≡ b'X')) where
  parse-hex_prefix : parse_big_int (b'0' ∷ x ∷ rest) ≡ parse_hex rest
  unfolding parse_big_int
  parse-hex_prefix = ground arith

parse_big_int_sound : (s : Bytes) (n : ℕ) → parse_big_int s ≡ ok n → Numeral s n
unfolding parse_big_int
parse_big_int_sound [] n h = cc
parse_big_int_sound (c ∷ []) n h =
    inl (parse_decimal_sound (c ∷ []) n (cons-ne-nil c []) (ground arith) (ground arith))
parse_big_int_sound (c ∷ d ∷ s) n h = elim (Bool-cases (has_hex_prefix (c ∷ d ∷ s))) [
  | inl e ↦
      let (some_digit, digits, value) = parse_hex_sound s n (ground arith) in
      inr (record {
        marker = d;
        rest = s;
        shape = ground arith;
        marked = ground arith;
        digits = digits;
        some_digit = some_digit;
        value = value;
      })
  | inr e ↦
      inl (parse_decimal_sound (c ∷ d ∷ s) n (cons-ne-nil c (d ∷ s)) (ground arith) (ground arith))
]

parse_big_int_complete : (s : Bytes) (n : ℕ) → Numeral s n → parse_big_int s ≡ ok n
unfolding parse_big_int
parse_big_int_complete [] n (inl h) = absurd (h.some_digit refl)
parse_big_int_complete (c ∷ []) n (inl h) = ground (arith, parse_decimal_complete (c ∷ []) n h)
parse_big_int_complete (c ∷ d ∷ s) n (inl h) =
    ground (arith, parse_decimal_complete (c ∷ d ∷ s) n h)
parse_big_int_complete s n (inr h) = rw (
  h.shape,
  parse-hex_prefix h.marker h.rest h.marked,
  parse_hex_complete h.rest h.some_digit h.digits,
  h.value,
)

-- What the parser accepts, and the number it returns.
pub parse_big_int_iff : (s : Bytes) (n : ℕ) → (parse_big_int s ≡ ok n) ↔ Numeral s n
parse_big_int_iff s n = (parse_big_int_sound s n, parse_big_int_complete s n)

parse_uint64_bounded :
    (s : Bytes) (n : ℕ) → parse_uint64 s ≡ ok n → (parse_big_int s ≡ ok n) × (n < 2 ^ 64)
unfolding parse_uint64
parse_uint64_bounded s n h = ground arith

parse_uint64_fits :
    (s : Bytes) (n : ℕ) → parse_big_int s ≡ ok n → n < 2 ^ 64 → parse_uint64 s ≡ ok n
unfolding parse_uint64
parse_uint64_fits s n h fits = ground arith

-- The bound of parseUint64 refuses nothing else.
pub parse_uint64_iff : (s : Bytes) (n : ℕ) → (parse_uint64 s ≡ ok n) ↔ (Numeral s n × (n < 2 ^ 64))
parse_uint64_iff s n = (
  λ h. let (parsed, fits) = parse_uint64_bounded s n h in (parse_big_int_sound s n parsed, fits),
  λ h. parse_uint64_fits s n (parse_big_int_complete s n h.0) h.1,
)

abbrev negative_value : Error
negative_value = plain (text "negative value not allowed")

-- Errors with different texts differ.
plain-ne : (s t : Bytes) → same s t ≡ false → plain s ≢ plain t
plain-ne s t h e = ne_of_same s t h (cc)

other_errors :
    (plain (text "not a valid integer") ≢ negative_value)
    × (plain (text "empty string") ≢ negative_value)
    × (plain (text "sign prefix not allowed") ≢ negative_value)
    × (plain (text "sign prefix not allowed in hex literal") ≢ negative_value)
    × (plain (text "decimal leading zeros not allowed") ≢ negative_value)
    × (plain (text "hex number has no digits after the 0x prefix") ≢ negative_value)
unfolding text same
other_errors = (
  plain-ne _ _ refl,
  plain-ne _ _ refl,
  plain-ne _ _ refl,
  plain-ne _ _ refl,
  plain-ne _ _ refl,
  plain-ne _ _ refl,
)

set_string_unsigned :
    (s : Bytes) (base : ℕ)
    → has_sign s ≡ false
    → not_negative (set_string s base) ≢ err negative_value
unfolding set_string not_negative
set_string_unsigned [] base unsigned h = ground (arith, other_errors.0)
set_string_unsigned (c ∷ s) base unsigned h = ground (arith, other_errors.0)

-- The check of the sign behind SetString never fires: a sign was rejected before.
pub parse_big_int-ne-negative : (s : Bytes) → parse_big_int s ≢ err negative_value
unfolding parse_big_int parse_hex parse_decimal
parse_big_int-ne-negative s h =
    ground (arith, other_errors, set_string_unsigned s 10, set_string_unsigned (drop 2 s) 16)
