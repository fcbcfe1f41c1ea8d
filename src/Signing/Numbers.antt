-- ===== src/Signing/Numbers.antt =====
-- The parsers of numeric fields in validate.go, over math/big.
pub mod Numeral
pub mod Width
use blockchain_ai_tools.Base.{
  ℕ, zero, suc, ◌+◌, ◌-◌, ◌*◌, ◌/◌, ◌^◌, Bytes, text, is_empty, Bool, true, false, ◌&&◌, ◌||◌, not,
  ltb, leb, ◌==◌, if◌then◌else◌, List, [], ◌∷◌, length, drop, cut_prefix, Option, none, some,
  Result, ok, err, ◌>>=◌, ◌>>◌, reject, ◌≡◌, refl,
}
use blockchain_ai_tools.Signing.Errors.{Error, plain}

-- big.Int as far as a parser returns one: `negsuc n` is -(n + 1).
pub data ℤ : Type 0 where
  pos : ℕ → ℤ
  negsuc : ℕ → ℤ

abbrev negate : ℕ → ℤ
negate zero = pos 0
negate (suc n) = negsuc n

-- The value of a digit in bases up to 36, and 63 for any other byte.
abbrev pub digit : ℕ → ℕ
digit c =
    if leb b'0' c && leb c b'9'
    then c - b'0'
    else if leb b'a' c && leb c b'z'
    then c - b'a' + 10
    else if leb b'A' c && leb c b'Z'
    then c - b'A' + 10
    else 63

-- (*big.Int).SetString reads digits to the end, behind a sign if there is one.
unfoldable pub scan : ℕ → ℕ → Bytes → Option ℕ
scan base n [] = some n
scan base n (c ∷ s) = if ltb (digit c) base then scan base (n * base + digit c) s else none

unfoldable pub scan_digits : ℕ → Bytes → Option ℕ
unfolding scan
scan_digits base [] = none
scan_digits base (c ∷ s) = scan base 0 (c ∷ s)

abbrev signed : (ℕ → ℤ) → Option ℕ → Option ℤ
signed f none = none
signed f (some n) = some (f n)

unfoldable pub set_string : Bytes → ℕ → Option ℤ
unfolding scan_digits
set_string [] base = none
set_string (c ∷ s) base =
    if c == b'-'
    then signed negate (scan_digits base s)
    else if c == b'+'
    then signed pos (scan_digits base s)
    else signed pos (scan_digits base (c ∷ s))

abbrev pub has_sign : Bytes → Bool
has_sign [] = false
has_sign (c ∷ s) = c == b'+' || c == b'-'

-- strings.HasPrefix(s, "0x") || strings.HasPrefix(s, "0X")
abbrev pub has_hex_prefix : Bytes → Bool
has_hex_prefix (z ∷ x ∷ s) = z == b'0' && (x == b'x' || x == b'X')
has_hex_prefix _ = false

-- len(s) > 1 && s[0] == '0'
abbrev has_leading_zero : Bytes → Bool
has_leading_zero (z ∷ c ∷ s) = z == b'0'
has_leading_zero _ = false

-- `if !ok`, then `if n.Sign() < 0`
not_negative : Option ℤ → Result Error ℕ
not_negative none = err (plain (text "not a valid integer"))
not_negative (some (negsuc n)) = err (plain (text "negative value not allowed"))
not_negative (some (pos n)) = ok n

parse_hex : Bytes → Result Error ℕ
unfolding set_string not_negative
parse_hex digits = do
  reject (is_empty digits) (plain (text "hex number has no digits after the 0x prefix"))
  reject (has_sign digits) (plain (text "sign prefix not allowed in hex literal"))
  not_negative (set_string digits 16)

parse_decimal : Bytes → Result Error ℕ
unfolding set_string not_negative
parse_decimal s = do
  reject (has_leading_zero s) (plain (text "decimal leading zeros not allowed"))
  not_negative (set_string s 10)

unfoldable pub parse_big_int : Bytes → Result Error ℕ
unfolding parse_hex parse_decimal
parse_big_int s = do
  reject (is_empty s) (plain (text "empty string"))
  reject (has_sign s) (plain (text "sign prefix not allowed"))
  if has_hex_prefix s then parse_hex (drop 2 s) else parse_decimal s

-- n.IsUint64()
abbrev pub is_uint64 : ℕ → Bool
is_uint64 n = ltb n (2 ^ 64)

unfoldable pub parse_uint64 : Bytes → Result Error ℕ
parse_uint64 s = do
  n ← parse_big_int s
  reject (not (is_uint64 n)) (plain (text "value exceeds uint64 range"))
  ok n

-- n.BitLen() on fuel: the number has fewer bits than its own value, or one bit.
unfoldable pub bits : ℕ → ℕ → ℕ
bits zero n = 0
bits (suc f) n = let rest = bits f (n / 2) in if n == 0 then 0 else suc rest

unfoldable pub bit_len : ℕ → ℕ
unfolding bits
bit_len n = bits n n
