-- ===== src/Signing/Hex.antt =====
-- encoding/hex, as far as the program uses it, and parseData of validate.go.
pub mod Spelling
use blockchain_ai_tools.Base.{
  ℕ, ◌+◌, ◌-◌, ◌*◌, ◌/◌, ◌%◌, Bytes, text, is_empty, Bool, not, ◌&&◌, ltb, leb, ◌==◌, if◌then◌else◌,
  [], ◌∷◌, length, drop, Option, none, some, Result, ok, err, ◌>>=◌, ◌>>◌, reject,
}
use blockchain_ai_tools.Signing.Errors.{ToolError, fault, invalid_input}
use blockchain_ai_tools.Signing.Numbers.{has_hex_prefix}

-- hex.EncodeToString
abbrev pub hex_char : ℕ → ℕ
hex_char n = if ltb n 10 then b'0' + n else b'a' + (n - 10)

unfoldable pub hex_encode : Bytes → Bytes
hex_encode [] = []
hex_encode (b ∷ s) = hex_char (b / 16) ∷ hex_char (b % 16) ∷ hex_encode s

-- hex.DecodeString, with `none` for its error
abbrev pub from_hex_char : ℕ → Option ℕ
from_hex_char c =
    if leb b'0' c && leb c b'9'
    then some (c - b'0')
    else if leb b'a' c && leb c b'f'
    then some (c - b'a' + 10)
    else if leb b'A' c && leb c b'F'
    then some (c - b'A' + 10)
    else none

abbrev pub join_nibbles : Option ℕ → Option ℕ → Option Bytes → Option Bytes
join_nibbles (some h) (some l) (some rest) = some ((h * 16 + l) ∷ rest)
join_nibbles _ _ _ = none

unfoldable pub hex_decode : Bytes → Option Bytes
hex_decode [] = some []
hex_decode (_ ∷ []) = none
hex_decode (h ∷ l ∷ s) = join_nibbles (from_hex_char h) (from_hex_char l) (hex_decode s)

abbrev pub max_data_bytes : ℕ
max_data_bytes = 256 * 1024

-- What is done with the outcome of hex.DecodeString.
unfoldable pub within_limit : Option Bytes → Result ToolError Bytes
within_limit none = err (fault invalid_input (text "data: contains invalid hex characters"))
within_limit (some b) = do
  reject (ltb max_data_bytes (length b))
      (fault invalid_input (text "data: decoded length exceeds the 256 KiB limit"))
  ok b

unfoldable pub decode_hex_part : Bytes → Result ToolError Bytes
unfolding within_limit
decode_hex_part hex_part = if is_empty hex_part then ok [] else do
  reject (not (length hex_part % 2 == 0)) (
      fault invalid_input
        (text "data: hex string must have even length (each byte is two hex digits)"))
  within_limit (hex_decode hex_part)

unfoldable pub parse_data : Bytes → Result ToolError Bytes
unfolding decode_hex_part
parse_data s = do
  reject (not (has_hex_prefix s))
      (fault invalid_input (text "data: must be a 0x-prefixed even-length hex string"))
  decode_hex_part (drop 2 s)
