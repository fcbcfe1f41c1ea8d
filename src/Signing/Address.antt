-- ===== src/Signing/Address.antt =====
-- The address checks of validate.go and file_vault.go, over go-ethereum's package `common`.
pub mod Case
pub mod Laws
pub mod Declared
pub mod Recipient
use blockchain_ai_tools.Base.{
  ℕ, Bytes, text, same, is_empty, Bool, true, false, not, ◌&&◌, ◌||◌, leb, ◌==◌, if◌then◌else◌, [],
  ◌∷◌, length, drop, replicate, Option, none, some, Result, ok, err, ◌>>=◌, ◌>>◌, reject,
}
use blockchain_ai_tools.Signing.Errors.{Error, plain, ToolError, fault, invalid_input}

-- common.Address is an array of 20 bytes.
abbrev pub Address : Type 0
Address = Bytes

abbrev pub zero_address : Address
zero_address = replicate 20 0

-- What the program calls of go-ethereum's package `common`.
pub record Common : Type 0 where
  pub is_hex_address : Bytes → Bool
  pub hex_to_address : Bytes → Address
  pub hex : Address → Bytes

abbrev pub is_lower_hex : ℕ → Bool
is_lower_hex c = leb b'a' c && leb c b'f'

abbrev pub is_upper_hex : ℕ → Bool
is_upper_hex c = leb b'A' c && leb c b'F'

-- One round of the loop: the two flags, with the early return when both are set.
-- The loop goes over runes. A byte of a rune beyond ASCII lies in neither range, nor does the rune.
mixed_case_from : Bool → Bool → Bytes → Bool
mixed_case_from has_lower has_upper [] = false
mixed_case_from has_lower has_upper (c ∷ s) =
    let lower = has_lower || is_lower_hex c in
    let upper = has_upper || (not (is_lower_hex c) && is_upper_hex c) in
    let rest = mixed_case_from lower upper s in if lower && upper then true else rest

unfoldable pub has_mixed_case : Bytes → Bool
unfolding mixed_case_from
has_mixed_case s = mixed_case_from false false s

module _ (common : Common) where
  open common use {is_hex_address, hex_to_address, hex}

  -- canonical != normalized, for digits with both cases
  unfoldable pub checksum_fails : Bytes → Bytes → Bool
  checksum_fails s hex_part =
      has_mixed_case hex_part && not (same (hex (hex_to_address s)) (b'0' ∷ b'x' ∷ hex_part))

  unfoldable pub parse_to_address : Bytes → Result ToolError (Option Address)
  unfolding checksum_fails
  parse_to_address s = if is_empty s then ok none else do
    reject (not (length s == 42) || not (is_hex_address s)) (
        fault invalid_input
          (text "to: malformed address; expected 0x-prefixed 20-byte hex (42 chars)"))
    reject (checksum_fails s (drop 2 s)) (
        fault invalid_input (
          text
            "to: EIP-55 checksum mismatch; use a correctly checksummed address, all-lowercase, or all-uppercase"))
    ok (some (hex_to_address s))

  unfoldable pub validate_keystore_address_field : Bytes → Result Error Address
  unfolding checksum_fails
  validate_keystore_address_field s = do
    reject (not (is_hex_address s))
        (plain (text "address field contains invalid hex characters or wrong length"))
    reject (checksum_fails s (if length s == 42 then drop 2 s else s))
        (plain (text "mixed-case address field does not pass EIP-55 checksum"))
    ok (hex_to_address s)
