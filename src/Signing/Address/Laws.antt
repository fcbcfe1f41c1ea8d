-- ===== src/Signing/Address/Laws.antt =====
-- What the program relies on of go-ethereum's package `common`.
use blockchain_ai_tools.Base.{Bytes, IsByte, All, true, ◌∷◌, length, ◌≡◌, ◌⊎◌}
use blockchain_ai_tools.Signing.Numbers.Numeral.{IsHexDigit}
use blockchain_ai_tools.Signing.Hex.Spelling.{Spells}
use blockchain_ai_tools.Signing.Address.{Common, Address}

-- A value of the array type.
abbrev pub IsAddress : Address → Type 0
IsAddress a = (length a ≡ 20) × All IsByte a

-- Forty hex digits, behind "0x", "0X" or nothing.
pub record IsHexForm (s digits : Bytes) : Type 0 where
  pub shape : (s ≡ b'0' ∷ b'x' ∷ digits) ⊎ ((s ≡ b'0' ∷ b'X' ∷ digits) ⊎ (s ≡ digits))
  pub sized : length digits ≡ 40
  pub hex_digits : All IsHexDigit digits

pub record IsCommon (common : Common) : Type 0 where
  -- IsHexAddress verifies whether a string can represent a valid hex-encoded Ethereum address.
  pub recognised :
      (s : Bytes) → common.is_hex_address s ≡ true → (digits : Bytes) × IsHexForm s digits
  pub recognises : (s digits : Bytes) → IsHexForm s digits → common.is_hex_address s ≡ true
  -- HexToAddress returns the Address with the byte values of s.
  pub decodes : (s digits : Bytes) → IsHexForm s digits → Spells digits (common.hex_to_address s)
  -- Hex returns an EIP-55 compliant hex string representation of the address, behind "0x".
  pub prints :
      (a : Address)
      → IsAddress a
      → (digits : Bytes) × (common.hex a ≡ b'0' ∷ b'x' ∷ digits) × Spells digits a
