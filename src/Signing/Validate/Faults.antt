-- ===== src/Signing/Validate/Faults.antt =====
-- The errors of `validate`: a fixed list, with no text of the request in it.
use blockchain_ai_tools.Base.{
  String, ℕ, Bytes, text, List, [], ◌∷◌, ◌++◌, Any, Option, none, some, err, ◌≡◌, arith,
}
use blockchain_ai_tools.Signing.Errors.{
  ToolError, fault, invalid_input, chain_id_mismatch, unsupported_type,
}
use blockchain_ai_tools.Signing.Hex.{parse_data}
use blockchain_ai_tools.Signing.Address.{Common, parse_to_address}
use blockchain_ai_tools.Signing.Request.{TxRequest}
use blockchain_ai_tools.Signing.Validate.{
  parse_fields, validate_chain_id, check_guard, parse_tx_type, check_required, check_inappropriate,
  check_access_list, parse_counter, parse_amount, parse_fees,
}

abbrev invalid : String → ToolError
invalid m = fault invalid_input (text m)

abbrev pub chain_id_faults : List ToolError
chain_id_faults =
    invalid "chainId: field is required"
    ∷ invalid "chainId: must be a decimal or 0x-hex integer"
    ∷ invalid "chainId: must not be zero (would select the replay-unprotected Homestead signer)"
    ∷ invalid "chainId: must fit in uint64 (value exceeds 2^64-1)"
    ∷ []

abbrev pub guard_faults : List ToolError
guard_faults =
    fault chain_id_mismatch
      (text "chainId: does not match the chain-id guard configured on the signer")
    ∷ []

abbrev pub type_faults : List ToolError
type_faults =
    fault unsupported_type (
      text
        "type: unsupported transaction type; accepted values are \"0x0\", \"legacy\", \"0x2\", \"eip1559\"")
    ∷ []

abbrev pub required_faults : List ToolError
required_faults =
    invalid "nonce: field is required"
    ∷ invalid "gas: field is required"
    ∷ invalid "value: field is required"
    ∷ invalid "gasPrice: required for legacy (type 0) transactions"
    ∷ invalid "maxFeePerGas: required for EIP-1559 (type 2) transactions"
    ∷ invalid "maxPriorityFeePerGas: required for EIP-1559 (type 2) transactions"
    ∷ []

abbrev pub inappropriate_faults : List ToolError
inappropriate_faults =
    invalid "gasPrice: not applicable for EIP-1559 (type 2) transactions"
    ∷ invalid "maxFeePerGas: not applicable for legacy (type 0) transactions"
    ∷ invalid "maxPriorityFeePerGas: not applicable for legacy (type 0) transactions"
    ∷ []

abbrev pub access_list_faults : List ToolError
access_list_faults = invalid "accessList: non-empty access lists are not supported in v1" ∷ []

abbrev pub counter_faults : List ToolError
counter_faults =
    invalid "nonce: must be a decimal or 0x-hex integer fitting in uint64"
    ∷ invalid "gas: must be a decimal or 0x-hex integer fitting in uint64"
    ∷ []

abbrev pub value_faults : List ToolError
value_faults =
    invalid "value: must be a decimal or 0x-hex integer"
    ∷ invalid "value: exceeds maximum allowed size (256 bits)"
    ∷ []

abbrev pub fee_faults : List ToolError
fee_faults =
    invalid "gasPrice: must be a decimal or 0x-hex integer"
    ∷ invalid "gasPrice: exceeds maximum allowed size (256 bits)"
    ∷ invalid "maxPriorityFeePerGas: must be a decimal or 0x-hex integer"
    ∷ invalid "maxPriorityFeePerGas: exceeds maximum allowed size (256 bits)"
    ∷ invalid "maxFeePerGas: must be a decimal or 0x-hex integer"
    ∷ invalid "maxFeePerGas: exceeds maximum allowed size (256 bits)"
    ∷ []

abbrev pub data_faults : List ToolError
data_faults =
    invalid "data: must be a 0x-prefixed even-length hex string"
    ∷ invalid "data: hex string must have even length (each byte is two hex digits)"
    ∷ invalid "data: contains invalid hex characters"
    ∷ invalid "data: decoded length exceeds the 256 KiB limit"
    ∷ []

abbrev pub to_faults : List ToolError
to_faults =
    invalid "to: malformed address; expected 0x-prefixed 20-byte hex (42 chars)"
    ∷ invalid
        "to: EIP-55 checksum mismatch; use a correctly checksummed address, all-lowercase, or all-uppercase"
    ∷ []

abbrev pub OneOf : List ToolError → ToolError → Type 0
OneOf faults e = Any (λ f. e ≡ f) faults

pub chain_id_OneOf :
    (s : Bytes) (e : ToolError) → validate_chain_id s ≡ err e → OneOf chain_id_faults e
unfolding validate_chain_id
chain_id_OneOf s e h = ground arith

pub guard_OneOf :
    (n : ℕ) (guard : Option ℕ) (e : ToolError) → check_guard n guard ≡ err e → OneOf guard_faults e
unfolding check_guard
guard_OneOf n none e h = cc
guard_OneOf n (some g) e h = ground arith

pub type_OneOf : (s : Bytes) (e : ToolError) → parse_tx_type s ≡ err e → OneOf type_faults e
unfolding parse_tx_type
type_OneOf s e h = ground arith

pub required_OneOf :
    (req : TxRequest) (t : ℕ) (e : ToolError)
    → check_required req t ≡ err e
    → OneOf required_faults e
unfolding check_required
required_OneOf req t e h = ground arith

pub inappropriate_OneOf :
    (req : TxRequest) (t : ℕ) (e : ToolError)
    → check_inappropriate req t ≡ err e
    → OneOf inappropriate_faults e
unfolding check_inappropriate
inappropriate_OneOf req t e h = ground arith

pub access_list_OneOf :
    (req : TxRequest) (e : ToolError) → check_access_list req ≡ err e → OneOf access_list_faults e
unfolding check_access_list
access_list_OneOf req e h = ground arith

pub amount_OneOf :
    (s a b : Bytes) (e : ToolError)
    → parse_amount s a b ≡ err e
    → OneOf (fault invalid_input a ∷ fault invalid_input b ∷ []) e
unfolding parse_amount
amount_OneOf s a b e h = ground arith

pub counter_OneOf :
    (s m : Bytes) (e : ToolError) → parse_counter s m ≡ err e → OneOf (fault invalid_input m ∷ []) e
unfolding parse_counter
counter_OneOf s m e h = ground arith

pub data_OneOf : (s : Bytes) (e : ToolError) → parse_data s ≡ err e → OneOf data_faults e
unfolding parse_data
data_OneOf s e h = ground arith

pub to_OneOf :
    (common : Common) (s : Bytes) (e : ToolError)
    → parse_to_address common s ≡ err e
    → OneOf to_faults e
unfolding parse_to_address
to_OneOf common s e h = ground arith

pub fees_OneOf :
    (req : TxRequest) (t : ℕ) (e : ToolError) → parse_fees req t ≡ err e → OneOf fee_faults e
unfolding parse_fees
fees_OneOf req t e h = ground (
  arith,
  amount_OneOf req.gas_price (text "gasPrice: must be a decimal or 0x-hex integer")
      (text "gasPrice: exceeds maximum allowed size (256 bits)") e,
  amount_OneOf req.max_priority_fee_per_gas
      (text "maxPriorityFeePerGas: must be a decimal or 0x-hex integer")
      (text "maxPriorityFeePerGas: exceeds maximum allowed size (256 bits)") e,
  amount_OneOf req.max_fee_per_gas (text "maxFeePerGas: must be a decimal or 0x-hex integer")
      (text "maxFeePerGas: exceeds maximum allowed size (256 bits)") e,
)

-- Every error that `validate` returns is one of these.
abbrev pub field_faults : List ToolError
field_faults = counter_faults ++ value_faults ++ fee_faults ++ data_faults ++ to_faults

abbrev pub shape_faults : List ToolError
shape_faults = required_faults ++ inappropriate_faults ++ access_list_faults

pub fields_OneOf :
    (common : Common) (req : TxRequest) (id t : ℕ) (e : ToolError)
    → parse_fields common req id t ≡ err e
    → OneOf field_faults e
unfolding parse_fields
fields_OneOf common req id t e h = ground (
  arith,
  counter_OneOf req.nonce (text "nonce: must be a decimal or 0x-hex integer fitting in uint64") e,
  counter_OneOf req.gas (text "gas: must be a decimal or 0x-hex integer fitting in uint64") e,
  amount_OneOf req.value (text "value: must be a decimal or 0x-hex integer")
      (text "value: exceeds maximum allowed size (256 bits)") e,
  fees_OneOf req t e,
  data_OneOf req.call_data e,
  to_OneOf common req.to e,
)
