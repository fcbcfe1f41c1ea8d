-- ===== src/Signing/Validate.antt =====
-- validate of validate.go: its nine rules in their order.
pub mod Rules
pub mod Faults
pub mod Precedence
pub mod Accepted
pub mod FeeRules
use blockchain_ai_tools.Base.{
  ℕ, ◌+◌, ◌^◌, Bytes, text, same, is_empty, Bool, not, ◌||◌, ltb, ◌==◌, if◌then◌else◌, List, [],
  ◌∷◌, length, Option, none, some, Result, ok, err, ◌>>=◌, ◌>>◌, reject,
}
use blockchain_ai_tools.Signing.Errors.{
  Error, ToolError, fault, invalid_input, chain_id_mismatch, unsupported_type,
}
use blockchain_ai_tools.Signing.Numbers.{parse_big_int, parse_uint64, is_uint64, bit_len}
use blockchain_ai_tools.Signing.Hex.{parse_data}
use blockchain_ai_tools.Signing.Address.{Common, Address, parse_to_address}
use blockchain_ai_tools.Signing.Request.{TxRequest}

abbrev pub max_big_int_bits : ℕ
max_big_int_bits = 256

-- A *big.Int that may be nil, and a slice that may be nil, are options.
pub record ParsedTx : Type 0 where
  pub tx_type : ℕ
  pub chain_id : ℕ
  pub nonce : ℕ
  pub gas : ℕ
  pub to : Option Address
  pub value : Option ℕ
  pub call_data : Option Bytes
  pub gas_price : Option ℕ
  pub gas_tip_cap : Option ℕ
  pub gas_fee_cap : Option ℕ

-- `if err != nil { return nil, e }`
abbrev pub or_fault {ℓ} : {A : Type ℓ} → Result Error A → ToolError → Result ToolError A
or_fault (ok a) e = ok a
or_fault (err _) e = err e

abbrev invalid : Bytes → ToolError
invalid m = fault invalid_input m

-- Rule 1.
unfoldable pub validate_chain_id : Bytes → Result ToolError ℕ
validate_chain_id s = do
  reject (is_empty s) (invalid (text "chainId: field is required"))
  chain_id ←
      or_fault (parse_big_int s) (invalid (text "chainId: must be a decimal or 0x-hex integer"))
  reject (chain_id == 0) (
      invalid
        (text "chainId: must not be zero (would select the replay-unprotected Homestead signer)"))
  reject (not (is_uint64 chain_id))
      (invalid (text "chainId: must fit in uint64 (value exceeds 2^64-1)"))
  ok chain_id

-- Rule 2.
unfoldable pub check_guard : ℕ → Option ℕ → Result ToolError (Unit {0})
check_guard chain_id none = ok tt
check_guard chain_id (some guard) = reject (not (chain_id == guard)) (
    fault chain_id_mismatch
      (text "chainId: does not match the chain-id guard configured on the signer"))

-- Rule 3.
unfoldable pub parse_tx_type : Bytes → Result ToolError ℕ
parse_tx_type s =
    if same s (text "0x0") || same s (text "legacy")
    then ok 0
    else if same s (text "0x2") || same s (text "eip1559")
    then ok 2
    else err (
        fault unsupported_type (
          text
            "type: unsupported transaction type; accepted values are \"0x0\", \"legacy\", \"0x2\", \"eip1559\""))

-- Rule 4, for the fields of one type.
check_required_fees : TxRequest → ℕ → Result ToolError (Unit {0})
check_required_fees req tx_type =
    if tx_type == 0
    then reject (is_empty req.gas_price)
        (invalid (text "gasPrice: required for legacy (type 0) transactions"))
    else if tx_type == 2
    then (do
      reject (is_empty req.max_fee_per_gas)
          (invalid (text "maxFeePerGas: required for EIP-1559 (type 2) transactions"))
      reject (is_empty req.max_priority_fee_per_gas)
          (invalid (text "maxPriorityFeePerGas: required for EIP-1559 (type 2) transactions")))
    else ok tt

unfoldable pub check_required : TxRequest → ℕ → Result ToolError (Unit {0})
unfolding check_required_fees
check_required req tx_type = do
  reject (is_empty req.nonce) (invalid (text "nonce: field is required"))
  reject (is_empty req.gas) (invalid (text "gas: field is required"))
  reject (is_empty req.value) (invalid (text "value: field is required"))
  check_required_fees req tx_type

-- Rule 5.
unfoldable pub check_inappropriate : TxRequest → ℕ → Result ToolError (Unit {0})
check_inappropriate req tx_type =
    if tx_type == 2
    then reject (not (is_empty req.gas_price))
        (invalid (text "gasPrice: not applicable for EIP-1559 (type 2) transactions"))
    else if tx_type == 0
    then (do
      reject (not (is_empty req.max_fee_per_gas))
          (invalid (text "maxFeePerGas: not applicable for legacy (type 0) transactions"))
      reject (not (is_empty req.max_priority_fee_per_gas))
          (invalid (text "maxPriorityFeePerGas: not applicable for legacy (type 0) transactions")))
    else ok tt

-- Rule 6.
unfoldable pub check_access_list : TxRequest → Result ToolError (Unit {0})
check_access_list req =
    reject (ltb 0 (length req.access_list))
      (invalid (text "accessList: non-empty access lists are not supported in v1"))

-- Rule 7: a number of at most 256 bits, with the two messages of its field.
unfoldable pub parse_amount : Bytes → Bytes → Bytes → Result ToolError ℕ
parse_amount s not_an_integer too_big = do
  n ← or_fault (parse_big_int s) (invalid not_an_integer)
  reject (ltb max_big_int_bits (bit_len n)) (invalid too_big)
  ok n

unfoldable pub parse_counter : Bytes → Bytes → Result ToolError ℕ
parse_counter s message = or_fault (parse_uint64 s) (invalid message)

pub record Fees : Type 0 where
  pub gas_price : Option ℕ
  pub gas_tip_cap : Option ℕ
  pub gas_fee_cap : Option ℕ

unfoldable pub parse_fees : TxRequest → ℕ → Result ToolError Fees
parse_fees req tx_type =
    if tx_type == 0
    then (do
      gas_price ←
          parse_amount req.gas_price (text "gasPrice: must be a decimal or 0x-hex integer")
            (text "gasPrice: exceeds maximum allowed size (256 bits)")
      ok (record { gas_price = some gas_price; gas_tip_cap = none; gas_fee_cap = none }))
    else if tx_type == 2
    then (do
      gas_tip_cap ←
          parse_amount req.max_priority_fee_per_gas
            (text "maxPriorityFeePerGas: must be a decimal or 0x-hex integer")
            (text "maxPriorityFeePerGas: exceeds maximum allowed size (256 bits)")
      gas_fee_cap ←
          parse_amount req.max_fee_per_gas
            (text "maxFeePerGas: must be a decimal or 0x-hex integer")
            (text "maxFeePerGas: exceeds maximum allowed size (256 bits)")
      ok (record {
        gas_price = none;
        gas_tip_cap = some gas_tip_cap;
        gas_fee_cap = some gas_fee_cap;
      }))
    else ok (record { gas_price = none; gas_tip_cap = none; gas_fee_cap = none })

-- Rules 7 to 9, and the result.
unfoldable pub parse_fields : Common → TxRequest → ℕ → ℕ → Result ToolError ParsedTx
parse_fields common req chain_id tx_type = do
  nonce ←
      parse_counter req.nonce (text "nonce: must be a decimal or 0x-hex integer fitting in uint64")
  gas ← parse_counter req.gas (text "gas: must be a decimal or 0x-hex integer fitting in uint64")
  value ←
      parse_amount req.value (text "value: must be a decimal or 0x-hex integer")
        (text "value: exceeds maximum allowed size (256 bits)")
  fees ← parse_fees req tx_type
  call_data ← parse_data req.call_data
  to ← parse_to_address common req.to
  ok (record {
    tx_type = tx_type;
    chain_id = chain_id;
    nonce = nonce;
    gas = gas;
    to = to;
    value = some value;
    call_data = some call_data;
    gas_price = fees.gas_price;
    gas_tip_cap = fees.gas_tip_cap;
    gas_fee_cap = fees.gas_fee_cap;
  })

unfoldable pub validate : Common → TxRequest → Option ℕ → Result ToolError ParsedTx
unfolding parse_fields
validate common req guard = do
  chain_id ← validate_chain_id req.chain_id
  check_guard chain_id guard
  tx_type ← parse_tx_type req.type
  check_required req tx_type
  check_inappropriate req tx_type
  check_access_list req
  parse_fields common req chain_id tx_type
