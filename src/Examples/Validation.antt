-- ===== src/Examples/Validation.antt =====
-- The theorems on the input of a request, at concrete texts.
use blockchain_ai_tools.Base.{
  ℕ, ◌<◌, ◌≤◌, ◌^◌, Bytes, text, same, arith, length, replicate, ◌∷◌, [], none, some, ok, err, ◌≡◌,
  ◌⊎◌, ◌↔◌, refl,
}
use blockchain_ai_tools.Signing.Errors.{
  code_of, fault, invalid_input, chain_id_mismatch, unsupported_type,
}
use blockchain_ai_tools.Signing.Numbers.{
  parse_big_int, parse_uint64, bit_len, bits, scan, scan_digits, set_string,
}
use blockchain_ai_tools.Signing.Numbers.Width.{bit_len_iff}
use blockchain_ai_tools.Signing.Hex.{
  parse_data, hex_decode, hex_encode, decode_hex_part, within_limit,
}
use blockchain_ai_tools.Signing.Address.{Address, parse_to_address, has_mixed_case, checksum_fails}
use blockchain_ai_tools.Signing.Address.Recipient.{
  IsRecipient, parse_to_address_iff, parse_to_address-hex,
}
use blockchain_ai_tools.Signing.Request.{TxRequest}
use blockchain_ai_tools.Signing.Validate.{
  ParsedTx, validate, validate_chain_id, check_guard, parse_tx_type, check_required,
  check_inappropriate, check_access_list, parse_counter, parse_amount, parse_fees, parse_fields,
}
use blockchain_ai_tools.Signing.Validate.Rules.{Allowed}
use blockchain_ai_tools.Signing.Validate.Accepted.{Accepts, validate_iff}
use blockchain_ai_tools.Signing.Validate.Faults.{OneOf, guard_faults, type_faults}
use blockchain_ai_tools.Signing.Validate.Precedence.{
  GoodChain, FailsWith, invalid_input_faults, validate_errors, mismatch_iff,
}
use blockchain_ai_tools.Examples.Addresses.{
  plain_common, plain_common-IsCommon, found, or_nothing, without_prefix,
}

abbrev pub some_address : Address
some_address = replicate 20 17

abbrev pub address_text : Bytes
address_text = text "0x1111111111111111111111111111111111111111"

abbrev pub legacy_request : TxRequest
legacy_request = record {
  type = text "legacy";
  chain_id = text "0x1";
  nonce = text "7";
  to = address_text;
  value = text "1000";
  call_data = text "0xa9";
  gas = text "21000";
  gas_price = text "30";
  max_fee_per_gas = [];
  max_priority_fee_per_gas = [];
  access_list = [];
}

abbrev pub legacy_parsed : ParsedTx
legacy_parsed = record {
  tx_type = 0;
  chain_id = 1;
  nonce = 7;
  gas = 21000;
  to = some some_address;
  value = some 1000;
  call_data = some (169 ∷ []);
  gas_price = some 30;
  gas_tip_cap = none;
  gas_fee_cap = none;
}

-- The request of another type.
abbrev pub blob_request : TxRequest
blob_request = record legacy_request { type = text "0x3" }

pub legacy_accepted : validate plain_common legacy_request (some 1) ≡ ok legacy_parsed
unfolding validate validate_chain_id check_guard parse_tx_type check_required check_inappropriate
    check_access_list parse_counter parse_amount parse_fees parse_fields parse_big_int parse_uint64
    bit_len bits scan scan_digits set_string parse_data hex_decode hex_encode decode_hex_part
    within_limit parse_to_address has_mixed_case checksum_fails plain_common found or_nothing
    without_prefix same text
legacy_accepted = refl

validate_iff_example :
    (validate plain_common legacy_request (some 1) ≡ ok legacy_parsed)
    ↔ Accepts plain_common legacy_request (some 1) legacy_parsed
validate_iff_example =
    validate_iff plain_common plain_common-IsCommon legacy_request (some 1) legacy_parsed

mismatch_iff_example :
    FailsWith plain_common legacy_request (some 5) chain_id_mismatch
    ↔ ((id : ℕ) × GoodChain legacy_request id × ¬ (Allowed (some 5) id))
mismatch_iff_example = mismatch_iff plain_common legacy_request (some 5)

abbrev pub type_fault : Bytes
type_fault =
    text
      "type: unsupported transaction type; accepted values are \"0x0\", \"legacy\", \"0x2\", \"eip1559\""

blob_rejected : validate plain_common blob_request none ≡ err (fault unsupported_type type_fault)
unfolding validate validate_chain_id check_guard parse_tx_type check_required check_inappropriate
    check_access_list parse_counter parse_amount parse_fees parse_fields parse_big_int parse_uint64
    bit_len bits scan scan_digits set_string parse_data hex_decode hex_encode decode_hex_part
    within_limit parse_to_address has_mixed_case checksum_fails plain_common found or_nothing
    without_prefix same text
blob_rejected = refl

pub blob_refused :
    validate plain_common blob_request (some 1) ≡ err (fault unsupported_type type_fault)
unfolding validate validate_chain_id check_guard parse_tx_type check_required check_inappropriate
    check_access_list parse_counter parse_amount parse_fees parse_fields parse_big_int parse_uint64
    bit_len bits scan scan_digits set_string parse_data hex_decode hex_encode decode_hex_part
    within_limit parse_to_address has_mixed_case checksum_fails plain_common found or_nothing
    without_prefix same text
blob_refused = refl

validate_errors_example :
    ((code_of (fault unsupported_type type_fault) ≡ invalid_input)
      × OneOf invalid_input_faults (fault unsupported_type type_fault))
    ⊎ (((code_of (fault unsupported_type type_fault) ≡ chain_id_mismatch)
          × OneOf guard_faults (fault unsupported_type type_fault))
        ⊎ ((code_of (fault unsupported_type type_fault) ≡ unsupported_type)
            × OneOf type_faults (fault unsupported_type type_fault)))
validate_errors_example =
    validate_errors plain_common blob_request none (fault unsupported_type type_fault) blob_rejected

bit_len_iff_example : (bit_len 255 ≤ 8) ↔ (255 < 2 ^ 8)
bit_len_iff_example = bit_len_iff 8 255

parse_to_address_iff_example :
    (parse_to_address plain_common address_text ≡ ok (some some_address))
    ↔ IsRecipient plain_common address_text some_address
parse_to_address_iff_example =
    parse_to_address_iff plain_common plain_common-IsCommon address_text some_address

parse_to_address-hex_example :
    parse_to_address plain_common (plain_common.hex some_address) ≡ ok (some some_address)
parse_to_address-hex_example =
    parse_to_address-hex plain_common plain_common-IsCommon some_address (refl, ground arith)

sized_address_text : length address_text ≡ 42
unfolding text
sized_address_text = refl
