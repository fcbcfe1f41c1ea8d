-- ===== src/Examples/Signing.antt =====
-- The theorems on SignTransaction, at a request, a key and an instance of the package `types`.
use blockchain_ai_tools.Base.{
  ℕ, ◌^◌, ◌<◌, text, same, ◌∷◌, ◌++◌, [], none, some, Result, ok, ◌≡◌, ◌↔◌, refl,
}
use blockchain_ai_tools.Signing.Errors.{Error}
use blockchain_ai_tools.Signing.Types.{Types, TxData}
use blockchain_ai_tools.Signing.Signer.{World, RequestContext, sign_transaction}
use blockchain_ai_tools.Signing.Numbers.{
  parse_big_int, parse_uint64, bit_len, bits, scan, scan_digits, set_string,
}
use blockchain_ai_tools.Signing.Numbers.Numeral.{Numeral}
use blockchain_ai_tools.Signing.Hex.{
  parse_data, hex_decode, hex_encode, decode_hex_part, within_limit,
}
use blockchain_ai_tools.Signing.Address.{parse_to_address, has_mixed_case, checksum_fails}
use blockchain_ai_tools.Signing.Request.{SignResult}
use blockchain_ai_tools.Signing.Validate.{
  validate, validate_chain_id, check_guard, parse_tx_type, check_required, check_inappropriate,
  check_access_list, parse_counter, parse_amount, parse_fees, parse_fields,
}
use blockchain_ai_tools.Signing.Build.{legacy_data, build_tx}
use blockchain_ai_tools.Signing.Build.Faithful.{Describes, validate-build_tx}
use blockchain_ai_tools.Signing.Build.Typed.{IsTyped, build_tx-IsTyped}
use blockchain_ai_tools.Signing.Keystore.{vault_address}
use blockchain_ai_tools.Signing.Vault.{read_password_file, strip_line_ends, with_signing_key}
use blockchain_ai_tools.Signing.Vault.Outcomes.{Reached}
use blockchain_ai_tools.Signing.Signer.{
  build_and_sign, audit, sign_callback, check_and_encode, encode_result,
}
use blockchain_ai_tools.Signing.Signer.Laws.{Signs, sign_transaction-Signs}
use blockchain_ai_tools.Signing.Signer.Complete.{CanSign, sign_transaction_iff}
use blockchain_ai_tools.Signing.Signer.Failures.{Recovered, panic-Recovered}
use blockchain_ai_tools.Examples.Addresses.{
  plain_common-IsCommon, found, or_nothing, without_prefix,
}
use blockchain_ai_tools.Server.Handlers.{
  SignerPort, MarshalPayload, value_response, handle_sign_transaction, handle_get_address, answer,
  ensure_request_id, usable_request_id,
}
use blockchain_ai_tools.Server.Handlers.Wire.{signer_port, get_address-sign_transaction}
use blockchain_ai_tools.Examples.Addresses.{plain_common}
use blockchain_ai_tools.Examples.Validation.{
  some_address, legacy_request, legacy_parsed, legacy_accepted,
}
use blockchain_ai_tools.Examples.Vault.{
  one_password, read_password, fresh, running, password_slice, some_key, password_was_read,
  key_was_decrypted,
}

-- Transactions are their data, and signing changes nothing.
abbrev pub plain_types : Types TxData ℕ
plain_types = record {
  new_tx = λ d. d;
  latest_signer_for_chain_id = λ id. id;
  sign_tx = λ tx _ _. some (ok tx);
  marshal_binary = λ _. ok (1 ∷ []);
  raw_signature_values = λ _. (37, 1, 2);
  sender = λ _ _. ok some_address;
  hash_hex = λ _. text "0xhash";
  encode_big = λ _. text "0x1";
}

abbrev pub start : World
start = record { memory = fresh; log = [] }

abbrev pub some_port : SignerPort
some_port = signer_port plain_types plain_common none one_password read_password

abbrev pub traced : RequestContext
traced = record { context = running; request_id = some (text "id") }

abbrev pub signed_result : SignResult
signed_result = record {
  raw_transaction = text "0x01";
  signature = record { r = text "0x1"; s = text "0x1"; v = text "0x1" };
  hash = text "0xhash";
  from = plain_common.hex some_address;
}

abbrev call_of : Types TxData ℕ → Result Error SignResult × World
call_of types =
    sign_transaction types plain_common (some 1) one_password read_password traced legacy_request
      start

signs_legacy : (call_of plain_types).0 ≡ ok signed_result
unfolding sign_transaction build_and_sign audit sign_callback check_and_encode encode_result
    with_signing_key build_tx vault_address read_password_file strip_line_ends same hex_encode text
    validate validate_chain_id check_guard parse_tx_type check_required check_inappropriate
    check_access_list parse_counter parse_amount parse_fees parse_fields parse_big_int parse_uint64
    bit_len bits scan scan_digits set_string parse_data hex_decode decode_hex_part within_limit
    parse_to_address has_mixed_case checksum_fails plain_common found or_nothing without_prefix
signs_legacy = refl

sign_transaction-Signs_example :
    Signs plain_types plain_common one_password read_password traced start legacy_request
      (some 1)
      signed_result
      (call_of plain_types).1
sign_transaction-Signs_example =
    sign_transaction-Signs plain_types plain_common one_password read_password traced start
      plain_common-IsCommon legacy_request (some 1) signed_result signs_legacy

-- A package whose SignTx panics.
abbrev panicking_types : Types TxData ℕ
panicking_types = record plain_types { sign_tx = λ _ _ _. none }

was_reached : Reached one_password read_password running fresh password_slice some_key
was_reached = record {
  not_waiting = refl;
  not_cancelled = refl;
  was_read = password_was_read;
  was_decrypted = key_was_decrypted;
}

legacy_is_built : build_tx panicking_types legacy_parsed ≡ some (legacy_data legacy_parsed, 1)
unfolding build_tx
legacy_is_built = refl

panic-Recovered_example :
    Recovered panicking_types plain_common
      (some 1)
      one_password
      read_password
      traced
      legacy_request
      start
      legacy_parsed
      legacy_accepted
      password_slice
      some_key
      was_reached
      (legacy_data legacy_parsed)
      1
      legacy_is_built
      refl
      (call_of panicking_types)
panic-Recovered_example =
    panic-Recovered panicking_types plain_common (some 1) one_password read_password traced
      legacy_request start legacy_parsed legacy_accepted password_slice some_key was_reached
      (legacy_data legacy_parsed) 1 legacy_is_built refl

validate-build_tx_example :
    (d : TxData) × (build_tx plain_types legacy_parsed ≡ some (d, 1))
    × Describes plain_common legacy_request d
    × Numeral (legacy_request.chain_id) 1
validate-build_tx_example =
    validate-build_tx plain_types plain_common plain_common-IsCommon legacy_request (some 1)
      legacy_parsed legacy_accepted

abbrev pub marshal_code : MarshalPayload
marshal_code code message = ok (code ++ message)

abbrev pub guarded_port : SignerPort
guarded_port = signer_port plain_types plain_common (some 1) one_password read_password

handles_legacy :
    handle_sign_transaction marshal_code guarded_port (ok []) traced legacy_request start
    ≡ some (value_response signed_result, (call_of plain_types).1)
unfolding handle_sign_transaction answer ensure_request_id usable_request_id sign_transaction
    build_and_sign audit sign_callback check_and_encode encode_result with_signing_key build_tx
    vault_address read_password_file strip_line_ends same hex_encode text validate validate_chain_id
    check_guard parse_tx_type check_required check_inappropriate check_access_list parse_counter
    parse_amount parse_fees parse_fields parse_big_int parse_uint64 bit_len bits scan scan_digits
    set_string parse_data hex_decode decode_hex_part within_limit parse_to_address has_mixed_case
    checksum_fails plain_common found or_nothing without_prefix
handles_legacy = refl

get_address-sign_transaction_example :
    handle_get_address marshal_code guarded_port plain_common (call_of plain_types).1
    ≡ value_response (record { address = signed_result.from })
get_address-sign_transaction_example =
    get_address-sign_transaction plain_types plain_common plain_common-IsCommon (some 1)
      one_password read_password marshal_code (ok []) traced legacy_request start
      (call_of plain_types).1 signed_result handles_legacy

sign_transaction_iff_example :
    ((call_of plain_types).0 ≡ ok signed_result)
    ↔ CanSign plain_types plain_common one_password read_password traced start
        (some 1)
        legacy_request
        signed_result
sign_transaction_iff_example =
    sign_transaction_iff plain_types plain_common one_password read_password traced start (some 1)
      legacy_request plain_common-IsCommon signed_result

build_tx-IsTyped_example :
    (d : TxData) × (build_tx plain_types legacy_parsed ≡ some (d, 1))
    × IsTyped d
    × (0 < 1)
    × (1 < 2 ^ 64)
build_tx-IsTyped_example =
    build_tx-IsTyped plain_types plain_common plain_common-IsCommon legacy_request (some 1)
      legacy_parsed legacy_accepted
