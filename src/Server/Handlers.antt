-- ===== src/Server/Handlers.antt =====
-- errors.go and handlers.go of the package `server`.
pub mod RequestId
pub mod Wire
pub mod Addresses
use blockchain_ai_tools.Base.{
  ℕ, ◌+◌, Bytes, text, is_empty, Bool, true, false, ◌||◌, not, leb, if◌then◌else◌, take, drop,
  bit_and, bit_or, ◌∷◌, ◌++◌, [], List, Option, none, some, Result, ok, err,
}
use blockchain_ai_tools.Signing.Errors.{
  Error, tool, ToolError, code_text, code_of, message_of, cause_of, Cause, cause, no_cause, fault,
  internal_error, address_unknown, as_tool_error, error_text,
}
use blockchain_ai_tools.Signing.Hex.{hex_encode}
use blockchain_ai_tools.Signing.Address.{Address, Common}
use blockchain_ai_tools.Signing.Request.{TxRequest, SignResult, AddressResult}
use blockchain_ai_tools.Signing.Vault.{byte_at}
use blockchain_ai_tools.Signing.Signer.{
  LogLine, tool_error_with_cause, system_failure, World, logs, RequestContext, with_request_id,
  request_id_from_context,
}
use blockchain_ai_tools.Base.{length}

-- mcp.CallToolResult with one text.
pub record CallToolResult : Type 0 where
  pub content : Bytes
  pub is_error : Bool

-- json.Marshal of a payload with a code and a message.
abbrev pub MarshalPayload : Type 0
MarshalPayload = Bytes → Bytes → Result Error Bytes

-- The text where json.Marshal fails.
abbrev pub fallback_payload : Bytes
fallback_payload =
    text "{\"code\":\""
    ++ code_text internal_error
    ++ text "\",\"message\":\"failed to encode error\"}"

abbrev pub payload_or_fallback : Result Error Bytes → Bytes
payload_or_fallback (ok payload) = payload
payload_or_fallback (err _) = fallback_payload

unfoldable pub tool_result : MarshalPayload → Error → Result Error CallToolResult
tool_result marshal e = elim (as_tool_error e) [
  | none ↦ err e
  | some t ↦ ok (record {
    content = payload_or_fallback (marshal (code_text (code_of t)) (message_of t));
    is_error = true;
  })
]

-- What a handler gives back to the SDK: a tool result, or a value, or a JSON-RPC error.
pub data Response {ℓ} (A : Type ℓ) : Type ℓ where
  tool_error_response : CallToolResult → Response A
  value_response : A → Response A
  protocol_error : Bytes → Response A
  -- all three results are nil
  no_response : Response A

-- b[i] = f(b[i])
abbrev pub set_byte : ℕ → (ℕ → ℕ) → Bytes → Bytes
set_byte i f b = take i b ++ f (byte_at b i) ∷ drop (i + 1) b

abbrev pub between : ℕ → ℕ → Bytes → Bytes
between i n b = take n (drop i b)

-- "%s-%s"
abbrev pub dashed : Bytes → Bytes → Bytes
dashed a b = a ++ (b'-' ∷ b)

abbrev pub uuid_text : Bytes → Bytes
uuid_text b = dashed (hex_encode (between 0 4 b)) (
    dashed (hex_encode (between 4 2 b)) (
      dashed (hex_encode (between 6 2 b))
        (dashed (hex_encode (between 8 2 b)) (hex_encode (drop 10 b)))))

-- version 4, and the variant of RFC 4122
abbrev pub set_version : Bytes → Bytes
set_version b = set_byte 6 (λ x. bit_or (bit_and x 0x0f) 0x40) b

abbrev pub set_variant : Bytes → Bytes
set_variant b = set_byte 8 (λ x. bit_or (bit_and x 0x3f) 0x80) b

-- `none` is the panic where the random source fails.
unfoldable pub generate_request_id : Result Error Bytes → Option Bytes
generate_request_id (err _) = none
generate_request_id (ok random) = some (uuid_text (set_variant (set_version random)))

-- The ids of a context that the handler keeps.
unfoldable pub usable_request_id : Option Bytes → Bool
usable_request_id none = false
usable_request_id (some id) = not (is_empty id || not (leb (length id) 64))

-- The context that the handler goes on with, and its id.
unfoldable pub ensure_request_id :
    Result Error Bytes → RequestContext → Option (Bytes × RequestContext)
unfolding usable_request_id
ensure_request_id random ctx = elim (request_id_from_context ctx) [
  | none ↦ elim (generate_request_id random) [
    | none ↦ none
    | some id ↦ some (id, with_request_id ctx id)
  ]
  | some id ↦
      if usable_request_id (some id) then some (id, ctx) else elim (generate_request_id random) [
        | none ↦ none
        | some new ↦ some (new, with_request_id ctx new)
      ]
]

-- signerPort
pub record SignerPort : Type 0 where
  pub sign_transaction : RequestContext → TxRequest → World → Result Error SignResult × World
  pub address_pointer : World → Option Address

-- te.Cause, where the error is a ToolError that has one
abbrev pub log_cause : Bytes → Option ToolError → World → World
log_cause id none w = w
log_cause id (some t) w = elim (cause_of t) [
  | no_cause ↦ w
  | cause c ↦ logs (tool_error_with_cause id (code_text (code_of t)) (error_text c)) w
]

module _ (marshal : MarshalPayload) (port : SignerPort) where
  -- Behind the call of the signer.
  unfoldable pub answer : Bytes → Result Error SignResult × World → Response SignResult × World
  unfolding tool_result
  answer id (ok result, w) = (value_response result, w)
  answer id (err e, w) = elim (tool_result marshal e) [
    | ok t ↦ (tool_error_response t, log_cause id (as_tool_error e) w)
    | err e' ↦ (
      protocol_error (text "internal server error"),
      logs (system_failure id (error_text e')) (log_cause id (as_tool_error e) w),
    )
  ]

  unfoldable pub handle_sign_transaction :
      Result Error Bytes → RequestContext → TxRequest → World → Option (Response SignResult × World)
  unfolding ensure_request_id answer
  handle_sign_transaction random ctx args w = elim (ensure_request_id random ctx) [
    | none ↦ none
    | some (id, ctx') ↦ some (answer id (port.sign_transaction ctx' args w))
  ]

  unfoldable pub handle_get_address : Common → World → Response AddressResult
  unfolding tool_result
  handle_get_address common w = elim (port.address_pointer w) [
    | some a ↦ value_response (record { address = common.hex a })
    | none ↦
        elim (tool_result marshal (
          tool (
            fault address_unknown (
              text
                "address not yet discovered; call sign_transaction once or configure a keystore with a declared address")))) [
                  | ok t ↦ tool_error_response t
                  | err _ ↦ no_response
                ]
  ]
