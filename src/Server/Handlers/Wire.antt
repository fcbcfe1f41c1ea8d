-- ===== src/Server/Handlers/Wire.antt =====
-- What crosses the wire from the handlers, and what does not.
use blockchain_ai_tools.Base.{
  some_eq, ℕ, Bytes, text, Option, none, some, Option-cases, Result, ok, err, true, ◌≡◌, inl, inr,
  refl, sym, ap, ◌∙◌, subst, arith,
}
use blockchain_ai_tools.Signing.Errors.{Error, code_of, message_of, code_text, as_tool_error}
use blockchain_ai_tools.Signing.Address.{Common}
use blockchain_ai_tools.Signing.Address.Laws.{IsCommon}
use blockchain_ai_tools.Signing.Request.{TxRequest, SignResult}
use blockchain_ai_tools.Signing.Types.{Types}
use blockchain_ai_tools.Signing.Keystore.{address_pointer}
use blockchain_ai_tools.Signing.Vault.{Keystore}
use blockchain_ai_tools.Signing.Signer.{World, RequestContext, sign_transaction, encode_result}
use blockchain_ai_tools.Signing.Signer.Laws.{Signs, sign_transaction-Signs}
use blockchain_ai_tools.Server.Handlers.{
  MarshalPayload, payload_or_fallback, Response, tool_error_response, value_response,
  protocol_error, SignerPort, ensure_request_id, answer, handle_sign_transaction,
  handle_get_address,
}

-- The signer behind the port.
abbrev pub signer_port :
    {Transaction Signer : Type 0}
    → Types Transaction Signer
    → Common
    → Option ℕ
    → Keystore
    → (Bytes → Result Error Bytes)
    → SignerPort
signer_port types common guard keystore read_fn = record {
  sign_transaction = sign_transaction types common guard keystore read_fn;
  address_pointer = λ w. address_pointer (w.memory.vault);
}

module _ (marshal : MarshalPayload) (port : SignerPort) where
  -- What the client may know of an error: a ToolError's code and message, and of another error
  -- nothing.
  unfoldable pub visible : Error → Option (Bytes × Bytes)
  visible e = elim (as_tool_error e) [
    | none ↦ none
    | some t ↦ some (code_text (code_of t), message_of t)
  ]

  -- The response to a failed call, from what the client may know.
  abbrev pub shown_as : Option (Bytes × Bytes) → Response SignResult
  shown_as none = protocol_error (text "internal server error")
  shown_as (some (code, message)) =
      tool_error_response
        (record { content = payload_or_fallback (marshal code message); is_error = true })

  -- The response to a failed call is a function of the code and the message: the Cause, and the
  -- text of an error that is not a ToolError, never cross the wire.
  pub answer-shown_as :
      (id : Bytes) (e : Error) (w : World)
      → (answer marshal port id (err e, w)).0 ≡ shown_as (visible e)
  unfolding answer visible
  answer-shown_as id e w = elim (Option-cases (as_tool_error e)) [
    | inl h ↦ ground arith
    | inr (t, h) ↦ ground arith
  ]

module _ {Transaction Signer : Type 0} (types : Types Transaction Signer) (common : Common)
    (laws : IsCommon common) (guard : Option ℕ) (keystore : Keystore)
    (read_fn : Bytes → Result Error Bytes) (marshal : MarshalPayload) where
  abbrev port : SignerPort
  port = signer_port types common guard keystore read_fn

  answer-value :
      (id : Bytes) (x : Result Error SignResult × World) (result : SignResult)
      → (answer marshal port id x).0 ≡ value_response result
      → (x.0 ≡ ok result) × ((answer marshal port id x).1 ≡ x.1)
  unfolding answer
  answer-value id (ok r, w) result h = (ap ok (ground arith), refl)
  answer-value id (err e, w) result h = elim (Option-cases (as_tool_error e)) [
    | inl none_found ↦ absurd (ground arith)
    | inr (t, found) ↦ absurd (ground arith)
  ]

  handled :
      (random : Result Error Bytes) (ctx : RequestContext) (args : TxRequest) (w w' : World)
      (reply : Response SignResult)
      → handle_sign_transaction marshal port random ctx args w ≡ some (reply, w')
      → (id : Bytes) × (ctx' : RequestContext) × (answer marshal port id
            (port.sign_transaction ctx' args w)
          ≡ (reply, w'))
  unfolding handle_sign_transaction
  handled random ctx args w w' reply h = elim (Option-cases (ensure_request_id random ctx)) [
    | inl panics ↦ absurd (ground arith)
    | inr ((id, ctx'), e) ↦ (id, ctx', some_eq (ground arith))
  ]

  signed_from :
      (ctx : RequestContext) (w : World) (req : TxRequest) (result : SignResult) (w' : World)
      → Signs types common keystore read_fn ctx w req guard result w'
      → handle_get_address marshal port common w'
        ≡ value_response (record { address = result.from })
  unfolding handle_get_address encode_result
  signed_from ctx w req result w' s =
      let is_from = s.encodes.encoded.is_from in
      let expected = s.encodes.is_expected in let is_known = s.known in ground arith

  -- Behind a successful `sign_transaction`, `get_address` answers with the address that the result
  -- was signed from.
  pub get_address-sign_transaction :
      (random : Result Error Bytes) (ctx : RequestContext) (args : TxRequest) (w w' : World)
      (result : SignResult)
      → handle_sign_transaction marshal port random ctx args w ≡ some (value_response result, w')
      → handle_get_address marshal port common w'
        ≡ value_response (record { address = result.from })
  get_address-sign_transaction random ctx args w w' result h =
      let (id, ctx', e) = handled random ctx args w w' (value_response result) h in
      let (done, behind) = answer-value id _ result (ap (λ x. x.0) e) in
      let signs =
        sign_transaction-Signs types common keystore read_fn ctx' w laws args guard result done in
      subst
        (λ v.
          handle_get_address marshal port common v
          ≡ value_response (record { address = result.from }))
        (sym behind ∙ ap (λ x. x.1) e) (signed_from ctx' w args result _ signs)
