-- ===== src/Signing/Signer.antt =====
-- SignTransaction of signer.go, and the request ids of context.go.
pub mod Laws
pub mod Failures
pub mod Complete
use blockchain_ai_tools.Base.{
  ℕ, Bytes, text, same, not, ◌∷◌, ◌++◌, [], List, Option, none, some, Result, ok, err, ◌>>=◌, ◌>>◌,
  reject,
}
use blockchain_ai_tools.Signing.Errors.{
  Error, tool, tool_error, cause, ToolError, fault, internal_error,
}
use blockchain_ai_tools.Signing.Hex.{hex_encode}
use blockchain_ai_tools.Signing.Address.{Address, Common}
use blockchain_ai_tools.Signing.Request.{TxRequest, SignResult}
use blockchain_ai_tools.Signing.Validate.{ParsedTx, validate}
use blockchain_ai_tools.Signing.Types.{Types}
use blockchain_ai_tools.Signing.Build.{build_tx}
use blockchain_ai_tools.Signing.Keystore.{FileKeyVault, vault_address}
use blockchain_ai_tools.Signing.Vault.{
  Keystore, SigningKey, Outcome, failed, finished, panicked, Memory, Context, with_signing_key,
}

-- What the logger writes, with the values of each line.
pub data LogLine : Type 0 where
  signed : (request_id tx_hash : Bytes) → (chain_id nonce : ℕ) → LogLine
  panic_recovered : (request_id : Bytes) → LogLine
  tool_error_with_cause : (request_id code cause_text : Bytes) → LogLine
  system_failure : (request_id error : Bytes) → LogLine

-- The vault's memory and the log.
pub record World : Type 0 where
  pub memory : Memory
  pub log : List LogLine

abbrev pub logs : LogLine → World → World
logs line w = record w { log = w.log ++ line ∷ [] }

-- context.Context, with the request id that it carries.
pub record RequestContext : Type 0 where
  pub context : Context
  pub request_id : Option Bytes

abbrev pub with_request_id : RequestContext → Bytes → RequestContext
with_request_id ctx id = record ctx { request_id = some id }

abbrev pub request_id_from_context : RequestContext → Option Bytes
request_id_from_context ctx = ctx.request_id

-- `id, _ := RequestIDFromContext(ctx)`
abbrev pub request_id_or_empty : RequestContext → Bytes
request_id_or_empty ctx = elim (request_id_from_context ctx) [ none ↦ [] | some id ↦ id ]

-- `if err != nil { return &ToolError{Code: CodeInternalError, …, Cause: err} }`
abbrev pub or_internal_error {ℓ} : {A : Type ℓ} → Result Error A → Bytes → Result Error A
or_internal_error (ok a) m = ok a
or_internal_error (err e) m = err (tool (tool_error internal_error m (cause e)))

abbrev outcome_of {ℓ} : {R : Type ℓ} → Result Error R → Outcome R
outcome_of (ok r) = finished r
outcome_of (err e) = failed e

module _ {Transaction Signer : Type 0} (types : Types Transaction Signer) (common : Common) where
  open types use {sign_tx, marshal_binary, raw_signature_values, sender, hash_hex, encode_big}
  open common use {hex}

  -- The values of a signed transaction that go into the result.
  unfoldable pub encode_result : Transaction → Bytes → Address → SignResult
  encode_result signed_tx raw from =
      let (v, r, s) = raw_signature_values signed_tx in
      record {
        raw_transaction = text "0x" ++ hex_encode raw;
        signature = record { r = encode_big r; s = encode_big s; v = encode_big v };
        hash = hash_hex signed_tx;
        from = hex from;
      }

  -- The callback behind SignTx.
  unfoldable pub check_and_encode :
      Signer → FileKeyVault → Result Error Transaction → Result Error SignResult
  unfolding encode_result
  check_and_encode signer vault sign_result = do
    signed_tx ← or_internal_error sign_result (text "transaction signing failed")
    raw ←
        or_internal_error (marshal_binary signed_tx)
          (text "failed to encode signed transaction to RLP")
    from ←
        or_internal_error (sender signer signed_tx)
          (text "failed to recover sender address from signed transaction")
    reject (not (same from (vault_address vault))) (
        tool (
          fault internal_error (
            text "recovered sender "
            ++ hex from
            ++ text " does not match keystore address "
            ++ hex (vault_address vault))))
    ok (encode_result signed_tx raw from)

  unfoldable pub sign_callback :
      Transaction × Signer → SigningKey → FileKeyVault → Outcome SignResult
  unfolding check_and_encode
  sign_callback (built_tx, signer) key vault = elim (sign_tx built_tx signer key.key) [
    | none ↦ panicked
    | some sign_result ↦ outcome_of (check_and_encode signer vault sign_result)
  ]

  -- The deferred function: what a panic becomes.
  unfoldable pub recover_panic : Bytes → World → Result Error SignResult × World
  recover_panic id w = (
    err (tool (fault internal_error (text "an internal error occurred during signing"))),
    logs (panic_recovered id) w,
  )

  -- Behind the call of the vault.
  unfoldable pub audit :
      Bytes → ParsedTx → Outcome SignResult → World → Result Error SignResult × World
  unfolding recover_panic
  audit id parsed (failed e) w = (err e, w)
  audit id parsed (finished result) w =
      (ok result, logs (signed id (result.hash) (parsed.chain_id) (parsed.nonce)) w)
  audit id parsed panicked w = recover_panic id w

  unfoldable pub build_and_sign :
      Keystore
      → (Bytes → Result Error Bytes)
      → RequestContext
      → ParsedTx
      → World
      → Result Error SignResult × World
  unfolding audit
  build_and_sign keystore read_fn ctx parsed w = elim (build_tx types parsed) [
    | none ↦ recover_panic (request_id_or_empty ctx) w
    | some built ↦
        let (o, m) = with_signing_key (sign_callback built) keystore read_fn ctx.context w.memory in
        audit (request_id_or_empty ctx) parsed o (record w { memory = m })
  ]

  -- `guard` is the signer's.
  unfoldable pub sign_transaction :
      Option ℕ
      → Keystore
      → (Bytes → Result Error Bytes)
      → RequestContext
      → TxRequest
      → World
      → Result Error SignResult × World
  unfolding build_and_sign
  sign_transaction guard keystore read_fn ctx req w = elim (validate common req guard) [
    | err t ↦ (err (tool t), w)
    | ok parsed ↦ build_and_sign keystore read_fn ctx parsed w
  ]
