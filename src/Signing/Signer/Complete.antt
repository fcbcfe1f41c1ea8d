-- ===== src/Signing/Signer/Complete.antt =====
-- When SignTransaction returns a result.
use blockchain_ai_tools.Base.{
  ℕ, Bytes, text, same_iff, Option, some, Result, ok, ◌≡◌, ◌↔◌, sym, ap, ◌∙◌, arith,
}
use blockchain_ai_tools.Signing.Errors.{Error}
use blockchain_ai_tools.Signing.Address.{Address, Common}
use blockchain_ai_tools.Signing.Address.Laws.{IsCommon}
use blockchain_ai_tools.Signing.Request.{TxRequest, SignResult}
use blockchain_ai_tools.Signing.Validate.{ParsedTx, validate}
use blockchain_ai_tools.Signing.Types.{Types, TxData}
use blockchain_ai_tools.Signing.Build.{build_tx}
use blockchain_ai_tools.Signing.Build.Faithful.{Describes, validate-build_tx}
use blockchain_ai_tools.Signing.Zero.{Slice, value_of}
use blockchain_ai_tools.Signing.Keystore.{FileKeyVault, vault_address}
use blockchain_ai_tools.Signing.Vault.{
  Key, Keystore, SigningKey, Outcome, finished, Memory, with_signing_key,
}
use blockchain_ai_tools.Signing.Vault.Outcomes.{
  vault_inside, Reached, with_signing_key-Returns, finished-inversion, callback_outcome,
}
use blockchain_ai_tools.Signing.Signer.{
  World, RequestContext, request_id_or_empty, encode_result, check_and_encode, sign_callback, audit,
  build_and_sign, sign_transaction,
}
use blockchain_ai_tools.Signing.Signer.Laws.{
  HasValues, Encodes, sign_callback-inversion, audit-inversion, sign_transaction-accepted,
  validated,
}

module _ {Transaction Signer : Type 0} (types : Types Transaction Signer) (common : Common) where
  HasValues-encode_result :
      (signed_tx : Transaction) (raw : Bytes) (from : Address) (result : SignResult)
      → HasValues types common signed_tx raw from result
      → result ≡ encode_result types common signed_tx raw from
  unfolding encode_result text
  HasValues-encode_result signed_tx raw from result h = grind arith

  check_and_encode-Encodes :
      (built : Transaction) (signer : Signer) (scalar : ℕ) (vault : FileKeyVault)
      (result : SignResult)
      (e : Encodes types common built signer scalar (vault_address vault) result)
      → check_and_encode types common signer vault (ok e.signed_tx) ≡ ok result
  unfolding check_and_encode
  check_and_encode-Encodes built signer scalar vault result e =
      let marshalled = e.was_marshalled in
      let recovered = e.was_recovered in
      let is_same = (same_iff e.from (vault_address vault)).1 e.is_expected in
      let encoded = HasValues-encode_result e.signed_tx e.raw e.from result e.encoded in
      rw marshalled (rw recovered (rw is_same (ap ok (sym encoded))))

  -- Encodes says when the callback finishes.
  sign_callback-Encodes :
      (built : Transaction) (signer : Signer) (key : SigningKey) (vault : FileKeyVault)
      (result : SignResult)
      → Encodes types common built signer key.key (vault_address vault) result
      → sign_callback types common (built, signer) key vault ≡ finished result
  unfolding sign_callback
  sign_callback-Encodes built signer key vault result e =
      let checked = check_and_encode-Encodes built signer (key.key) vault result e in
      let was_signed = e.was_signed in ground arith

  module _ (keystore : Keystore) (read_fn : Bytes → Result Error Bytes) (ctx : RequestContext)
      (w : World) (guard : Option ℕ) (req : TxRequest) where
    -- The request is valid, the key of the vault can be had, and what it signs for the request is
    -- from the address of the vault, which is the key's where none was known.
    pub record CanSign (result : SignResult) : Type 0 where
      pub parsed : ParsedTx
      pub accepted : validate common req guard ≡ ok parsed
      pub tx : TxData
      pub described : Describes common req tx
      pub is_built :
          build_tx types parsed
          ≡ some (types.new_tx tx, types.latest_signer_for_chain_id parsed.chain_id)
      pub password : Slice
      pub key : Key
      pub reached : Reached keystore read_fn (ctx.context) (w.memory) password key
      pub encodes :
          Encodes types common
            (types.new_tx tx)
            (types.latest_signer_for_chain_id parsed.chain_id)
            (value_of key.scalar)
            (vault_address (vault_inside w.memory.vault key))
            result

    module _ (laws : IsCommon common) (result : SignResult) where
      abbrev answer : Result Error SignResult
      answer = (sign_transaction types common guard keystore read_fn ctx req w).0

      abbrev called : ParsedTx → TxData → Outcome SignResult × Memory
      called p tx =
          with_signing_key
            (sign_callback types common
              (types.new_tx tx, types.latest_signer_for_chain_id p.chain_id))
            keystore read_fn (ctx.context) (w.memory)

      answer_audited :
          (p : ParsedTx) (tx : TxData)
          → validate common req guard ≡ ok p
          → build_tx types p ≡ some (types.new_tx tx, types.latest_signer_for_chain_id p.chain_id)
          → answer
            ≡ (audit types common
                (request_id_or_empty ctx)
                p
                (called p tx).0
                (record w { memory = (called p tx).1 })).0
      unfolding build_and_sign
      answer_audited p tx accepted built =
          ap (λ x. x.0)
            (sign_transaction-accepted types common keystore read_fn ctx w req guard p accepted)
          ∙ ground arith

      answer-CanSign : answer ≡ ok result → CanSign result
      answer-CanSign h =
          let (p, accepted) = validated types common keystore read_fn ctx w req guard result h in
          let (tx, built, described, _) =
            validate-build_tx types common laws req guard p accepted in
          let (done, _, _) =
            audit-inversion types common keystore read_fn ctx w (request_id_or_empty ctx) p
              (called p tx).0 (record w { memory = (called p tx).1 }) result
              (sym (answer_audited p tx accepted built) ∙ h) in
          let (password, key, reached, finishes) =
            finished-inversion _ keystore read_fn _ _ _ result
              (with_signing_key-Returns _ keystore read_fn _ _) done in
          record {
            parsed = p;
            accepted = accepted;
            tx = tx;
            described = described;
            is_built = built;
            password = password;
            key = key;
            reached = reached;
            encodes = sign_callback-inversion types common _ _ _ _ result finishes;
          }

      finished_audit :
          (id : Bytes) (p : ParsedTx) (o : Outcome SignResult) (v : World)
          → o ≡ finished result
          → (audit types common id p o v).0 ≡ ok result
      unfolding audit
      finished_audit id p o v e = ap (λ x. (audit types common id p x v).0) e

      CanSign-answer : CanSign result → answer ≡ ok result
      CanSign-answer c =
          answer_audited c.parsed c.tx c.accepted c.is_built
          ∙ finished_audit (request_id_or_empty ctx) c.parsed _ _ (
              callback_outcome _ keystore read_fn (ctx.context) (w.memory) c.password c.key
                c.reached
              ∙ sign_callback-Encodes _ _ _ _ result c.encodes)

      -- SignTransaction returns a result exactly if the request is valid, the call is not
      -- cancelled, the password file can be read and opens the keystore, and what the key signs for
      -- the request can be encoded and is from the address of the vault, or from the key's own
      -- where none is known; and each field of the result, the raw bytes, the hash, the sender and
      -- the signature values r, s and v, is then that of what was signed.
      pub sign_transaction_iff :
          ((sign_transaction types common guard keystore read_fn ctx req w).0 ≡ ok result)
          ↔ CanSign result
      sign_transaction_iff = (answer-CanSign, CanSign-answer)
