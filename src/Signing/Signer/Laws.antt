-- ===== src/Signing/Signer/Laws.antt =====
-- What a successful SignTransaction has done.
use blockchain_ai_tools.Base.{
  ℕ, Bytes, text, same, same_iff, not, ◌∷◌, ◌++◌, [], List, Option, some, Option-cases, Result, ok,
  err, invert, reject, ok-injective, Result-cases, ◌≡◌, inl, inr, refl, sym, ap, ◌∙◌, subst, arith,
}
use blockchain_ai_tools.Signing.Errors.{Error}
use blockchain_ai_tools.Signing.Hex.{hex_encode}
use blockchain_ai_tools.Signing.Address.{Address, Common}
use blockchain_ai_tools.Signing.Address.Laws.{IsCommon}
use blockchain_ai_tools.Signing.Request.{TxRequest, SignResult}
use blockchain_ai_tools.Signing.Validate.{ParsedTx, validate}
use blockchain_ai_tools.Signing.Types.{Types, TxData}
use blockchain_ai_tools.Signing.Build.{build_tx}
use blockchain_ai_tools.Signing.Build.Faithful.{Describes, validate-build_tx}
use blockchain_ai_tools.Signing.Zero.{Slice, value_of}
use blockchain_ai_tools.Signing.Keystore.{FileKeyVault, vault_address, address_pointer}
use blockchain_ai_tools.Signing.Vault.{
  Key, Keystore, SigningKey, Outcome, failed, finished, panicked, Memory, discover,
  with_signing_key,
}
use blockchain_ai_tools.Signing.Vault.Outcomes.{
  vault_inside, Reached, with_signing_key-Returns, finished-inversion, address_behind,
}
use blockchain_ai_tools.Signing.Signer.{
  LogLine, signed, World, RequestContext, request_id_or_empty, or_internal_error, encode_result,
  check_and_encode, sign_callback, audit, build_and_sign, sign_transaction,
}

or_internal_error-inversion {ℓ} :
    {A : Type ℓ} (r : Result Error A) (m : Bytes) {a : A} → or_internal_error r m ≡ ok a → r ≡ ok a
or_internal_error-inversion (ok b) m h = h
or_internal_error-inversion (err e) m h = absurd (cc)

-- A vault that has discovered its address answers with it.
discovered_address :
    (v before : FileKeyVault) (key : Key)
    → v.address ≡ discover before.address key.address
    → (vault_address v ≡ vault_address (vault_inside before key))
      × (address_pointer v ≡ some (vault_address v))
unfolding vault_address
discovered_address v before key h = elim (Option-cases before.address) [
  | inl unknown ↦ ground arith
  | inr (a, is_known) ↦ ground arith
]

module _ {Transaction Signer : Type 0} (types : Types Transaction Signer) (common : Common) where
  -- The result has the values of the signed transaction: its encoding in hex, r, s and v each as
  -- its own quantity, the hash, and the printed sender.
  pub record HasValues (signed_tx : Transaction) (raw : Bytes) (from : Address)
      (result : SignResult) : Type 0 where
    pub v : ℕ
    pub r : ℕ
    pub s : ℕ
    pub v_r_s : types.raw_signature_values signed_tx ≡ (v, r, s)
    pub raw_transaction : result.raw_transaction ≡ b'0' ∷ b'x' ∷ hex_encode raw
    pub is_r : result.signature.r ≡ types.encode_big r
    pub is_s : result.signature.s ≡ types.encode_big s
    pub is_v : result.signature.v ≡ types.encode_big v
    pub is_hash : result.hash ≡ types.hash_hex signed_tx
    pub is_from : result.from ≡ common.hex from

  encode_result-HasValues :
      (signed_tx : Transaction) (raw : Bytes) (from : Address)
      → HasValues signed_tx raw from (encode_result types common signed_tx raw from)
  unfolding encode_result text
  encode_result-HasValues signed_tx raw from =
      let (v, r, s) = types.raw_signature_values signed_tx in
      record {
        v = v;
        r = r;
        s = s;
        v_r_s = refl;
        raw_transaction = refl;
        is_r = refl;
        is_s = refl;
        is_v = refl;
        is_hash = refl;
        is_from = refl;
      }

  -- A transaction signed by `scalar`, checked against the vault's address.
  pub record Encodes (built : Transaction) (signer : Signer) (scalar : ℕ) (expected : Address)
      (result : SignResult) : Type 0 where
    pub signed_tx : Transaction
    pub raw : Bytes
    pub from : Address
    pub was_signed : types.sign_tx built signer scalar ≡ some (ok signed_tx)
    pub was_marshalled : types.marshal_binary signed_tx ≡ ok raw
    pub was_recovered : types.sender signer signed_tx ≡ ok from
    pub is_expected : from ≡ expected
    pub encoded : HasValues signed_tx raw from result

  check_and_encode-inversion :
      (signer : Signer) (vault : FileKeyVault) (r : Result Error Transaction) (result : SignResult)
      (built : Transaction) (scalar : ℕ)
      → types.sign_tx built signer scalar ≡ some r
      → check_and_encode types common signer vault r ≡ ok result
      → Encodes built signer scalar (vault_address vault) result
  unfolding check_and_encode
  check_and_encode-inversion signer vault r result built scalar s h =
      invert (or_internal_error r _) _ h λ signed_tx e1 h1.
        invert (or_internal_error (types.marshal_binary signed_tx) _) _ h1 λ raw e2 h2.
          invert (or_internal_error (types.sender signer signed_tx) _) _ h2 λ from e3 h3.
            invert (reject (not (same from (vault_address vault))) _) _ h3 λ u e4 h4. record {
              signed_tx = signed_tx;
              raw = raw;
              from = from;
              was_signed = s ∙ ap some (or_internal_error-inversion r _ e1);
              was_marshalled = or_internal_error-inversion _ _ e2;
              was_recovered = or_internal_error-inversion _ _ e3;
              is_expected = (same_iff from (vault_address vault)).0 (ground arith);
              encoded =
                  subst (HasValues signed_tx raw from) (ok-injective h4)
                    (encode_result-HasValues signed_tx raw from);
            }

  pub sign_callback-inversion :
      (built : Transaction) (signer : Signer) (key : SigningKey) (vault : FileKeyVault)
      (result : SignResult)
      → sign_callback types common (built, signer) key vault ≡ finished result
      → Encodes built signer (key.key) (vault_address vault) result
  unfolding sign_callback
  sign_callback-inversion built signer key vault result h =
      elim (Option-cases (types.sign_tx built signer key.key)) [
        | inl panics ↦ absurd (ground arith)
        | inr (r, s) ↦
            check_and_encode-inversion signer vault r result built key.key s (ground arith)
      ]

  module _ (keystore : Keystore) (read_fn : Bytes → Result Error Bytes) (ctx : RequestContext)
      (w : World) where
    -- One line more, with the request id, the hash, the chain and the nonce.
    abbrev LoggedAs : List LogLine → List LogLine → Bytes → ParsedTx → Type 0
    LoggedAs before behind hash parsed =
        behind
        ≡ before ++ signed (request_id_or_empty ctx) hash (parsed.chain_id) (parsed.nonce) ∷ []

    -- The call has signed the transaction `tx` of the request with the key of the vault.
    pub record Signs (req : TxRequest) (guard : Option ℕ) (result : SignResult) (w' : World)
        : Type 0 where
      pub parsed : ParsedTx
      pub accepted : validate common req guard ≡ ok parsed
      pub tx : TxData
      pub described : Describes common req tx
      pub password : Slice
      pub key : Key
      pub reached : Reached keystore read_fn (ctx.context) (w.memory) password key
      pub encodes :
          Encodes
            (types.new_tx tx)
            (types.latest_signer_for_chain_id parsed.chain_id)
            (value_of key.scalar)
            (vault_address w'.memory.vault)
            result
      pub known : address_pointer (w'.memory.vault) ≡ some (vault_address w'.memory.vault)
      pub logged : LoggedAs (w.log) (w'.log) (result.hash) parsed

    pub audit-inversion :
        (id : Bytes) (p : ParsedTx) (o : Outcome SignResult) (v : World) (result : SignResult)
        → (audit types common id p o v).0 ≡ ok result
        → (o ≡ finished result)
          × ((audit types common id p o v).1.memory ≡ v.memory)
          × ((audit types common id p o v).1.log
              ≡ v.log ++ signed id (result.hash) (p.chain_id) (p.nonce) ∷ [])
    unfolding audit
    audit-inversion id p (failed e) v result h = absurd (cc)
    audit-inversion id p panicked v result h = absurd (ground arith)
    audit-inversion id p (finished r) v result h =
        (ap finished (ok-injective h), refl, rw (ok-injective h) refl)

    module _ (req : TxRequest) (guard : Option ℕ) (p : ParsedTx)
        (accepted : validate common req guard ≡ ok p) (result : SignResult) (tx : TxData)
        (described : Describes common req tx) where
      -- The call of the vault.
      abbrev call : Outcome SignResult × Memory
      call =
          with_signing_key
            (sign_callback types common
              (types.new_tx tx, types.latest_signer_for_chain_id p.chain_id))
            keystore read_fn (ctx.context) (w.memory)

      call-Signs :
          (w' : World)
          → call.0 ≡ finished result
          → w'.memory ≡ call.1
          → LoggedAs (w.log) (w'.log) (result.hash) p
          → Signs req guard result w'
      call-Signs w' done memory logged =
          let (password, key, reached, h) =
            finished-inversion _ keystore read_fn _ _ _ result
              (with_signing_key-Returns _ keystore read_fn _ _) done in
          let behind =
            address_behind
              (sign_callback types common
                (types.new_tx tx, types.latest_signer_for_chain_id p.chain_id))
              keystore read_fn _ _ password key reached in
          let (agree, is_known) =
            discovered_address (w'.memory.vault) (w.memory.vault) key
              (ap (λ x. x.vault.address) memory ∙ behind) in
          record {
            parsed = p;
            accepted = accepted;
            tx = tx;
            described = described;
            password = password;
            key = key;
            reached = reached;
            encodes =
                subst
                  (λ a.
                    Encodes (types.new_tx tx) (types.latest_signer_for_chain_id p.chain_id)
                      (value_of key.scalar) a result)
                  (sym agree) (sign_callback-inversion _ _ _ _ result h);
            known = is_known;
            logged = logged;
          }

      call_audited :
          build_tx types p ≡ some (types.new_tx tx, types.latest_signer_for_chain_id p.chain_id)
          → build_and_sign types common keystore read_fn ctx p w
            ≡ audit types common (request_id_or_empty ctx) p call.0 (record w { memory = call.1 })
      unfolding build_and_sign
      call_audited built = ground arith

      build_and_sign-Signs :
          build_tx types p ≡ some (types.new_tx tx, types.latest_signer_for_chain_id p.chain_id)
          → (build_and_sign types common keystore read_fn ctx p w).0 ≡ ok result
          → Signs req guard result (build_and_sign types common keystore read_fn ctx p w).1
      build_and_sign-Signs built h =
          let same_call = call_audited built in
          let (done, memory, logged) =
            audit-inversion _ p _ _ result (ap (λ x. x.0) (sym same_call) ∙ h) in
          subst (λ x. Signs req guard result x.1) (sym same_call) (call-Signs _ done memory logged)

    pub sign_transaction-accepted :
        (req : TxRequest) (guard : Option ℕ) (p : ParsedTx)
        → validate common req guard ≡ ok p
        → sign_transaction types common guard keystore read_fn ctx req w
          ≡ build_and_sign types common keystore read_fn ctx p w
    unfolding sign_transaction
    sign_transaction-accepted req guard p h = ground arith

    pub validated :
        (req : TxRequest) (guard : Option ℕ) (result : SignResult)
        → (sign_transaction types common guard keystore read_fn ctx req w).0 ≡ ok result
        → (p : ParsedTx) × (validate common req guard ≡ ok p)
    unfolding sign_transaction
    validated req guard result h = elim (Result-cases (validate common req guard)) [
      | inl accepted ↦ accepted
      | inr (t, e) ↦ absurd (ground arith)
    ]

    -- A call that returns a result has accepted the request, has signed with the vault's key the
    -- transaction that the request describes, returns its raw bytes, its hash and its signature
    -- values r, s and v, each under its own field, with the sender that the vault answers with from
    -- then on, and has logged one audit line, and no other.
    pub sign_transaction-Signs :
        (laws : IsCommon common) (req : TxRequest) (guard : Option ℕ) (result : SignResult)
        → (sign_transaction types common guard keystore read_fn ctx req w).0 ≡ ok result
        → Signs req guard result (sign_transaction types common guard keystore read_fn ctx req w).1
    sign_transaction-Signs laws req guard result h =
        let (p, accepted) = validated req guard result h in
        let (tx, built, described, _) = validate-build_tx types common laws req guard p accepted in
        let same_call = sign_transaction-accepted req guard p accepted in
        subst (λ x. Signs req guard result x.1) (sym same_call)
          (build_and_sign-Signs req guard p accepted result tx described built
            (ap (λ x. x.0) (sym same_call) ∙ h))
