-- ===== src/Signing/Signer/Failures.antt =====
-- What SignTransaction leaves behind when it fails: in the log, in the vault, and after a panic.
use blockchain_ai_tools.Base.{
  ℕ, Bytes, text, ◌∷◌, ◌++◌, [], Option, none, some, Option-cases, Result, ok, err, Result-cases,
  ◌≡◌, ◌⊎◌, inl, inr, refl, sym, ap, ◌∙◌, subst, arith,
}
use blockchain_ai_tools.Signing.Errors.{ToolError, Error, tool, fault, internal_error}
use blockchain_ai_tools.Signing.Address.{Address, Common}
use blockchain_ai_tools.Signing.Request.{TxRequest, SignResult}
use blockchain_ai_tools.Signing.Validate.{ParsedTx, validate}
use blockchain_ai_tools.Signing.Types.{Types}
use blockchain_ai_tools.Signing.Build.{build_tx}
use blockchain_ai_tools.Signing.Zero.{Slice, value_of, Magnitude}
use blockchain_ai_tools.Signing.Zero.Wiped.{IsWiped, IsErased}
use blockchain_ai_tools.Signing.Vault.{
  Key, Keystore, Outcome, failed, finished, panicked, Memory, with_signing_key,
}
use blockchain_ai_tools.Signing.Vault.Secrets.{
  sem-with_signing_key, address-with_signing_key, password_zeroed_on_every_path,
  scalar_zeroed_behind_callback,
}
use blockchain_ai_tools.Signing.Vault.Outcomes.{Reached, callback_outcome}
use blockchain_ai_tools.Signing.Signer.{
  panic_recovered, World, RequestContext, request_id_or_empty, sign_callback, audit, recover_panic,
  build_and_sign, sign_transaction,
}

module _ {Transaction Signer : Type 0} (types : Types Transaction Signer) (common : Common)
    (guard : Option ℕ) (keystore : Keystore) (read_fn : Bytes → Result Error Bytes)
    (ctx : RequestContext) (req : TxRequest) (w : World) where
  -- The call, and what it leaves behind.
  abbrev behind : World
  behind = (sign_transaction types common guard keystore read_fn ctx req w).1

  -- Behind the call of the vault, the vault is as that call left it.
  memory-audit :
      (id : Bytes) (p : ParsedTx) (o : Outcome SignResult) (v : World)
      → (audit types common id p o v).1.memory ≡ v.memory
  unfolding audit
  memory-audit id p (failed e) v = refl
  memory-audit id p (finished r) v = refl
  memory-audit id p panicked v = refl

  -- The call of the vault for a built transaction.
  abbrev vault_call : Transaction × Signer → Outcome SignResult × Memory
  vault_call built =
      with_signing_key (sign_callback types common built) keystore read_fn ctx.context w.memory

  -- How far a call gets: it rejects the request, panics before it reaches the vault, or is done with
  -- the vault.
  data Runs : Result Error SignResult × World → Type 0 where
    rejected : (t : ToolError) → validate common req guard ≡ err t → Runs (err (tool t), w)
    not_built : Runs (recover_panic types common (request_id_or_empty ctx) w)
    audited :
        (p : ParsedTx) (built : Transaction × Signer)
        → validate common req guard ≡ ok p
        → Runs (
            audit types common
              (request_id_or_empty ctx)
              p
              (vault_call built).0
              (record w { memory = (vault_call built).1 }))

  sign_transaction-Runs : Runs (sign_transaction types common guard keystore read_fn ctx req w)
  unfolding sign_transaction build_and_sign
  sign_transaction-Runs = elim (Result-cases (validate common req guard)) [
    | inr (t, e) ↦ subst Runs (ground arith) (rejected t e)
    | inl (p, e) ↦ elim (Option-cases (build_tx types p)) [
      | inl b ↦ subst Runs (ground arith) not_built
      | inr (built, b) ↦ subst Runs (ground arith) (audited p built e)
    ]
  ]

  -- The memory is as it was, or as a call of the vault left it.
  memory-Runs :
      (x : Result Error SignResult × World)
      → Runs x
      → (x.1.memory ≡ w.memory)
        ⊎ ((built : Transaction × Signer) × (x.1.memory ≡ (vault_call built).1))
  unfolding recover_panic
  memory-Runs x (rejected t e) = inl refl
  memory-Runs x not_built = inl refl
  memory-Runs x (audited p built e) = inr (built, memory-audit _ p (vault_call built).0 _)

  memory_behind :
      (behind.memory ≡ w.memory)
      ⊎ ((built : Transaction × Signer) × (behind.memory ≡ (vault_call built).1))
  memory_behind = memory-Runs _ sign_transaction-Runs

  -- Every call, also one that panics, gives back its place in the semaphore, so that the next call
  -- does not wait for it.
  pub sem-sign_transaction : behind.memory.vault.sem ≡ w.memory.vault.sem
  sem-sign_transaction = elim memory_behind [
    | inl same_memory ↦ ap (λ m. m.vault.sem) same_memory
    | inr (built, m) ↦ ap (λ m. m.vault.sem) m ∙ sem-with_signing_key _ keystore read_fn _ _
  ]

  -- A call never changes a vault whose address is known.
  pub vault-sign_transaction :
      (a : Address) → w.memory.vault.address ≡ some a → behind.memory.vault ≡ w.memory.vault
  vault-sign_transaction a known = elim memory_behind [
    | inl same_memory ↦ ap (λ m. m.vault) same_memory
    | inr (built, m) ↦ ap (λ m. m.vault) m ∙ address-with_signing_key _ keystore read_fn _ _ a known
  ]

  log-audit :
      (id : Bytes) (p : ParsedTx) (o : Outcome SignResult) (v : World) (e : Error)
      → (audit types common id p o v).0 ≡ err e
      → ((audit types common id p o v).1.log ≡ v.log)
        ⊎ ((audit types common id p o v).1.log ≡ v.log ++ panic_recovered id ∷ [])
  unfolding audit recover_panic
  log-audit id p (failed e') v e h = inl refl
  log-audit id p (finished r) v e h = absurd (cc)
  log-audit id p panicked v e h = inr refl

  log-Runs :
      (x : Result Error SignResult × World) (e : Error)
      → Runs x
      → x.0 ≡ err e
      → (x.1.log ≡ w.log) ⊎ (x.1.log ≡ w.log ++ panic_recovered (request_id_or_empty ctx) ∷ [])
  unfolding recover_panic
  log-Runs x e (rejected t v) h = inl refl
  log-Runs x e not_built h = inr refl
  log-Runs x e (audited p built v) h = log-audit _ p (vault_call built).0 _ e h

  -- A call that fails logs no audit line: nothing, or the line of a recovered panic, in which stands
  -- the request id and no more.
  pub log-failed :
      (e : Error)
      → (sign_transaction types common guard keystore read_fn ctx req w).0 ≡ err e
      → (behind.log ≡ w.log)
        ⊎ (behind.log ≡ w.log ++ panic_recovered (request_id_or_empty ctx) ∷ [])
  log-failed e h = log-Runs _ e sign_transaction-Runs h

  -- Before the vault is reached nothing is touched: a request that is rejected leaves the world as
  -- it was.
  pub rejected_untouched :
      (t : ToolError)
      → validate common req guard ≡ err t
      → sign_transaction types common guard keystore read_fn ctx req w ≡ (err (tool t), w)
  unfolding sign_transaction
  rejected_untouched t h = ground arith

  module _ (p : ParsedTx) (accepted : validate common req guard ≡ ok p) (password : Slice)
      (key : Key) (reached : Reached keystore read_fn (ctx.context) (w.memory) password key)
      (tx : Transaction) (signer : Signer) (built : build_tx types p ≡ some (tx, signer))
      (panics : types.sign_tx tx signer (value_of key.scalar) ≡ none) where
    panicked_call : (vault_call (tx, signer)).0 ≡ panicked
    unfolding sign_callback
    panicked_call = callback_outcome _ keystore read_fn _ _ password key reached ∙ ground arith

    recovered :
        sign_transaction types common guard keystore read_fn ctx req w
        ≡ recover_panic types common
            (request_id_or_empty ctx)
            (record w { memory = (vault_call (tx, signer)).1 })
    unfolding sign_transaction build_and_sign audit
    recovered = let o = panicked_call in ground arith

    -- What is known behind a recovered panic.
    pub record Recovered (x : Result Error SignResult × World) : Type 0 where
      pub returned :
          x.0 ≡ err (tool (fault internal_error (text "an internal error occurred during signing")))
      pub logged : x.1.log ≡ w.log ++ panic_recovered (request_id_or_empty ctx) ∷ []
      pub password_zeroed : IsWiped password x.1.memory.password
      pub scalar_zeroed : (s : Magnitude) × (x.1.memory.scalar ≡ some s) × IsErased key.scalar s
      pub free : x.1.memory.vault.sem ≡ w.memory.vault.sem

    -- A panic while the key signs what a valid request is built into comes back as an internal error
    -- with a fixed text, with one line in the log, with every byte of the password and every word of
    -- the scalar zeroed and the semaphore free.
    pub panic-Recovered : Recovered (sign_transaction types common guard keystore read_fn ctx req w)
    unfolding recover_panic
    panic-Recovered =
        let not_cancelled : (ctx.context.while_waiting ≡ none)
            × (ctx.context.when_acquired ≡ none) =
          (reached.not_waiting, reached.not_cancelled) in
        subst Recovered (sym recovered) (record {
          returned = refl;
          logged = refl;
          password_zeroed =
              password_zeroed_on_every_path _ keystore read_fn ctx.context w.memory password
                not_cancelled reached.was_read;
          scalar_zeroed =
              scalar_zeroed_behind_callback _ keystore read_fn ctx.context w.memory password
                not_cancelled reached.was_read key reached.was_decrypted;
          free = sem-with_signing_key _ keystore read_fn ctx.context w.memory;
        })
