-- ===== src/Server/Handlers/Addresses.antt =====
-- The address that the handler of get_address reports, while calls of SignTransaction are under way.
use blockchain_ai_tools.Base.{
  ℕ, arith, Bytes, List, Option, none, some, Result, ok, err, ◌≡◌, ◌≢◌, sym, ap, ◌∙◌, subst,
}
use blockchain_ai_tools.Signing.Address.{Address, Common}
use blockchain_ai_tools.Signing.Request.{SignResult}
use blockchain_ai_tools.Signing.Errors.{Error, ToolError}
use blockchain_ai_tools.Signing.Validate.{ParsedTx, validate}
use blockchain_ai_tools.Signing.Types.{Types}
use blockchain_ai_tools.Signing.Build.{build_tx}
use blockchain_ai_tools.Signing.Keystore.{FileKeyVault, vault_address}
use blockchain_ai_tools.Signing.Vault.{Keystore, SigningKey, finished}
use blockchain_ai_tools.Signing.Vault.Sharing.{Place}
use blockchain_ai_tools.Signing.Signer.{
  LogLine, request_id_or_empty, recover_panic, encode_result, sign_callback,
}
use blockchain_ai_tools.Signing.Signer.Laws.{sign_callback-inversion, audit-inversion}
use blockchain_ai_tools.Signing.Service.{
  Asking, Stage, answered, Service, world_of, recovered, Reach,
}
use blockchain_ai_tools.Signing.Service.Simulates.{
  no_call, call_if_built, call_if_valid, Fits, is_refused, is_unbuilt, is_answered, calls,
  Reach-Simulates,
}
use blockchain_ai_tools.Signing.Service.Attested.{IsWitness, Attests, AttestedAt, Reach-AttestedAt}
use blockchain_ai_tools.Server.Handlers.{MarshalPayload, value_response, handle_get_address}
use blockchain_ai_tools.Server.Handlers.Wire.{signer_port}

answered-injective :
    {Transaction Signer : Type 0} {r q : Result Error SignResult}
    → (◌≡◌ {A = Stage Transaction Signer} (answered r) (answered q))
    → r ≡ q
answered-injective h = cc

module _ {Transaction Signer : Type 0} (types : Types Transaction Signer) (common : Common)
    (guard : Option ℕ) (keystore : Keystore) where
  -- The result names the address that it was signed from.
  abbrev IsFrom : SignResult → Address → Type 0
  IsFrom result a = result.from ≡ common.hex a

  vault_call-IsFrom :
      (built : Transaction × Signer) (key : SigningKey) (v : FileKeyVault) (a : Address)
      (result : SignResult)
      → v.address ≡ some a
      → sign_callback types common built key v ≡ finished result
      → IsFrom result a
  unfolding encode_result vault_address
  vault_call-IsFrom (tx, signer) key v a result known h =
      let s = sign_callback-inversion types common tx signer key v result h in
      let expected = s.is_expected in s.encoded.is_from ∙ ap common.hex (ground arith)

  no_call-IsWitness :
      (a : Asking) → IsWitness keystore IsFrom (no_call types common guard keystore a)
  no_call-IsWitness a = record { attests = λ _ _ _ _ _ h. absurd (cc) }

  built-IsWitness :
      (a : Asking) (b : Option (Transaction × Signer))
      → IsWitness keystore IsFrom (call_if_built types common guard keystore a b)
  built-IsWitness a none = no_call-IsWitness a
  built-IsWitness a (some built) = record { attests = vault_call-IsFrom built }

  valid-IsWitness :
      (a : Asking) (r : Result ToolError ParsedTx)
      → IsWitness keystore IsFrom (call_if_valid types common guard keystore a r)
  valid-IsWitness a (err t) = no_call-IsWitness a
  valid-IsWitness a (ok p) = built-IsWitness a (build_tx types p)

  recovered-not_ok :
      (a : Asking) (v : FileKeyVault) (log : List LogLine) (result : SignResult)
      → (recovered types common guard keystore a v log).0 ≢ ok result
  unfolding recover_panic
  recovered-not_ok a v log result h = absurd (cc)

  -- A success knows the address of the vault.
  Fits-Attests :
      (a : Asking) (w : FileKeyVault) (st : Stage Transaction Signer) (q : Place SignResult)
      (result : SignResult)
      → Fits types common guard keystore a st q
      → AttestedAt keystore IsFrom w q
      → st ≡ answered (ok result)
      → Attests keystore IsFrom w (finished result)
  Fits-Attests a w st q result (is_refused e) h is_ok = absurd (cc)
  Fits-Attests a w st q result (is_unbuilt v log e n) h is_ok =
      absurd (recovered-not_ok a v log result (answered-injective is_ok))
  Fits-Attests a w st q result (is_answered {p} {o = o} v log e n) h is_ok =
      let (done, _, _) =
        audit-inversion types common keystore a.read_fn a.ctx (world_of v log)
          (request_id_or_empty a.ctx) p o (world_of v log) result (answered-injective is_ok) in
      subst (Attests keystore IsFrom w) done h
  Fits-Attests a w st q result f h is_ok = absurd (cc)

  -- However the calls of SignTransaction interleave, once one of them has answered with a result,
  -- `get_address` answers with the address that the result names, whatever the others do.
  pub get_address-answered :
      (asked : ℕ → Asking) (marshal : MarshalPayload) (read_fn : Bytes → Result Error Bytes)
      (v : FileKeyVault) (s : Service Transaction Signer)
      → Reach types common guard keystore asked v s
      → (i : ℕ) (result : SignResult) → s.stage i ≡ answered (ok result)
      → handle_get_address marshal
          (signer_port types common guard keystore read_fn)
          common
          (world_of s.vault s.log)
        ≡ value_response (record { address = result.from })
  unfolding handle_get_address
  get_address-answered asked marshal read_fn v s r i result h =
      let m = Reach-Simulates types common guard keystore asked v s r in
      let attested =
        Reach-AttestedAt keystore IsFrom (calls types common guard keystore asked)
          (λ j. valid-IsWitness (asked j) (validate common (asked j).req guard)) v m.system
          m.reached i in
      let (a, known, is_from) =
        Fits-Attests (asked i) m.system.vault (s.stage i) (m.system.place i) result (m.fits i)
          attested h in
      let here = ap (λ w. w.address) (sym m.same_vault) ∙ known in ground arith
