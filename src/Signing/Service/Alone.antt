-- ===== src/Signing/Service/Alone.antt =====
-- Every answer of the service is one that a call of SignTransaction gives alone.
use blockchain_ai_tools.Base.{
  ℕ, Bytes, [], List, Option, none, some, Result, ok, err, ◌≡◌, refl, sym, ap, ◌∙◌, arith,
}
use blockchain_ai_tools.Signing.Errors.{Error, tool, ToolError}
use blockchain_ai_tools.Signing.Address.{Common}
use blockchain_ai_tools.Signing.Request.{SignResult}
use blockchain_ai_tools.Signing.Validate.{ParsedTx, validate}
use blockchain_ai_tools.Signing.Types.{Types}
use blockchain_ai_tools.Signing.Build.{build_tx}
use blockchain_ai_tools.Signing.Keystore.{FileKeyVault}
use blockchain_ai_tools.Signing.Vault.{Keystore, Outcome, failed, finished, panicked}
use blockchain_ai_tools.Signing.Vault.Sharing.{Place}
use blockchain_ai_tools.Signing.Vault.Sharing.Holder.{Sequential, left_at, whole_call}
use blockchain_ai_tools.Signing.Vault.Sharing.Turns.{Turns, left-InTurn}
use blockchain_ai_tools.Signing.Vault.Sharing.Refines.{called, InTurn, Reach-Matched}
use blockchain_ai_tools.Signing.Signer.{
  LogLine, World, request_id_or_empty, recover_panic, audit, build_and_sign, sign_transaction,
}
use blockchain_ai_tools.Signing.Signer.Laws.{sign_transaction-accepted}
use blockchain_ai_tools.Signing.Service.{
  Asking, Stage, received, in_vault, answered, Service, world_of, vault_call, recovered, audited,
  Reach,
}
use blockchain_ai_tools.Signing.Service.Simulates.{
  call_of_built, Fits, is_received, is_in_vault, is_refused, is_unbuilt, is_answered, calls,
  Reach-Simulates,
}

-- A call that has no answer yet.
pub data Unanswered {Transaction Signer : Type 0} : Stage Transaction Signer → Type 0 where
  is_received_yet : Unanswered received
  is_in_vault_yet :
      {p : ParsedTx} {built : Transaction × Signer} {q : Place SignResult}
      → Unanswered (in_vault p built q)

module _ {Transaction Signer : Type 0} (types : Types Transaction Signer) (common : Common)
    (guard : Option ℕ) (keystore : Keystore) where
  -- A call that is alone.
  abbrev pub alone : Asking → FileKeyVault → Result Error SignResult × World
  alone a v = sign_transaction types common guard keystore a.read_fn a.ctx a.req (world_of v [])

  -- A call that does not come to the vault.
  abbrev pub Unmade : Asking → Type 0
  Unmade a = ¬ (
      (p : ParsedTx) × (built : Transaction × Signer) × (validate common a.req guard ≡ ok p)
      × (build_tx types p ≡ some built))

  -- The deferred functions read nothing of the world.
  audit_same :
      (id : Bytes) (p : ParsedTx) (o : Outcome SignResult) (u w : World)
      → (audit types common id p o w).0 ≡ (audit types common id p o u).0
  unfolding audit recover_panic
  audit_same id p (failed e) u w = refl
  audit_same id p (finished r) u w = refl
  audit_same id p panicked u w = refl

  pub refused_alone :
      (a : Asking) (v : FileKeyVault) (t : ToolError)
      → validate common a.req guard ≡ err t
      → (alone a v).0 ≡ err (tool t)
  unfolding sign_transaction
  refused_alone a v t h = ground arith

  pub unbuilt_alone :
      (a : Asking) (v w : FileKeyVault) (log : List LogLine) (p : ParsedTx)
      → validate common a.req guard ≡ ok p
      → build_tx types p ≡ none
      → (alone a v).0 ≡ (recovered types common guard keystore a w log).0
  unfolding sign_transaction build_and_sign recover_panic
  unbuilt_alone a v w log p h n = ground arith

  built_audited :
      (a : Asking) (v : FileKeyVault) (p : ParsedTx) (built : Transaction × Signer)
      → build_tx types p ≡ some built
      → (build_and_sign types common keystore a.read_fn a.ctx p (world_of v [])).0
        ≡ (audit types common
            (request_id_or_empty a.ctx)
            p
            (whole_call keystore (vault_call types common guard keystore a built) v).0
            (record (world_of v []) {
              memory = (whole_call keystore (vault_call types common guard keystore a built) v).1;
            })).0
  unfolding build_and_sign
  built_audited a v p built n = ground arith

  pub built_alone :
      (a : Asking) (v w : FileKeyVault) (log : List LogLine) (p : ParsedTx)
      (built : Transaction × Signer)
      → validate common a.req guard ≡ ok p
      → build_tx types p ≡ some built
      → (alone a v).0
        ≡ (audited types common guard keystore a p
            (whole_call keystore (vault_call types common guard keystore a built) v).0
            w
            log).0
  built_alone a v w log p built h n =
      ap (λ x. x.0)
        (sign_transaction-accepted types common keystore a.read_fn a.ctx (world_of v []) a.req guard
          p h)
      ∙ built_audited a v p built n
      ∙ audit_same (request_id_or_empty a.ctx) p _ (world_of w log) _

  module _ (asked : ℕ → Asking) where
    -- What a call has answered is what it answers alone: at its own turn in an order of whole calls,
    -- which it has once, or, where it does not come to the vault, on every vault.
    pub data InItsTurn (v : FileKeyVault) (a : Sequential SignResult) (i : ℕ)
        : Stage Transaction Signer → Type 0 where
      not_answered : {p : Stage Transaction Signer} → Unanswered p → InItsTurn v a i p
      at_its_turn :
          {r : Result Error SignResult} (before : Sequential SignResult) (p : ParsedTx)
          (built : Transaction × Signer)
          → validate common (asked i).req guard ≡ ok p
          → build_tx types p ≡ some built
          → InTurn keystore (calls types common guard keystore asked) v before
          → before.left i ≡ none
          → Turns keystore
              (calls types common guard keystore asked)
              (called keystore (calls types common guard keystore asked) i before)
              a
          → (alone (asked i) before.vault).0 ≡ r
          → InItsTurn v a i (answered r)
      without_turn :
          {r : Result Error SignResult}
          → Unmade (asked i)
          → ((b : FileKeyVault) → (alone (asked i) b).0 ≡ r)
          → InItsTurn v a i (answered r)

    -- An order of whole calls of WithSigningKey that the answers so far agree with.
    pub record IsLinear (v : FileKeyVault) (s : Service Transaction Signer) : Type 0 where
      pub last : Sequential SignResult
      pub turns : InTurn keystore (calls types common guard keystore asked) v last
      pub each : (i : ℕ) → InItsTurn v last i (s.stage i)

    module _ (v : FileKeyVault) (a : Sequential SignResult)
        (turns : InTurn keystore (calls types common guard keystore asked) v a) (i : ℕ) where
      Fits-InItsTurn :
          (st : Stage Transaction Signer) (q : Place SignResult)
          → Fits types common guard keystore (asked i) st q
          → a.left i ≡ left_at q
          → InItsTurn v a i st
      Fits-InItsTurn st q is_received h = not_answered is_received_yet
      Fits-InItsTurn st q (is_in_vault e b) h = not_answered is_in_vault_yet
      Fits-InItsTurn st q (is_refused {t} e) h =
          without_turn (λ (p, built, f, _). absurd (cc (e, f))) (λ b. refused_alone (asked i) b t e)
      Fits-InItsTurn st q (is_unbuilt {p} w log e n) h =
          without_turn (λ (p', built, f, g). absurd (cc (e, f, n, g)))
            (λ b. unbuilt_alone (asked i) b w log p e n)
      Fits-InItsTurn st q (is_answered {p} {built} {o} {x} {y} w log e n) h =
          let t = left-InTurn keystore (calls types common guard keystore asked) v a i _ turns h in
          let same_call = call_of_built types common guard keystore (asked i) p built e n in
          let same_outcome =
            ap (λ c. (whole_call keystore c t.before.vault).0) (sym same_call)
            ∙ ap (λ l. l.outcome) t.leaves in
          at_its_turn t.before p built e n t.turns t.free t.own (
            built_alone (asked i) t.before.vault w log p built e n
            ∙ ap (λ x. (audited types common guard keystore (asked i) p x w log).0) same_outcome)

    -- On a vault that starts with a free semaphore, however the calls of SignTransaction interleave,
    -- there is an order of whole calls of WithSigningKey, one after the other and each caller once.
    -- A call that has answered and whose request is valid and can be built has its turn in this
    -- order, and its answer is what SignTransaction answers when it runs alone on the vault that the
    -- calls of the turns before leave; any other call answers what it answers alone on every vault.
    pub Reach-IsLinear :
        (v : FileKeyVault)
        → v.sem ≡ 0
        → (s : Service Transaction Signer) → Reach types common guard keystore asked v s
        → IsLinear v s
    Reach-IsLinear v idle s r =
        let m = Reach-Simulates types common guard keystore asked v s r in
        let (a, turns, agrees) =
          Reach-Matched keystore (calls types common guard keystore asked) v idle m.system
            m.reached in
        record {
          last = a;
          turns = turns;
          each = λ i.
              Fits-InItsTurn v a turns i (s.stage i) (m.system.place i) (m.fits i) (agrees.lefts i);
        }
