-- ===== src/Signing/Service.antt =====
-- Many calls of SignTransaction at once on one signer, with its vault and its log. A call moves by
-- its own steps, or by a step of its call of WithSigningKey.
pub mod Simulates
pub mod Alone
pub mod Later
pub mod Places
pub mod RealTime
pub mod AuditTrail
pub mod Attested
pub mod Acts
pub mod Progress
use blockchain_ai_tools.Base.{ℕ, Bytes, [], List, Option, none, some, Result, ok, err, ◌≡◌}
use blockchain_ai_tools.Signing.Errors.{Error, tool, ToolError}
use blockchain_ai_tools.Signing.Address.{Common}
use blockchain_ai_tools.Signing.Request.{TxRequest, SignResult}
use blockchain_ai_tools.Signing.Validate.{ParsedTx, validate}
use blockchain_ai_tools.Signing.Types.{Types}
use blockchain_ai_tools.Signing.Build.{build_tx}
use blockchain_ai_tools.Signing.Zero.{Slice, Magnitude}
use blockchain_ai_tools.Signing.Keystore.{FileKeyVault}
use blockchain_ai_tools.Signing.Vault.{Keystore, Outcome}
use blockchain_ai_tools.Signing.Vault.Sharing.{Call, Place, waiting, returned, Move, update}
use blockchain_ai_tools.Signing.Vault.Sharing.Holder.{memory_of}
use blockchain_ai_tools.Signing.Signer.{
  LogLine, World, RequestContext, request_id_or_empty, recover_panic, audit, sign_callback,
}

-- The arguments of a call, with what reading the password file gives it.
pub record Asking : Type 0 where
  pub ctx : RequestContext
  pub req : TxRequest
  pub read_fn : Bytes → Result Error Bytes

-- Where a call of SignTransaction stands.
pub data Stage (Transaction Signer : Type 0) : Type 0 where
  received : Stage Transaction Signer
  in_vault : ParsedTx → Transaction × Signer → Place SignResult → Stage Transaction Signer
  answered : Result Error SignResult → Stage Transaction Signer

abbrev pub world_of : FileKeyVault → List LogLine → World
world_of v log = record { memory = memory_of v; log = log }

-- The signer, and where each of the calls stands.
pub record Service (Transaction Signer : Type 0) : Type 0 where
  pub vault : FileKeyVault
  pub log : List LogLine
  pub stage : ℕ → Stage Transaction Signer

abbrev pub idle_service : {Transaction Signer : Type 0} → FileKeyVault → Service Transaction Signer
idle_service v = record { vault = v; log = []; stage = λ _. received }

module _ {Transaction Signer : Type 0} (types : Types Transaction Signer) (common : Common)
    (guard : Option ℕ) (keystore : Keystore) where
  -- The call of WithSigningKey, whose callback signs what was built.
  abbrev pub vault_call : Asking → Transaction × Signer → Call SignResult
  vault_call a built = record {
    fn = sign_callback types common built;
    read_fn = a.read_fn;
    ctx = a.ctx.context;
  }

  abbrev pub recovered : Asking → FileKeyVault → List LogLine → Result Error SignResult × World
  recovered a v log = recover_panic types common (request_id_or_empty a.ctx) (world_of v log)

  abbrev pub audited :
      Asking
      → ParsedTx
      → Outcome SignResult
      → FileKeyVault
      → List LogLine
      → Result Error SignResult × World
  audited a p o v log = audit types common (request_id_or_empty a.ctx) p o (world_of v log)

  -- A step of one call, on the vault and the log.
  pub data Act (a : Asking) (v : FileKeyVault) (log : List LogLine)
      : Stage Transaction Signer
        → FileKeyVault
        → List LogLine
        → Stage Transaction Signer
        → Type 0 where
    refuse :
        {t : ToolError}
        → validate common a.req guard ≡ err t
        → Act a v log received v log (answered (err (tool t)))
    fail_to_build :
        {p : ParsedTx}
        → validate common a.req guard ≡ ok p
        → build_tx types p ≡ none
        → Act a v log received v ((recovered a v log).1.log) (answered (recovered a v log).0)
    call_vault :
        {p : ParsedTx} {built : Transaction × Signer}
        → validate common a.req guard ≡ ok p
        → build_tx types p ≡ some built
        → Act a v log received v log (in_vault p built waiting)
    move_in_vault :
        {p : ParsedTx} {built : Transaction × Signer} {q q' : Place SignResult} {v' : FileKeyVault}
        → Move keystore (vault_call a built) v q v' q'
        → Act a v log (in_vault p built q) v' log (in_vault p built q')
    answer_caller :
        {p : ParsedTx} {built : Transaction × Signer} {o : Outcome SignResult} {x : Slice}
        {y : Option Magnitude}
        → Act a v log
            (in_vault p built (returned o x y))
            v
            ((audited a p o v log).1.log)
            (answered (audited a p o v log).0)

  module _ (asked : ℕ → Asking) where
    pub data Step (s : Service Transaction Signer) : Service Transaction Signer → Type 0 where
      pick :
          (i : ℕ) {v : FileKeyVault} {log : List LogLine} {p : Stage Transaction Signer}
          → Act (asked i) s.vault s.log (s.stage i) v log p
          → Step s (record { vault = v; log = log; stage = update s.stage i p })

    pub data Reach (v : FileKeyVault) : Service Transaction Signer → Type 0 where
      at_start : Reach v (idle_service v)
      later : {s t : Service Transaction Signer} → Reach v s → Step s t → Reach v t
