-- ===== src/Signing/Service/AuditTrail.antt =====
-- The log of the service: what every call of SignTransaction writes on it, once.
use blockchain_ai_tools.Base.{
  ℕ, All, text, [], ◌∷◌, ◌++◌, append-nil, List, Option, none, Result, ok, err, ◌≡◌, ◌≢◌, refl, sym,
  subst,
}
use mathlib.Core.List.{Mem, mem-cons_self, mem-cons_of_mem}
use blockchain_ai_tools.Signing.Errors.{Error, ToolError, tool, fault, internal_error}
use blockchain_ai_tools.Signing.Address.{Common}
use blockchain_ai_tools.Signing.Request.{SignResult}
use blockchain_ai_tools.Signing.Validate.{ParsedTx, validate}
use blockchain_ai_tools.Signing.Types.{Types}
use blockchain_ai_tools.Signing.Build.{build_tx}
use blockchain_ai_tools.Signing.Zero.{Slice, Magnitude}
use blockchain_ai_tools.Signing.Keystore.{FileKeyVault}
use blockchain_ai_tools.Signing.Vault.{Keystore, Outcome, failed, finished, panicked}
use blockchain_ai_tools.Signing.Vault.Sharing.{Place, returned, update}
use blockchain_ai_tools.Signing.Vault.Sharing.Updates.{update_keeps}
use blockchain_ai_tools.Signing.Signer.{
  LogLine, signed, panic_recovered, request_id_or_empty, recover_panic, audit,
}
use blockchain_ai_tools.Signing.Service.{
  Asking, Stage, received, in_vault, answered, Service, recovered, audited, Act, refuse,
  fail_to_build, call_vault, move_in_vault, answer_caller, pick, Reach, at_start, later,
}
use blockchain_ai_tools.Signing.Service.Simulates.{
  Fits, is_received, is_in_vault, is_refused, is_unbuilt, is_answered, Reach-Simulates,
}
use blockchain_ai_tools.Signing.Service.Alone.{Unanswered, is_received_yet, is_in_vault_yet}

abbrev panic_answer : Result Error SignResult
panic_answer = err (tool (fault internal_error (text "an internal error occurred during signing")))

-- How a call of SignTransaction came to its end: its request was refused, it panicked in building
-- the transaction, or the call of WithSigningKey came back with an outcome.
pub data End : Type 0 where
  refused_with : ToolError → End
  broke_in_build : End
  came_back : Outcome SignResult → End

-- What the caller gets then; a panic becomes a fixed error.
abbrev pub answer_of : End → Result Error SignResult
answer_of (refused_with t) = err (tool t)
answer_of broke_in_build = panic_answer
answer_of (came_back (finished result)) = ok result
answer_of (came_back (failed e)) = err e
answer_of (came_back panicked) = panic_answer

-- A call and its end.
abbrev pub Ended : Type 0
Ended = ℕ × End

abbrev pub Absent : ℕ → List Ended → Type 0
Absent i es = All (λ e. e.0 ≢ i) es

module _ {Transaction Signer : Type 0} (types : Types Transaction Signer) (common : Common)
    (guard : Option ℕ) (keystore : Keystore) where
  -- The lines that belong to an end: a success has one audit line, with the values of the request,
  -- an error none, and a panic the one line of the deferred function.
  pub data Writes (a : Asking) : End → List LogLine → Type 0 where
    one_audit_line :
        (p : ParsedTx) (result : SignResult)
        → validate common a.req guard ≡ ok p
        → Writes a
            (came_back (finished result))
            (signed (request_id_or_empty a.ctx) (result.hash) (p.chain_id) (p.nonce) ∷ [])
    no_line_refused : {t : ToolError} → Writes a (refused_with t) []
    no_line_failed : {e : Error} → Writes a (came_back (failed e)) []
    one_line_in_build : Writes a broke_in_build (panic_recovered (request_id_or_empty a.ctx) ∷ [])
    one_line_in_vault :
        Writes a (came_back panicked) (panic_recovered (request_id_or_empty a.ctx) ∷ [])

  -- The stage from which a call comes to an end, and the end that it comes to.
  pub data ComesTo (a : Asking) : Stage Transaction Signer → End → Type 0 where
    by_refusal :
        {t : ToolError} → validate common a.req guard ≡ err t → ComesTo a received (refused_with t)
    by_panic_in_build :
        {p : ParsedTx}
        → validate common a.req guard ≡ ok p
        → build_tx types p ≡ none
        → ComesTo a received broke_in_build
    by_vault :
        {p : ParsedTx} {built : Transaction × Signer} {o : Outcome SignResult} {x : Slice}
        {y : Option Magnitude}
        → ComesTo a (in_vault p built (returned o x y)) (came_back o)

  module _ (asked : ℕ → Asking) (v : FileKeyVault) where
    -- A log that is the lines of the calls that came to an end, the last first, each from a state
    -- that the service reaches.
    pub data Trail : List Ended → List LogLine → Type 0 where
      no_entry_yet : Trail [] []
      next_entry :
          (i : ℕ) (d : End) {es : List Ended} {lines : List LogLine}
          (before : Service Transaction Signer)
          → Reach types common guard keystore asked v before
          → Trail es (before.log)
          → Absent i es
          → ComesTo (asked i) (before.stage i) d
          → Writes (asked i) d lines
          → Trail ((i, d) ∷ es) (before.log ++ lines)

    -- A call is on the trail when it has answered, with the end that gives its answer.
    pub data Entry (es : List Ended) (i : ℕ) : Stage Transaction Signer → Type 0 where
      no_entry : {p : Stage Transaction Signer} → Unanswered p → Absent i es → Entry es i p
      has_entry :
          {r : Result Error SignResult} (d : End)
          → Mem (i, d) es
          → answer_of d ≡ r
          → Entry es i (answered r)

    pub record IsAuditTrail (s : Service Transaction Signer) : Type 0 where
      pub entries : List Ended
      pub trail : Trail entries s.log
      pub each : (i : ℕ) → Entry entries i (s.stage i)

    Unanswered-Absent :
        (es : List Ended) (i : ℕ) (p : Stage Transaction Signer)
        → Entry es i p
        → Unanswered p
        → Absent i es
    Unanswered-Absent es i p (no_entry u a) h = a
    Unanswered-Absent es i p (has_entry d m e) h = elim h [ ]

    Entry-longer :
        (es : List Ended) (i j : ℕ) (d : End) (p : Stage Transaction Signer)
        → j ≢ i
        → Entry es j p
        → Entry ((i, d) ∷ es) j p
    Entry-longer es i j d p apart (no_entry u a) = no_entry u ((λ e. apart (sym e)), a)
    Entry-longer es i j d p apart (has_entry d' m e) = has_entry d' (mem-cons_of_mem (i, d) m) e

    module _ (s : Service Transaction Signer) (t : IsAuditTrail s) (i : ℕ)
        (reached : Reach types common guard keystore asked v s) where
      -- A call that has no answer moves, and writes nothing.
      silent :
          (w : FileKeyVault) (p : Stage Transaction Signer)
          → Unanswered (s.stage i)
          → Unanswered p
          → IsAuditTrail (record { vault = w; log = s.log; stage = update s.stage i p })
      silent w p was now = record {
        entries = t.entries;
        trail = t.trail;
        each =
            update_keeps (λ j x. Entry t.entries j x) s.stage i p
              (no_entry now (Unanswered-Absent t.entries i (s.stage i) (t.each i) was))
              (λ j _. t.each j);
      }

      -- A call comes to its end, and writes its lines.
      answering :
          (w : FileKeyVault) (log lines : List LogLine) (d : End) (r : Result Error SignResult)
          → Unanswered (s.stage i)
          → ComesTo (asked i) (s.stage i) d
          → Writes (asked i) d lines
          → answer_of d ≡ r
          → log ≡ s.log ++ lines
          → IsAuditTrail (record { vault = w; log = log; stage = update s.stage i (answered r) })
      answering w log lines d r was comes writes replies e = record {
        entries = (i, d) ∷ t.entries;
        trail = subst (Trail ((i, d) ∷ t.entries)) (sym e) (
            next_entry i d s reached t.trail
              (Unanswered-Absent t.entries i (s.stage i) (t.each i) was) comes writes);
        each =
            update_keeps (λ j x. Entry ((i, d) ∷ t.entries) j x) s.stage i (answered r)
              (has_entry d mem-cons_self replies)
              (λ j apart. Entry-longer t.entries i j d (s.stage j) apart (t.each j));
      }

    -- What the deferred functions write and return.
    recovers :
        (a : Asking) (w : FileKeyVault) (log : List LogLine)
        → (panic_answer ≡ (recovered types common guard keystore a w log).0)
          × ((recovered types common guard keystore a w log).1.log
              ≡ log ++ panic_recovered (request_id_or_empty a.ctx) ∷ [])
    unfolding recover_panic
    recovers a w log = (refl, refl)

    audited-Writes :
        (a : Asking) (p : ParsedTx) (o : Outcome SignResult) (w : FileKeyVault) (log : List LogLine)
        → validate common a.req guard ≡ ok p
        → (lines : List LogLine) × Writes a (came_back o) lines
          × (answer_of (came_back o) ≡ (audited types common guard keystore a p o w log).0)
          × ((audited types common guard keystore a p o w log).1.log ≡ log ++ lines)
    unfolding audit recover_panic
    audited-Writes a p (failed e) w log h = ([], no_line_failed, refl, sym (append-nil log))
    audited-Writes a p (finished r) w log h = (_, one_audit_line p r h, refl, refl)
    audited-Writes a p panicked w log h = (_, one_line_in_vault, refl, refl)

    acts :
        (s : Service Transaction Signer) (t : IsAuditTrail s) (i : ℕ)
        (reached : Reach types common guard keystore asked v s) (st : Stage Transaction Signer)
        (q : Place SignResult)
        → s.stage i ≡ st
        → Fits types common guard keystore (asked i) st q
        → (w : FileKeyVault) (log : List LogLine) (st' : Stage Transaction Signer)
        → Act types common guard keystore (asked i) s.vault s.log st w log st'
        → IsAuditTrail (record { vault = w; log = log; stage = update s.stage i st' })
    acts s t i reached st q here is_received w log st' (refuse {t = why} e) =
        answering s t i reached w s.log [] (refused_with why) _
          (subst Unanswered (sym here) is_received_yet)
          (subst (λ x. ComesTo (asked i) x (refused_with why)) (sym here) (by_refusal e))
          no_line_refused refl (sym (append-nil s.log))
    acts s t i reached st q here is_received w log st' (fail_to_build e n) =
        let (replies, logged) = recovers (asked i) s.vault s.log in
        answering s t i reached w log _ broke_in_build _
          (subst Unanswered (sym here) is_received_yet)
          (subst (λ x. ComesTo (asked i) x broke_in_build) (sym here) (by_panic_in_build e n))
          one_line_in_build replies logged
    acts s t i reached st q here is_received w log st' (call_vault e b) =
        silent s t i reached w st' (subst Unanswered (sym here) is_received_yet) is_in_vault_yet
    acts s t i reached st q here (is_in_vault e b) w log st' (move_in_vault step) =
        silent s t i reached w st' (subst Unanswered (sym here) is_in_vault_yet) is_in_vault_yet
    acts s t i reached st q here (is_in_vault {p} e b) w log st' (answer_caller {o = o}) =
        let (lines, writes, replies, logged) = audited-Writes (asked i) p o s.vault s.log e in
        answering s t i reached w log lines (came_back o) _
          (subst Unanswered (sym here) is_in_vault_yet)
          (subst (λ x. ComesTo (asked i) x (came_back o)) (sym here) by_vault) writes replies logged
    acts s t i reached st q here (is_refused e) w log st' a = elim a [ ]
    acts s t i reached st q here (is_unbuilt u l e n) w log st' a = elim a [ ]
    acts s t i reached st q here (is_answered u l e b) w log st' a = elim a [ ]

    -- However the calls of SignTransaction interleave, the log is the lines of the calls that have
    -- answered so far, each call's once and in the order of the answers: one audit line for a
    -- success, with its request id, hash, chain id and nonce; the one line of a recovered panic, with
    -- its request id, for a call that panicked in building its transaction or in WithSigningKey, and
    -- whose answer is the internal error with a fixed text; and no line for any other error.
    pub Reach-IsAuditTrail :
        (s : Service Transaction Signer)
        → Reach types common guard keystore asked v s
        → IsAuditTrail s
    Reach-IsAuditTrail s at_start = record {
      entries = [];
      trail = no_entry_yet;
      each = λ i. no_entry is_received_yet tt;
    }
    Reach-IsAuditTrail s (later {s = before} r (pick i {v = w} {log = log} {p = p} act)) =
        let m = Reach-Simulates types common guard keystore asked v before r in
        acts before (Reach-IsAuditTrail before r) i r (before.stage i) (m.system.place i) refl
          (m.fits i) w log p act
