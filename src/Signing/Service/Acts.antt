-- ===== src/Signing/Service/Acts.antt =====
-- The steps that the calls of SignTransaction have before them.
use blockchain_ai_tools.Base.{
  ℕ, zero, suc, ◌<◌, List, Option, Option-cases, Result, Result-cases, ◌≡◌, ◌⊎◌, inl, inr, refl,
  sym, subst, arith,
}
use blockchain_ai_tools.Signing.Address.{Common}
use blockchain_ai_tools.Signing.Request.{SignResult}
use blockchain_ai_tools.Signing.Validate.{ParsedTx, validate}
use blockchain_ai_tools.Signing.Types.{Types}
use blockchain_ai_tools.Signing.Build.{build_tx}
use blockchain_ai_tools.Signing.Keystore.{FileKeyVault}
use blockchain_ai_tools.Signing.Vault.{Keystore}
use blockchain_ai_tools.Signing.Vault.Sharing.{Place, cancel, enter}
use blockchain_ai_tools.Signing.Vault.Sharing.Holder.{Outside, at_waiting, at_returned}
use blockchain_ai_tools.Signing.Vault.Sharing.Moves.{moves_left, within, can_move, Move-moves_left}
use blockchain_ai_tools.Signing.Signer.{LogLine}
use blockchain_ai_tools.Signing.Service.{
  Asking, Stage, received, in_vault, answered, Service, vault_call, Act, refuse, fail_to_build,
  call_vault, move_in_vault, answer_caller,
}
use blockchain_ai_tools.Signing.Service.Simulates.{
  Fits, is_received, is_in_vault, is_refused, is_unbuilt, is_answered,
}

-- How many steps a call has before it at most.
abbrev pub steps_left : {Transaction Signer : Type 0} → Stage Transaction Signer → ℕ
steps_left received = 11
steps_left (in_vault _ _ q) = suc (moves_left q)
steps_left (answered _) = 0

-- Each of the calls below a bound has its answer.
pub data EachAnswered {Transaction Signer : Type 0} (f : ℕ → Stage Transaction Signer)
    : ℕ → Type 0 where
  none_asked : EachAnswered f 0
  one_answered :
      {n : ℕ}
      → EachAnswered f n
      → (r : Result _ SignResult) → f n ≡ answered r
      → EachAnswered f (suc n)

-- A call below a bound that has no answer.
pub record IsOpen {Transaction Signer : Type 0} (f : ℕ → Stage Transaction Signer) (n : ℕ)
    : Type 0 where
  pub which : ℕ
  pub below : which < n
  pub left : 0 < steps_left (f which)

answered_or_open :
    {Transaction Signer : Type 0} (st : Stage Transaction Signer)
    → ((r : Result _ SignResult) × (st ≡ answered r)) ⊎ (0 < steps_left st)
answered_or_open received = inr (omega arith)
answered_or_open (in_vault _ _ _) = inr (omega arith)
answered_or_open (answered r) = inl (r, refl)

pub find-IsOpen :
    {Transaction Signer : Type 0} (f : ℕ → Stage Transaction Signer) (n : ℕ)
    → EachAnswered f n ⊎ IsOpen f n
find-IsOpen f zero = inl none_asked
find-IsOpen f (suc n) = elim (answered_or_open (f n)) [
  | inr h ↦ inr (record { which = n; below = omega arith; left = h })
  | inl (r, e) ↦ elim (find-IsOpen f n) [
    | inl all ↦ inl (one_answered all r e)
    | inr o ↦
        let h = o.below in inr (record { which = o.which; below = omega (arith, h); left = o.left })
  ]
]

module _ {Transaction Signer : Type 0} (types : Types Transaction Signer) (common : Common)
    (guard : Option ℕ) (keystore : Keystore) (asked : ℕ → Asking) where
  pub Act-steps_left :
      (a : Asking) (v v' : FileKeyVault) (log log' : List LogLine) (p p' : Stage Transaction Signer)
      → Act types common guard keystore a v log p v' log' p'
      → steps_left p' < steps_left p
  Act-steps_left a v v' log log' p p' (refuse e) = omega arith
  Act-steps_left a v v' log log' p p' (fail_to_build e n) = omega arith
  Act-steps_left a v v' log log' p p' (call_vault e b) = omega arith
  Act-steps_left a v v' log log' p p' (move_in_vault {built} {q} {q'} m) =
      let fewer =
        Move-moves_left keystore (vault_call types common guard keystore a built) v v' q q' m in
      omega (arith, fewer)
  Act-steps_left a v v' log log' p p' answer_caller = omega arith

  -- A step that a call can take.
  pub record CanAct (s : Service Transaction Signer) (i : ℕ) : Type 0 where
    pub vault : FileKeyVault
    pub log : List LogLine
    pub stage : Stage Transaction Signer
    pub act : Act types common guard keystore (asked i) s.vault s.log (s.stage i) vault log stage

  module _ (s : Service Transaction Signer) (i : ℕ) where
    acting :
        {p : Stage Transaction Signer} {w : FileKeyVault} {log : List LogLine}
        {q : Stage Transaction Signer}
        → s.stage i ≡ p
        → Act types common guard keystore (asked i) s.vault s.log p w log q
        → CanAct s i
    acting {w} {log} {q} here act = record {
      vault = w;
      log = log;
      stage = q;
      act =
          subst (λ x. Act types common guard keystore (asked i) s.vault s.log x w log q) (sym here)
            act;
    }

    pub received-CanAct : s.stage i ≡ received → CanAct s i
    received-CanAct here = elim (Result-cases (validate common (asked i).req guard)) [
      | inr (t, refused) ↦ acting here (refuse refused)
      | inl (p, accepted) ↦ elim (Option-cases (build_tx types p)) [
        | inl unbuilt ↦ acting here (fail_to_build accepted unbuilt)
        | inr (built, is_built) ↦ acting here (call_vault accepted is_built)
      ]
    ]

    pub inside-CanAct :
        (p : ParsedTx) (built : Transaction × Signer) (q : Place SignResult)
        → s.stage i ≡ in_vault p built q
        → ¬ (Outside q)
        → 0 < s.vault.sem
        → CanAct s i
    inside-CanAct p built q here inside full =
        let (positive, fewer) = within q inside in
        let (v', q', m) =
          can_move keystore (vault_call types common guard keystore (asked i) built) s.vault q
            positive fewer full in
        acting here (move_in_vault m)

    pub Outside-CanAct :
        (p : ParsedTx) (built : Transaction × Signer) (q : Place SignResult)
        → s.stage i ≡ in_vault p built q
        → Outside q
        → s.vault.sem < 1
        → CanAct s i
    Outside-CanAct p built q here at_returned vacant = acting here answer_caller
    Outside-CanAct p built q here at_waiting vacant =
        elim (Option-cases
          (vault_call types common guard keystore (asked i) built).ctx.while_waiting) [
            | inl e ↦ acting here (move_in_vault (enter e vacant))
            | inr (x, e) ↦ acting here (move_in_vault (cancel e))
          ]

  -- Whoever is inside the vault is there by its call of SignTransaction.
  pub holder-CanAct :
      (s : Service Transaction Signer) (k : ℕ) (st : Stage Transaction Signer)
      (q : Place SignResult)
      → s.stage k ≡ st
      → Fits types common guard keystore (asked k) st q
      → ¬ (Outside q)
      → 0 < s.vault.sem
      → CanAct s k
  holder-CanAct s k st q here (is_in_vault {p} {built} e b) inside full =
      inside-CanAct s k p built q here inside full
  holder-CanAct s k st q here is_received inside full = absurd (inside at_waiting)
  holder-CanAct s k st q here (is_refused e) inside full = absurd (inside at_waiting)
  holder-CanAct s k st q here (is_unbuilt v log e n) inside full = absurd (inside at_waiting)
  holder-CanAct s k st q here (is_answered v log e b) inside full = absurd (inside at_returned)
