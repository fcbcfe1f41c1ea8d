-- ===== src/Examples/Sharing.antt =====
-- The theorems on calls that share a vault, at two calls of which the first has the semaphore.
use blockchain_ai_tools.Base.{ℕ, ◌≤◌, ◌≡◌, ◌⊎◌, refl, arith}
use blockchain_ai_tools.Signing.Keystore.{FileKeyVault}
use blockchain_ai_tools.Signing.Vault.{SigningKey, Outcome, finished}
use blockchain_ai_tools.Signing.Vault.Sharing.{
  Call, waiting, holding, taken, Move, enter, System, update, pick, Reach, at_start, later,
}
use blockchain_ai_tools.Signing.Vault.Sharing.Holder.{Outside}
use blockchain_ai_tools.Signing.Vault.Sharing.Refines.{Matched, Reach-Matched}
use blockchain_ai_tools.Signing.Vault.Sharing.Exclusion.{mutual_exclusion}
use blockchain_ai_tools.Signing.Vault.Sharing.Moves.{EachReturned}
use blockchain_ai_tools.Signing.Vault.Sharing.Progress.{
  Run, not_run, one_more, CanMove, every_call_returns,
}
use blockchain_ai_tools.Signing.Vault.Sharing.Snapshot.{Keeps, here, Onward-Keeps}
use blockchain_ai_tools.Examples.Vault.{one_password, read_password, running, closed_vault}

abbrev see_scalar_of : SigningKey → FileKeyVault → Outcome ℕ
see_scalar_of key _ = finished key.key

abbrev one_call : Call ℕ
one_call = record { fn = see_scalar_of; read_fn = read_password; ctx = running }

abbrev same_calls : ℕ → Call ℕ
same_calls _ = one_call

abbrev first_call : ℕ
first_call = 0

abbrev first_inside : System ℕ
first_inside = record { vault = taken closed_vault; place = update (λ _. waiting) 0 holding }

first_enters : Move one_password one_call closed_vault waiting (taken closed_vault) holding
first_enters = enter refl (omega arith)

reached : Reach one_password same_calls closed_vault first_inside
reached = later at_start (pick 0 first_enters)

holding-not_Outside : ¬ (Outside (first_inside.place 0))
holding-not_Outside o = elim o [ ]

Reach-Matched_example : Matched one_password same_calls closed_vault first_inside
Reach-Matched_example = Reach-Matched one_password same_calls closed_vault refl first_inside reached

mutual_exclusion_example : first_call ≡ first_call
mutual_exclusion_example =
    mutual_exclusion one_password same_calls closed_vault refl first_inside reached first_call
      first_call holding-not_Outside holding-not_Outside

one_more-Run : Run one_password same_calls closed_vault 2 1 first_inside
one_more-Run = one_more 0 not_run (omega arith) first_enters

every_call_returns_example :
    (1 ≤ 18)
    × (EachReturned first_inside.place 2
        ⊎ CanMove one_password same_calls closed_vault refl 2 first_inside)
every_call_returns_example =
    every_call_returns one_password same_calls closed_vault refl 2 1 first_inside one_more-Run

Onward-Keeps_example : Keeps one_password first_inside.vault first_inside.vault
Onward-Keeps_example =
    Onward-Keeps one_password same_calls closed_vault first_inside first_inside reached here
