-- ===== src/Signing/Service/Later.antt =====
-- The service at two moments.
use blockchain_ai_tools.Base.{ℕ, Option, refl}
use blockchain_ai_tools.Signing.Address.{Common}
use blockchain_ai_tools.Signing.Request.{SignResult}
use blockchain_ai_tools.Signing.Types.{Types}
use blockchain_ai_tools.Signing.Keystore.{FileKeyVault}
use blockchain_ai_tools.Signing.Vault.{Keystore}
use blockchain_ai_tools.Signing.Vault.Sharing.{System}
use blockchain_ai_tools.Signing.Vault.Sharing.Snapshot.{Onward, here, and_on}
use blockchain_ai_tools.Signing.Service.{Asking, Service, Step, pick}
use blockchain_ai_tools.Signing.Service.Simulates.{calls, Simulates, GoesOn, acts}

module _ {Transaction Signer : Type 0} (types : Types Transaction Signer) (common : Common)
    (guard : Option ℕ) (keystore : Keystore) (asked : ℕ → Asking) where
  -- From one state of the service to another, in any number of steps.
  pub data Later (s : Service Transaction Signer) : Service Transaction Signer → Type 0 where
    now : Later s s
    and_step :
        {t u : Service Transaction Signer}
        → Later s t
        → Step types common guard keystore asked t u
        → Later s u

  pub Later-GoesOn :
      (v : FileKeyVault) (s t : Service Transaction Signer)
      (m : Simulates types common guard keystore asked v s)
      → Later s t
      → GoesOn types common guard keystore asked v m.system t
  Later-GoesOn v s t m now = record { next = m; onward = here }
  Later-GoesOn v s t m (and_step {t = before} l (pick i {v = v'} {log = log} {p = p} act)) =
      let g = Later-GoesOn v s before m l in
      let n = g.next in
      let h =
        acts types common guard keystore asked v before i (before.stage i) n (n.system.place i) refl
          (n.fits i) v' log p act in
      record {
        next = h.next;
        onward = onward_trans m.system n.system h.next.system g.onward h.onward;
      }
    where
      onward_trans :
          (a b c : System SignResult)
          → Onward keystore (calls types common guard keystore asked) a b
          → Onward keystore (calls types common guard keystore asked) b c
          → Onward keystore (calls types common guard keystore asked) a c
      onward_trans a b c f here = f
      onward_trans a b c f (and_on {t = d} k step) = and_on (onward_trans a b d f k) step
