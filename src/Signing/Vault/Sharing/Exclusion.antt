-- ===== src/Signing/Vault/Sharing/Exclusion.antt =====
-- No two calls on a shared vault are inside at once.
use blockchain_ai_tools.Base.{ℕ, ◌==◌, ==_iff, Bool-cases, ◌≡◌, ◌≢◌, inl, inr, sym, ◌∙◌}
use blockchain_ai_tools.Signing.Keystore.{FileKeyVault}
use blockchain_ai_tools.Signing.Vault.{Keystore}
use blockchain_ai_tools.Signing.Vault.Sharing.{Call, System, Reach}
use blockchain_ai_tools.Signing.Vault.Sharing.Holder.{Outside}
use blockchain_ai_tools.Signing.Vault.Sharing.Refines.{Guarded, free, held, Reach-Matched}

module _ {ℓ} {R : Type ℓ} (keystore : Keystore) (calls : ℕ → Call R) where
  -- On a vault that starts with a free semaphore, however the calls interleave, no two of them are
  -- between the acquire and the release of the semaphore at once.
  pub mutual_exclusion :
      (v : FileKeyVault)
      → v.sem ≡ 0
      → (s : System R) → Reach keystore calls v s
      → (i j : ℕ) → ¬ (Outside (s.place i))
      → ¬ (Outside (s.place j))
      → i ≡ j
  mutual_exclusion v idle s r i j in_i in_j =
      let (a, turns, agrees) = Reach-Matched keystore calls v idle s r in alone agrees.guarded
    where
      holder_is :
          {k l : ℕ} → ¬ (Outside (s.place l)) → ((j : ℕ) → j ≢ k → Outside (s.place j)) → l ≡ k
      holder_is {k} {l} inside others = elim (Bool-cases (l == k)) [
        | inl e ↦ (==_iff l k).0 e
        | inr e ↦ absurd (inside (others l (λ e'. absurd (cc (e, (==_iff l k).1 e')))))
      ]

      alone : {b : FileKeyVault} → Guarded keystore calls s b → i ≡ j
      alone (free e all) = absurd (in_i (all i))
      alone (held k h others) = holder_is in_i others ∙ sym (holder_is in_j others)
