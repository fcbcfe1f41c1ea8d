-- ===== src/Signing/Service/Attested.antt =====
-- What the callbacks of a shared vault say of its address stays true of it.
use blockchain_ai_tools.Base.{ℕ, Option, none, some, ◌≡◌, inl, inr, refl, ◌∙◌}
use blockchain_ai_tools.Signing.Address.{Address}
use blockchain_ai_tools.Signing.Keystore.{FileKeyVault}
use blockchain_ai_tools.Signing.Vault.{
  Keystore, SigningKey, Outcome, failed, finished, panicked, discover,
}
use blockchain_ai_tools.Signing.Vault.Sharing.{
  Call, Place, waiting, holding, reading, decrypting, discovering, running, zeroing_scalar,
  zeroing_password, releasing, returned, Move, cancel, enter, give_up, go_on, fail_to_read, read,
  fail_to_decrypt, panic_in_decrypt, decrypt, discover_address, call_fn, wipe_scalar, wipe_password,
  let_go, System, pick, Reach, at_start, later,
}
use blockchain_ai_tools.Signing.Vault.Sharing.Updates.{update_keeps}
use blockchain_ai_tools.Signing.Vault.Sharing.Snapshot.{Keeps, moved, Reach-EachHasKey}

-- A vault that knows its address.
abbrev pub IsKnown : FileKeyVault → Type 0
IsKnown v = (a : Address) × (v.address ≡ some a)

discover-IsKnown : (o : Option Address) (b : Address) → (a : Address) × (discover o b ≡ some a)
discover-IsKnown none b = (b, refl)
discover-IsKnown (some a) b = (a, refl)

module _ (keystore : Keystore) (v w : FileKeyVault) (k : Keeps keystore v w) where
  Keeps-address : (a : Address) → v.address ≡ some a → w.address ≡ some a
  Keeps-address a h = elim k.same_if_known [ inl unknown ↦ absurd (cc) | inr still ↦ still ∙ h ]

module _ {ℓ} {R : Type ℓ} (keystore : Keystore) (says : R → Address → Type 0) where
  -- What a callback that finishes says of the address of its vault.
  pub record IsWitness (c : Call R) : Type ℓ where
    pub attests :
        (key : SigningKey) (v : FileKeyVault) (a : Address) (r : R)
        → v.address ≡ some a
        → c.fn key v ≡ finished r
        → says r a

  -- What was said is true of the address.
  abbrev pub Attests : FileKeyVault → Outcome R → Type 0
  Attests v (finished r) = (a : Address) × (v.address ≡ some a) × says r a
  Attests v _ = Unit

  abbrev pub AttestedAt : FileKeyVault → Place R → Type 0
  AttestedAt v (running _ _) = IsKnown v
  AttestedAt v (zeroing_scalar o _ _) = Attests v o
  AttestedAt v (zeroing_password o _ _) = Attests v o
  AttestedAt v (releasing o _ _) = Attests v o
  AttestedAt v (returned o _ _) = Attests v o
  AttestedAt v _ = Unit

  Attests-Keeps :
      (v w : FileKeyVault) → Keeps keystore v w → (o : Outcome R) → Attests v o → Attests w o
  Attests-Keeps v w k (failed e) h = tt
  Attests-Keeps v w k panicked h = tt
  Attests-Keeps v w k (finished r) (a, known, said) =
      (a, Keeps-address keystore v w k a known, said)

  AttestedAt-Keeps :
      (v w : FileKeyVault) → Keeps keystore v w → (p : Place R) → AttestedAt v p → AttestedAt w p
  AttestedAt-Keeps v w k (running _ _) (a, known) = (a, Keeps-address keystore v w k a known)
  AttestedAt-Keeps v w k (zeroing_scalar o _ _) h = Attests-Keeps v w k o h
  AttestedAt-Keeps v w k (zeroing_password o _ _) h = Attests-Keeps v w k o h
  AttestedAt-Keeps v w k (releasing o _ _) h = Attests-Keeps v w k o h
  AttestedAt-Keeps v w k (returned o _ _) h = Attests-Keeps v w k o h
  AttestedAt-Keeps v w k waiting h = tt
  AttestedAt-Keeps v w k holding h = tt
  AttestedAt-Keeps v w k reading h = tt
  AttestedAt-Keeps v w k (decrypting _) h = tt
  AttestedAt-Keeps v w k (discovering _ _) h = tt

  -- The callback on a vault that knows its address.
  called_back :
      (c : Call R) (v : FileKeyVault) (key : SigningKey) (o : Outcome R)
      → IsWitness c
      → IsKnown v
      → c.fn key v ≡ o
      → Attests v o
  called_back c v key (failed e) i k h = tt
  called_back c v key panicked i k h = tt
  called_back c v key (finished r) i (a, known) h = (a, known, i.attests key v a r known h)

  attested :
      (c : Call R) (v w : FileKeyVault) (p q : Place R)
      → IsWitness c
      → AttestedAt v p
      → Move keystore c v p w q
      → AttestedAt w q
  attested c v w p q i h (cancel e) = tt
  attested c v w p q i h (enter e f) = tt
  attested c v w p q i h (give_up e f) = tt
  attested c v w p q i h (go_on e) = tt
  attested c v w p q i h (fail_to_read e) = tt
  attested c v w p q i h (read e) = tt
  attested c v w p q i h (fail_to_decrypt e) = tt
  attested c v w p q i h (panic_in_decrypt e) = tt
  attested c v w p q i h (decrypt e) = tt
  attested c v w p q i h (discover_address {key = key}) = discover-IsKnown v.address key.address
  attested c v w p q i h call_fn = called_back c v _ _ i h refl
  attested c v w p q i h wipe_scalar = h
  attested c v w p q i h wipe_password = h
  attested c v w p q i h (let_go {o} e) =
      Attests-Keeps v w (moved keystore c v w p q tt (let_go e)).0 o h

  module _ (calls : ℕ → Call R) where
    -- However calls interleave on a vault, what their callbacks said of its address is true of it
    -- from then on.
    pub Reach-AttestedAt :
        ((i : ℕ) → IsWitness (calls i))
        → (v : FileKeyVault) (s : System R) → Reach keystore calls v s
        → (j : ℕ) → AttestedAt s.vault (s.place j)
    Reach-AttestedAt witness v s at_start j = tt
    Reach-AttestedAt witness v s (later {s = before} r (pick i {v = w} {p = p} m)) j =
        let had = Reach-AttestedAt witness v before r in
        let kept =
          (moved keystore (calls i) before.vault w (before.place i) p
            (Reach-EachHasKey keystore calls v before r i) m).0 in
        update_keeps (λ k x. AttestedAt w x) before.place i p
          (attested (calls i) before.vault w (before.place i) p (witness i) (had i) m)
          (λ k _. AttestedAt-Keeps before.vault w kept (before.place k) (had k)) j
