-- ===== src/Signing/Vault/Sharing/Snapshot.antt =====
-- What of a shared vault never changes, as the contract of KeyVault in vault.go has it.
use blockchain_ai_tools.Base.{ℕ, Option, none, some, ok, ◌≡◌, ◌⊎◌, inl, inr, refl, sym, ap, ◌∙◌}
use blockchain_ai_tools.Signing.Zero.{Slice, shown}
use blockchain_ai_tools.Signing.Keystore.{FileKeyVault}
use blockchain_ai_tools.Signing.Vault.{Key, Keystore, discover}
use blockchain_ai_tools.Signing.Vault.Sharing.{
  Call, Place, discovering, cancel, enter, give_up, go_on, fail_to_read, read, fail_to_decrypt,
  panic_in_decrypt, decrypt, discover_address, call_fn, wipe_scalar, wipe_password, let_go, Move,
  System, Step, pick, Reach, at_start, later,
}
use blockchain_ai_tools.Signing.Vault.Sharing.Updates.{update_keeps}

module _ (keystore : Keystore) where
  -- An address that is the snapshot's: of a key that it decrypts to.
  pub record IsDiscovered (v w : FileKeyVault) : Type 0 where
    pub password : Slice
    pub key : Key
    pub decrypted : keystore.decrypt_key v.keystore_json (shown password) ≡ some (ok key)
    pub discovered : w.address ≡ some key.address

  -- The vault at two moments.
  pub record Keeps (v w : FileKeyVault) : Type 0 where
    pub same_snapshot : w.keystore_json ≡ v.keystore_json
    pub same_path : w.password_path ≡ v.password_path
    pub same_if_known : (v.address ≡ none) ⊎ (w.address ≡ v.address)
    pub from_snapshot : (w.address ≡ v.address) ⊎ IsDiscovered v w

  same-Keeps :
      (v w : FileKeyVault)
      → w.keystore_json ≡ v.keystore_json
      → w.password_path ≡ v.password_path
      → w.address ≡ v.address
      → Keeps v w
  same-Keeps v w j p a = record {
    same_snapshot = j;
    same_path = p;
    same_if_known = inr a;
    from_snapshot = inl a;
  }

  discovering-Keeps :
      (v : FileKeyVault) (password : Slice) (key : Key)
      → keystore.decrypt_key v.keystore_json (shown password) ≡ some (ok key)
      → (address : Option _) → v.address ≡ address
      → Keeps v (record v { address = discover address key.address })
  discovering-Keeps v password key d none e = record {
    same_snapshot = refl;
    same_path = refl;
    same_if_known = inl e;
    from_snapshot =
        inr (record { password = password; key = key; decrypted = d; discovered = refl });
  }
  discovering-Keeps v password key d (some a) e = same-Keeps v _ refl refl (sym e)

  Keeps-trans : (u v w : FileKeyVault) → Keeps u v → Keeps v w → Keeps u w
  Keeps-trans u v w h k = record {
    same_snapshot = k.same_snapshot ∙ h.same_snapshot;
    same_path = k.same_path ∙ h.same_path;
    same_if_known = elim h.same_if_known [
      | inl unknown ↦ inl unknown
      | inr same_address ↦ elim k.same_if_known [
        | inl unknown ↦ inl (sym same_address ∙ unknown)
        | inr still ↦ inr (still ∙ same_address)
      ]
    ];
    from_snapshot = elim k.from_snapshot [
      | inl still ↦ elim h.from_snapshot [
        | inl same_address ↦ inl (still ∙ same_address)
        | inr d ↦ inr (record {
          password = d.password;
          key = d.key;
          decrypted = d.decrypted;
          discovered = still ∙ d.discovered;
        })
      ]
      | inr d ↦ inr (record {
        password = d.password;
        key = d.key;
        decrypted =
            ap (λ x. keystore.decrypt_key x (shown d.password)) (sym h.same_snapshot) ∙ d.decrypted;
        discovered = d.discovered;
      })
    ];
  }

module _ {ℓ} {R : Type ℓ} (keystore : Keystore) where
  -- A key that is about to be discovered was decrypted from the snapshot.
  abbrev pub HasKey : FileKeyVault → Place R → Type 0
  HasKey v (discovering password key) =
      keystore.decrypt_key v.keystore_json (shown password) ≡ some (ok key)
  HasKey v _ = Unit

  HasKey-Keeps :
      (v w : FileKeyVault) (p : Place R)
      → w.keystore_json ≡ v.keystore_json
      → HasKey v p
      → HasKey w p
  HasKey-Keeps v w (discovering password key) e h =
      ap (λ x. keystore.decrypt_key x (shown password)) e ∙ h
  HasKey-Keeps v w p e h = tt

  pub moved :
      (c : Call R) (v w : FileKeyVault) (p q : Place R)
      → HasKey v p
      → Move keystore c v p w q
      → Keeps keystore v w × HasKey w q
  moved c v w p q h (cancel e) = (same-Keeps keystore v w refl refl refl, tt)
  moved c v w p q h (enter e f) = (same-Keeps keystore v w refl refl refl, tt)
  moved c v w p q h (give_up e f) = (same-Keeps keystore v w refl refl refl, tt)
  moved c v w p q h (go_on e) = (same-Keeps keystore v w refl refl refl, tt)
  moved c v w p q h (fail_to_read e) = (same-Keeps keystore v w refl refl refl, tt)
  moved c v w p q h (read e) = (same-Keeps keystore v w refl refl refl, tt)
  moved c v w p q h (fail_to_decrypt e) = (same-Keeps keystore v w refl refl refl, tt)
  moved c v w p q h (panic_in_decrypt e) = (same-Keeps keystore v w refl refl refl, tt)
  moved c v w p q h (decrypt e) = (same-Keeps keystore v w refl refl refl, e)
  moved c v w p q h (discover_address {password} {key}) =
      (discovering-Keeps keystore v password key h v.address refl, tt)
  moved c v w p q h call_fn = (same-Keeps keystore v w refl refl refl, tt)
  moved c v w p q h wipe_scalar = (same-Keeps keystore v w refl refl refl, tt)
  moved c v w p q h wipe_password = (same-Keeps keystore v w refl refl refl, tt)
  moved c v w p q h (let_go e) = (same-Keeps keystore v w refl refl refl, tt)

module _ {ℓ} {R : Type ℓ} (keystore : Keystore) (calls : ℕ → Call R) where
  abbrev pub EachHasKey : System R → Type 0
  EachHasKey s = (j : ℕ) → HasKey keystore s.vault (s.place j)

  pub stepped :
      (s t : System R)
      → EachHasKey s
      → Step keystore calls s t
      → Keeps keystore s.vault t.vault × EachHasKey t
  stepped s t h (pick i {v = w} {p = p} m) =
      let (kept, key) = moved keystore (calls i) s.vault w (s.place i) p (h i) m in
      (
        kept,
        update_keeps (λ j x. HasKey keystore w x) s.place i p key
            (λ j _. HasKey-Keeps keystore s.vault w (s.place j) kept.same_snapshot (h j)),
      )

  pub Reach-EachHasKey : (v : FileKeyVault) (s : System R) → Reach keystore calls v s → EachHasKey s
  Reach-EachHasKey v s at_start = λ j. tt
  Reach-EachHasKey v s (later {s = before} r step) =
      (stepped before s (Reach-EachHasKey v before r) step).1

  -- From one state to another in any number of steps.
  pub data Onward (s : System R) : System R → Type ℓ where
    here : Onward s s
    and_on : {t u : System R} → Onward s t → Step keystore calls t u → Onward s u

  onward :
      (s t : System R) → EachHasKey s → Onward s t → Keeps keystore s.vault t.vault × EachHasKey t
  onward s t h here = (same-Keeps keystore _ _ refl refl refl, h)
  onward s t h (and_on {t = u} before step) =
      let (kept, keys) = onward s u h before in
      let (more, still) = stepped u t keys step in
      (Keeps-trans keystore s.vault u.vault t.vault kept more, still)

  -- From any state that calls on a vault reach, however they go on to interleave, its snapshot and
  -- its path never change; an address that is known stays, and one that is not is set only to that
  -- of a key that the snapshot decrypts to.
  pub Onward-Keeps :
      (v : FileKeyVault) (s t : System R)
      → Reach keystore calls v s
      → Onward s t
      → Keeps keystore s.vault t.vault
  Onward-Keeps v s t r o = (onward s t (Reach-EachHasKey v s r) o).0
