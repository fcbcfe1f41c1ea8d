-- ===== src/Signing/Vault/Sharing/Holder.antt =====
-- One call that shares its vault: what is known of it while it holds the semaphore.
use blockchain_ai_tools.Base.{
  ℕ, ◌+◌, ◌<◌, [], Option, none, some, ok, ◌≡◌, ◌⊎◌, inl, inr, refl, ap, arith,
}
use blockchain_ai_tools.Signing.Errors.{Error}
use blockchain_ai_tools.Signing.Zero.{Slice, zero_bytes, Magnitude}
use blockchain_ai_tools.Signing.Keystore.{FileKeyVault}
use blockchain_ai_tools.Signing.Vault.{
  Key, Keystore, Outcome, failed, Memory, read_password_file, with_signing_key,
}
use blockchain_ai_tools.Signing.Vault.Outcomes.{vault_inside, signing_key, Reached}
use blockchain_ai_tools.Signing.Vault.Sharing.{
  Call, no_slice, Place, waiting, holding, reading, decrypting, discovering, running,
  zeroing_scalar, zeroing_password, releasing, returned, taken, given_back, Move, cancel, enter,
  give_up, go_on, fail_to_read, read, fail_to_decrypt, panic_in_decrypt, decrypt, discover_address,
  call_fn, wipe_scalar, wipe_password, let_go,
}

-- What a call leaves: its outcome, and its two buffers.
pub record Left {ℓ} (R : Type ℓ) : Type ℓ where
  pub outcome : Outcome R
  pub password : Slice
  pub scalar : Option Magnitude

-- The abstract vault: calls are single steps.
pub record Sequential {ℓ} (R : Type ℓ) : Type ℓ where
  pub vault : FileKeyVault
  pub left : ℕ → Option (Left R)

abbrev pub memory_of : FileKeyVault → Memory
memory_of v = record { vault = v; password = no_slice; scalar = none; events = [] }

abbrev pub unused {ℓ} : {R : Type ℓ} → FileKeyVault → Sequential R
unused v = record { vault = v; left = λ _. none }

abbrev pub left_at {ℓ} : {R : Type ℓ} → Place R → Option (Left R)
left_at (returned o password s) = some (record { outcome = o; password = password; scalar = s })
left_at _ = none

module _ {ℓ} {R : Type ℓ} (keystore : Keystore) where
  abbrev pub whole_call : Call R → FileKeyVault → Outcome R × Memory
  whole_call c v = with_signing_key c.fn keystore c.read_fn c.ctx (memory_of v)

  abbrev pub left_by : Outcome R × Memory → Left R
  left_by r = record { outcome = r.0; password = r.1.password; scalar = r.1.scalar }

  -- The rest of a call from one place on gives what the whole call gives.
  pub record Ends (c : Call R) (before : FileKeyVault) (l : Left R) (after : FileKeyVault)
      : Type ℓ where
    pub gives : left_by (whole_call c before) ≡ l
    pub leaves : (whole_call c before).1.vault ≡ after

  -- What is known of a call that holds the semaphore, which it took when the vault was `before`.
  pub data Held (c : Call R) (before v : FileKeyVault) : Place R → Type ℓ where
    at_holding : c.ctx.while_waiting ≡ none → v ≡ taken before → Held c before v holding
    at_reading :
        c.ctx.while_waiting ≡ none
        → c.ctx.when_acquired ≡ none
        → v ≡ taken before
        → Held c before v reading
    at_decrypting :
        {password : Slice}
        → c.ctx.while_waiting ≡ none
        → c.ctx.when_acquired ≡ none
        → read_password_file before.password_path c.read_fn ≡ ok password
        → v ≡ taken before
        → Held c before v (decrypting password)
    at_discovering :
        {password : Slice} {key : Key}
        → Reached keystore c.read_fn c.ctx (memory_of before) password key
        → v ≡ taken before
        → Held c before v (discovering password key)
    at_running :
        {password : Slice} {key : Key}
        → Reached keystore c.read_fn c.ctx (memory_of before) password key
        → v ≡ vault_inside before key
        → Held c before v (running password key)
    at_zeroing_scalar :
        {o : Outcome R} {password : Slice} {key : Key}
        → Reached keystore c.read_fn c.ctx (memory_of before) password key
        → v ≡ vault_inside before key
        → o ≡ c.fn (signing_key key password) v
        → Held c before v (zeroing_scalar o password key)
    at_zeroing_password :
        {o : Outcome R} {password : Slice} {s : Option Magnitude}
        → v.sem ≡ before.sem + 1
        → Ends c before
            (record { outcome = o; password = zero_bytes password; scalar = s })
            (given_back v)
        → Held c before v (zeroing_password o password s)
    at_releasing :
        {o : Outcome R} {password : Slice} {s : Option Magnitude}
        → v.sem ≡ before.sem + 1
        → Ends c before (record { outcome = o; password = password; scalar = s }) (given_back v)
        → Held c before v (releasing o password s)

  -- A move of the holder keeps what is known of it, or is the end of its call.
  abbrev pub Goes : Call R → FileKeyVault → FileKeyVault → Place R → Type ℓ
  Goes c before v p = Held c before v p ⊎ ((l : Left R) × (left_at p ≡ some l) × Ends c before l v)

  pub Held-Goes :
      (c : Call R) (before v v' : FileKeyVault) (p p' : Place R)
      → Held c before v p
      → Move keystore c v p v' p'
      → Goes c before v' p'
  unfolding with_signing_key
  Held-Goes c before v v' p p' (at_holding w e) (give_up x h) =
      inr (_, refl, record { gives = ground arith; leaves = ground arith })
  Held-Goes c before v v' p p' (at_holding w e) (go_on x) = inl (at_reading w x e)
  Held-Goes c before v v' p p' (at_reading w x e) (fail_to_read h) =
      inl (at_releasing (ground arith) (record { gives = ground arith; leaves = ground arith }))
  Held-Goes c before v v' p p' (at_reading w x e) (read h) =
      inl (at_decrypting w x (ground arith) e)
  Held-Goes c before v v' p p' (at_decrypting w x r e) (fail_to_decrypt h) =
      inl (
        at_zeroing_password (ground arith) (record { gives = ground arith; leaves = ground arith }))
  Held-Goes c before v v' p p' (at_decrypting w x r e) (panic_in_decrypt h) =
      inl (
        at_zeroing_password (ground arith) (record { gives = ground arith; leaves = ground arith }))
  Held-Goes c before v v' p p' (at_decrypting w x r e) (decrypt h) = inl (
      at_discovering
        (record { not_waiting = w; not_cancelled = x; was_read = r; was_decrypted = ground arith })
        e)
  Held-Goes c before v v' p p' (at_discovering r e) discover_address =
      inl (at_running r (ground arith))
  Held-Goes c before v v' p p' (at_running r e) call_fn = inl (at_zeroing_scalar r e refl)
  Held-Goes c before v v' p p' (at_zeroing_scalar r e o) wipe_scalar =
      let w = r.not_waiting in
      let x = r.not_cancelled in
      let q = r.was_read in
      let d = r.was_decrypted in
      inl (
        at_zeroing_password (ground arith) (record { gives = ground arith; leaves = ground arith }))
  Held-Goes c before v v' p p' (at_zeroing_password n e) wipe_password = inl (at_releasing n e)
  Held-Goes c before v v' p p' (at_releasing n e) (let_go h) = inr (_, refl, e)

  pub Held-sem :
      (c : Call R) (before v : FileKeyVault) (p : Place R)
      → Held c before v p
      → v.sem ≡ before.sem + 1
  Held-sem c before v p (at_holding w e) = ap (λ x. x.sem) e
  Held-sem c before v p (at_reading w x e) = ap (λ y. y.sem) e
  Held-sem c before v p (at_decrypting w x r e) = ap (λ y. y.sem) e
  Held-sem c before v p (at_discovering r e) = ap (λ y. y.sem) e
  Held-sem c before v p (at_running r e) = ap (λ y. y.sem) e
  Held-sem c before v p (at_zeroing_scalar r e o) = ap (λ y. y.sem) e
  Held-sem c before v p (at_zeroing_password n e) = n
  Held-sem c before v p (at_releasing n e) = n

  pub left_at-Held :
      (c : Call R) (before v : FileKeyVault) (p : Place R) → Held c before v p → left_at p ≡ none
  left_at-Held c before v p (at_holding w e) = refl
  left_at-Held c before v p (at_reading w x e) = refl
  left_at-Held c before v p (at_decrypting w x r e) = refl
  left_at-Held c before v p (at_discovering r e) = refl
  left_at-Held c before v p (at_running r e) = refl
  left_at-Held c before v p (at_zeroing_scalar r e o) = refl
  left_at-Held c before v p (at_zeroing_password n e) = refl
  left_at-Held c before v p (at_releasing n e) = refl

-- Before the select, or behind the return.
pub data Outside {ℓ} {R : Type ℓ} : Place R → Type ℓ where
  at_waiting : Outside waiting
  at_returned : {o : Outcome R} {a : Slice} {s : Option Magnitude} → Outside (returned o a s)

pub Outside-left {ℓ} : {R : Type ℓ} (p : Place R) (l : Left R) → left_at p ≡ some l → Outside p
Outside-left (returned o a s) l h = at_returned
Outside-left p l h = absurd (cc)

module _ {ℓ} {R : Type ℓ} (keystore : Keystore) where
  pub Outside-not_Held :
      (c : Call R) (before v : FileKeyVault) (p : Place R)
      → Outside p
      → ¬ (Held keystore c before v p)
  Outside-not_Held c before v p at_waiting h = elim h [ ]
  Outside-not_Held c before v p at_returned h = elim h [ ]

  -- The moves of a call that does not hold the semaphore.
  pub data Enters (c : Call R) (v v' : FileKeyVault) (p p' : Place R) : Type ℓ where
    turned_away :
        {e : Error}
        → c.ctx.while_waiting ≡ some e
        → left_at p ≡ none
        → v' ≡ v
        → p' ≡ returned (failed e) no_slice none
        → Enters c v v' p p'
    let_in :
        c.ctx.while_waiting ≡ none
        → left_at p ≡ none
        → v.sem < 1
        → v' ≡ taken v
        → p' ≡ holding
        → Enters c v v' p p'

  pub Outside-Enters :
      (c : Call R) (v v' : FileKeyVault) (p p' : Place R)
      → Outside p
      → Move keystore c v p v' p'
      → Enters c v v' p p'
  Outside-Enters c v v' p p' at_waiting (cancel w) = turned_away w refl refl refl
  Outside-Enters c v v' p p' at_waiting (enter w h) = let_in w refl h refl refl
  Outside-Enters c v v' p p' at_returned m = elim m [ ]
