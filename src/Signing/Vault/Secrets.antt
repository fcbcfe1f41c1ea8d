-- ===== src/Signing/Vault/Secrets.antt =====
-- What every call of WithSigningKey leaves behind, whether the callback returns, fails or panics.
use blockchain_ai_tools.Base.{
  Bytes, [], ◌∷◌, ◌++◌, append_assoc, none, some, Option-cases, Result, ok, ◌≡◌, inl, inr, sym, ◌∙◌,
  subst, arith,
}
use blockchain_ai_tools.Signing.Errors.{Error}
use blockchain_ai_tools.Signing.Address.{Address}
use blockchain_ai_tools.Signing.Zero.{Slice, shown, zero_bytes, Magnitude, zero_big_int}
use blockchain_ai_tools.Signing.Zero.Wiped.{
  IsWiped, zero_bytes-IsWiped, IsErased, zero_big_int-IsErased,
}
use blockchain_ai_tools.Signing.Keystore.{FileKeyVault}
use blockchain_ai_tools.Signing.Vault.{
  Key, Keystore, SigningKey, Outcome, finished, acquired, released, password_read, key_decrypted,
  callback_run, password_zeroed, scalar_zeroed, Memory, Context, read_password_file,
  with_signing_key,
}

module _ {ℓ} {R : Type ℓ} (fn : SigningKey → FileKeyVault → Outcome R) (keystore : Keystore) where
  -- The semaphore is released as often as it was acquired, on every path.
  pub sem-with_signing_key :
      (read_fn : Bytes → Result Error Bytes) (ctx : Context) (m : Memory)
      → (with_signing_key fn keystore read_fn ctx m).1.vault.sem ≡ m.vault.sem
  unfolding with_signing_key
  sem-with_signing_key read_fn ctx m = ground arith

  -- The snapshot, the path and a known address are never changed.
  pub address-with_signing_key :
      (read_fn : Bytes → Result Error Bytes) (ctx : Context) (m : Memory) (a : Address)
      → m.vault.address ≡ some a
      → (with_signing_key fn keystore read_fn ctx m).1.vault ≡ m.vault
  unfolding with_signing_key
  address-with_signing_key read_fn ctx m a known = ground arith

  -- A call whose callback ran to its end leaves the address known.
  pub finished-knows_address :
      (read_fn : Bytes → Result Error Bytes) (ctx : Context) (m : Memory) (r : R)
      → (with_signing_key fn keystore read_fn ctx m).0 ≡ finished r
      → (a : Address) × ((with_signing_key fn keystore read_fn ctx m).1.vault.address ≡ some a)
  unfolding with_signing_key
  finished-knows_address read_fn ctx m r h =
      elim (Option-cases (with_signing_key fn keystore read_fn ctx m).1.vault.address) [
        | inl unknown ↦ absurd (ground arith)
        | inr known ↦ known
      ]

  module _ (read_fn : Bytes → Result Error Bytes) (ctx : Context) (m : Memory) (password : Slice)
      (not_cancelled : (ctx.while_waiting ≡ none) × (ctx.when_acquired ≡ none))
      (was_read : read_password_file m.vault.password_path read_fn ≡ ok password) where
    password_is_zeroed :
        (with_signing_key fn keystore read_fn ctx m).1.password ≡ zero_bytes password
    unfolding with_signing_key
    password_is_zeroed = ground arith

    -- Once the password was read, behind the call every byte of it is zero in its buffer, which is
    -- as long as it was, and what is behind the password in the buffer is as it was.
    pub password_zeroed_on_every_path :
        IsWiped password (with_signing_key fn keystore read_fn ctx m).1.password
    password_zeroed_on_every_path =
        subst (IsWiped password) (sym password_is_zeroed) (zero_bytes-IsWiped password)

    module _ (key : Key)
        (decrypted : keystore.decrypt_key m.vault.keystore_json (shown password)
          ≡ some (ok key)) where
      scalar_behind :
          (with_signing_key fn keystore read_fn ctx m).1.scalar ≡ zero_big_int (some key.scalar)
      unfolding with_signing_key
      scalar_behind = ground arith

      events_behind :
          (with_signing_key fn keystore read_fn ctx m).1.events
          ≡ ((((((m.events ++ acquired ∷ []) ++ password_read ∷ []) ++ key_decrypted ∷ [])
                  ++ callback_run ∷ [])
                ++ scalar_zeroed ∷ [])
              ++ password_zeroed ∷ [])
            ++ released ∷ []
      unfolding with_signing_key
      events_behind = ground arith

      -- Behind a callback every word that the scalar took is zero, in an array that is as long as it
      -- was, and the number has no words.
      pub scalar_zeroed_behind_callback :
          (s : Magnitude) × ((with_signing_key fn keystore read_fn ctx m).1.scalar ≡ some s)
          × IsErased key.scalar s
      scalar_zeroed_behind_callback =
          let (s, e, erased) = zero_big_int-IsErased key.scalar in (s, scalar_behind ∙ e, erased)

      -- The callback runs with the semaphore held; then the scalar is zeroed, then the password, and
      -- only then is the semaphore released.
      pub order_of_cleanup :
          (with_signing_key fn keystore read_fn ctx m).1.events
          ≡ m.events
            ++ acquired ∷ password_read ∷ key_decrypted ∷ callback_run ∷ scalar_zeroed
              ∷ password_zeroed ∷ released ∷ []
      order_of_cleanup = rw events_behind (simp append_assoc)
