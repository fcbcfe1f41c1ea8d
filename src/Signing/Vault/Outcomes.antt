-- ===== src/Signing/Vault/Outcomes.antt =====
-- What a call of WithSigningKey returns: the table of errors of decrypt.go, and what a success says.
use blockchain_ai_tools.Base.{
  ◌+◌, Bytes, text, true, false, none, some, Option-cases, Result, ok, err, Result-cases,
  Bool-cases, ◌≡◌, ◌⊎◌, refl, Option, inl, inr, arith, subst,
}
use blockchain_ai_tools.Signing.Errors.{
  Error, tool, tool_error, cause, password_error, internal_error, in_chain, is_decrypt_failed,
}
use blockchain_ai_tools.Signing.Zero.{shown, Slice, value_of}
use blockchain_ai_tools.Signing.Keystore.{FileKeyVault}
use blockchain_ai_tools.Signing.Vault.{
  Key, Keystore, SigningKey, Outcome, failed, finished, panicked, Memory, Context, discover,
  read_password_file, with_signing_key,
}

-- The vault as the callback sees it: one place of the semaphore is taken, and the address is known.
abbrev pub vault_inside : FileKeyVault → Key → FileKeyVault
vault_inside v key = record v { sem = v.sem + 1; address = discover v.address key.address }

abbrev pub signing_key : Key → Slice → SigningKey
signing_key key password = record {
  addr = key.address;
  key = value_of key.scalar;
  pw_bytes = shown password;
}

-- How a call of DecryptKey goes: it panics, or returns a key or an error.
pub decrypted_cases :
    (d : Option (Result Error Key))
    → (d ≡ none) ⊎ (((key : Key) × (d ≡ some (ok key))) ⊎ ((e : Error) × (d ≡ some (err e))))
decrypted_cases none = inl refl
decrypted_cases (some (ok key)) = inr (inl (key, refl))
decrypted_cases (some (err e)) = inr (inr (e, refl))

-- What is known where the callback gave the outcome.
pub record Reached (keystore : Keystore) (read_fn : Bytes → Result Error Bytes) (ctx : Context)
    (m : Memory) (password : Slice) (key : Key) : Type 0 where
  pub not_waiting : ctx.while_waiting ≡ none
  pub not_cancelled : ctx.when_acquired ≡ none
  pub was_read : read_password_file m.vault.password_path read_fn ≡ ok password
  pub was_decrypted : keystore.decrypt_key m.vault.keystore_json (shown password) ≡ some (ok key)

module _ {ℓ} {R : Type ℓ} (fn : SigningKey → FileKeyVault → Outcome R) (keystore : Keystore)
    (read_fn : Bytes → Result Error Bytes) (ctx : Context) (m : Memory) where
  -- The documented table: who is to blame for what the call returns.
  pub data Returns : Outcome R → Type ℓ where
    cancelled_waiting : {e : Error} → ctx.while_waiting ≡ some e → Returns (failed e)
    cancelled_after :
        {e : Error} → ctx.while_waiting ≡ none → ctx.when_acquired ≡ some e → Returns (failed e)
    unreadable :
        {e : Error}
        → ctx.while_waiting ≡ none
        → ctx.when_acquired ≡ none
        → read_fn m.vault.password_path ≡ err e
        → Returns (
            failed
              (tool (tool_error password_error (text "password file could not be read") (cause e))))
    wrong_password :
        {password : Slice} {e : Error}
        → ctx.while_waiting ≡ none
        → ctx.when_acquired ≡ none
        → read_password_file m.vault.password_path read_fn ≡ ok password
        → keystore.decrypt_key m.vault.keystore_json (shown password) ≡ some (err e)
        → in_chain is_decrypt_failed e ≡ true
        → Returns (
            failed (
              tool (
                tool_error password_error
                  (text "keystore decryption failed; check the password")
                  (cause e))))
    broken_keystore :
        {password : Slice} {e : Error}
        → ctx.while_waiting ≡ none
        → ctx.when_acquired ≡ none
        → read_password_file m.vault.password_path read_fn ≡ ok password
        → keystore.decrypt_key m.vault.keystore_json (shown password) ≡ some (err e)
        → in_chain is_decrypt_failed e ≡ false
        → Returns (
            failed (
              tool (
                tool_error internal_error
                  (text "keystore decryption failed due to an internal error")
                  (cause e))))
    decrypt_panics :
        {password : Slice}
        → ctx.while_waiting ≡ none
        → ctx.when_acquired ≡ none
        → read_password_file m.vault.password_path read_fn ≡ ok password
        → keystore.decrypt_key m.vault.keystore_json (shown password) ≡ none
        → Returns panicked
    callback :
        {password : Slice} {key : Key}
        → ctx.while_waiting ≡ none
        → ctx.when_acquired ≡ none
        → read_password_file m.vault.password_path read_fn ≡ ok password
        → keystore.decrypt_key m.vault.keystore_json (shown password) ≡ some (ok key)
        → Returns (fn (signing_key key password) (vault_inside m.vault key))

  unreadable_file :
      {e : Error}
      → read_password_file m.vault.password_path read_fn ≡ err e
      → read_fn m.vault.password_path ≡ err e
  unfolding read_password_file
  unreadable_file h = ground arith

  decrypted_outcome :
      (password : Slice)
      → ctx.while_waiting ≡ none
      → ctx.when_acquired ≡ none
      → read_password_file m.vault.password_path read_fn ≡ ok password
      → Returns (with_signing_key fn keystore read_fn ctx m).0
  unfolding with_signing_key
  decrypted_outcome password w a h =
      elim (decrypted_cases (keystore.decrypt_key m.vault.keystore_json (shown password))) [
        | inl d ↦ subst Returns (ground arith) (decrypt_panics w a h d)
        | inr (inl (key, d)) ↦ subst Returns (ground arith) (callback w a h d)
        | inr (inr (e, d)) ↦ elim (Bool-cases (in_chain is_decrypt_failed e)) [
          | inl is_wrong ↦ subst Returns (ground arith) (wrong_password w a h d is_wrong)
          | inr is_not ↦ subst Returns (ground arith) (broken_keystore w a h d is_not)
        ]
      ]

  -- Every call returns what the table of errors says, or what its callback returned, or panics
  -- where DecryptKey or the callback panics.
  pub with_signing_key-Returns : Returns (with_signing_key fn keystore read_fn ctx m).0
  unfolding with_signing_key
  with_signing_key-Returns = elim (Option-cases ctx.while_waiting) [
    | inr (e, w) ↦ subst Returns (ground arith) (cancelled_waiting w)
    | inl w ↦ elim (Option-cases ctx.when_acquired) [
      | inr (e, a) ↦ subst Returns (ground arith) (cancelled_after w a)
      | inl a ↦ elim (Result-cases (read_password_file m.vault.password_path read_fn)) [
        | inl (password, h) ↦ decrypted_outcome password w a h
        | inr (e, h) ↦ subst Returns (ground arith) (unreadable w a (unreadable_file h))
      ]
    ]
  ]

  -- A call finishes only through its callback.
  pub finished-inversion :
      (o : Outcome R) (r : R)
      → Returns o
      → o ≡ finished r
      → (password : Slice) × (key : Key) × Reached keystore read_fn ctx m password key
        × (fn (signing_key key password) (vault_inside m.vault key) ≡ finished r)
  finished-inversion o r (cancelled_waiting _) h = absurd (cc)
  finished-inversion o r (cancelled_after _ _) h = absurd (cc)
  finished-inversion o r (unreadable _ _ _) h = absurd (cc)
  finished-inversion o r (wrong_password _ _ _ _ _) h = absurd (cc)
  finished-inversion o r (broken_keystore _ _ _ _ _) h = absurd (cc)
  finished-inversion o r (decrypt_panics _ _ _ _) h = absurd (cc)
  finished-inversion o r (callback {password} {key} w a p d) h = (
    password,
    key,
    record { not_waiting = w; not_cancelled = a; was_read = p; was_decrypted = d },
    h,
  )

  -- Behind the callback the vault's address is the one that the callback saw.
  pub address_behind :
      (password : Slice) (key : Key)
      → Reached keystore read_fn ctx m password key
      → (with_signing_key fn keystore read_fn ctx m).1.vault.address
        ≡ discover m.vault.address key.address
  unfolding with_signing_key
  address_behind password key h =
      let w = h.not_waiting in
      let a = h.not_cancelled in let p = h.was_read in let d = h.was_decrypted in ground arith

  -- What the callback returned, the call returns.
  pub callback_outcome :
      (password : Slice) (key : Key)
      → Reached keystore read_fn ctx m password key
      → (with_signing_key fn keystore read_fn ctx m).0
        ≡ fn (signing_key key password) (vault_inside m.vault key)
  unfolding with_signing_key
  callback_outcome password key h =
      let w = h.not_waiting in
      let a = h.not_cancelled in let p = h.was_read in let d = h.was_decrypted in ground arith
