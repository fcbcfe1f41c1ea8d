-- ===== src/Signing/Vault/Sharing.antt =====
-- Many calls of WithSigningKey at once on one vault. A call moves by one access of what it shares
-- with the others: the semaphore, the address, and the files behind its path.
pub mod Updates
pub mod Holder
pub mod Refines
pub mod Turns
pub mod Exclusion
pub mod Moves
pub mod Progress
pub mod Snapshot
use blockchain_ai_tools.Base.{
  ℕ, ◌+◌, ◌-◌, ◌<◌, Bytes, ◌==◌, if◌then◌else◌, [], Option, none, some, Result, ok, err, ◌≡◌,
}
use blockchain_ai_tools.Signing.Errors.{Error}
use blockchain_ai_tools.Signing.Zero.{Slice, shown, zero_bytes, Magnitude, zero_big_int}
use blockchain_ai_tools.Signing.Keystore.{FileKeyVault}
use blockchain_ai_tools.Signing.Vault.{
  Key, Keystore, SigningKey, Outcome, failed, panicked, Context, discover, read_password_file,
  unreadable_error, decrypt_error,
}
use blockchain_ai_tools.Signing.Vault.Outcomes.{signing_key}

-- The arguments of a call. Its context says which way the select goes when the call is let on.
pub record Call {ℓ} (R : Type ℓ) : Type ℓ where
  pub fn : SigningKey → FileKeyVault → Outcome R
  pub read_fn : Bytes → Result Error Bytes
  pub ctx : Context

abbrev pub no_slice : Slice
no_slice = record { backing = []; len = 0 }

-- Where a call stands, with the local variables that are live there.
pub data Place {ℓ} (R : Type ℓ) : Type ℓ where
  waiting : Place R  -- at the select
  holding : Place R  -- before the check of the context
  reading : Place R  -- before the password is read
  decrypting : Slice → Place R
  discovering : Slice → Key → Place R  -- before the CompareAndSwap
  running : Slice → Key → Place R  -- before the callback
  zeroing_scalar : Outcome R → Slice → Key → Place R
  zeroing_password : Outcome R → Slice → Option Magnitude → Place R
  releasing : Outcome R → Slice → Option Magnitude → Place R
  returned : Outcome R → Slice → Option Magnitude → Place R

-- v.sem <- struct{}{} and <-v.sem, on the shared vault
abbrev pub taken : FileKeyVault → FileKeyVault
taken v = record v { sem = v.sem + 1 }

abbrev pub given_back : FileKeyVault → FileKeyVault
given_back v = record v { sem = v.sem - 1 }

abbrev pub known_as : FileKeyVault → Key → FileKeyVault
known_as v key = record v { address = discover v.address key.address }

-- The channel has one place: a send waits until it is empty, a receive until it is full.
module _ {ℓ} {R : Type ℓ} (keystore : Keystore) (c : Call R) where
  pub data Move (v : FileKeyVault) : Place R → FileKeyVault → Place R → Type ℓ where
    cancel :
        {e : Error}
        → c.ctx.while_waiting ≡ some e
        → Move v waiting v (returned (failed e) no_slice none)
    enter : c.ctx.while_waiting ≡ none → v.sem < 1 → Move v waiting (taken v) holding
    give_up :
        {e : Error}
        → c.ctx.when_acquired ≡ some e
        → 0 < v.sem
        → Move v holding (given_back v) (returned (failed e) no_slice none)
    go_on : c.ctx.when_acquired ≡ none → Move v holding v reading
    fail_to_read :
        {e : Error}
        → read_password_file v.password_path c.read_fn ≡ err e
        → Move v reading v (releasing (failed (unreadable_error e)) no_slice none)
    read :
        {password : Slice}
        → read_password_file v.password_path c.read_fn ≡ ok password
        → Move v reading v (decrypting password)
    fail_to_decrypt :
        {password : Slice} {e : Error}
        → keystore.decrypt_key v.keystore_json (shown password) ≡ some (err e)
        → Move v (decrypting password) v (zeroing_password (failed (decrypt_error e)) password none)
    panic_in_decrypt :
        {password : Slice}
        → keystore.decrypt_key v.keystore_json (shown password) ≡ none
        → Move v (decrypting password) v (zeroing_password panicked password none)
    decrypt :
        {password : Slice} {key : Key}
        → keystore.decrypt_key v.keystore_json (shown password) ≡ some (ok key)
        → Move v (decrypting password) v (discovering password key)
    discover_address :
        {password : Slice} {key : Key}
        → Move v (discovering password key) (known_as v key) (running password key)
    call_fn :
        {password : Slice} {key : Key}
        → Move v
            (running password key)
            v
            (zeroing_scalar (c.fn (signing_key key password) v) password key)
    wipe_scalar :
        {o : Outcome R} {password : Slice} {key : Key}
        → Move v
            (zeroing_scalar o password key)
            v
            (zeroing_password o password (zero_big_int (some key.scalar)))
    wipe_password :
        {o : Outcome R} {password : Slice} {s : Option Magnitude}
        → Move v (zeroing_password o password s) v (releasing o (zero_bytes password) s)
    let_go :
        {o : Outcome R} {password : Slice} {s : Option Magnitude}
        → 0 < v.sem
        → Move v (releasing o password s) (given_back v) (returned o password s)

-- The vault, and where each of the calls stands.
pub record System {ℓ} (R : Type ℓ) : Type ℓ where
  pub vault : FileKeyVault
  pub place : ℕ → Place R

abbrev pub update {ℓ} : {A : Type ℓ} → (ℕ → A) → ℕ → A → ℕ → A
update f i a j = if j == i then a else f j

abbrev pub start {ℓ} : {R : Type ℓ} → FileKeyVault → System R
start v = record { vault = v; place = λ _. waiting }

module _ {ℓ} {R : Type ℓ} (keystore : Keystore) (calls : ℕ → Call R) where
  -- Any call that can move may move next.
  pub data Step (s : System R) : System R → Type ℓ where
    pick :
        (i : ℕ) {v : FileKeyVault} {p : Place R}
        → Move keystore (calls i) s.vault (s.place i) v p
        → Step s (record { vault = v; place = update s.place i p })

  pub data Reach (v : FileKeyVault) : System R → Type ℓ where
    at_start : Reach v (start v)
    later : {s t : System R} → Reach v s → Step s t → Reach v t
