-- ===== src/Signing/Vault.antt =====
-- WithSigningKey and readPasswordFile of decrypt.go. A call of a vault is a function on what it can
-- change: the vault, the buffers with secrets, and what has happened so far.
pub mod Password
pub mod Secrets
pub mod Outcomes
pub mod Sharing
use blockchain_ai_tools.Base.{
  ℕ, zero, suc, ◌+◌, ◌-◌, ◌^◌, Bytes, text, Bool, true, false, ◌||◌, ◌==◌, if◌then◌else◌, length,
  List, [], ◌∷◌, ◌++◌, Option, none, some, Result, ok, err,
}
use blockchain_ai_tools.Signing.Errors.{
  Error, tool, tool_error, cause, password_error, internal_error, in_chain, is_decrypt_failed,
}
use blockchain_ai_tools.Signing.Address.{Address}
use blockchain_ai_tools.Signing.Zero.{Slice, shown, zero_bytes, Magnitude, value_of, zero_big_int}
use blockchain_ai_tools.Signing.Keystore.{FileKeyVault}

-- gokeystore.Key: the address and the scalar of the private key.
pub record Key : Type 0 where
  pub address : Address
  pub scalar : Magnitude

-- gokeystore.DecryptKey, on a document and a password, with `none` where the call panics.
pub record Keystore : Type 0 where
  pub decrypt_key : Bytes → Bytes → Option (Result Error Key)

-- signingKey: the callback sees the address, the key and the password's bytes.
pub record SigningKey : Type 0 where
  pub addr : Address
  pub key : ℕ
  pub pw_bytes : Bytes

-- What a callback does: it returns an error, or nil with a value in the variable that it captured,
-- or it panics.
pub data Outcome {ℓ} (R : Type ℓ) : Type ℓ where
  failed : Error → Outcome R
  finished : R → Outcome R
  panicked : Outcome R

pub data Event : Type 0 where
  acquired released password_read key_decrypted callback_run password_zeroed scalar_zeroed : Event

pub record Memory : Type 0 where
  pub vault : FileKeyVault
  pub password : Slice
  pub scalar : Option Magnitude
  pub events : List Event

abbrev pub happens : Event → Memory → Memory
happens e m = record m { events = m.events ++ e ∷ [] }

-- A body that returns or panics, and what is deferred before it runs.
abbrev pub Action {ℓ} : Type ℓ → Type ℓ
Action R = Memory → Outcome R × Memory

abbrev pub deferring {ℓ} : {R : Type ℓ} → (Memory → Memory) → Action R → Action R
deferring d body m = let (o, m') = body m in (o, d m')

abbrev pub is_line_end : ℕ → Bool
is_line_end b = b == b'\n' || b == b'\r'

abbrev pub byte_at : Bytes → ℕ → ℕ
byte_at [] i = 0
byte_at (b ∷ s) zero = b
byte_at (b ∷ s) (suc i) = byte_at s i

-- The loop shortens the slice while its last byte ends a line: the length it ends with.
unfoldable pub strip_line_ends : Bytes → ℕ → ℕ
strip_line_ends raw zero = zero
strip_line_ends raw (suc n) = if is_line_end (byte_at raw n) then strip_line_ends raw n else suc n

unfoldable pub read_password_file : Bytes → (Bytes → Result Error Bytes) → Result Error Slice
unfolding strip_line_ends
read_password_file path read_fn = elim (read_fn path) [
  | err e ↦ err e
  | ok raw ↦ ok (record { backing = raw; len = strip_line_ends raw (length raw) })
]

-- v.sem <- struct{}{} where there is room, and <-v.sem
abbrev acquire : Memory → Memory
acquire m = happens acquired (record m { vault = record (m.vault) { sem = m.vault.sem + 1 } })

abbrev release : Memory → Memory
release m = happens released (record m { vault = record (m.vault) { sem = m.vault.sem - 1 } })

abbrev zero_password : Memory → Memory
zero_password m = happens password_zeroed (record m { password = zero_bytes m.password })

abbrev zero_scalar : Memory → Memory
zero_scalar m = happens scalar_zeroed (record m { scalar = zero_big_int m.scalar })

-- v.address.CompareAndSwap(nil, &discovered)
abbrev pub discover : Option Address → Address → Option Address
discover none a = some a
discover (some b) a = some b

-- What a call sees of its context: the error if `ctx.Done()` won the select, and the error of the
-- check behind it.
pub record Context : Type 0 where
  pub while_waiting : Option Error
  pub when_acquired : Option Error

-- The errors of 3. and 5., with what they wrap.
abbrev pub unreadable_error : Error → Error
unreadable_error e =
    tool (tool_error password_error (text "password file could not be read") (cause e))

abbrev pub decrypt_error : Error → Error
decrypt_error e =
    if in_chain is_decrypt_failed e
    then tool (
        tool_error password_error (text "keystore decryption failed; check the password") (cause e))
    else tool (
        tool_error internal_error (text "keystore decryption failed due to an internal error")
          (cause e))

module _ {ℓ} {R : Type ℓ} (fn : SigningKey → FileKeyVault → Outcome R) where
  -- 7. and 8.: the key is wrapped, and `fn` runs; it can look at the vault.
  run_callback : Key → Action R
  run_callback key m = (
    fn (record { addr = key.address; key = value_of key.scalar; pw_bytes = shown m.password })
        m.vault,
    happens callback_run m,
  )

  -- From the discovered address on.
  with_key : Key → Action R
  unfolding run_callback
  with_key key m = deferring zero_scalar (run_callback key) (
      happens key_decrypted (record m {
        vault = record (m.vault) { address = discover m.vault.address key.address };
        scalar = some key.scalar;
      }))

  -- 5.
  decrypt_and_run : Keystore → Action R
  unfolding with_key
  decrypt_and_run keystore m =
      elim (keystore.decrypt_key m.vault.keystore_json (shown m.password)) [
        | none ↦ (panicked, m)
        | some (err e) ↦ (failed (decrypt_error e), m)
        | some (ok key) ↦ with_key key m
      ]

  -- 3. and 4.
  read_and_run : Keystore → (Bytes → Result Error Bytes) → Action R
  unfolding decrypt_and_run read_password_file
  read_and_run keystore read_fn m = elim (read_password_file m.vault.password_path read_fn) [
    | err e ↦ (failed (unreadable_error e), m)
    | ok password ↦
        deferring zero_password (decrypt_and_run keystore)
          (happens password_read (record m { password = password }))
  ]

  -- 1. and 2.
  unfoldable pub with_signing_key : Keystore → (Bytes → Result Error Bytes) → Context → Action R
  unfolding read_and_run
  with_signing_key keystore read_fn ctx m = elim ctx.while_waiting [
    | some e ↦ (failed e, m)
    | none ↦ elim ctx.when_acquired [
      | some e ↦ (failed e, release (acquire m))
      | none ↦ deferring release (read_and_run keystore read_fn) (acquire m)
    ]
  ]
