-- ===== src/Signing/Keystore.antt =====
-- The construction of the vault in file_vault.go and vault.go, over encoding/json.
pub mod Shape
pub mod Load
use blockchain_ai_tools.Base.{
  ℕ, Bytes, text, same, is_empty, Bool, true, false, not, ◌||◌, ◌==◌, if◌then◌else◌, [], Option,
  none, some, Result, ok, err, ◌>>=◌, ◌>>◌, reject,
}
use blockchain_ai_tools.Signing.Errors.{
  Error, plain, tool, ToolError, tool_error, Cause, cause, keystore_error,
}
use blockchain_ai_tools.Signing.Numbers.{ℤ, pos, negsuc}
use blockchain_ai_tools.Signing.Address.{
  Common, Address, zero_address, validate_keystore_address_field,
}

-- An absent version is `none`.
pub record KeystoreShape : Type 0 where
  pub version : Option ℤ
  pub cipher : Bytes
  pub kdf : Bytes
  pub kdf_params : Bytes
  pub mac : Bytes
  pub ciphertext : Bytes

-- json.Unmarshal into the two structs that the program declares.
pub record Json : Type 0 where
  pub unmarshal_address : Bytes → Result Error Bytes
  pub unmarshal_shape : Bytes → Result Error KeystoreShape

abbrev is_version_3 : ℤ → Bool
is_version_3 (pos n) = n == 3
is_version_3 (negsuc n) = false

-- _, ok := recognisedCiphers[s]
unfoldable pub is_recognised_cipher : Bytes → Bool
is_recognised_cipher s = same s (text "aes-128-ctr")

-- _, ok := recognisedKDFs[s]
unfoldable pub is_recognised_kdf : Bytes → Bool
is_recognised_kdf s = same s (text "scrypt") || same s (text "pbkdf2")

check_version : Option ℤ → Result Error (Unit {0})
check_version none = err (plain (text "keystore: missing required version field"))
check_version (some v) =
    reject (not (is_version_3 v))
      (plain (text "keystore: unsupported version (only Web3 Secret Storage v3 is supported)"))

unfoldable pub check_shape : KeystoreShape → Result Error (Unit {0})
unfolding check_version
check_shape shape = do
  check_version shape.version
  reject (is_empty shape.cipher) (plain (text "keystore: missing crypto.cipher field"))
  reject (not (is_recognised_cipher shape.cipher))
      (plain (text "keystore: unrecognised crypto.cipher algorithm"))
  reject (is_empty shape.kdf) (plain (text "keystore: missing crypto.kdf field"))
  reject (not (is_recognised_kdf shape.kdf))
      (plain (text "keystore: unrecognised crypto.kdf algorithm"))
  reject (is_empty shape.kdf_params || same shape.kdf_params (text "null"))
      (plain (text "keystore: missing crypto.kdfparams object"))
  reject (is_empty shape.mac) (plain (text "keystore: missing crypto.mac field"))
  reject (is_empty shape.ciphertext) (plain (text "keystore: missing crypto.ciphertext field"))

-- sem is a channel of capacity 1, known by how many values it holds.
pub record FileKeyVault : Type 0 where
  pub keystore_json : Bytes
  pub password_path : Bytes
  pub address : Option Address
  pub sem : ℕ

pub record VaultOptions : Type 0 where
  pub keystore_path : Bytes
  pub password_path : Bytes

-- `if err != nil { return nil, &ToolError{…, Cause: err} }`
abbrev pub or_keystore_error {ℓ} : {A : Type ℓ} → Result Error A → Bytes → Result Error A
or_keystore_error (ok a) m = ok a
or_keystore_error (err e) m = err (tool (tool_error keystore_error m (cause e)))

module _ (json : Json) where
  unfoldable pub validate_keystore_crypto_shape : Bytes → Result Error (Unit {0})
  validate_keystore_crypto_shape data' = elim (json.unmarshal_shape data') [
    | err _ ↦ err (plain (text "keystore: JSON cannot be decoded into expected shape"))
    | ok shape ↦ check_shape shape
  ]

module _ (common : Common) where
  -- The declared address, or the unknown one where the field is absent or empty.
  unfoldable pub declared_address : Bytes → Result Error (Option Address)
  declared_address field = if is_empty field then ok none else do
    parsed ←
        or_keystore_error (validate_keystore_address_field common field)
          (text "keystore top-level \"address\" field is malformed")
    ok (some parsed)

module _ (json : Json) (common : Common) where
  -- `read_file` is os.ReadFile at the time of the call.
  unfoldable pub new_file_key_vault :
      (Bytes → Result Error Bytes) → VaultOptions → Result Error FileKeyVault
  new_file_key_vault read_file opts = do
    data' ←
        or_keystore_error (read_file opts.keystore_path) (text "keystore file could not be read")
    field ← or_keystore_error (json.unmarshal_address data') (text "keystore JSON is malformed")
    or_keystore_error (validate_keystore_crypto_shape json data')
        (text "keystore JSON failed structural validation")
    address ← declared_address common field
    ok (record {
      keystore_json = data';
      password_path = opts.password_path;
      address = address;
      sem = 0;
    })

-- (*fileKeyVault).Address
unfoldable pub vault_address : FileKeyVault → Address
vault_address v = elim v.address [ none ↦ zero_address | some a ↦ a ]

-- (*fileKeyVault).AddressPointer
abbrev pub address_pointer : FileKeyVault → Option Address
address_pointer v = v.address
