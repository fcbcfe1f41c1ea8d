-- ===== src/Examples/Vault.antt =====
-- The theorems on the vault, at a concrete keystore and a concrete callback.
use blockchain_ai_tools.Base.{
  ℕ, Bytes, text, same, ◌∷◌, ◌++◌, [], if◌then◌else◌, none, some, Result, ok, err, ◌≡◌, ◌↔◌, refl,
}
use blockchain_ai_tools.Signing.Errors.{Error, decrypt_failed}
use blockchain_ai_tools.Signing.Numbers.{pos}
use blockchain_ai_tools.Signing.Zero.{Slice, shown, Magnitude}
use blockchain_ai_tools.Signing.Zero.Wiped.{IsWiped, IsErased}
use blockchain_ai_tools.Signing.Keystore.{
  KeystoreShape, Json, VaultOptions, FileKeyVault, new_file_key_vault,
}
use blockchain_ai_tools.Signing.Keystore.Load.{Loads, new_file_key_vault_iff}
use blockchain_ai_tools.Signing.Vault.{
  Key, Keystore, SigningKey, Outcome, finished, panicked, Memory, Context, acquired, released,
  password_read, key_decrypted, callback_run, password_zeroed, scalar_zeroed, strip_line_ends,
  read_password_file, with_signing_key,
}
use blockchain_ai_tools.Signing.Vault.Password.{IsPassword, read_password_file-IsPassword}
use blockchain_ai_tools.Signing.Vault.Secrets.{
  password_zeroed_on_every_path, scalar_zeroed_behind_callback, order_of_cleanup,
}
use blockchain_ai_tools.Signing.Vault.Outcomes.{Returns, with_signing_key-Returns}
use blockchain_ai_tools.Examples.Addresses.{plain_common, plain_common-IsCommon}
use blockchain_ai_tools.Examples.Validation.{some_address, address_text}

abbrev pub password_text : Bytes
password_text = text "pw\r\n"

abbrev pub read_password : Bytes → Result Error Bytes
read_password _ = ok password_text

abbrev pub password_slice : Slice
password_slice = record { backing = password_text; len = 2 }

abbrev pub scalar : Magnitude
scalar = record { words = 9 ∷ 0 ∷ []; used = 1 }

abbrev pub some_key : Key
some_key = record { address = some_address; scalar = scalar }

abbrev pub one_password : Keystore
one_password = record {
  decrypt_key =
      λ _ pw. if same pw (text "pw") then some (ok some_key) else some (err decrypt_failed);
}

abbrev pub closed_vault : FileKeyVault
closed_vault = record { keystore_json = []; password_path = text "pw.txt"; address = none; sem = 0 }

abbrev pub fresh : Memory
fresh = record {
  vault = closed_vault;
  password = record { backing = []; len = 0 };
  scalar = none;
  events = [];
}

abbrev pub running : Context
running = record { while_waiting = none; when_acquired = none }

-- A callback that hands out the scalar that it saw.
abbrev see_scalar : SigningKey → FileKeyVault → Outcome ℕ
see_scalar key _ = finished (key.key)

abbrev give_up : SigningKey → FileKeyVault → Outcome ℕ
give_up _ _ = panicked

pub password_was_read : read_password_file (text "pw.txt") read_password ≡ ok password_slice
unfolding read_password_file strip_line_ends text
password_was_read = refl

pub key_was_decrypted : one_password.decrypt_key [] (shown password_slice) ≡ some (ok some_key)
unfolding same text
key_was_decrypted = refl

read_password_file-IsPassword_example :
    (password : Slice) × (read_password_file (text "pw.txt") read_password ≡ ok password)
    × IsPassword password_text password
read_password_file-IsPassword_example =
    read_password_file-IsPassword (text "pw.txt") read_password password_text refl

password_zeroed_on_every_path_example :
    IsWiped password_slice
      (with_signing_key give_up one_password read_password running fresh).1.password
password_zeroed_on_every_path_example =
    password_zeroed_on_every_path give_up one_password read_password running fresh password_slice
      (refl, refl) password_was_read

scalar_zeroed_behind_callback_example :
    (s : Magnitude) × ((with_signing_key give_up one_password read_password running fresh).1.scalar
      ≡ some s)
    × IsErased some_key.scalar s
scalar_zeroed_behind_callback_example =
    scalar_zeroed_behind_callback give_up one_password read_password running fresh password_slice
      (refl, refl) password_was_read some_key key_was_decrypted

order_of_cleanup_example :
    (with_signing_key see_scalar one_password read_password running fresh).1.events
    ≡ []
      ++ (acquired ∷ password_read ∷ key_decrypted ∷ callback_run ∷ scalar_zeroed ∷ password_zeroed
          ∷ released ∷ [])
order_of_cleanup_example =
    order_of_cleanup see_scalar one_password read_password running fresh password_slice (refl, refl)
      password_was_read some_key key_was_decrypted

with_signing_key-Returns_example :
    Returns see_scalar one_password read_password running fresh
      (with_signing_key see_scalar one_password read_password running fresh).0
with_signing_key-Returns_example =
    with_signing_key-Returns see_scalar one_password read_password running fresh

abbrev pub scrypt_shape : KeystoreShape
scrypt_shape = record {
  version = some (pos 3);
  cipher = text "aes-128-ctr";
  kdf = text "scrypt";
  kdf_params = text "{}";
  mac = text "aa";
  ciphertext = text "bb";
}

abbrev pub one_document : Json
one_document = record {
  unmarshal_address = λ _. ok address_text;
  unmarshal_shape = λ _. ok scrypt_shape;
}

abbrev pub keystore_options : VaultOptions
keystore_options = record { keystore_path = text "k.json"; password_path = text "pw.txt" }

abbrev pub loaded_vault : FileKeyVault
loaded_vault = record {
  keystore_json = text "doc";
  password_path = text "pw.txt";
  address = some some_address;
  sem = 0;
}

abbrev pub read_document : Bytes → Result Error Bytes
read_document _ = ok (text "doc")

new_file_key_vault_iff_example :
    (new_file_key_vault one_document plain_common read_document keystore_options ≡ ok loaded_vault)
    ↔ Loads one_document plain_common read_document keystore_options loaded_vault
new_file_key_vault_iff_example =
    new_file_key_vault_iff one_document plain_common plain_common-IsCommon read_document
      keystore_options loaded_vault
