-- ===== src/Examples/Fixtures.antt =====
-- The theorem on the generator of the fixtures, with files that are a function of their names.
use blockchain_ai_tools.Base.{
  Bytes, text, same, same_refl, [], ◌∷◌, if◌then◌else◌, none, some, inl, inr, Result, ok, err, ◌≡◌,
  refl, ap, sym, ◌∙◌,
}
use blockchain_ai_tools.Signing.Errors.{Error, plain, decrypt_failed}
use blockchain_ai_tools.Signing.Hex.{hex_encode, hex_decode}
use blockchain_ai_tools.Signing.Vault.{Key, Keystore, SigningKey, Outcome, finished}
use blockchain_ai_tools.Signing.Keystore.{
  FileKeyVault, new_file_key_vault, validate_keystore_crypto_shape, check_shape,
  is_recognised_cipher, is_recognised_kdf, declared_address,
}
use blockchain_ai_tools.Signing.Address.{validate_keystore_address_field, has_mixed_case}
use blockchain_ai_tools.Signing.Fixtures.{
  test_priv_key_hex, test_password, KdfSpec, Tools, Output, test_key, fixture_text, write_fixtures,
  write_and_print, check_fixture, check_fixtures, generate, gen_fixtures,
}
use blockchain_ai_tools.Signing.Fixtures.Opens.{IsDisk, options, Opens, gen_fixtures-Opens}
use blockchain_ai_tools.Examples.Addresses.{plain_common, plain_common-IsCommon, or_nothing}
use blockchain_ai_tools.Examples.Validation.{some_address}
use blockchain_ai_tools.Examples.Vault.{scalar, some_key, running, one_document}

abbrev Files : Type 0
Files = Bytes → Result Error Bytes

abbrev plain_tools : Tools Bytes Files
plain_tools = record {
  decode_error = plain;
  to_ecdsa = λ _. ok scalar;
  from_ecdsa = λ _. or_nothing (hex_decode test_priv_key_hex);
  address_of = λ _. some_address;
  standard_scrypt_n = 262144;
  standard_scrypt_p = 1;
  light_scrypt_n = 4096;
  light_scrypt_p = 6;
  encrypt_key = λ _ _ _ _. ok (b'{' ∷ b'}' ∷ []);
  unmarshal = ok;
  marshal_indent = ok;
  write_file = λ file content d. (none, λ f. if same f file then ok content else d f);
  read_file = λ d. d;
}

abbrev test_keystore : Keystore
test_keystore = record {
  decrypt_key =
      λ _ pw. if same pw test_password then some (ok some_key) else some (err decrypt_failed);
}

plain_tools-IsDisk : IsDisk plain_tools test_keystore plain_common
plain_tools-IsDisk = record {
  wrote = λ file content d d' h.
      let is_read : (if same file file then ok content else d file) ≡ d' file =
        ap (λ r. r.1 file) h in
      let found = same_refl file in sym is_read ∙ rw found refl;
}

abbrev no_files : Output Files
no_files = record { disk = λ _. err (plain (text "no such file")); printed = [] }

abbrev with_fixtures : Output Files
with_fixtures = (gen_fixtures plain_tools test_keystore plain_common no_files).1

generates : gen_fixtures plain_tools test_keystore plain_common no_files ≡ (ok tt, with_fixtures)
unfolding gen_fixtures test_key generate write_fixtures write_and_print check_fixtures check_fixture
    fixture_text hex_encode hex_decode same text or_nothing plain_common
generates = refl

abbrev finishes : SigningKey → FileKeyVault → Outcome (Unit {0})
finishes _ _ = finished tt

abbrev weak_spec : KdfSpec
weak_spec = record {
  file = text "keystore-weak.json";
  scrypt_n = 2;
  scrypt_p = 1;
  label = text "weak (n=2, test-only)";
}

-- The vault of the weak keystore, whose file declares an address.
abbrev weak_vault : FileKeyVault
weak_vault = record {
  keystore_json = b'{' ∷ b'}' ∷ b'\n' ∷ [];
  password_path = text "password.txt";
  address = some some_address;
  sem = 0;
}

weak_vault_is_made :
    new_file_key_vault one_document plain_common with_fixtures.disk
      (options plain_tools test_keystore plain_common weak_spec)
    ≡ ok weak_vault
unfolding new_file_key_vault gen_fixtures hex_decode text same plain_common hex_encode
    validate_keystore_crypto_shape check_shape is_recognised_cipher is_recognised_kdf
    declared_address validate_keystore_address_field has_mixed_case
weak_vault_is_made = refl

gen_fixtures-Opens_example :
    (key : Key) × (test_key plain_tools test_keystore plain_common ≡ ok key)
    × Opens plain_tools test_keystore plain_common one_document finishes running key
        with_fixtures.disk weak_vault weak_spec
gen_fixtures-Opens_example =
    gen_fixtures-Opens plain_tools test_keystore plain_common plain_tools-IsDisk
      plain_common-IsCommon no_files with_fixtures generates one_document weak_spec
      (inr (inr (inl refl))) weak_vault weak_vault_is_made finishes running refl refl
