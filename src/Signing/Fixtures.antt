-- ===== src/Signing/Fixtures.antt =====
-- testdata/gen_fixtures.go of the package `signing`: the program that makes the keystores of its tests.
pub mod Opens
use blockchain_ai_tools.Base.{
  ℕ, ◌-◌, Bytes, text, same, not, length, replicate, List, [], ◌∷◌, ◌++◌, Option, none, some,
  Result, ok, err, ◌>>=◌, ◌>>◌, reject,
}
use blockchain_ai_tools.Signing.Errors.{Error, error_text}
use blockchain_ai_tools.Signing.Hex.{hex_encode, hex_decode}
use blockchain_ai_tools.Signing.Address.{Address, Common}
use blockchain_ai_tools.Signing.Zero.{Magnitude}
use blockchain_ai_tools.Signing.Vault.{Key, Keystore}

abbrev pub test_priv_key_hex : Bytes
test_priv_key_hex = text "1ab42cc412b618bdea3a599e3c9bae199ebf030895b039e9db1e30dafb12b727"

abbrev pub test_password : Bytes
test_password = text "test-only-password-do-not-reuse"

pub record KdfSpec : Type 0 where
  pub file : Bytes
  pub scrypt_n : ℕ
  pub scrypt_p : ℕ
  pub label : Bytes

-- What the program takes from elsewhere: the packages crypto, keystore and json, the error that
-- hex.DecodeString has for a text, and the files.
pub record Tools (Document Disk : Type 0) : Type 0 where
  pub decode_error : Bytes → Error
  pub to_ecdsa : Bytes → Result Error Magnitude
  pub from_ecdsa : Magnitude → Bytes
  pub address_of : Magnitude → Address
  pub standard_scrypt_n : ℕ
  pub standard_scrypt_p : ℕ
  pub light_scrypt_n : ℕ
  pub light_scrypt_p : ℕ
  pub encrypt_key : Key → Bytes → ℕ → ℕ → Result Error Bytes
  pub unmarshal : Bytes → Result Error Document
  pub marshal_indent : Document → Result Error Bytes
  pub write_file : Bytes → Bytes → Disk → Option Error × Disk
  pub read_file : Disk → Bytes → Result Error Bytes

-- The files, and what is printed on stdout.
pub record Output (Disk : Type 0) : Type 0 where
  pub disk : Disk
  pub printed : Bytes

-- A part of the program: it goes on, or ends early with a text on stderr.
abbrev pub Ends : Type 0 → Type 0
Ends Disk = Result Bytes (Unit {0}) × Output Disk

abbrev pub and_then : {Disk : Type 0} → Ends Disk → (Output Disk → Ends Disk) → Ends Disk
and_then (ok _, s) rest = rest s
and_then (err m, s) rest = (err m, s)

abbrev pub or_exit {ℓ} : {A : Type ℓ} → Bytes → Result Error A → Result Bytes A
or_exit m (ok a) = ok a
or_exit m (err e) = err (m ++ (text ": " ++ (error_text e ++ text "\n")))

-- The same for DecryptKey, which can panic: then the runtime prints a text of its own, and the
-- program ends as well.
abbrev pub or_panic {ℓ} : {A : Type ℓ} → Bytes → Option (Result Error A) → Result Bytes A
or_panic m none = err (text "panic")
or_panic m (some r) = or_exit m r

abbrev pub call_on : Bytes → Bytes → Bytes
call_on f file = f ++ (text "(" ++ (file ++ text ")"))

abbrev pub prints : {Disk : Type 0} → Bytes → Output Disk → Output Disk
prints line s = record s { printed = s.printed ++ line }

-- %-28s
abbrev padded : Bytes → Bytes
padded s = s ++ replicate (28 - length s) b' '

abbrev pub wrote_line : KdfSpec → Bytes
wrote_line spec =
    text "wrote " ++ (padded spec.file ++ (text "  KDF: scrypt " ++ (spec.label ++ text "\n")))

abbrev arrow : Bytes
arrow = 0xe2 ∷ 0x86 ∷ 0x92 ∷ []

abbrev advice : Bytes
advice =
    text
      "\nAfter generation, create the optional-address fixtures (address field omitted per spec):\n  cp keystore-weak.json keystore-no-address.json    # then remove the \"address\" field\n  cp keystore-weak.json keystore-empty-address.json # then set \"address\": \"\"\n"

module _ {Document Disk : Type 0} (tools : Tools Document Disk) (keystore : Keystore)
    (common : Common) where
  open tools use {
    decode_error, to_ecdsa, from_ecdsa, address_of, standard_scrypt_n, standard_scrypt_p,
    light_scrypt_n, light_scrypt_p, encrypt_key, unmarshal, marshal_indent, write_file, read_file,
  }

  abbrev pub specs : List KdfSpec
  specs =
      record {
        file = text "keystore-standard.json";
        scrypt_n = standard_scrypt_n;
        scrypt_p = standard_scrypt_p;
        label = text "standard";
      }
      ∷ record {
        file = text "keystore-light.json";
        scrypt_n = light_scrypt_n;
        scrypt_p = light_scrypt_p;
        label = text "light";
      }
      ∷ record {
        file = text "keystore-weak.json";
        scrypt_n = 2;
        scrypt_p = 1;
        label = text "weak (n=2, test-only)";
      }
      ∷ []

  abbrev decoded : Bytes → Result Error Bytes
  decoded s = elim (hex_decode s) [ none ↦ err (decode_error s) | some b ↦ ok b ]

  unfoldable pub test_key : Result Bytes Key
  test_key = do
    priv_key_bytes ← or_exit (text "invalid privkey hex") (decoded test_priv_key_hex)
    priv_key ← or_exit (text "invalid privkey") (to_ecdsa priv_key_bytes)
    ok (record { address = address_of priv_key; scalar = priv_key })

  -- The bytes of a keystore file
  unfoldable pub fixture_text : Key → KdfSpec → Result Bytes Bytes
  fixture_text key spec = do
    ciphertext ←
        or_exit (call_on (text "EncryptKey") spec.file)
          (encrypt_key key test_password spec.scrypt_n spec.scrypt_p)
    pretty ← or_exit (call_on (text "json.Unmarshal") spec.file) (unmarshal ciphertext)
    out ← or_exit (call_on (text "json.MarshalIndent") spec.file) (marshal_indent pretty)
    ok (out ++ b'\n' ∷ [])

  unfoldable pub write_and_print : Bytes → Bytes → Bytes → Output Disk → Ends Disk
  write_and_print file content line s =
      let (failure, disk) = write_file file content s.disk in
      elim failure [
        | some e ↦ (
          err (text "write " ++ (file ++ (text ": " ++ (error_text e ++ text "\n")))),
          record s { disk = disk },
        )
        | none ↦ (ok tt, prints line (record s { disk = disk }))
      ]

  abbrev write_fixture : Key → KdfSpec → Output Disk → Ends Disk
  write_fixture key spec s = elim (fixture_text key spec) [
    | err m ↦ (err m, s)
    | ok out ↦ write_and_print spec.file out (wrote_line spec) s
  ]

  -- for _, spec := range specs, the first loop
  unfoldable pub write_fixtures : Key → List KdfSpec → Output Disk → Ends Disk
  unfolding fixture_text write_and_print
  write_fixtures key [] s = (ok tt, s)
  write_fixtures key (spec ∷ rest) s =
      and_then (write_fixture key spec s) (λ s'. write_fixtures key rest s')

  -- The body of the second loop, with the line that it prints
  unfoldable pub check_fixture : Address → Disk → KdfSpec → Result Bytes Bytes
  check_fixture addr disk spec = do
    raw ← or_exit (text "read " ++ spec.file) (read_file disk spec.file)
    k ← or_panic (call_on (text "DecryptKey") spec.file) (keystore.decrypt_key raw test_password)
    reject (not (same (common.hex k.address) (common.hex addr))) (
        text "address mismatch in "
        ++ (spec.file
            ++ (text ": got "
                ++ (common.hex k.address ++ (text ", want " ++ (common.hex addr ++ text "\n"))))))
    reject (not (same (hex_encode (from_ecdsa k.scalar)) test_priv_key_hex))
        (text "private key mismatch in " ++ (spec.file ++ text "\n"))
    ok (
        text "  OK: "
        ++ (spec.file
            ++ (text " " ++ (arrow ++ (text " address=" ++ (common.hex k.address ++ text "\n"))))))

  unfoldable pub check_fixtures : Address → List KdfSpec → Output Disk → Ends Disk
  unfolding check_fixture
  check_fixtures addr [] s = (ok tt, s)
  check_fixtures addr (spec ∷ rest) s =
      let line = check_fixture addr s.disk spec in
      elim line [ err m ↦ (err m, s) | ok l ↦ check_fixtures addr rest (prints l s) ]

  unfoldable pub generate : Key → Output Disk → Ends Disk
  unfolding write_fixtures write_and_print check_fixtures
  generate key s =
      and_then
        (write_fixtures key specs
          (prints (text "Test key address: " ++ (common.hex key.address ++ text "\n")) s))
        λ s1.
          and_then
            (write_and_print (text "password.txt") (test_password ++ b'\n' ∷ [])
              (text "wrote password.txt\n") s1)
            λ s2.
              and_then
                (check_fixtures key.address specs
                  (prints (text "\nVerifying generated keystores...\n") s2))
                λ s3. (ok tt, prints (text "All keystores verified.\n" ++ advice) s3)

  -- main
  unfoldable pub gen_fixtures : Output Disk → Ends Disk
  unfolding test_key generate
  gen_fixtures s = elim test_key [ err m ↦ (err m, s) | ok key ↦ generate key s ]
