-- ===== src/Signing/Fixtures/Opens.antt =====
-- What the generator leaves: keystores that a vault opens with the password file beside them.
use blockchain_ai_tools.Base.{
  Bytes, text, same, same_iff, not, Bool, true, All, Any, List, [], ◌∷◌, ◌++◌, Option, none, some,
  Option-cases, ok-injective, Result, ok, err, invert, reject, Result-cases, ◌≡◌, inl, inr, refl,
  sym, ap, ◌∙◌, subst, arith,
}
use blockchain_ai_tools.Signing.Errors.{Error}
use blockchain_ai_tools.Signing.Hex.{hex_encode}
use blockchain_ai_tools.Signing.Address.{Common}
use blockchain_ai_tools.Signing.Zero.{Slice, shown}
use blockchain_ai_tools.Signing.Address.Laws.{IsCommon}
use blockchain_ai_tools.Signing.Keystore.{FileKeyVault, Json, VaultOptions, new_file_key_vault}
use blockchain_ai_tools.Signing.Keystore.Load.{new_file_key_vault_iff}
use blockchain_ai_tools.Signing.Vault.{
  Key, Keystore, SigningKey, Outcome, Context, strip_line_ends, read_password_file,
  with_signing_key,
}
use blockchain_ai_tools.Signing.Vault.Outcomes.{vault_inside, signing_key, callback_outcome}
use blockchain_ai_tools.Signing.Vault.Sharing.Holder.{memory_of}
use blockchain_ai_tools.Signing.Fixtures.{
  test_priv_key_hex, test_password, KdfSpec, Tools, Output, Ends, and_then, or_exit, or_panic,
  prints, specs, test_key, write_fixtures, write_and_print, check_fixture, check_fixtures, generate,
  gen_fixtures,
}

and_then-ok :
    {Disk : Type 0} (r : Ends Disk) (k : Output Disk → Ends Disk) (s' : Output Disk)
    → and_then r k ≡ (ok tt, s')
    → (s : Output Disk) × (r ≡ (ok tt, s)) × (k s ≡ (ok tt, s'))
and_then-ok (ok _, s) k s' h = (s, refl, h)
and_then-ok (err m, s) k s' h = absurd (cc)

or_exit-ok {ℓ} :
    {A : Type ℓ} (m : Bytes) (r : Result Error A) (a : A) → or_exit m r ≡ ok a → r ≡ ok a
or_exit-ok m (ok b) a h = cc
or_exit-ok m (err e) a h = absurd (cc)

or_panic-ok {ℓ} :
    {A : Type ℓ} (m : Bytes) (r : Option (Result Error A)) (a : A)
    → or_panic m r ≡ ok a
    → r ≡ some (ok a)
or_panic-ok m none a h = absurd (cc)
or_panic-ok m (some r) a h = ap some (or_exit-ok m r a h)

not_rejected : (b : Bool) (m : Bytes) (u : Unit {0}) → reject (not b) m ≡ ok u → b ≡ true
not_rejected b m u h = ground arith

-- The password of the file.
abbrev pub password_slice : Slice
password_slice = record { backing = test_password ++ b'\n' ∷ []; len = 31 }

module _ {Document Disk : Type 0} (tools : Tools Document Disk) (keystore : Keystore)
    (common : Common) where
  -- What os.WriteFile and os.ReadFile document: what was written without an error is read.
  pub record IsDisk : Type 0 where
    pub wrote :
        (file content : Bytes) (d d' : Disk)
        → tools.write_file file content d ≡ (none, d')
        → tools.read_file d' file ≡ ok content

  -- A keystore on the disk that opens to the key.
  pub record Holds (disk : Disk) (key : Key) (spec : KdfSpec) : Type 0 where
    pub raw : Bytes
    pub there : tools.read_file disk spec.file ≡ ok raw
    pub opened : Key
    pub decrypted : keystore.decrypt_key raw test_password ≡ some (ok opened)
    pub same_address : common.hex opened.address ≡ common.hex key.address
    pub same_scalar : hex_encode (tools.from_ecdsa opened.scalar) ≡ test_priv_key_hex

  check_fixture-Holds :
      (key : Key) (disk : Disk) (spec : KdfSpec) (line : Bytes)
      → check_fixture tools keystore common key.address disk spec ≡ ok line
      → Holds disk key spec
  unfolding check_fixture
  check_fixture-Holds key disk spec line h =
      invert (or_exit _ (tools.read_file disk spec.file)) _ h λ raw e1 h1.
        invert (or_panic _ (keystore.decrypt_key raw test_password)) _ h1 λ k e2 h2.
          invert (reject (not (same (common.hex k.address) (common.hex key.address))) _) _ h2
            λ u e3 h3.
              invert
                (reject (not (same (hex_encode (tools.from_ecdsa k.scalar)) test_priv_key_hex)) _) _
                h3
                λ u' e4 h4. record {
                  raw = raw;
                  there = or_exit-ok _ _ raw e1;
                  opened = k;
                  decrypted = or_panic-ok _ _ k e2;
                  same_address = (same_iff _ _).0 (not_rejected _ _ u e3);
                  same_scalar = (same_iff _ _).0 (not_rejected _ _ u' e4);
                }

  -- The second loop changes no file.
  check_fixtures-Holds :
      (key : Key) (rest : List KdfSpec) (s s' : Output Disk)
      → check_fixtures tools keystore common key.address rest s ≡ (ok tt, s')
      → (s'.disk ≡ s.disk) × All (Holds s.disk key) rest
  unfolding check_fixtures
  check_fixtures-Holds key [] s s' h = (ap (λ r. r.1.disk) (sym h), tt)
  check_fixtures-Holds key (spec ∷ rest) s s' h =
      elim (Result-cases (check_fixture tools keystore common key.address s.disk spec)) [
        | inr (m, e) ↦ absurd (ground arith)
        | inl (line, e) ↦
            let (still, all) = check_fixtures-Holds key rest (prints line s) s' (ground arith) in
            (still, (check_fixture-Holds key s.disk spec line e, all))
      ]

  -- A write that goes on has written.
  write_and_print-ok :
      (laws : IsDisk) (file content line : Bytes) (s s' : Output Disk)
      → write_and_print tools keystore common file content line s ≡ (ok tt, s')
      → tools.read_file s'.disk file ≡ ok content
  unfolding write_and_print
  write_and_print-ok laws file content line s s' h =
      elim (Option-cases (tools.write_file file content s.disk).0) [
        | inr (e, failed) ↦ absurd (ground arith)
        | inl wrote ↦ laws.wrote file content s.disk s'.disk (ground arith)
      ]

  generate-Holds :
      (laws : IsDisk) (key : Key) (s s' : Output Disk)
      → generate tools keystore common key s ≡ (ok tt, s')
      → (tools.read_file s'.disk (text "password.txt") ≡ ok (test_password ++ b'\n' ∷ []))
        × All (Holds s'.disk key) (specs tools keystore common)
  unfolding generate
  generate-Holds laws key s s' h =
      let (s1, _, h1) =
        and_then-ok (write_fixtures tools keystore common key (specs tools keystore common) _) _ s'
          h in
      let (s2, wrote, h2) =
        and_then-ok
          (write_and_print tools keystore common (text "password.txt") (test_password ++ b'\n' ∷ [])
            _ s1)
          _ s' h1 in
      let (s3, checked, h3) =
        and_then-ok
          (check_fixtures tools keystore common key.address (specs tools keystore common) _) _ s'
          h2 in
      let (still, all) = check_fixtures-Holds key (specs tools keystore common) _ s3 checked in
      let same_disk : s'.disk ≡ s2.disk = ap (λ r. r.1.disk) (sym h3) ∙ still in
      (
        ap (λ d. tools.read_file d (text "password.txt")) same_disk
            ∙ write_and_print-ok laws (text "password.txt") (test_password ++ b'\n' ∷ []) _ s1 s2
                wrote,
        subst (λ d. All (Holds d key) (specs tools keystore common)) (sym same_disk) all,
      )

  reads_password :
      (read : Bytes → Result Error Bytes)
      → read (text "password.txt") ≡ ok (test_password ++ b'\n' ∷ [])
      → read_password_file (text "password.txt") read ≡ ok password_slice
  unfolding read_password_file strip_line_ends text
  reads_password read h = rw (h, read_password_file) refl

  shown_password : shown password_slice ≡ test_password
  unfolding text
  shown_password = refl

  -- The options of a vault on a keystore of the generator, with the password file beside it.
  abbrev pub options : KdfSpec → VaultOptions
  options spec = record { keystore_path = spec.file; password_path = text "password.txt" }

  module _ {ℓ} {R : Type ℓ} (json : Json) (fn : SigningKey → FileKeyVault → Outcome R)
      (ctx : Context) (key : Key) (disk : Disk) where
    -- A call of the vault on the keystore runs its callback with the test key.
    pub record Opens (v : FileKeyVault) (spec : KdfSpec) : Type ℓ where
      pub holds : Holds disk key spec
      pub runs :
          (with_signing_key fn keystore (tools.read_file disk) ctx (memory_of v)).0
          ≡ fn (signing_key holds.opened password_slice) (vault_inside v holds.opened)

    Holds-Opens :
        (laws : IsCommon common) (spec : KdfSpec) (v : FileKeyVault)
        → Holds disk key spec
        → tools.read_file disk (text "password.txt") ≡ ok (test_password ++ b'\n' ∷ [])
        → new_file_key_vault json common (tools.read_file disk) (options spec) ≡ ok v
        → ctx.while_waiting ≡ none
        → ctx.when_acquired ≡ none
        → Opens v spec
    Holds-Opens laws spec v h read made waits goes =
        let loads =
          (new_file_key_vault_iff json common laws (tools.read_file disk) (options spec) v).0
            made in
        let same_json = ok-injective (sym loads.contents ∙ h.there) in
        record {
          holds = h;
          runs =
              callback_outcome fn keystore (tools.read_file disk) ctx (memory_of v) password_slice
                h.opened
                (record {
                  not_waiting = waits;
                  not_cancelled = goes;
                  was_read =
                      ap (λ path. read_password_file path (tools.read_file disk)) loads.path
                      ∙ reads_password (tools.read_file disk) read;
                  was_decrypted =
                      ap (λ j. keystore.decrypt_key j (shown password_slice)) same_json
                      ∙ ap (keystore.decrypt_key h.raw) shown_password
                      ∙ h.decrypted;
                });
        }

  All-Any :
      (P : KdfSpec → Type 0) (spec : KdfSpec) (rest : List KdfSpec)
      → All P rest
      → Any (λ x. x ≡ spec) rest
      → P spec
  All-Any P spec [] h a = absurd a
  All-Any P spec (x ∷ rest) (h, hs) (inl e) = subst P e h
  All-Any P spec (x ∷ rest) (h, hs) (inr a) = All-Any P spec rest hs a

  -- A file that is written without an error reads as what was written. Where the generator ends
  -- without an error, and NewFileKeyVault then makes a vault of one of the three keystores that it
  -- leaves and of its password.txt: a call of WithSigningKey that is not cancelled, on this vault and
  -- with these files, runs its callback with the key that the keystore holds, which has the address
  -- and the scalar of the test key.
  pub gen_fixtures-Opens {ℓ} :
      {R : Type ℓ} (disk_laws : IsDisk) (laws : IsCommon common) (s s' : Output Disk)
      → gen_fixtures tools keystore common s ≡ (ok tt, s')
      → (json : Json) (spec : KdfSpec) → Any (λ x. x ≡ spec) (specs tools keystore common)
      → (v : FileKeyVault)
      → new_file_key_vault json common (tools.read_file s'.disk) (options spec) ≡ ok v
      → (fn : SigningKey → FileKeyVault → Outcome R) (ctx : Context) → ctx.while_waiting ≡ none
      → ctx.when_acquired ≡ none
      → (key : Key) × (test_key tools keystore common ≡ ok key)
        × Opens json fn ctx key s'.disk v spec
  unfolding gen_fixtures
  gen_fixtures-Opens disk_laws laws s s' h json spec one v made fn ctx waits goes =
      elim (Result-cases (test_key tools keystore common)) [
        | inr (m, e) ↦ absurd (ground arith)
        | inl (key, e) ↦
            let (read, all) = generate-Holds disk_laws key s s' (ground arith) in
            let holds = All-Any (Holds s'.disk key) spec (specs tools keystore common) all one in
            (key, e, Holds-Opens json fn ctx key s'.disk laws spec v holds read made waits goes)
      ]
