-- ===== src/Signing/Keystore/Load.antt =====
-- When the constructor succeeds, and how it fails.
use blockchain_ai_tools.Base.{
  Bytes, not_empty, [], ◌∷◌, Option, none, some, Result, ok, err, ap, ◌∙◌, some_eq, invert_err,
  Result-cases, invert, ok-injective, ◌≡◌, ◌≢◌, ◌↔◌, inl, inr, refl, arith, subst,
}
use blockchain_ai_tools.Signing.Errors.{Error, tool, tool_error, cause, keystore_error}
use blockchain_ai_tools.Signing.Address.{Common, Address, validate_keystore_address_field}
use blockchain_ai_tools.Signing.Address.Laws.{IsCommon}
use blockchain_ai_tools.Signing.Address.Declared.{IsDeclared, validate_keystore_address_field_iff}
use blockchain_ai_tools.Signing.Keystore.{
  KeystoreShape, Json, FileKeyVault, VaultOptions, validate_keystore_crypto_shape, declared_address,
  new_file_key_vault, or_keystore_error,
}
use blockchain_ai_tools.Signing.Keystore.Shape.{IsWeb3V3, check_shape_iff}

-- No address, or the one that the field declares.
abbrev pub Declaration : Common → Bytes → Option Address → Type 0
Declaration common field none = field ≡ []
Declaration common field (some a) = (field ≢ []) × IsDeclared common field a

-- A *ToolError with the code of the keystore and its cause kept.
abbrev pub IsKeystoreError : Error → Type 0
IsKeystoreError e = (m : Bytes) × (c : Error) × (e ≡ tool (tool_error keystore_error m (cause c)))

-- What a file must hold for a vault to be made of it.
pub record Loads (json : Json) (common : Common) (read_file : Bytes → Result Error Bytes)
    (opts : VaultOptions) (v : FileKeyVault) : Type 0 where
  pub contents : read_file opts.keystore_path ≡ ok v.keystore_json
  pub shape : KeystoreShape
  pub shaped : json.unmarshal_shape v.keystore_json ≡ ok shape
  pub version_3 : IsWeb3V3 shape
  pub field : Bytes
  pub fielded : json.unmarshal_address v.keystore_json ≡ ok field
  pub address : Declaration common field v.address
  pub path : v.password_path ≡ opts.password_path
  pub unlocked : v.sem ≡ 0

module _ {ℓ} {A : Type ℓ} where
  or_keystore_error-ok :
      (r : Result Error A) (m : Bytes) {a : A} → or_keystore_error r m ≡ ok a → r ≡ ok a
  or_keystore_error-ok (ok a) m h = h
  or_keystore_error-ok (err e) m h = absurd (cc)

  or_keystore_error-err :
      (r : Result Error A) (m : Bytes) {e : Error}
      → or_keystore_error r m ≡ err e
      → IsKeystoreError e
  or_keystore_error-err (ok a) m h = absurd (cc)
  or_keystore_error-err (err c) m h = (m, c, cc)

module _ (common : Common) (laws : IsCommon common) where
  declared_sound :
      (field : Bytes) (a : Option Address)
      → declared_address common field ≡ ok a
      → Declaration common field a
  unfolding declared_address
  declared_sound [] none h = refl
  declared_sound [] (some a) h = cc
  declared_sound (c ∷ s) none h = absurd (
      invert (or_keystore_error (validate_keystore_address_field common (c ∷ s)) _) _ h
        (λ b _ e. cc))
  declared_sound (c ∷ s) (some a) h =
      invert (or_keystore_error (validate_keystore_address_field common (c ∷ s)) _) _ h
        λ b parsed e. (
          λ nil. cc,
          (validate_keystore_address_field_iff common laws (c ∷ s) a).0
              (or_keystore_error-ok _ _ parsed ∙ ap ok (some_eq (ok-injective e))),
        )

  declared_complete :
      (field : Bytes) (a : Option Address)
      → Declaration common field a
      → declared_address common field ≡ ok a
  unfolding declared_address
  declared_complete [] none h = refl
  declared_complete (c ∷ s) none h = absurd (cc)
  declared_complete field (some a) h =
      rw (not_empty field h.0, (validate_keystore_address_field_iff common laws field a).1 h.1)

module _ (json : Json) where
  shape_sound :
      (contents : Bytes)
      → validate_keystore_crypto_shape json contents ≡ ok tt
      → (shape : KeystoreShape) × (json.unmarshal_shape contents ≡ ok shape) × IsWeb3V3 shape
  unfolding validate_keystore_crypto_shape
  shape_sound contents h = elim (Result-cases (json.unmarshal_shape contents)) [
    | inl (shape, e) ↦ (shape, e, (check_shape_iff shape).0 (ground arith))
    | inr (e', e) ↦ absurd (ground arith)
  ]

  shape_complete :
      (contents : Bytes) (shape : KeystoreShape)
      → json.unmarshal_shape contents ≡ ok shape
      → IsWeb3V3 shape
      → validate_keystore_crypto_shape json contents ≡ ok tt
  unfolding validate_keystore_crypto_shape
  shape_complete contents shape e h =
      rw (e, validate_keystore_crypto_shape) ((check_shape_iff shape).1 h)

module _ (json : Json) (common : Common) (laws : IsCommon common) where
  load_sound :
      (read_file : Bytes → Result Error Bytes) (opts : VaultOptions) (v : FileKeyVault)
      → new_file_key_vault json common read_file opts ≡ ok v
      → Loads json common read_file opts v
  unfolding new_file_key_vault
  load_sound read_file opts v h =
      invert (or_keystore_error (read_file opts.keystore_path) _) _ h λ contents read h1.
        invert (or_keystore_error (json.unmarshal_address contents) _) _ h1 λ field decoded h2.
          invert (or_keystore_error (validate_keystore_crypto_shape json contents) _) _ h2
            λ _ checked h3. invert (declared_address common field) _ h3 λ address declared built.
              let (shape, shaped, version_3) =
                shape_sound json contents (or_keystore_error-ok _ _ checked) in
              subst (Loads json common read_file opts) (ok-injective built) (record {
                contents = or_keystore_error-ok _ _ read;
                shape = shape;
                shaped = shaped;
                version_3 = version_3;
                field = field;
                fielded = or_keystore_error-ok _ _ decoded;
                address = declared_sound common laws field address declared;
                path = refl;
                unlocked = refl;
              })

  load_complete :
      (read_file : Bytes → Result Error Bytes) (opts : VaultOptions) (v : FileKeyVault)
      → Loads json common read_file opts v
      → new_file_key_vault json common read_file opts ≡ ok v
  unfolding new_file_key_vault
  load_complete read_file opts v h = rw (
    h.contents,
    h.fielded,
    shape_complete json v.keystore_json h.shape h.shaped h.version_3,
    declared_complete common laws h.field v.address h.address,
    h.path,
    h.unlocked,
  )

  -- A vault is made of exactly the files that load, and holds their snapshot and address, unlocked.
  pub new_file_key_vault_iff :
      (read_file : Bytes → Result Error Bytes) (opts : VaultOptions) (v : FileKeyVault)
      → (new_file_key_vault json common read_file opts ≡ ok v) ↔ Loads json common read_file opts v
  new_file_key_vault_iff read_file opts v =
      (load_sound read_file opts v, load_complete read_file opts v)

-- Every failure of the constructor is a keystore error with its cause.
pub new_file_key_vault_fails :
    (json : Json) (common : Common) (read_file : Bytes → Result Error Bytes) (opts : VaultOptions)
    (e : Error)
    → new_file_key_vault json common read_file opts ≡ err e
    → IsKeystoreError e
unfolding new_file_key_vault declared_address
new_file_key_vault_fails json common read_file opts e h =
    invert_err (or_keystore_error (read_file opts.keystore_path) _) _ h (or_keystore_error-err _ _)
      λ contents _ h1.
        invert_err (or_keystore_error (json.unmarshal_address contents) _) _ h1
          (or_keystore_error-err _ _)
          λ field _ h2.
            invert_err (or_keystore_error (validate_keystore_crypto_shape json contents) _) _ h2
              (or_keystore_error-err _ _)
              λ _ _ h3.
                invert_err (declared_address common field) _ h3 (address_fails field)
                  (λ _ _ h4. absurd (cc))
  where
    address_fails : (field : Bytes) → declared_address common field ≡ err e → IsKeystoreError e
    address_fails [] h' = absurd (cc)
    address_fails (c ∷ s) h' =
        invert_err (or_keystore_error (validate_keystore_address_field common (c ∷ s)) _) _ h'
          (or_keystore_error-err _ _) (λ _ _ h4. absurd (cc))
