-- ===== src/Signing/Keystore/Shape.antt =====
-- Which keystore documents the constructor accepts, and the vault that it makes.
use blockchain_ai_tools.Base.{
  Bytes, text, same_iff, same_refl, not_same, not_empty, is_empty, true, false, [], some, ok, ◌≡◌,
  ◌≢◌, ◌⊎◌, ◌↔◌, inl, inr, arith,
}
use blockchain_ai_tools.Signing.Numbers.{pos}
use blockchain_ai_tools.Signing.Keystore.{
  KeystoreShape, is_recognised_cipher, is_recognised_kdf, check_shape,
}

-- Web3 Secret Storage v3 with algorithms that go-ethereum decrypts.
pub record IsWeb3V3 (shape : KeystoreShape) : Type 0 where
  pub version : shape.version ≡ some (pos 3)
  pub cipher : shape.cipher ≡ text "aes-128-ctr"
  pub kdf : (shape.kdf ≡ text "scrypt") ⊎ (shape.kdf ≡ text "pbkdf2")
  pub kdf_params : (shape.kdf_params ≢ []) × (shape.kdf_params ≢ text "null")
  pub mac : shape.mac ≢ []
  pub ciphertext : shape.ciphertext ≢ []

check_shape_sound : (shape : KeystoreShape) → check_shape shape ≡ ok tt → IsWeb3V3 shape
unfolding check_shape is_recognised_cipher is_recognised_kdf
check_shape_sound shape h = record {
  version = ground arith;
  cipher = ground (arith, same_iff shape.cipher (text "aes-128-ctr"));
  kdf = ground (arith, same_iff shape.kdf (text "scrypt"), same_iff shape.kdf (text "pbkdf2"));
  kdf_params = (λ e. ground arith, λ e. ground (arith, same_iff shape.kdf_params (text "null")));
  mac = λ e. ground arith;
  ciphertext = λ e. ground arith;
}

names_not_empty : (text "aes-128-ctr" ≢ []) × (text "scrypt" ≢ []) × (text "pbkdf2" ≢ [])
unfolding text
names_not_empty = (λ e. cc, λ e. cc, λ e. cc)

kdf_not_empty : (s : Bytes) → (s ≡ text "scrypt") ⊎ (s ≡ text "pbkdf2") → is_empty s ≡ false
kdf_not_empty s (inl e) = rw e (not_empty _ names_not_empty.1)
kdf_not_empty s (inr e) = rw e (not_empty _ names_not_empty.2)

kdf_recognised :
    (s : Bytes) → (s ≡ text "scrypt") ⊎ (s ≡ text "pbkdf2") → is_recognised_kdf s ≡ true
unfolding is_recognised_kdf
kdf_recognised s h = ground (arith, same_iff s (text "scrypt"), same_iff s (text "pbkdf2"))

check_shape_complete : (shape : KeystoreShape) → IsWeb3V3 shape → check_shape shape ≡ ok tt
unfolding check_shape is_recognised_cipher
check_shape_complete shape h = rw (
  h.version,
  h.cipher,
  not_empty _ names_not_empty.0,
  same_refl (text "aes-128-ctr"),
  kdf_not_empty shape.kdf h.kdf,
  kdf_recognised shape.kdf h.kdf,
  not_empty shape.kdf_params h.kdf_params.0,
  not_same shape.kdf_params (text "null") h.kdf_params.1,
  not_empty shape.mac h.mac,
  not_empty shape.ciphertext h.ciphertext,
)

-- The checks let through exactly the documents of version 3 with known algorithms.
pub check_shape_iff : (shape : KeystoreShape) → (check_shape shape ≡ ok tt) ↔ IsWeb3V3 shape
check_shape_iff shape = (check_shape_sound shape, check_shape_complete shape)
