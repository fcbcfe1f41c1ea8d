-- ===== src/Signing/Address/Declared.antt =====
-- Which texts validateKeystoreAddressField accepts, and that it agrees with parseToAddress.
use blockchain_ai_tools.Base.{
  Bytes, true, false, ◌==◌, if◌then◌else◌, [], ◌∷◌, length, drop, some, ok, ◌≡◌, ◌↔◌, ◌⊎◌, inl, inr,
  ap, arith, ◌∙◌,
}
use blockchain_ai_tools.Signing.Hex.Spelling.{Spells}
use blockchain_ai_tools.Signing.Address.{
  Common, Address, has_mixed_case, checksum_fails, parse_to_address,
  validate_keystore_address_field,
}
use blockchain_ai_tools.Signing.Address.Laws.{IsHexForm, IsCommon}
use blockchain_ai_tools.Signing.Address.Recipient.{Spells-unique, checked_iff}

-- Forty digits with a prefix or none, checksummed if they mix cases.
pub record IsDeclared (common : Common) (s : Bytes) (a : Address) : Type 0 where
  pub digits : Bytes
  pub form : IsHexForm s digits
  pub spelled : Spells digits a
  pub checksummed : has_mixed_case digits ≡ true → common.hex a ≡ b'0' ∷ b'x' ∷ digits

abbrev pub hex_part : Bytes → Bytes
hex_part s = if length s == 42 then drop 2 s else s

hex_part-IsHexForm : (s digits : Bytes) → IsHexForm s digits → hex_part s ≡ digits
hex_part-IsHexForm s digits f = part f.shape
  where
    part :
        ((s ≡ b'0' ∷ b'x' ∷ digits) ⊎ ((s ≡ b'0' ∷ b'X' ∷ digits) ⊎ (s ≡ digits)))
        → hex_part s ≡ digits
    part (inl e) = rw e (ground (arith, f.sized))
    part (inr (inl e)) = rw e (ground (arith, f.sized))
    part (inr (inr e)) = ground (arith, f.sized, ap length e)

module _ (common : Common) where
  declared :
      (s : Bytes) (a : Address)
      → validate_keystore_address_field common s ≡ ok a
      → (common.is_hex_address s ≡ true)
        × (checksum_fails common s (hex_part s) ≡ false)
        × (common.hex_to_address s ≡ a)
  unfolding validate_keystore_address_field
  declared s a h = ground arith

  declare :
      (s : Bytes)
      → common.is_hex_address s ≡ true
      → checksum_fails common s (hex_part s) ≡ false
      → validate_keystore_address_field common s ≡ ok (common.hex_to_address s)
  unfolding validate_keystore_address_field
  declare s form checked = ground arith

module _ (common : Common) (laws : IsCommon common) where
  open laws use {recognised, recognises, decodes}

  field_sound :
      (s : Bytes) (a : Address)
      → validate_keystore_address_field common s ≡ ok a
      → IsDeclared common s a
  field_sound s a h =
      let (form, checked, value) = declared common s a h in
      let (digits, f) = recognised s form in
      let checked' : checksum_fails common s digits ≡ false =
        rw (hex_part-IsHexForm s digits f) at checked in
      record {
        digits = digits;
        form = f;
        spelled = rw value at (decodes s digits f);
        checksummed = rw value at ((checked_iff common laws s digits).0 checked');
      }

  declared_complete :
      (s : Bytes) (a : Address)
      → IsDeclared common s a
      → validate_keystore_address_field common s ≡ ok a
  declared_complete s a h =
      declare common s (recognises s h.digits h.form) (
        rw (hex_part-IsHexForm s h.digits h.form)
          ((checked_iff common laws s h.digits).1 (λ mixed. rw value (h.checksummed mixed))))
      ∙ ap ok value
    where
      value : common.hex_to_address s ≡ a
      value = Spells-unique h.digits _ a (decodes s h.digits h.form) h.spelled

  -- The declared forms are accepted, and no other text.
  pub validate_keystore_address_field_iff :
      (s : Bytes) (a : Address)
      → (validate_keystore_address_field common s ≡ ok a) ↔ IsDeclared common s a
  validate_keystore_address_field_iff s a = (field_sound s a, declared_complete s a)

-- On 42 bytes the two validators accept the same texts, with the same address.
pub validators_agree :
    (common : Common) (s : Bytes) (a : Address)
    → length s ≡ 42
    → (validate_keystore_address_field common s ≡ ok a) ↔ (parse_to_address common s ≡ ok (some a))
unfolding validate_keystore_address_field parse_to_address
validators_agree common [] a sized = absurd (omega arith)
validators_agree common (c ∷ s) a sized = (λ h. ground arith, λ h. ground arith)
