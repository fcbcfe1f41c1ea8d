-- ===== src/Signing/Address/Recipient.antt =====
-- Which texts parseToAddress accepts, and the address that it returns.
use blockchain_ai_tools.Base.{
  ℕ, Bytes, same_iff, All, true, false, Bool-cases, [], ◌∷◌, length, drop, none, some, ok, ◌≡◌, ◌⊎◌,
  ◌↔◌, inl, inr, refl, ap, arith, ◌∙◌,
}
use blockchain_ai_tools.Signing.Numbers.Numeral.{IsHexDigit}
use blockchain_ai_tools.Signing.Hex.Spelling.{Spells, length-Spells}
use blockchain_ai_tools.Signing.Address.{
  Common, Address, has_mixed_case, checksum_fails, parse_to_address,
}
use blockchain_ai_tools.Signing.Address.Laws.{IsAddress, IsHexForm, IsCommon}

-- Digits spell one list of bytes only.
pub Spells-unique : (s a b : Bytes) → Spells s a → Spells s b → a ≡ b
Spells-unique [] [] [] h k = refl
Spells-unique [] [] (_ ∷ _) h k = elim k [ ]
Spells-unique [] (_ ∷ _) b h k = elim h [ ]
Spells-unique (_ ∷ []) [] b h k = elim h [ ]
Spells-unique (_ ∷ []) (_ ∷ _) b h k = elim h [ ]
Spells-unique (x ∷ y ∷ s) [] b h k = elim h [ ]
Spells-unique (x ∷ y ∷ s) (c ∷ a) [] h k = elim k [ ]
Spells-unique (x ∷ y ∷ s) (c ∷ a) (d ∷ b) h k = ground (arith, Spells-unique s a b h.3 k.3)

pub Spells-IsHexDigit : (s a : Bytes) → Spells s a → All IsHexDigit s
Spells-IsHexDigit [] a h = tt
Spells-IsHexDigit (_ ∷ []) [] h = elim h [ ]
Spells-IsHexDigit (_ ∷ []) (_ ∷ _) h = elim h [ ]
Spells-IsHexDigit (x ∷ y ∷ s) [] h = elim h [ ]
Spells-IsHexDigit (x ∷ y ∷ s) (c ∷ a) h = (h.0, (h.1, Spells-IsHexDigit s a h.3))

-- What the documentation of parseToAddress describes: a prefix, forty digits that spell the address,
-- and, where the digits mix cases, the checksummed spelling.
pub record IsRecipient (common : Common) (s : Bytes) (a : Address) : Type 0 where
  pub marker : ℕ
  pub digits : Bytes
  pub shape : s ≡ b'0' ∷ marker ∷ digits
  pub marked : (marker ≡ b'x') ⊎ (marker ≡ b'X')
  pub sized : length digits ≡ 40
  pub spelled : Spells digits a
  pub checksummed : has_mixed_case digits ≡ true → common.hex a ≡ b'0' ∷ b'x' ∷ digits

module _ (common : Common) (laws : IsCommon common) where
  open laws use {recognised, recognises, decodes, prints}

  accepted :
      (s : Bytes) (a : Address)
      → parse_to_address common s ≡ ok (some a)
      → (length s ≡ 42)
        × (common.is_hex_address s ≡ true)
        × (checksum_fails common s (drop 2 s) ≡ false)
        × (a ≡ common.hex_to_address s)
  unfolding parse_to_address
  accepted [] a h = cc
  accepted (c ∷ s) a h = ground arith

  accept :
      (s : Bytes)
      → length s ≡ 42
      → common.is_hex_address s ≡ true
      → checksum_fails common s (drop 2 s) ≡ false
      → parse_to_address common s ≡ ok (some (common.hex_to_address s))
  unfolding parse_to_address
  accept [] sized form checked = absurd (omega arith)
  accept (c ∷ s) sized form checked = ground arith

  pub checked_iff :
      (s digits : Bytes)
      → (checksum_fails common s digits ≡ false) ↔ (
          has_mixed_case digits ≡ true
          → common.hex (common.hex_to_address s) ≡ b'0' ∷ b'x' ∷ digits)
  unfolding checksum_fails
  checked_iff s digits = (
    λ h mixed.
        ground (arith, same_iff (common.hex (common.hex_to_address s)) (b'0' ∷ b'x' ∷ digits)),
    λ h. elim (Bool-cases (has_mixed_case digits)) [
      | inl mixed ↦
          ground
            (arith, h mixed, same_iff (common.hex (common.hex_to_address s)) (b'0' ∷ b'x' ∷ digits))
      | inr plain ↦ rw plain
    ],
  )

  prefixed_form :
      (s digits : Bytes)
      → IsHexForm s digits
      → length s ≡ 42
      → (marker : ℕ) × (s ≡ b'0' ∷ marker ∷ digits) × ((marker ≡ b'x') ⊎ (marker ≡ b'X'))
  prefixed_form s digits f sized = prefixed f.shape
    where
      prefixed :
          ((s ≡ b'0' ∷ b'x' ∷ digits) ⊎ ((s ≡ b'0' ∷ b'X' ∷ digits) ⊎ (s ≡ digits)))
          → (marker : ℕ) × (s ≡ b'0' ∷ marker ∷ digits) × ((marker ≡ b'x') ⊎ (marker ≡ b'X'))
      prefixed (inl e) = (b'x', e, inl refl)
      prefixed (inr (inl e)) = (b'X', e, inr refl)
      prefixed (inr (inr e)) = absurd (omega (arith, f.sized, ap length e))

  parse_to_address_sound :
      (s : Bytes) (a : Address) → parse_to_address common s ≡ ok (some a) → IsRecipient common s a
  parse_to_address_sound s a h =
      let (sized, form, checked, value) = accepted s a h in
      let (digits, f) = recognised s form in
      let (marker, shape, marked) = prefixed_form s digits f sized in
      record {
        marker = marker;
        digits = digits;
        shape = shape;
        marked = marked;
        sized = f.sized;
        spelled = rw value (decodes s digits f);
        checksummed = rw value ((checked_iff s digits).0 (rw (ap (drop 2) shape) at checked));
      }

  parse_to_address_complete :
      (s : Bytes) (a : Address) → IsRecipient common s a → parse_to_address common s ≡ ok (some a)
  parse_to_address_complete s a h =
      accept s (omega (arith, ap length h.shape, h.sized)) (recognises s h.digits form) (
        rw (ap (drop 2) h.shape)
          ((checked_iff s h.digits).1 (λ mixed. rw value (h.checksummed mixed))))
      ∙ ap (λ x. ok (some x)) value
    where
      form : IsHexForm s h.digits
      form = record {
        shape = ground arith;
        sized = h.sized;
        hex_digits = Spells-IsHexDigit h.digits a h.spelled;
      }

      value : common.hex_to_address s ≡ a
      value = Spells-unique h.digits _ a (decodes s h.digits form) h.spelled

  -- The texts that parseToAddress turns into an address are the recipients, each with its address.
  pub parse_to_address_iff :
      (s : Bytes) (a : Address) → (parse_to_address common s ≡ ok (some a)) ↔ IsRecipient common s a
  parse_to_address_iff s a = (parse_to_address_sound s a, parse_to_address_complete s a)

  -- The printed form of every address is accepted, and read back.
  pub parse_to_address-hex :
      (a : Address) → IsAddress a → parse_to_address common (common.hex a) ≡ ok (some a)
  parse_to_address-hex a h =
      let (digits, shape, spelled) = prints a h in
      parse_to_address_complete (common.hex a) a (record {
        marker = b'x';
        digits = digits;
        shape = shape;
        marked = inl refl;
        sized = omega (arith, length-Spells digits a spelled, h.0);
        spelled = spelled;
        checksummed = λ mixed. shape;
      })

-- Only the empty text, the creation of a contract, has no recipient.
pub parse_to_address-none_iff :
    (common : Common) (s : Bytes) → (parse_to_address common s ≡ ok none) ↔ (s ≡ [])
unfolding parse_to_address
parse_to_address-none_iff common [] = (λ h. refl, λ h. refl)
parse_to_address-none_iff common (c ∷ s) = (λ h. ground arith, λ h. cc)
