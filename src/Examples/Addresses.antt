-- ===== src/Examples/Addresses.antt =====
-- An instance of the package `common` that meets its laws. It prints addresses in lower case.
use blockchain_ai_tools.Base.{
  ℕ, zero, suc, ◌*◌, Bytes, All, Bool, true, false, ◌&&◌, ◌||◌, ◌==◌, if◌then◌else◌, Bool-cases, [],
  ◌∷◌, length, drop, Option, none, some, Option-cases, ◌≡◌, ◌⊎◌, inl, inr, refl, arith, ap,
}
use blockchain_ai_tools.Signing.Numbers.{has_hex_prefix}
use blockchain_ai_tools.Signing.Numbers.Numeral.{IsHexDigit}
use blockchain_ai_tools.Signing.Hex.{hex_encode, hex_decode}
use blockchain_ai_tools.Signing.Hex.Spelling.{
  Spells, Spells-hex_encode, hex_decode_sound, hex_decode_complete,
}
use blockchain_ai_tools.Signing.Address.{Common, Address}
use blockchain_ai_tools.Signing.Address.Laws.{IsAddress, IsHexForm, IsCommon}
use blockchain_ai_tools.Signing.Address.Recipient.{Spells-IsHexDigit}

unfoldable pub without_prefix : Bytes → Bytes
without_prefix s = if has_hex_prefix s then drop 2 s else s

unfoldable pub found : Option Bytes → Bool
found none = false
found (some _) = true

unfoldable pub or_nothing : Option Bytes → Bytes
or_nothing none = []
or_nothing (some b) = b

unfoldable pub plain_common : Common
unfolding without_prefix found or_nothing
plain_common = record {
  is_hex_address = λ s. length (without_prefix s) == 40 && found (hex_decode (without_prefix s));
  hex_to_address = λ s. or_nothing (hex_decode (without_prefix s));
  hex = λ a. b'0' ∷ b'x' ∷ hex_encode a;
}

-- Digits come in pairs.
spelled_by_digits :
    (n : ℕ) (s : Bytes) → length s ≡ 2 * n → All IsHexDigit s → (b : Bytes) × Spells s b
spelled_by_digits zero [] h d = ([], tt)
spelled_by_digits zero (_ ∷ _) h d = absurd (omega (arith, h))
spelled_by_digits (suc n) [] h d = absurd (omega (arith, h))
spelled_by_digits (suc n) (_ ∷ []) h d = absurd (omega (arith, h))
spelled_by_digits (suc n) (x ∷ y ∷ s) h (hx, (hy, d)) =
    let (b, spells) = spelled_by_digits n s (omega (arith, h)) d in (_ ∷ b, (hx, hy, refl, spells))

not_prefixed : (s : Bytes) → All IsHexDigit s → has_hex_prefix s ≡ false
not_prefixed [] h = refl
not_prefixed (_ ∷ []) h = ground arith
not_prefixed (c ∷ d ∷ s) (hc, (hd, h)) = ground arith

without_prefix-IsHexForm : (s digits : Bytes) → IsHexForm s digits → without_prefix s ≡ digits
unfolding without_prefix
without_prefix-IsHexForm s digits h = elim h.shape [
  | inl lower ↦ ap (λ t. if has_hex_prefix t then drop 2 t else t) lower
  | inr (inl upper) ↦ ap (λ t. if has_hex_prefix t then drop 2 t else t) upper
  | inr (inr bare) ↦ let n = not_prefixed digits h.hex_digits in rw bare (ground arith)
]

without_prefix-shape :
    (s : Bytes)
    → (s ≡ b'0' ∷ b'x' ∷ without_prefix s)
      ⊎ ((s ≡ b'0' ∷ b'X' ∷ without_prefix s) ⊎ (s ≡ without_prefix s))
unfolding without_prefix
without_prefix-shape [] = inr (inr refl)
without_prefix-shape (_ ∷ []) = inr (inr refl)
without_prefix-shape (z ∷ x ∷ s) = elim (Bool-cases (z == b'0' && (x == b'x' || x == b'X'))) [
  | inr bare ↦ inr (inr (ground arith))
  | inl prefixed ↦ elim (Bool-cases (x == b'x')) [
    | inl lower ↦ inl (ground arith)
    | inr upper ↦ inr (inl (ground arith))
  ]
]

spelled_form : (s digits : Bytes) → IsHexForm s digits → (b : Bytes) × Spells digits b
spelled_form s digits h = spelled_by_digits 20 digits h.sized h.hex_digits

plain_recognised :
    (s : Bytes) → plain_common.is_hex_address s ≡ true → (digits : Bytes) × IsHexForm s digits
unfolding plain_common
plain_recognised s h = elim (Option-cases (hex_decode (without_prefix s))) [
  | inl nothing ↦ absurd (ground arith)
  | inr (b, decoded) ↦ (
    without_prefix s,
    record {
      shape = without_prefix-shape s;
      sized = ground arith;
      hex_digits = Spells-IsHexDigit _ b (hex_decode_sound _ b decoded);
    },
  )
]

plain_recognises : (s digits : Bytes) → IsHexForm s digits → plain_common.is_hex_address s ≡ true
unfolding plain_common
plain_recognises s digits h =
    let (b, spells) = spelled_form s digits h in
    let same_digits = without_prefix-IsHexForm s digits h in
    let decoded = hex_decode_complete digits b spells in
    let sized = h.sized in rw same_digits (rw decoded (rw sized refl))

plain_decodes :
    (s digits : Bytes) → IsHexForm s digits → Spells digits (plain_common.hex_to_address s)
unfolding plain_common
plain_decodes s digits h =
    let (b, spells) = spelled_form s digits h in
    let same_digits = without_prefix-IsHexForm s digits h in
    let decoded = hex_decode_complete digits b spells in rw same_digits (rw decoded spells)

plain_prints :
    (a : Address)
    → IsAddress a
    → (digits : Bytes) × (plain_common.hex a ≡ b'0' ∷ b'x' ∷ digits) × Spells digits a
unfolding plain_common
plain_prints a h = (hex_encode a, refl, Spells-hex_encode a h.1)

pub plain_common-IsCommon : IsCommon plain_common
plain_common-IsCommon = record {
  recognised = plain_recognised;
  recognises = plain_recognises;
  decodes = plain_decodes;
  prints = plain_prints;
}
