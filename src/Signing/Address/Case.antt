-- ===== src/Signing/Address/Case.antt =====
-- The loop of hasMixedCase.
use blockchain_ai_tools.Base.{
  ℕ, ◌≤◌, Bytes, Bool, true, false, Bool-cases, ◌&&◌, ◌||◌, Any, [], ◌∷◌, ◌≡◌, ◌⊎◌, ◌↔◌, inl, inr,
  refl, arith,
}
use mathlib.Core.Bool.{false≢true, not}
use blockchain_ai_tools.Signing.Address.{
  is_lower_hex, is_upper_hex, mixed_case_from, has_mixed_case,
}

abbrev pub IsLowerHex : ℕ → Type 0
IsLowerHex c = (b'a' ≤ c) × (c ≤ b'f')

abbrev pub IsUpperHex : ℕ → Type 0
IsUpperHex c = (b'A' ≤ c) × (c ≤ b'F')

-- A flag that is up counts as a letter that was seen.
abbrev Seen : Bool → (ℕ → Type 0) → Bytes → Type 0
Seen flag P s = (flag ≡ true) ⊎ Any P s

-- The flags behind a byte.
abbrev lower_flag : Bool → ℕ → Bool
lower_flag lower c = lower || is_lower_hex c

abbrev upper_flag : Bool → ℕ → Bool
upper_flag upper c = upper || (not (is_lower_hex c) && is_upper_hex c)

lower_flag-Seen :
    (lower : Bool) (c : ℕ) (s : Bytes)
    → Seen (lower_flag lower c) IsLowerHex s ↔ Seen lower IsLowerHex (c ∷ s)
lower_flag-Seen lower c s = (λ h. ground arith, λ h. ground arith)

upper_flag-Seen :
    (upper : Bool) (c : ℕ) (s : Bytes)
    → Seen (upper_flag upper c) IsUpperHex s ↔ Seen upper IsUpperHex (c ∷ s)
upper_flag-Seen upper c s = (λ h. ground arith, λ h. ground arith)

mixed_case_from_sound :
    (lower upper : Bool) (s : Bytes)
    → mixed_case_from lower upper s ≡ true
    → Seen lower IsLowerHex s × Seen upper IsUpperHex s
unfolding mixed_case_from
mixed_case_from_sound lower upper [] h = cc
mixed_case_from_sound lower upper (c ∷ s) h =
    elim (Bool-cases (lower_flag lower c && upper_flag upper c)) [
      | inl both ↦ (
        (lower_flag-Seen lower c s).0 (inl (ground arith)),
        (upper_flag-Seen upper c s).0 (inl (ground arith)),
      )
      | inr more ↦
          let (l, u) =
            mixed_case_from_sound (lower_flag lower c) (upper_flag upper c) s (rw more at h) in
          ((lower_flag-Seen lower c s).0 l, (upper_flag-Seen upper c s).0 u)
    ]

mixed_case_from_complete :
    (lower upper : Bool) (s : Bytes)
    → (lower && upper) ≡ false
    → Seen lower IsLowerHex s
    → Seen upper IsUpperHex s
    → mixed_case_from lower upper s ≡ true
unfolding mixed_case_from
mixed_case_from_complete lower upper [] off hl hu = ground arith
mixed_case_from_complete lower upper (c ∷ s) off hl hu =
    elim (Bool-cases (lower_flag lower c && upper_flag upper c)) [
      | inl both ↦ rw both
      | inr more ↦ rw more (
          mixed_case_from_complete (lower_flag lower c) (upper_flag upper c) s more
            ((lower_flag-Seen lower c s).1 hl) ((upper_flag-Seen upper c s).1 hu))
    ]

seen : (P : ℕ → Type 0) (s : Bytes) → Seen false P s → Any P s
seen P s (inl e) = absurd (false≢true e)
seen P s (inr h) = h

-- Exactly the texts with a letter of either case are mixed.
pub has_mixed_case_iff :
    (s : Bytes) → (has_mixed_case s ≡ true) ↔ (Any IsLowerHex s × Any IsUpperHex s)
unfolding has_mixed_case
has_mixed_case_iff s = (
  λ h.
      let (l, u) = mixed_case_from_sound false false s h in
      (seen IsLowerHex s l, seen IsUpperHex s u),
  λ h. mixed_case_from_complete false false s refl (inr h.0) (inr h.1),
)
