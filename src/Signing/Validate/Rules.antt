-- ===== src/Signing/Validate/Rules.antt =====
-- What each rule of `validate` lets through.
use blockchain_ai_tools.Base.{
  ℕ, ◌^◌, ◌≤◌, ◌<◌, Bytes, text, same, same_iff, ne_of_same, [], ◌∷◌, Option, none, some, ok, ◌≡◌,
  ◌≢◌, ◌↔◌, ◌⊎◌, inl, inr, refl, arith,
}
use blockchain_ai_tools.Signing.Numbers.{parse_big_int, parse_uint64, bit_len}
use blockchain_ai_tools.Signing.Numbers.Numeral.{Numeral, parse_big_int_iff, parse_uint64_iff}
use blockchain_ai_tools.Signing.Numbers.Width.{bit_len_iff}
use blockchain_ai_tools.Signing.Validate.{
  validate_chain_id, check_guard, parse_tx_type, parse_amount, parse_counter,
}

-- A text that spells a number is not empty.
pub Numeral-ne-nil : (s : Bytes) (n : ℕ) → Numeral s n → s ≢ []
Numeral-ne-nil s n (inl h) e = h.some_digit e
Numeral-ne-nil s n (inr h) e = ground (arith, h.shape)

chain_id_parsed :
    (s : Bytes) (n : ℕ)
    → validate_chain_id s ≡ ok n
    → (parse_big_int s ≡ ok n) × (0 < n) × (n < 2 ^ 64)
unfolding validate_chain_id
chain_id_parsed s n h = ground arith

chain_id_valid :
    (s : Bytes) (n : ℕ)
    → s ≢ []
    → parse_big_int s ≡ ok n
    → 0 < n
    → n < 2 ^ 64
    → validate_chain_id s ≡ ok n
unfolding validate_chain_id
chain_id_valid [] n h p pos fits = absurd (h refl)
chain_id_valid (c ∷ s) n h p pos fits = ground arith

pub validate_chain_id_iff :
    (s : Bytes) (n : ℕ) → (validate_chain_id s ≡ ok n) ↔ (Numeral s n × (0 < n) × (n < 2 ^ 64))
validate_chain_id_iff s n = (
  λ h.
      let (parsed, pos, fits) = chain_id_parsed s n h in
      ((parse_big_int_iff s n).0 parsed, pos, fits),
  λ h. chain_id_valid s n (Numeral-ne-nil s n h.0) ((parse_big_int_iff s n).1 h.0) h.1 h.2,
)

-- The guard allows its own chain id, and any where there is none.
abbrev pub Allowed : Option ℕ → ℕ → Type 0
Allowed none chain_id = Unit
Allowed (some guard) chain_id = chain_id ≡ guard

pub check_guard_iff : (n : ℕ) (guard : Option ℕ) → (check_guard n guard ≡ ok tt) ↔ Allowed guard n
unfolding check_guard
check_guard_iff n none = (λ h. tt, λ h. refl)
check_guard_iff n (some g) = (λ h. ground arith, λ h. ground arith)

-- The names of the two transaction types.
abbrev pub TypeName : Bytes → ℕ → Type 0
TypeName s t =
    (((s ≡ text "0x0") ⊎ (s ≡ text "legacy")) × (t ≡ 0))
    ⊎ (((s ≡ text "0x2") ⊎ (s ≡ text "eip1559")) × (t ≡ 2))

names_differ :
    (text "0x2" ≢ text "0x0")
    × (text "0x2" ≢ text "legacy")
    × (text "eip1559" ≢ text "0x0")
    × (text "eip1559" ≢ text "legacy")
unfolding text same
names_differ = (ne_of_same _ _ refl, ne_of_same _ _ refl, ne_of_same _ _ refl, ne_of_same _ _ refl)

pub parse_tx_type_iff : (s : Bytes) (t : ℕ) → (parse_tx_type s ≡ ok t) ↔ TypeName s t
unfolding parse_tx_type
parse_tx_type_iff s t = (
  λ h. ground (
    arith,
    same_iff s (text "0x0"),
    same_iff s (text "legacy"),
    same_iff s (text "0x2"),
    same_iff s (text "eip1559"),
  ),
  λ h. ground (
    arith,
    names_differ,
    same_iff s (text "0x0"),
    same_iff s (text "legacy"),
    same_iff s (text "0x2"),
    same_iff s (text "eip1559"),
  ),
)

amount_parsed :
    (s a b : Bytes) (n : ℕ)
    → parse_amount s a b ≡ ok n
    → (parse_big_int s ≡ ok n) × (bit_len n ≤ 256)
unfolding parse_amount
amount_parsed s a b n h = ground arith

amount_valid :
    (s a b : Bytes) (n : ℕ) → parse_big_int s ≡ ok n → bit_len n ≤ 256 → parse_amount s a b ≡ ok n
unfolding parse_amount
amount_valid s a b n h fits = ground arith

-- A numeral of at most 256 bits.
abbrev pub Amount : Bytes → ℕ → Type 0
Amount s n = Numeral s n × (n < 2 ^ 256)

pub parse_amount_iff : (s a b : Bytes) (n : ℕ) → (parse_amount s a b ≡ ok n) ↔ Amount s n
parse_amount_iff s a b n = (
  λ h.
      let (parsed, fits) = amount_parsed s a b n h in
      ((parse_big_int_iff s n).0 parsed, (bit_len_iff 256 n).0 fits),
  λ h. amount_valid s a b n ((parse_big_int_iff s n).1 h.0) ((bit_len_iff 256 n).1 h.1),
)

counter_parsed : (s m : Bytes) (n : ℕ) → parse_counter s m ≡ ok n → parse_uint64 s ≡ ok n
unfolding parse_counter
counter_parsed s m n h = ground arith

-- A numeral of a uint64.
abbrev pub Counter : Bytes → ℕ → Type 0
Counter s n = Numeral s n × (n < 2 ^ 64)

pub parse_counter_iff : (s m : Bytes) (n : ℕ) → (parse_counter s m ≡ ok n) ↔ Counter s n
unfolding parse_counter
parse_counter_iff s m n =
    (λ h. (parse_uint64_iff s n).0 (counter_parsed s m n h), λ h. rw ((parse_uint64_iff s n).1 h))
