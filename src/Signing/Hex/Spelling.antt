-- ===== src/Signing/Hex/Spelling.antt =====
-- Which texts spell which bytes in hexadecimal, that the decoder and parseData accept just these,
-- and that the decoder undoes the encoder.
use blockchain_ai_tools.Base.{
  ℕ, ◌+◌, ◌*◌, ◌≤◌, Bytes, IsByte, All, [], ◌∷◌, length, Option, none, some, ok, ◌≡◌, ◌≢◌, ◌⊎◌, ◌↔◌,
  refl, arith,
}
use blockchain_ai_tools.Signing.Numbers.Numeral.{IsHexDigit, hex_digit_value}
use blockchain_ai_tools.Signing.Hex.{
  hex_encode, hex_decode, from_hex_char, join_nibbles, max_data_bytes, decode_hex_part, parse_data,
}

-- Two digits for each byte.
abbrev pub Spells : Bytes → Bytes → Type 0
Spells [] [] = Unit
Spells (h ∷ l ∷ s) (b ∷ t) =
    IsHexDigit h × IsHexDigit l × (b ≡ 16 * hex_digit_value h + hex_digit_value l) × Spells s t
Spells _ _ = ⊥

from_hex_char_sound : (c n : ℕ) → from_hex_char c ≡ some n → IsHexDigit c × (n ≡ hex_digit_value c)
from_hex_char_sound c n h = ground arith

-- Inversion of a pair of digits that is joined to the rest.
join_nibbles-eq-some :
    (h l : Option ℕ) (rest : Option Bytes) (c : ℕ) (b : Bytes)
    → join_nibbles h l rest ≡ some (c ∷ b)
    → (m : ℕ) × (n : ℕ) × (h ≡ some m) × (l ≡ some n) × (c ≡ m * 16 + n) × (rest ≡ some b)
join_nibbles-eq-some none l rest c b h = cc
join_nibbles-eq-some (some m) none rest c b h = cc
join_nibbles-eq-some (some m) (some n) none c b h = cc
join_nibbles-eq-some (some m) (some n) (some r) c b h =
    (m, n, refl, refl, ground arith, ground arith)

join_nibbles-ne-nil : (h l : Option ℕ) (rest : Option Bytes) → join_nibbles h l rest ≢ some []
join_nibbles-ne-nil none l rest e = cc
join_nibbles-ne-nil (some m) none rest e = cc
join_nibbles-ne-nil (some m) (some n) none e = cc
join_nibbles-ne-nil (some m) (some n) (some r) e = ground arith

pub hex_decode_sound : (s b : Bytes) → hex_decode s ≡ some b → Spells s b
unfolding hex_decode
hex_decode_sound [] [] h = tt
hex_decode_sound [] (_ ∷ _) h = cc
hex_decode_sound (_ ∷ []) b h = cc
hex_decode_sound (x ∷ y ∷ s) [] h =
    absurd (join_nibbles-ne-nil (from_hex_char x) (from_hex_char y) (hex_decode s) h)
hex_decode_sound (x ∷ y ∷ s) (c ∷ b) h =
    let (m, n, high, low, joined, rest) =
      join_nibbles-eq-some (from_hex_char x) (from_hex_char y) (hex_decode s) c b h in
    let (hx, ex) = from_hex_char_sound x m high in
    let (hy, ey) = from_hex_char_sound y n low in (hx, hy, omega arith, hex_decode_sound s b rest)

pub hex_decode_complete : (s b : Bytes) → Spells s b → hex_decode s ≡ some b
unfolding hex_decode
hex_decode_complete [] [] h = refl
hex_decode_complete [] (_ ∷ _) h = elim h [ ]
hex_decode_complete (_ ∷ []) [] h = elim h [ ]
hex_decode_complete (_ ∷ []) (_ ∷ _) h = elim h [ ]
hex_decode_complete (x ∷ y ∷ s) [] h = elim h [ ]
hex_decode_complete (x ∷ y ∷ s) (c ∷ b) h = ground (arith, hex_decode_complete s b h.3)

pub length-Spells : (s b : Bytes) → Spells s b → length s ≡ 2 * length b
length-Spells [] [] h = refl
length-Spells [] (_ ∷ _) h = elim h [ ]
length-Spells (_ ∷ []) [] h = elim h [ ]
length-Spells (_ ∷ []) (_ ∷ _) h = elim h [ ]
length-Spells (x ∷ y ∷ s) [] h = elim h [ ]
length-Spells (x ∷ y ∷ s) (c ∷ b) h = omega (arith, length-Spells s b h.3)

pub Spells-IsByte : (s b : Bytes) → Spells s b → All IsByte b
Spells-IsByte s [] h = tt
Spells-IsByte [] (_ ∷ _) h = elim h [ ]
Spells-IsByte (_ ∷ []) (_ ∷ _) h = elim h [ ]
Spells-IsByte (x ∷ y ∷ s) (c ∷ b) h = (ground arith, Spells-IsByte s b h.3)

pub Spells-hex_encode : (b : Bytes) → All IsByte b → Spells (hex_encode b) b
unfolding hex_encode
Spells-hex_encode [] h = tt
Spells-hex_encode (c ∷ b) h = (ground arith, ground arith, ground arith, Spells-hex_encode b h.1)

-- Decoding undoes encoding, for every list of bytes.
pub hex_decode-hex_encode : (b : Bytes) → All IsByte b → hex_decode (hex_encode b) ≡ some b
hex_decode-hex_encode b h = hex_decode_complete (hex_encode b) b (Spells-hex_encode b h)

-- What the documentation of parseData describes: the prefix, then at most 256 KiB in digits.
pub record IsCalldata (s b : Bytes) : Type 0 where
  pub marker : ℕ
  pub rest : Bytes
  pub shape : s ≡ b'0' ∷ marker ∷ rest
  pub marked : (marker ≡ b'x') ⊎ (marker ≡ b'X')
  pub spelled : Spells rest b
  pub within : length b ≤ max_data_bytes

decode_hex_part_sound :
    (s b : Bytes) → decode_hex_part s ≡ ok b → Spells s b × (length b ≤ max_data_bytes)
unfolding decode_hex_part
decode_hex_part_sound [] [] h = (tt, omega arith)
decode_hex_part_sound [] (_ ∷ _) h = cc
decode_hex_part_sound (c ∷ s) b h = (hex_decode_sound (c ∷ s) b (ground arith), ground arith)

decode_hex_part_complete :
    (s b : Bytes) → Spells s b → length b ≤ max_data_bytes → decode_hex_part s ≡ ok b
unfolding decode_hex_part
decode_hex_part_complete [] [] h fits = refl
decode_hex_part_complete [] (_ ∷ _) h fits = elim h [ ]
decode_hex_part_complete (c ∷ s) b h fits =
    ground (arith, hex_decode_complete (c ∷ s) b h, length-Spells (c ∷ s) b h)

parse_data_sound : (s b : Bytes) → parse_data s ≡ ok b → IsCalldata s b
unfolding parse_data
parse_data_sound [] b h = cc
parse_data_sound (z ∷ []) b h = cc
parse_data_sound (z ∷ x ∷ s) b h =
    let (spelled, within) = decode_hex_part_sound s b (ground arith) in
    record {
      marker = x;
      rest = s;
      shape = ground arith;
      marked = ground arith;
      spelled = spelled;
      within = within;
    }

parse_data_marked :
    (x : ℕ) (s : Bytes) → (x ≡ b'x') ⊎ (x ≡ b'X') → parse_data (b'0' ∷ x ∷ s) ≡ decode_hex_part s
unfolding parse_data
parse_data_marked x s h = ground arith

-- parseData accepts exactly the calldata, and returns its bytes.
pub parse_data_iff : (s b : Bytes) → (parse_data s ≡ ok b) ↔ IsCalldata s b
parse_data_iff s b = (
  parse_data_sound s b,
  λ h.
      rw (h.shape, parse_data_marked h.marker h.rest h.marked)
        (decode_hex_part_complete h.rest b h.spelled h.within),
)
