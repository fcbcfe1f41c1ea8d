-- ===== src/Signing/Sentinel/Leaks.antt =====
-- What the scan of an output says of a secret.
use blockchain_ai_tools.Base.{ℕ, Bytes, IsByte, map, text, List, [], ◌∷◌, All, Any, ◌≡◌, ◌↔◌}
use blockchain_ai_tools.Signing.Hex.{hex_encode}
use blockchain_ai_tools.Signing.Sentinel.{
  Sentinel, to_upper_char, base64_encode, decimal_text, derived_forms, std_char, url_char,
  set_bytes,
}
use blockchain_ai_tools.Signing.Sentinel.Encodings.{
  HexText, Base64Text, BigEndian, Decimal, hex_lower-HexText, hex_upper-HexText, base64-Base64Text,
  set_bytes-BigEndian, decimal_text-Decimal,
}
use blockchain_ai_tools.Signing.Sentinel.Scan.{Occurs}

-- An item of a list.
abbrev Among : List (Bytes × Bytes) → Bytes × Bytes → Type 0
Among fs f = Any (λ g. g ≡ f) fs

-- The encodings of a secret.
pub record Encodings (raw : Bytes) : Type 0 where
  pub hex_lower : Bytes
  pub hex_upper : Bytes
  pub base64_std : Bytes
  pub base64_raw : Bytes
  pub base64_url : Bytes
  pub base64_rawurl : Bytes
  pub value : ℕ
  pub decimal : Bytes
  pub is_hex_lower : HexText b'a' raw hex_lower
  pub is_hex_upper : HexText b'A' raw hex_upper
  pub is_base64_std : Base64Text b'+' b'/' (text "=") raw base64_std
  pub is_base64_raw : Base64Text b'+' b'/' [] raw base64_raw
  pub is_base64_url : Base64Text b'-' b'_' (text "=") raw base64_url
  pub is_base64_rawurl : Base64Text b'-' b'_' [] raw base64_rawurl
  pub is_value : BigEndian raw value
  pub is_decimal : Decimal value decimal

module _ (raw : Bytes) (e : Encodings raw) where
  -- The encodings with their names, and the bytes themselves.
  abbrev pub named : List (Bytes × Bytes)
  named =
      (text "raw", raw)
      ∷ (text "hex-lower", e.hex_lower)
      ∷ (text "hex-upper", e.hex_upper)
      ∷ (text "base64-std", e.base64_std)
      ∷ (text "base64-raw", e.base64_raw)
      ∷ (text "base64-url", e.base64_url)
      ∷ (text "base64-rawurl", e.base64_rawurl)
      ∷ (text "decimal", e.decimal)
      ∷ []

  -- A name is that of an encoding of the secret, which occurs in the output.
  abbrev pub NamesLeak : Bytes → Bytes → Type 0
  NamesLeak output name = (form : Bytes) × Any (λ g. g ≡ (name, form)) named × Occurs form output

  abbrev pub NoLeak : Bytes → Type 0
  NoLeak output = All (λ f. ¬ (Occurs f.1 output)) named

-- What the scan of an output for a secret tells.
pub record Tells (raw output : Bytes) (found : List Bytes) : Type 0 where
  pub encodings : Encodings raw
  pub silence : (found ≡ []) ↔ NoLeak raw encodings output
  pub leaks : All (NamesLeak raw encodings output) found

abbrev encodings_of : (raw : Bytes) → All IsByte raw → Encodings raw
encodings_of raw h = record {
  hex_lower = hex_encode raw;
  hex_upper = map to_upper_char (hex_encode raw);
  base64_std = base64_encode std_char (text "=") raw;
  base64_raw = base64_encode std_char [] raw;
  base64_url = base64_encode url_char (text "=") raw;
  base64_rawurl = base64_encode url_char [] raw;
  value = set_bytes 0 raw;
  decimal = decimal_text (set_bytes 0 raw);
  is_hex_lower = hex_lower-HexText raw h;
  is_hex_upper = hex_upper-HexText raw h;
  is_base64_std = base64-Base64Text b'+' b'/' (text "=") raw h;
  is_base64_raw = base64-Base64Text b'+' b'/' [] raw h;
  is_base64_url = base64-Base64Text b'-' b'_' (text "=") raw h;
  is_base64_rawurl = base64-Base64Text b'-' b'_' [] raw h;
  is_value = set_bytes-BigEndian raw;
  is_decimal = decimal_text-Decimal (set_bytes 0 raw);
}

module _ (name : Bytes) (a : ℕ) (s output : Bytes) where
  abbrev forms : List (Bytes × Bytes)
  forms = derived_forms (a ∷ s)

  abbrev nothing : Sentinel
  nothing = record { name = name; forms = []; names = [] }
