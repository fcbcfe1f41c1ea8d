-- ===== src/Signing/Sentinel.antt =====
-- sentinel.go and fixture_sentinel.go: the scan of an output for the encodings of a secret.
pub mod Scan
pub mod Leaks
pub mod Decimals
pub mod Encodings
use blockchain_ai_tools.Base.{
  ℕ, zero, suc, ◌+◌, ◌-◌, ◌*◌, ◌/◌, ◌%◌, Bytes, text, same, is_empty, cut_prefix, Bool, true, false,
  ◌&&◌, ◌||◌, ltb, leb, ◌==◌, if◌then◌else◌, List, [], ◌∷◌, ◌++◌, map, Option, none, some,
}
use blockchain_ai_tools.Signing.Hex.{hex_encode, hex_decode}

-- The two slices are parallel.
pub record Sentinel : Type 0 where
  pub name : Bytes
  pub forms : List Bytes
  pub names : List Bytes

-- strings.ToUpper, on ASCII
abbrev pub to_upper_char : ℕ → ℕ
to_upper_char c = if leb b'a' c && leb c b'z' then c - 32 else c

-- The alphabets of base64, which differ in their last two characters.
abbrev pub base64_char : (plus slash : ℕ) → ℕ → ℕ
base64_char plus slash n =
    if ltb n 26
    then b'A' + n
    else if ltb n 52
    then b'a' + (n - 26)
    else if ltb n 62
    then b'0' + (n - 52)
    else if n == 62
    then plus
    else slash

-- (*base64.Encoding).EncodeToString, with the padding that stands for one missing character
unfoldable pub base64_encode : (ℕ → ℕ) → Bytes → Bytes → Bytes
base64_encode char pad [] = []
base64_encode char pad (a ∷ []) = char (a / 4) ∷ char (a % 4 * 16) ∷ pad ++ pad
base64_encode char pad (a ∷ b ∷ []) =
    char (a / 4) ∷ char (a % 4 * 16 + b / 16) ∷ char (b % 16 * 4) ∷ pad
base64_encode char pad (a ∷ b ∷ c ∷ rest) =
    char (a / 4)
    ∷ char (a % 4 * 16 + b / 16)
    ∷ char (b % 16 * 4 + c / 64)
    ∷ char (c % 64)
    ∷ base64_encode char pad rest

abbrev pub std_char : ℕ → ℕ
std_char = base64_char b'+' b'/'

abbrev pub url_char : ℕ → ℕ
url_char = base64_char b'-' b'_'

-- (*big.Int).SetBytes
unfoldable pub set_bytes : ℕ → Bytes → ℕ
set_bytes n [] = n
set_bytes n (b ∷ s) = set_bytes (n * 256 + b) s

-- The digits of n, behind which `rest` stands; as much fuel as n is enough.
unfoldable pub digits : ℕ → ℕ → Bytes → Bytes
digits zero n rest = (b'0' + n % 10) ∷ rest
digits (suc fuel) n rest = elim (ltb n 10) [
  | true ↦ (b'0' + n % 10) ∷ rest
  | false ↦ digits fuel (n / 10) ((b'0' + n % 10) ∷ rest)
]

-- (*big.Int).String and strconv.Itoa of a number that is not negative
unfoldable pub decimal_text : ℕ → Bytes
unfolding digits
decimal_text n = digits n n []

-- The encodings, with their names.
unfoldable pub derived_forms : Bytes → List (Bytes × Bytes)
unfolding decimal_text set_bytes base64_encode
derived_forms raw =
    (text "raw", raw)
    ∷ (text "hex-lower", hex_encode raw)
    ∷ (text "hex-upper", map to_upper_char (hex_encode raw))
    ∷ (text "base64-std", base64_encode std_char (text "=") raw)
    ∷ (text "base64-raw", base64_encode std_char [] raw)
    ∷ (text "base64-url", base64_encode url_char (text "=") raw)
    ∷ (text "base64-rawurl", base64_encode url_char [] raw)
    ∷ (text "decimal", decimal_text (set_bytes 0 raw))
    ∷ []

-- for _, existing := range s.Forms { if bytes.Equal(existing, b) }
unfoldable pub is_registered : Bytes → List Bytes → Bool
is_registered b [] = false
is_registered b (form ∷ forms) = same form b || is_registered b forms

unfoldable pub register_form : Bytes → Bytes → Sentinel → Sentinel
unfolding is_registered
register_form name b s =
    if is_empty b || is_registered b s.forms
    then s
    else record s { forms = s.forms ++ b ∷ []; names = s.names ++ name ∷ [] }

unfoldable pub register_all : List (Bytes × Bytes) → Sentinel → Sentinel
unfolding register_form
register_all [] s = s
register_all ((name, b) ∷ rest) s = register_all rest (register_form name b s)

unfoldable pub new_sentinel : Bytes → Bytes → Sentinel
unfolding register_all derived_forms
new_sentinel name raw =
    let empty : Sentinel = record { name = name; forms = []; names = [] } in
    if is_empty raw then empty else register_all (derived_forms raw) empty

-- bytes.Contains
unfoldable pub contains : Bytes → Bytes → Bool
contains [] form = is_empty form
contains (c ∷ output) form = elim (cut_prefix (c ∷ output) form) [
  | some _ ↦ true
  | none ↦ contains output form
]

-- The name of the i-th form, with the rest of the names.
abbrev pub form_name : ℕ → List Bytes → Bytes
form_name i [] = text "form-" ++ decimal_text i
form_name i (name ∷ _) = name

abbrev pub tail : List Bytes → List Bytes
tail [] = []
tail (_ ∷ names) = names

unfoldable pub scan_from : Bytes → ℕ → List Bytes → List Bytes → List Bytes
unfolding contains decimal_text
scan_from output i [] names = []
scan_from output i (form ∷ forms) names =
    let rest = scan_from output (suc i) forms (tail names) in
    if contains output form then form_name i names ∷ rest else rest

unfoldable pub scan : Sentinel → Bytes → List Bytes
unfolding scan_from
scan s output = scan_from output 0 s.forms s.names

abbrev pub fixture_priv_key_hex : Bytes
fixture_priv_key_hex = text "1ab42cc412b618bdea3a599e3c9bae199ebf030895b039e9db1e30dafb12b727"

abbrev pub fixture_test_address : Bytes
fixture_test_address = text "0x9858EfFD232B4033E47d90003D41EC34EcaEda94"

-- `none` is the panic.
unfoldable pub fixture_key_sentinel : Option Sentinel
unfolding new_sentinel register_form hex_decode text
fixture_key_sentinel = elim (hex_decode fixture_priv_key_hex) [
  | none ↦ none
  | some raw ↦ some (
      register_form (text "address-lower-nox") (text "9858effd232b4033e47d90003d41ec34ecaeda94") (
        register_form (text "address-checksummed") fixture_test_address
          (new_sentinel (text "fixture-private-key") raw)))
]
