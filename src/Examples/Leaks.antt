-- ===== src/Examples/Leaks.antt =====
-- The scan for a secret, at a concrete secret and output.
use blockchain_ai_tools.Base.{Bytes, text, same, cut_prefix, ◌∷◌, [], ◌≡◌, refl}
use blockchain_ai_tools.Signing.Hex.{hex_encode}
use blockchain_ai_tools.Signing.Sentinel.{
  new_sentinel, scan, scan_from, contains, derived_forms, register_all, register_form,
  is_registered, base64_encode, decimal_text, digits, set_bytes,
}

abbrev secret : Bytes
secret = text "fo"

abbrev output : Bytes
output = text "key=666f, Zm8="

leak_is_named :
    scan (new_sentinel (text "n") secret) output
    ≡ text "hex-lower" ∷ text "base64-std" ∷ text "base64-raw" ∷ []
unfolding new_sentinel scan scan_from contains derived_forms register_all register_form
    is_registered base64_encode decimal_text digits set_bytes hex_encode text same cut_prefix
leak_is_named = refl
