-- ===== src/Signing/Secret.antt =====
-- secret.go: a value that no printer shows.
use blockchain_ai_tools.Base.{Bytes, text, ◌++◌, ◌∷◌, []}

pub record Secret {ℓ} (T : Type ℓ) : Type ℓ where
  pub v : T

abbrev pub new_secret {ℓ} : {T : Type ℓ} → T → Secret T
new_secret v = record { v = v }

abbrev pub expose {ℓ} : {T : Type ℓ} → Secret T → T
expose s = s.v

-- The ways that fmt, encoding/json and log/slog ask for the text of a value.
pub data Printing : Type 0 where
  string go_string marshal_json log_value : Printing
  format : (verb : Bytes) → Printing

abbrev pub redacted : Bytes
redacted = text "[REDACTED]"

unfoldable pub print_secret {ℓ} : {T : Type ℓ} → Printing → Secret T → Bytes
print_secret marshal_json s = b'"' ∷ (redacted ++ b'"' ∷ [])
print_secret string s = redacted
print_secret go_string s = redacted
print_secret log_value s = redacted
print_secret (format verb) s = redacted
