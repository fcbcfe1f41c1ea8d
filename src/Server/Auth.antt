-- ===== src/Server/Auth.antt =====
-- auth.go of the package `server`: the token file and the bearer middleware.
pub mod Token
pub mod Gate
use blockchain_ai_tools.Base.{
  ℕ, ◌-◌, Bytes, text, same, is_empty, cut_prefix, Bool, true, false, ◌&&◌, ◌||◌, not, leb, ◌==◌,
  if◌then◌else◌, length, take, ◌∷◌, ◌++◌, [], List, Option, none, some, Result, ok, err,
}
use blockchain_ai_tools.Signing.Secret.{Secret, new_secret, expose}
use blockchain_ai_tools.Signing.Errors.{Error, plain, wrapped}
use blockchain_ai_tools.Signing.Zero.{Slice, zero_bytes}
use blockchain_ai_tools.Signing.Vault.{byte_at}

-- sha256.Sum256
abbrev pub Sum256 : Type 0
Sum256 = Bytes → Bytes

-- The hash of the token that is expected.
pub record BearerVerifier : Type 0 where
  pub token_hash : Secret Bytes

-- `if len(b) > 0 && b[len(b)-1] == c { b = b[:len(b)-1] }`
unfoldable pub strip_one : ℕ → Bytes → Bytes
strip_one c b =
    if not (is_empty b) && byte_at b (length b - 1) == c then take (length b - 1) b else b

unfoldable pub strip_line_ending : Bytes → Bytes
unfolding strip_one
strip_line_ending raw = strip_one b'\r' (strip_one b'\n' raw)

-- fmt.Errorf("token file %q: …", path, …), with the text of %q as a parameter
abbrev pub token_file : Bytes → Bytes
token_file quoted = text "token file " ++ quoted

-- What the constructor returns, and the buffer of the file as it leaves it.
unfoldable pub new_bearer_verifier_from_file :
    Sum256
    → (Bytes → Bytes)
    → (Bytes → Result Error Bytes)
    → Bytes
    → Result Error BearerVerifier × Option Slice
unfolding strip_line_ending
new_bearer_verifier_from_file sum256 quote read_file path = elim (read_file path) [
  | err e ↦ (err (wrapped (token_file (quote path)) e), none)
  | ok raw ↦
      let token_bytes = strip_line_ending raw in
      let zeroed = zero_bytes (record { backing = raw; len = length raw }) in
      if is_empty token_bytes
      then (
        err (plain (token_file (quote path) ++ text ": empty after stripping trailing newline")),
        some zeroed,
      )
      else (ok (record { token_hash = new_secret (sum256 token_bytes) }), some zeroed)
]

-- What the middleware does with a request: 401 with the header `WWW-Authenticate: Bearer` and no
-- body, or the next handler.
pub data Verdict : Type 0 where
  unauthorized passed : Verdict

unfoldable pub middleware : Sum256 → BearerVerifier → Bytes → Verdict
middleware sum256 v auth_header = elim (cut_prefix auth_header (text "Bearer ")) [
  | none ↦ unauthorized
  | some token ↦
      if is_empty token
      then unauthorized
      else if same (sum256 token) (expose v.token_hash)
      then passed
      else unauthorized
]
