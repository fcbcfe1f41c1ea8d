-- ===== src/Examples/Server.antt =====
-- The theorems on the server, at concrete tokens, headers and errors.
use blockchain_ai_tools.Base.{
  Bytes, text, replicate, ◌++◌, none, some, Result, ok, err, ◌≡◌, ◌↔◌, refl,
}
use blockchain_ai_tools.Signing.Secret.{new_secret}
use blockchain_ai_tools.Signing.Errors.{Error, tool, tool_error, internal_error, cause, plain}
use blockchain_ai_tools.Signing.Signer.{RequestContext}
use blockchain_ai_tools.Server.Auth.{
  Sum256, BearerVerifier, middleware, passed, strip_line_ending, strip_one,
  new_bearer_verifier_from_file,
}
use blockchain_ai_tools.Server.Auth.Token.{Made, new_bearer_verifier_from_file-Made}
use blockchain_ai_tools.Server.Auth.Gate.{gate_of_file}
use blockchain_ai_tools.Server.Handlers.{MarshalPayload, ensure_request_id, answer}
use blockchain_ai_tools.Server.Handlers.RequestId.{Carries, ensure_request_id-Carries}
use blockchain_ai_tools.Server.Handlers.Wire.{shown_as, visible, answer-shown_as}
use blockchain_ai_tools.Examples.Vault.{running}
use blockchain_ai_tools.Examples.Signing.{start, some_port}

-- A hash without collisions.
abbrev pub identity_hash : Sum256
identity_hash b = b

abbrev pub quote_plainly : Bytes → Bytes
quote_plainly b = b

abbrev pub token_path : Bytes
token_path = text "token"

abbrev pub token_file_text : Bytes
token_file_text = text "s3cret\r\n"

abbrev pub read_token : Bytes → Result Error Bytes
read_token _ = ok token_file_text

abbrev pub verifier : BearerVerifier
verifier = record { token_hash = new_secret (text "s3cret") }

token_is : strip_line_ending token_file_text ≡ text "s3cret"
unfolding strip_line_ending strip_one text
token_is = refl

pub verifier_is_made :
    (new_bearer_verifier_from_file identity_hash quote_plainly read_token token_path).0
    ≡ ok verifier
unfolding new_bearer_verifier_from_file strip_line_ending strip_one text
verifier_is_made = refl

gate_of_file_example :
    (middleware identity_hash verifier (text "Bearer s3cret") ≡ passed)
    ↔ (text "Bearer s3cret" ≡ text "Bearer " ++ strip_line_ending token_file_text)
gate_of_file_example =
    gate_of_file identity_hash quote_plainly read_token token_path token_file_text refl verifier
      verifier_is_made (λ t e. e) (text "Bearer s3cret")

new_bearer_verifier_from_file-Made_example :
    Made identity_hash quote_plainly read_token token_path token_file_text refl
      (strip_line_ending token_file_text)
new_bearer_verifier_from_file-Made_example =
    new_bearer_verifier_from_file-Made identity_hash quote_plainly read_token token_path
      token_file_text refl

abbrev no_id : RequestContext
no_id = record { context = running; request_id = none }

ensure_request_id-Carries_example :
    (id : Bytes) × (ctx' : RequestContext) × (ensure_request_id (ok (replicate 16 171)) no_id
      ≡ some (id, ctx'))
    × Carries no_id id ctx'
ensure_request_id-Carries_example = ensure_request_id-Carries (replicate 16 171) no_id refl

abbrev marshal_code : MarshalPayload
marshal_code code message = ok (code ++ message)

abbrev some_failure : Error
some_failure = tool (tool_error internal_error (text "m") (cause (plain (text "secret"))))

answer-shown_as_example :
    (answer marshal_code some_port (text "id") (err some_failure, start)).0
    ≡ shown_as marshal_code some_port (visible marshal_code some_port some_failure)
answer-shown_as_example = answer-shown_as marshal_code some_port (text "id") some_failure start
