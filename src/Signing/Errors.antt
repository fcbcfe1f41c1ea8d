-- ===== src/Signing/Errors.antt =====
-- errors.go, and the Go error values that the program tells apart.
use mathlib.Core.List.{List, [], ◌∷◌}
use blockchain_ai_tools.Base.{
  arith, Bytes, text, ◌++◌, Bool, true, false, ◌||◌, Option, none, some, ◌≡◌,
}

-- The Code constants.
pub data Code : Type 0 where
  keystore_error password_error invalid_input unsupported_type chain_id_mismatch internal_error
        address_unknown :
      Code

unfoldable pub code_text : Code → Bytes
code_text keystore_error = text "keystore_error"
code_text password_error = text "password_error"
code_text invalid_input = text "invalid_input"
code_text unsupported_type = text "unsupported_type"
code_text chain_id_mismatch = text "chain_id_mismatch"
code_text internal_error = text "internal_error"
code_text address_unknown = text "address_unknown"

-- A Go error is `*ToolError`, one of the sentinels that the program tests for, another error with
-- its text (`errors.New`, or an error of code not modelled), or `fmt.Errorf("…: %w", err)`.
mutual
  pub data ToolError : Type 0 where
    tool_error : Code → Bytes → Cause → ToolError

  pub data Cause : Type 0 where
    no_cause : Cause
    cause : Error → Cause

  pub data Error : Type 0 where
    tool : ToolError → Error
    canceled deadline_exceeded decrypt_failed : Error
    plain : Bytes → Error
    wrapped : Bytes → Error → Error

-- The fields of a `ToolError`.
abbrev pub code_of : ToolError → Code
code_of (tool_error c m k) = c

abbrev pub message_of : ToolError → Bytes
message_of (tool_error c m k) = m

abbrev pub cause_of : ToolError → Cause
cause_of (tool_error c m k) = k

-- &ToolError{Code: …, Message: …}, with no Cause
abbrev pub fault : Code → Bytes → ToolError
fault c m = tool_error c m no_cause

-- (*ToolError).Error, on a receiver that may be nil
unfoldable pub error_string : Option ToolError → Bytes
error_string none = text "internal_error: <nil ToolError>"
error_string (some t) = code_text (code_of t) ++ text ": " ++ message_of t

-- (*ToolError).Unwrap
unfoldable pub unwrap : Option ToolError → Cause
unwrap none = no_cause
unwrap (some t) = cause_of t

-- (*ToolError).LogValue: the group's keys and values
unfoldable pub log_value : Option ToolError → List (Bytes × Bytes)
log_value none =
    (text "code", text "internal_error") ∷ (text "message", text "<nil ToolError>") ∷ []
log_value (some t) = (text "code", code_text (code_of t)) ∷ (text "message", message_of t) ∷ []

-- err.Error()
unfoldable pub error_text : Error → Bytes
unfolding error_string
error_text (tool t) = error_string (some t)
error_text canceled = text "context canceled"
error_text deadline_exceeded = text "context deadline exceeded"
error_text decrypt_failed = text "could not decrypt key with given password"
error_text (plain m) = m
error_text (wrapped m e) = m ++ text ": " ++ error_text e

-- errors.As(err, &te) with `te` a *ToolError: the first one of the chain.
unfoldable pub as_tool_error : Error → Option ToolError
as_tool_error (tool t) = some t
as_tool_error (wrapped m e) = as_tool_error e
as_tool_error _ = none

abbrev pub is_canceled : Error → Bool
is_canceled canceled = true
is_canceled _ = false

abbrev pub is_deadline_exceeded : Error → Bool
is_deadline_exceeded deadline_exceeded = true
is_deadline_exceeded _ = false

abbrev pub is_decrypt_failed : Error → Bool
is_decrypt_failed decrypt_failed = true
is_decrypt_failed _ = false

-- errors.Is(err, target): some error of the chain meets the test. A ToolError unwraps to its Cause.
unfoldable mutual
  pub in_chain : (Error → Bool) → Error → Bool
  in_chain p (tool t) = p (tool t) || in_tool_error p t
  in_chain p canceled = p canceled
  in_chain p deadline_exceeded = p deadline_exceeded
  in_chain p decrypt_failed = p decrypt_failed
  in_chain p (plain m) = p (plain m)
  in_chain p (wrapped m e) = p (wrapped m e) || in_chain p e

  pub in_tool_error : (Error → Bool) → ToolError → Bool
  in_tool_error p (tool_error c m k) = in_cause p k

  pub in_cause : (Error → Bool) → Cause → Bool
  in_cause p no_cause = false
  in_cause p (cause e) = in_chain p e

-- Distinct codes have distinct texts.
pub code_text-injective : (a b : Code) → code_text a ≡ code_text b → a ≡ b
unfolding code_text text
code_text-injective keystore_error b h = ground arith
code_text-injective a b h = ground arith
