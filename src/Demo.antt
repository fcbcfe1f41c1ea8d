-- ===== src/Demo.antt =====
-- scripts/demo/cmd/stdio-client/main.go: the demo client, from its arguments to its exit status.
pub mod Outcome
use blockchain_ai_tools.Base.{
  ℕ, Bytes, text, same, is_empty, Bool, true, false, not, ◌&&◌, ◌||◌, if◌then◌else◌, List, [], ◌∷◌,
  ◌++◌, Option, none, some, Result, ok, err, ◌>>=◌, ◌>>◌, reject,
}
use blockchain_ai_tools.Signing.Errors.{Error, error_text}
use blockchain_ai_tools.Signing.Request.{SignResult}

-- The flags.
pub record Arguments : Type 0 where
  pub binary : Bytes
  pub keystore : Bytes
  pub password_file : Bytes
  pub want_raw_tx : Bytes
  pub chain_id : Bytes

-- mcp.Content: TextContent, or another kind, with the text of its type
pub data Content : Type 0 where
  text_content other_content : Bytes → Content

pub record CallResult : Type 0 where
  pub is_error : Bool
  pub content : List Content
  pub printed : Bytes  -- as %v prints it

-- os.Exit or log.Fatal: the status, and what goes to stderr
pub record Stopped : Type 0 where
  pub status : ℕ
  pub message : Bytes

abbrev pub fatal : Bytes → Stopped
fatal m = record { status = 1; message = m }

-- What the client meets. A session answers calls by the name of a tool and its arguments, with a
-- nil result or a result; json.Unmarshal reads the payloads.
pub record Session : Type 0 where
  pub connect : Bytes → List Bytes → Result Error (Unit {0})
  pub call_tool : Bytes → List (Bytes × Bytes) → Result Error (Option CallResult)
  pub unmarshal_address : Bytes → Result Error Bytes
  pub unmarshal_sign_result : Bytes → Result Error SignResult

abbrev pub legacy_mainnet_args : List (Bytes × Bytes)
legacy_mainnet_args =
    (text "type", text "0x0")
    ∷ (text "chainId", text "1")
    ∷ (text "nonce", text "0")
    ∷ (text "to", text "0x9858EfFD232B4033E47d90003D41EC34EcaEda94")
    ∷ (text "value", text "1000000000000000000")
    ∷ (text "data", text "0xdeadbeef")
    ∷ (text "gas", text "100000")
    ∷ (text "gasPrice", text "20000000000")
    ∷ []

abbrev pub server_args : Arguments → List Bytes
server_args a =
    text "--keystore"
    ∷ a.keystore
    ∷ text "--password-file"
    ∷ a.password_file
    ∷ (if is_empty a.chain_id then [] else text "--chain-id" ∷ a.chain_id ∷ [])

-- `if err != nil { log.Fatalf("…: %v", err) }`
abbrev pub or_fatal {ℓ} : {A : Type ℓ} → (Error → Bytes) → Result Error A → Result Stopped A
or_fatal m (ok a) = ok a
or_fatal m (err e) = err (fatal (m e))

-- The result of a call, if it is there and no error; `m` is what the code says of another one.
abbrev pub good_result : (Option CallResult → Bytes) → Option CallResult → Result Stopped CallResult
good_result m none = err (fatal (m none))
good_result m (some r) = if r.is_error then err (fatal (m (some r))) else ok r

-- The text that the first content is.
abbrev pub first_text : Bytes → List Content → Result Stopped Bytes
first_text tool [] = err (fatal (tool ++ text ": empty Content"))
first_text tool (text_content t ∷ _) = ok t
first_text tool (other_content type ∷ _) =
    err (fatal (tool ++ (text " Content[0] is " ++ (type ++ text "; want *mcp.TextContent"))))

-- What is printed of an error result of get_address, and of sign_transaction
abbrev pub address_failure : Option CallResult → Bytes
address_failure none = text "get_address returned error result: <nil>"
address_failure (some r) = text "get_address returned error result: " ++ r.printed

abbrev pub error_content : List Content → Bytes
error_content (text_content t ∷ _) = t
error_content _ = []

abbrev pub sign_failure : Option CallResult → Bytes
sign_failure none = text "sign_transaction returned error result: "
sign_failure (some r) = text "sign_transaction returned error result: " ++ error_content r.content

abbrev pub missing_arguments : Arguments → Bool
missing_arguments a = is_empty a.binary || (is_empty a.keystore || is_empty a.password_file)

abbrev pub says : Bytes → Error → Bytes
says m e = m ++ (text ": " ++ error_text e)

abbrev pub says_of : Bytes → Bytes → Error → Bytes
says_of m t e = says m e ++ (text "\ntext: " ++ t)

-- CallTool and the checks of its result, up to its text
unfoldable pub call_for_text :
    Session → (Option CallResult → Bytes) → Bytes → List (Bytes × Bytes) → Result Stopped Bytes
call_for_text session failure tool arguments = do
  r ← or_fatal (says (tool ++ text " protocol error")) (session.call_tool tool arguments)
  good ← good_result failure r
  first_text tool good.content

abbrev cross : Bytes
cross = 0xe2 ∷ 0x9c ∷ 0x97 ∷ []

-- The golden vector, where one is given
unfoldable pub check_raw_tx : Bytes → Bytes → Result Stopped (Unit {0})
check_raw_tx want got = reject (not (is_empty want) && not (same got want)) (
    fatal (
      text "\n"
      ++ (cross
          ++ (text " rawTransaction MISMATCH:\n  got:  "
              ++ (got ++ (text "\n  want: " ++ (want ++ text "\n")))))))

unfoldable pub run_demo : Arguments → Session → Result Stopped SignResult
unfolding call_for_text check_raw_tx
run_demo a session = do
  reject (missing_arguments a) (record {
    status = 2;
    message = text "error: -binary, -keystore, and -password-file are required\n";
  })
  or_fatal (says (text "Connect")) (session.connect a.binary (server_args a))
  address_text ← call_for_text session address_failure (text "get_address") []
  address ←
      or_fatal (says_of (text "get_address unmarshal") address_text)
        (session.unmarshal_address address_text)
  sign_text ← call_for_text session sign_failure (text "sign_transaction") legacy_mainnet_args
  payload ←
      or_fatal (says_of (text "sign_transaction unmarshal") sign_text)
        (session.unmarshal_sign_result sign_text)
  check_raw_tx a.want_raw_tx payload.raw_transaction
  ok payload

-- The exit status of the client
abbrev pub demo_status : Result Stopped SignResult → ℕ
demo_status (ok _) = 0
demo_status (err stopped) = stopped.status
