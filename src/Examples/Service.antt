-- ===== src/Examples/Service.antt =====
-- The theorems on the service, at three calls of SignTransaction: one signs while the
-- second waits, and the third is refused.
use blockchain_ai_tools.Base.{
  ℕ, ◌≤◌, text, same, [], List, Option, some, Result, ok, err, if◌then◌else◌, ◌==◌, ap, ◌≡◌, refl,
  arith,
}
use blockchain_ai_tools.Signing.Errors.{Error, tool, fault, unsupported_type}
use blockchain_ai_tools.Signing.Request.{SignResult}
use blockchain_ai_tools.Signing.Types.{TxData}
use blockchain_ai_tools.Signing.Build.{legacy_data, build_tx}
use blockchain_ai_tools.Signing.Hex.{hex_encode}
use blockchain_ai_tools.Signing.Keystore.{FileKeyVault, vault_address}
use blockchain_ai_tools.Signing.Vault.{Outcome, finished}
use blockchain_ai_tools.Signing.Vault.Outcomes.{signing_key}
use blockchain_ai_tools.Signing.Vault.Sharing.{
  Place, waiting, holding, reading, decrypting, discovering, running, zeroing_scalar,
  zeroing_password, releasing, returned, taken, known_as, enter, go_on, read, decrypt,
  discover_address, call_fn, wipe_scalar, wipe_password, let_go, update,
}
use blockchain_ai_tools.Signing.Zero.{zero_bytes, Magnitude, zero_big_int}
use blockchain_ai_tools.Signing.Signer.{
  LogLine, sign_callback, check_and_encode, encode_result, audit,
}
use blockchain_ai_tools.Signing.Service.{
  Asking, Stage, received, in_vault, answered, Service, idle_service, world_of, audited, refuse,
  call_vault, move_in_vault, answer_caller, pick, Reach, at_start, later,
}
use blockchain_ai_tools.Signing.Service.Later.{Later, now, and_step}
use blockchain_ai_tools.Signing.Service.RealTime.{InOrder, answers-InOrder}
use blockchain_ai_tools.Signing.Service.Alone.{IsLinear, Reach-IsLinear}
use blockchain_ai_tools.Signing.Service.AuditTrail.{IsAuditTrail, Reach-IsAuditTrail}
use blockchain_ai_tools.Signing.Service.Progress.{
  Onward, no_step, one_step, Ends, every_call_answers,
}
use blockchain_ai_tools.Server.Handlers.{value_response, handle_get_address}
use blockchain_ai_tools.Server.Handlers.Addresses.{get_address-answered}
use blockchain_ai_tools.Examples.Addresses.{plain_common}
use blockchain_ai_tools.Examples.Validation.{
  blob_request, blob_refused, type_fault, legacy_request, legacy_parsed, legacy_accepted,
}
use blockchain_ai_tools.Examples.Vault.{
  one_password, read_password, closed_vault, password_slice, some_key, password_was_read,
  key_was_decrypted,
}
use blockchain_ai_tools.Examples.Signing.{
  plain_types, traced, signed_result, marshal_code, guarded_port,
}

-- The third call asks for a type that is not supported.
abbrev three_askings : ℕ → Asking
three_askings i = record {
  ctx = traced;
  req = if i == 2 then blob_request else legacy_request;
  read_fn = read_password;
}

abbrev built_legacy : TxData × ℕ
built_legacy = (legacy_data legacy_parsed, 1)

is_built : build_tx plain_types legacy_parsed ≡ some built_legacy
unfolding build_tx
is_built = refl

abbrev signs : Outcome SignResult
signs = finished signed_result

abbrev open_vault : FileKeyVault
open_vault = known_as closed_vault some_key

sign_callback-signs :
    sign_callback plain_types plain_common built_legacy
      (signing_key some_key password_slice)
      (taken open_vault)
    ≡ signs
unfolding sign_callback check_and_encode encode_result vault_address same hex_encode text
sign_callback-signs = refl

abbrev TwoCalls : Type 0
TwoCalls = Service TxData ℕ

abbrev in_call : Place SignResult → Stage TxData ℕ
in_call q = in_vault legacy_parsed built_legacy q

-- The second call waits, and the first stands at `p`.
abbrev first_at : FileKeyVault → List LogLine → (ℕ → Stage TxData ℕ) → Stage TxData ℕ → TwoCalls
first_at v log stage p = record { vault = v; log = log; stage = update stage 0 p }

abbrev Steps : TwoCalls → ℕ → TwoCalls → Type 0
Steps = Onward plain_types plain_common (some 1) one_password three_askings 2

abbrev ReachedBy : TwoCalls → Type 0
ReachedBy = Reach plain_types plain_common (some 1) one_password three_askings closed_vault

abbrev s1 : TwoCalls
s1 = record { vault = closed_vault; log = []; stage = update (λ _. received) 1 (in_call waiting) }

abbrev s2 : TwoCalls
s2 = first_at closed_vault [] s1.stage (in_call waiting)

abbrev s3 : TwoCalls
s3 = first_at (taken closed_vault) [] s2.stage (in_call holding)

abbrev s4 : TwoCalls
s4 = first_at (taken closed_vault) [] s3.stage (in_call reading)

abbrev s5 : TwoCalls
s5 = first_at (taken closed_vault) [] s4.stage (in_call (decrypting password_slice))

abbrev s6 : TwoCalls
s6 = first_at (taken closed_vault) [] s5.stage (in_call (discovering password_slice some_key))

abbrev s7 : TwoCalls
s7 = first_at (taken open_vault) [] s6.stage (in_call (running password_slice some_key))

abbrev outcome : Outcome SignResult
outcome =
    sign_callback plain_types plain_common built_legacy (signing_key some_key password_slice)
      (taken open_vault)

abbrev s8 : TwoCalls
s8 =
    first_at (taken open_vault) [] s7.stage
      (in_call (zeroing_scalar outcome password_slice some_key))

abbrev wiped : Option Magnitude
wiped = zero_big_int (some some_key.scalar)

abbrev s9 : TwoCalls
s9 =
    first_at (taken open_vault) [] s8.stage
      (in_call (zeroing_password outcome password_slice wiped))

abbrev s10 : TwoCalls
s10 =
    first_at (taken open_vault) [] s9.stage
      (in_call (releasing outcome (zero_bytes password_slice) wiped))

abbrev s11 : TwoCalls
s11 =
    first_at open_vault [] s10.stage (in_call (returned outcome (zero_bytes password_slice) wiped))

abbrev answer : Result Error SignResult × List LogLine
answer =
    let (r, w) =
      audited plain_types plain_common (some 1) one_password (three_askings 0) legacy_parsed outcome
        open_vault [] in
    (r, w.log)

abbrev s12 : TwoCalls
s12 = first_at open_vault answer.1 s11.stage (answered answer.0)

reached : ReachedBy s12
reached =
    let r1 : ReachedBy s1 = later at_start (pick 1 (call_vault legacy_accepted is_built)) in
    let r2 : ReachedBy s2 = later r1 (pick 0 (call_vault legacy_accepted is_built)) in
    let r3 : ReachedBy s3 = later r2 (pick 0 (move_in_vault (enter refl (omega arith)))) in
    let r4 : ReachedBy s4 = later r3 (pick 0 (move_in_vault (go_on refl))) in
    let r5 : ReachedBy s5 = later r4 (pick 0 (move_in_vault (read password_was_read))) in
    let r6 : ReachedBy s6 = later r5 (pick 0 (move_in_vault (decrypt key_was_decrypted))) in
    let r7 : ReachedBy s7 = later r6 (pick 0 (move_in_vault discover_address)) in
    let r8 : ReachedBy s8 = later r7 (pick 0 (move_in_vault call_fn)) in
    let r9 : ReachedBy s9 = later r8 (pick 0 (move_in_vault wipe_scalar)) in
    let r10 : ReachedBy s10 = later r9 (pick 0 (move_in_vault wipe_password)) in
    let r11 : ReachedBy s11 = later r10 (pick 0 (move_in_vault (let_go (omega arith)))) in
    let r12 : ReachedBy s12 = later r11 (pick 0 answer_caller) in r12

signs_legacy : answer.0 ≡ ok signed_result
unfolding sign_callback check_and_encode encode_result vault_address same hex_encode text audit
signs_legacy = refl

Reach-IsLinear_example :
    IsLinear plain_types plain_common (some 1) one_password three_askings closed_vault s12
Reach-IsLinear_example =
    Reach-IsLinear plain_types plain_common (some 1) one_password three_askings closed_vault refl
      s12 reached

Reach-IsAuditTrail_example :
    IsAuditTrail plain_types plain_common (some 1) one_password three_askings closed_vault s12
Reach-IsAuditTrail_example =
    Reach-IsAuditTrail plain_types plain_common (some 1) one_password three_askings closed_vault s12
      reached

has_answered : s12.stage 0 ≡ answered (ok signed_result)
has_answered = ap answered signs_legacy

get_address-answered_example :
    handle_get_address marshal_code guarded_port plain_common (world_of s12.vault s12.log)
    ≡ value_response (record { address = signed_result.from })
get_address-answered_example =
    get_address-answered plain_types plain_common (some 1) one_password three_askings marshal_code
      read_password closed_vault s12 reached 0 signed_result has_answered

first-Steps : Steps (idle_service closed_vault) 2 s2
first-Steps =
    one_step 1 (omega arith) (call_vault legacy_accepted is_built)
      (one_step 0 (omega arith) (call_vault legacy_accepted is_built) no_step)

every_call_answers_example :
    (2 ≤ 22) × Ends plain_types plain_common (some 1) one_password three_askings 2 s2
every_call_answers_example =
    every_call_answers plain_types plain_common (some 1) one_password three_askings closed_vault
      refl 2 2 s2 first-Steps

abbrev third_answer : Result Error SignResult
third_answer = err (tool (fault unsupported_type type_fault))

abbrev s13 : TwoCalls
s13 = record {
  vault = s12.vault;
  log = s12.log;
  stage = update s12.stage 2 (answered third_answer);
}

third_refused : Later plain_types plain_common (some 1) one_password three_askings s12 s13
third_refused = and_step now (pick 2 (refuse blob_refused))

answers-InOrder_example :
    InOrder plain_types plain_common
      (some 1)
      one_password
      three_askings
      closed_vault
      0
      2
      (ok signed_result)
      third_answer
answers-InOrder_example =
    answers-InOrder plain_types plain_common (some 1) one_password three_askings closed_vault refl
      s12 s13 reached third_refused 0 2 (ok signed_result) third_answer has_answered refl refl
