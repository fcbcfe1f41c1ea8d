-- ===== src/Signing/Validate/Precedence.antt =====
-- Which rule decides the error: the chain id first, then its guard, then the type.
use mathlib.Core.Logic.{◌↔◌}
use blockchain_ai_tools.Base.{
  ℕ, ◌^◌, ◌<◌, Bytes, List, [], ◌∷◌, ◌++◌, Option, none, some, text, err, Result-cases, invert_err,
  ◌>>◌, ◌≡◌, ◌⊎◌, inl, inr, refl, arith,
}
use blockchain_ai_tools.Signing.Errors.{
  ToolError, Code, code_of, cause_of, no_cause, fault, invalid_input, chain_id_mismatch,
  unsupported_type,
}
use blockchain_ai_tools.Signing.Numbers.Numeral.{Numeral}
use blockchain_ai_tools.Signing.Address.{Common}
use blockchain_ai_tools.Signing.Request.{TxRequest}
use blockchain_ai_tools.Signing.Validate.{
  validate, parse_fields, validate_chain_id, check_guard, parse_tx_type, check_required,
  check_inappropriate, check_access_list,
}
use blockchain_ai_tools.Signing.Validate.Rules.{
  validate_chain_id_iff, Allowed, check_guard_iff, TypeName, parse_tx_type_iff,
}
use blockchain_ai_tools.Signing.Validate.Faults.{
  OneOf, chain_id_faults, guard_faults, type_faults, shape_faults, field_faults, required_faults,
  inappropriate_faults, access_list_faults, chain_id_OneOf, guard_OneOf, type_OneOf, required_OneOf,
  inappropriate_OneOf, access_list_OneOf, fields_OneOf,
}

-- The three codes, each with the fixed errors that carry it.
abbrev pub invalid_input_faults : List ToolError
invalid_input_faults = chain_id_faults ++ shape_faults ++ field_faults

invalid_input_coded :
    (e : ToolError)
    → OneOf invalid_input_faults e
    → (code_of e ≡ invalid_input) × (cause_of e ≡ no_cause)
invalid_input_coded e h = ground arith

guard_coded : (e : ToolError) → OneOf guard_faults e → code_of e ≡ chain_id_mismatch
guard_coded e h = ground arith

type_coded : (e : ToolError) → OneOf type_faults e → code_of e ≡ unsupported_type
type_coded e h = ground arith

OneOf-append_left : (xs ys : List ToolError) (e : ToolError) → OneOf xs e → OneOf (xs ++ ys) e
OneOf-append_left [] ys e h = elim h [ ]
OneOf-append_left (x ∷ xs) ys e (inl h) = inl h
OneOf-append_left (x ∷ xs) ys e (inr h) = inr (OneOf-append_left xs ys e h)

OneOf-append_right : (xs ys : List ToolError) (e : ToolError) → OneOf ys e → OneOf (xs ++ ys) e
OneOf-append_right [] ys e h = h
OneOf-append_right (x ∷ xs) ys e h = inr (OneOf-append_right xs ys e h)

in_shape : (e : ToolError) → OneOf shape_faults e → OneOf invalid_input_faults e
in_shape e h =
    OneOf-append_right chain_id_faults (shape_faults ++ field_faults) e
      (OneOf-append_left shape_faults field_faults e h)

in_fields : (e : ToolError) → OneOf field_faults e → OneOf invalid_input_faults e
in_fields e h =
    OneOf-append_right chain_id_faults (shape_faults ++ field_faults) e
      (OneOf-append_right shape_faults field_faults e h)

required_in_shape : (e : ToolError) → OneOf required_faults e → OneOf invalid_input_faults e
required_in_shape e h =
    in_shape e (OneOf-append_left required_faults (inappropriate_faults ++ access_list_faults) e h)

inappropriate_in_shape :
    (e : ToolError) → OneOf inappropriate_faults e → OneOf invalid_input_faults e
inappropriate_in_shape e h = in_shape e (
    OneOf-append_right required_faults (inappropriate_faults ++ access_list_faults) e
      (OneOf-append_left inappropriate_faults access_list_faults e h))

access_list_in_shape : (e : ToolError) → OneOf access_list_faults e → OneOf invalid_input_faults e
access_list_in_shape e h = in_shape e (
    OneOf-append_right required_faults (inappropriate_faults ++ access_list_faults) e
      (OneOf-append_right inappropriate_faults access_list_faults e h))

-- Behind the first three rules, every error is an invalid input.
later_rules :
    (common : Common) (req : TxRequest) (id t : ℕ) (e : ToolError)
    → (check_required req t
        >> (check_inappropriate req t >> (check_access_list req >> parse_fields common req id t)))
      ≡ err e
    → OneOf invalid_input_faults e
later_rules common req id t e h =
    invert_err (check_required req t) _ h (λ r. required_in_shape e (required_OneOf req t e r))
      λ _ _ h1.
        invert_err (check_inappropriate req t) _ h1
          (λ r. inappropriate_in_shape e (inappropriate_OneOf req t e r))
          λ _ _ h2.
            invert_err (check_access_list req) _ h2
              (λ r. access_list_in_shape e (access_list_OneOf req e r))
              λ _ _ h3. in_fields e (fields_OneOf common req id t e h3)

-- What the outcome of a failed validation tells of the request.
abbrev pub GoodChain : TxRequest → ℕ → Type 0
GoodChain req id = Numeral req.chain_id id × (0 < id) × (id < 2 ^ 64)

pub data Failure (req : TxRequest) (guard : Option ℕ) (e : ToolError) : Type 0 where
  bad_input : OneOf invalid_input_faults e → Failure req guard e
  mismatch :
      (id : ℕ)
      → GoodChain req id
      → ¬ (Allowed guard id)
      → OneOf guard_faults e
      → Failure req guard e
  bad_type :
      (id : ℕ)
      → GoodChain req id
      → Allowed guard id
      → ¬ ((t : ℕ) × TypeName req.type t)
      → OneOf type_faults e
      → Failure req guard e

pub validate_fails :
    (common : Common) (req : TxRequest) (guard : Option ℕ) (e : ToolError)
    → validate common req guard ≡ err e
    → Failure req guard e
unfolding validate
validate_fails common req guard e h =
    invert_err (validate_chain_id req.chain_id) _ h
      (λ r. bad_input (
        OneOf-append_left chain_id_faults (shape_faults ++ field_faults) e
          (chain_id_OneOf req.chain_id e r)))
      λ id chain h1.
        let good = (validate_chain_id_iff req.chain_id id).0 chain in
        invert_err (check_guard id guard) _ h1
          (λ r.
            mismatch id good (λ a. cc (r, (check_guard_iff id guard).1 a))
              (guard_OneOf id guard e r))
          λ _ allowed h2.
            invert_err (parse_tx_type req.type) _ h2
              (λ r.
                bad_type id good ((check_guard_iff id guard).0 allowed)
                  (λ n. cc (r, (parse_tx_type_iff req.type n.0).1 n.1)) (type_OneOf req.type e r))
              λ t _ h3. bad_input (later_rules common req id t e h3)

-- Every error of `validate` has one of three codes, no cause, and a message that is fixed: no part
-- of the request stands in it.
pub validate_errors :
    (common : Common) (req : TxRequest) (guard : Option ℕ) (e : ToolError)
    → validate common req guard ≡ err e
    → ((code_of e ≡ invalid_input) × OneOf invalid_input_faults e)
      ⊎ (((code_of e ≡ chain_id_mismatch) × OneOf guard_faults e)
          ⊎ ((code_of e ≡ unsupported_type) × OneOf type_faults e))
validate_errors common req guard e h = sort (validate_fails common req guard e h)
  where
    sort :
        Failure req guard e
        → ((code_of e ≡ invalid_input) × OneOf invalid_input_faults e)
          ⊎ (((code_of e ≡ chain_id_mismatch) × OneOf guard_faults e)
              ⊎ ((code_of e ≡ unsupported_type) × OneOf type_faults e))
    sort (bad_input m) = inl ((invalid_input_coded e m).0, m)
    sort (mismatch id good no_leave m) = inr (inl (guard_coded e m, m))
    sort (bad_type id good leave unnamed m) = inr (inr (type_coded e m, m))

guard_refuses :
    (id : ℕ) (guard : Option ℕ)
    → ¬ (Allowed guard id)
    → (e : ToolError) × (check_guard id guard ≡ err e) × (code_of e ≡ chain_id_mismatch)
unfolding check_guard
guard_refuses id none h = absurd (h tt)
guard_refuses id (some g) h = (
  fault chain_id_mismatch
      (text "chainId: does not match the chain-id guard configured on the signer"),
  ground arith,
  refl,
)

type_refuses :
    (s : Bytes)
    → ¬ ((t : ℕ) × TypeName s t)
    → (e : ToolError) × (parse_tx_type s ≡ err e) × (code_of e ≡ unsupported_type)
type_refuses s h = elim (Result-cases (parse_tx_type s)) [
  | inl (t, e) ↦ absurd (h (t, (parse_tx_type_iff s t).0 e))
  | inr (f, e) ↦ (f, e, type_coded f (type_OneOf s f e))
]

-- `validate` fails with a given code.
abbrev pub FailsWith : Common → TxRequest → Option ℕ → Code → Type 0
FailsWith common req guard c =
    (e : ToolError) × (validate common req guard ≡ err e) × (code_of e ≡ c)

module _ (common : Common) (req : TxRequest) (guard : Option ℕ) where
  -- The guard decides exactly where the chain id is well formed and another than its own, whatever
  -- else is wrong with the request.
  pub mismatch_iff :
      FailsWith common req guard chain_id_mismatch
      ↔ ((id : ℕ) × GoodChain req id × ¬ (Allowed guard id))
  unfolding validate
  mismatch_iff = (
    λ (e, failed, coded). why e coded (validate_fails common req guard e failed),
    λ (id, good, refused).
        let (e, failed, coded) = guard_refuses id guard refused in
        (e, rw ((validate_chain_id_iff req.chain_id id).1 good, failed), coded),
  )
    where
      why :
          (e : ToolError)
          → code_of e ≡ chain_id_mismatch
          → Failure req guard e
          → (id : ℕ) × GoodChain req id × ¬ (Allowed guard id)
      why e coded (bad_input m) = absurd (cc (coded, (invalid_input_coded e m).0))
      why e coded (mismatch id good refused m) = (id, good, refused)
      why e coded (bad_type id good leave unnamed m) = absurd (cc (coded, type_coded e m))

  -- The type decides exactly where the chain id is well formed and allowed and the type has no
  -- supported name, whatever the other fields hold.
  pub unsupported_iff :
      FailsWith common req guard unsupported_type
      ↔ ((id : ℕ) × GoodChain req id × Allowed guard id × ¬ ((t : ℕ) × TypeName req.type t))
  unfolding validate
  unsupported_iff = (
    λ (e, failed, coded). why e coded (validate_fails common req guard e failed),
    λ (id, good, leave, unnamed).
        let (e, failed, coded) = type_refuses req.type unnamed in
        (
          e,
          rw (
            (validate_chain_id_iff req.chain_id id).1 good,
            (check_guard_iff id guard).1 leave,
            failed,
          ),
          coded,
        ),
  )
    where
      why :
          (e : ToolError)
          → code_of e ≡ unsupported_type
          → Failure req guard e
          → (id : ℕ) × GoodChain req id × Allowed guard id × ¬ ((t : ℕ) × TypeName req.type t)
      why e coded (bad_input m) = absurd (cc (coded, (invalid_input_coded e m).0))
      why e coded (mismatch id good refused m) = absurd (cc (coded, guard_coded e m))
      why e coded (bad_type id good leave unnamed m) = (id, good, leave, unnamed)
