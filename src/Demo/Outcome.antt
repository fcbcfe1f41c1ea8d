-- ===== src/Demo/Outcome.antt =====
-- When the demo client ends well.
use blockchain_ai_tools.Base.{
  Bytes, text, same, same_iff, is_empty, is_empty_iff, not_empty, Bool, false, Bool-cases, List, [],
  ◌∷◌, Option, none, some, Result, ok, err, reject, inverted, ok-injective, ◌≡◌, ◌≢◌, ◌↔◌, ◌⊎◌, inl,
  inr, sym, ap, ◌∙◌, arith,
}
use blockchain_ai_tools.Signing.Errors.{Error}
use blockchain_ai_tools.Signing.Request.{SignResult}
use blockchain_ai_tools.Demo.{
  Arguments, Content, text_content, other_content, CallResult, Stopped, Session,
  legacy_mainnet_args, server_args, or_fatal, good_result, first_text, address_failure,
  sign_failure, missing_arguments, call_for_text, check_raw_tx, run_demo,
}

-- A tool answered with a text, and no error.
pub record Answers (session : Session) (tool : Bytes) (arguments : List (Bytes × Bytes)) (t : Bytes)
    : Type 0 where
  pub result : CallResult
  pub got : session.call_tool tool arguments ≡ ok (some result)
  pub no_error : result.is_error ≡ false
  pub others : List Content
  pub is_text : result.content ≡ text_content t ∷ others

pub record Completed (a : Arguments) (session : Session) (payload : SignResult) : Type 0 where
  pub binary : a.binary ≢ []
  pub keystore : a.keystore ≢ []
  pub password : a.password_file ≢ []
  pub connected : session.connect a.binary (server_args a) ≡ ok tt
  pub address_text : Bytes
  pub address : Bytes
  pub address_answer : Answers session (text "get_address") [] address_text
  pub address_read : session.unmarshal_address address_text ≡ ok address
  pub sign_text : Bytes
  pub sign_answer : Answers session (text "sign_transaction") legacy_mainnet_args sign_text
  pub sign_read : session.unmarshal_sign_result sign_text ≡ ok payload
  pub golden : (a.want_raw_tx ≡ []) ⊎ (payload.raw_transaction ≡ a.want_raw_tx)

or_fatal-ok {ℓ} :
    {A : Type ℓ} (m : Error → Bytes) (r : Result Error A) (a : A) → or_fatal m r ≡ ok a → r ≡ ok a
or_fatal-ok m (ok b) a h = ap ok (ok-injective h)
or_fatal-ok m (err e) a h = absurd (cc)

good_result-ok :
    (m : Option CallResult → Bytes) (o : Option CallResult) (r : CallResult)
    → good_result m o ≡ ok r
    → (o ≡ some r) × (r.is_error ≡ false)
good_result-ok m none r h = absurd (cc)
good_result-ok m (some x) r h = elim (Bool-cases x.is_error) [
  | inl e ↦ absurd (ground arith)
  | inr e ↦
      let same_result : x ≡ r = ground arith in
      (ap some same_result, ap (λ y. y.is_error) (sym same_result) ∙ e)
]

first_text-ok :
    (tool : Bytes) (content : List Content) (t : Bytes)
    → first_text tool content ≡ ok t
    → (others : List Content) × (content ≡ text_content t ∷ others)
first_text-ok tool [] t h = absurd (cc)
first_text-ok tool (text_content x ∷ others) t h =
    (others, ap (λ y. text_content y ∷ others) (ok-injective h))
first_text-ok tool (other_content x ∷ others) t h = absurd (cc)

module _ (session : Session) (failure : Option CallResult → Bytes) (tool : Bytes)
    (arguments : List (Bytes × Bytes)) (t : Bytes) where
  text-Answers :
      call_for_text session failure tool arguments ≡ ok t → Answers session tool arguments t
  unfolding call_for_text
  text-Answers h =
      let (o, got, rest) = inverted _ _ h in
      let (r, good, last) = inverted _ _ rest in
      let (there, no_error) = good_result-ok failure o r good in
      let (others, shape) = first_text-ok tool r.content t last in
      record {
        result = r;
        got = or_fatal-ok _ _ o got ∙ ap ok there;
        no_error = no_error;
        others = others;
        is_text = shape;
      }

  Answers-text :
      Answers session tool arguments t → call_for_text session failure tool arguments ≡ ok t
  unfolding call_for_text
  Answers-text a = let got = a.got in let good = a.no_error in let shape = a.is_text in ground arith

raw_tx-Golden : (want got : Bytes) → check_raw_tx want got ≡ ok tt → (want ≡ []) ⊎ (got ≡ want)
unfolding check_raw_tx
raw_tx-Golden want got h = elim (Bool-cases (is_empty want)) [
  | inl e ↦ inl ((is_empty_iff want).0 e)
  | inr e ↦ elim (Bool-cases (same got want)) [
    | inl f ↦ inr ((same_iff got want).0 f)
    | inr f ↦ absurd (ground arith)
  ]
]

golden_passes : (want got : Bytes) → (want ≡ []) ⊎ (got ≡ want) → check_raw_tx want got ≡ ok tt
unfolding check_raw_tx
golden_passes want got (inl e) = let f = (is_empty_iff want).1 e in ground arith
golden_passes want got (inr e) = let f = (same_iff got want).1 e in ground arith

given :
    (a : Arguments)
    → missing_arguments a ≡ false
    → (a.binary ≢ []) × (a.keystore ≢ []) × (a.password_file ≢ [])
given a h = (
  λ e. let f = (is_empty_iff a.binary).1 e in absurd (ground arith),
  λ e. let f = (is_empty_iff a.keystore).1 e in absurd (ground arith),
  λ e. let f = (is_empty_iff a.password_file).1 e in absurd (ground arith),
)

reject-ok : (b : Bool) (e : Stopped) → reject b e ≡ ok tt → b ≡ false
reject-ok b e h = ground arith

module _ (a : Arguments) (session : Session) (payload : SignResult) where
  run_demo-Completed : run_demo a session ≡ ok payload → Completed a session payload
  unfolding run_demo
  run_demo-Completed h =
      let (_, arguments, h1) = inverted _ _ h in
      let (_, connecting, h2) = inverted _ _ h1 in
      let (address_text, address_called, h3) = inverted _ _ h2 in
      let (address, address_read, h4) = inverted _ _ h3 in
      let (sign_text, sign_called, h5) = inverted _ _ h4 in
      let (p, sign_read, h6) = inverted _ _ h5 in
      let (_, golden, h7) = inverted _ _ h6 in
      let same_payload = ok-injective h7 in
      let (binary, keystore, password) = given a (reject-ok _ _ arguments) in
      record {
        binary = binary;
        keystore = keystore;
        password = password;
        connected = or_fatal-ok _ _ tt connecting;
        address_text = address_text;
        address = address;
        address_answer = text-Answers session address_failure _ _ address_text address_called;
        address_read = or_fatal-ok _ _ address address_read;
        sign_text = sign_text;
        sign_answer = text-Answers session sign_failure _ _ sign_text sign_called;
        sign_read = or_fatal-ok _ _ p sign_read ∙ ap ok same_payload;
        golden =
            raw_tx-Golden a.want_raw_tx payload.raw_transaction
              (ap (λ x. check_raw_tx a.want_raw_tx x.raw_transaction) (sym same_payload) ∙ golden);
      }

  Completed-run_demo : Completed a session payload → run_demo a session ≡ ok payload
  unfolding run_demo
  Completed-run_demo c =
      let binary = not_empty a.binary c.binary in
      let keystore = not_empty a.keystore c.keystore in
      let password = not_empty a.password_file c.password in
      let connected = c.connected in
      let address_called =
        Answers-text session address_failure _ _ c.address_text c.address_answer in
      let address_read = c.address_read in
      let sign_called = Answers-text session sign_failure _ _ c.sign_text c.sign_answer in
      let sign_read = c.sign_read in
      let golden = golden_passes a.want_raw_tx payload.raw_transaction c.golden in ground arith

  -- The demo ends with a signed transaction exactly if its arguments are given, it connects, both
  -- tools answer with a text that can be read, and the transaction is the golden one, if one is given.
  pub run_demo_iff : (run_demo a session ≡ ok payload) ↔ Completed a session payload
  run_demo_iff = (run_demo-Completed, Completed-run_demo)
