-- ===== src/Signing/Validate/FeeRules.antt =====
-- What the rules on the fields of each transaction type let through.
use blockchain_ai_tools.Base.{
  ℕ, is_empty_iff, not_empty, length, [], none, some, ok, inverted, ◌≡◌, ◌≢◌, ◌↔◌, ◌⊎◌, inl, inr,
  arith,
}
use blockchain_ai_tools.Signing.Request.{TxRequest}
use blockchain_ai_tools.Signing.Validate.{
  check_required, check_required_fees, check_inappropriate, check_access_list, parse_amount, Fees,
  parse_fees,
}
use blockchain_ai_tools.Signing.Validate.Rules.{Amount, parse_amount_iff, Numeral-ne-nil}

-- The fee fields of a legacy request: a gas price, and none of the other type's.
pub record LegacyFees (req : TxRequest) (fees : Fees) : Type 0 where
  pub gas_price : ℕ
  pub price : fees.gas_price ≡ some gas_price
  pub no_tip : fees.gas_tip_cap ≡ none
  pub no_cap : fees.gas_fee_cap ≡ none
  pub spelled : Amount req.gas_price gas_price
  pub no_max_fee : req.max_fee_per_gas ≡ []
  pub no_max_priority_fee : req.max_priority_fee_per_gas ≡ []

-- The fee fields of an EIP-1559 request: a tip and a cap, and no gas price.
pub record DynamicFees (req : TxRequest) (fees : Fees) : Type 0 where
  pub tip : ℕ
  pub cap : ℕ
  pub no_price : fees.gas_price ≡ none
  pub tipped : fees.gas_tip_cap ≡ some tip
  pub capped : fees.gas_fee_cap ≡ some cap
  pub spelled_tip : Amount req.max_priority_fee_per_gas tip
  pub spelled_cap : Amount req.max_fee_per_gas cap
  pub no_gas_price : req.gas_price ≡ []

abbrev pub FeesOf : TxRequest → ℕ → Fees → Type 0
FeesOf req t fees = ((t ≡ 0) × LegacyFees req fees) ⊎ ((t ≡ 2) × DynamicFees req fees)

pub check_access_list_iff :
    (req : TxRequest) → (check_access_list req ≡ ok tt) ↔ (length req.access_list ≡ 0)
unfolding check_access_list
check_access_list_iff req = (λ h. ground arith, λ h. ground arith)

inappropriate_legacy :
    (req : TxRequest)
    → check_inappropriate req 0 ≡ ok tt
    → (req.max_fee_per_gas ≡ []) × (req.max_priority_fee_per_gas ≡ [])
unfolding check_inappropriate
inappropriate_legacy req h =
    ground (arith, is_empty_iff req.max_fee_per_gas, is_empty_iff req.max_priority_fee_per_gas)

inappropriate_dynamic : (req : TxRequest) → check_inappropriate req 2 ≡ ok tt → req.gas_price ≡ []
unfolding check_inappropriate
inappropriate_dynamic req h = ground (arith, is_empty_iff req.gas_price)

fees_legacy :
    (req : TxRequest) (fees : Fees)
    → check_inappropriate req 0 ≡ ok tt
    → parse_fees req 0 ≡ ok fees
    → LegacyFees req fees
unfolding parse_fees
fees_legacy req fees proper h =
    let (gas_price, parsed, built) = inverted (parse_amount req.gas_price _ _) _ h in
    let (no_max, no_priority) = inappropriate_legacy req proper in
    record {
      gas_price = gas_price;
      price = ground arith;
      no_tip = ground arith;
      no_cap = ground arith;
      spelled = (parse_amount_iff req.gas_price _ _ gas_price).0 parsed;
      no_max_fee = no_max;
      no_max_priority_fee = no_priority;
    }

fees_dynamic :
    (req : TxRequest) (fees : Fees)
    → check_inappropriate req 2 ≡ ok tt
    → parse_fees req 2 ≡ ok fees
    → DynamicFees req fees
unfolding parse_fees
fees_dynamic req fees proper h =
    let (tip, parsed_tip, rest) = inverted (parse_amount req.max_priority_fee_per_gas _ _) _ h in
    let (cap, parsed_cap, built) = inverted (parse_amount req.max_fee_per_gas _ _) _ rest in
    record {
      tip = tip;
      cap = cap;
      no_price = ground arith;
      tipped = ground arith;
      capped = ground arith;
      spelled_tip = (parse_amount_iff req.max_priority_fee_per_gas _ _ tip).0 parsed_tip;
      spelled_cap = (parse_amount_iff req.max_fee_per_gas _ _ cap).0 parsed_cap;
      no_gas_price = inappropriate_dynamic req proper;
    }

pub fees_sound :
    (req : TxRequest) (t : ℕ) (fees : Fees)
    → (t ≡ 0) ⊎ (t ≡ 2)
    → check_inappropriate req t ≡ ok tt
    → parse_fees req t ≡ ok fees
    → FeesOf req t fees
fees_sound req t fees (inl e) proper h = inl (e, fees_legacy req fees (rw e at proper) (rw e at h))
fees_sound req t fees (inr e) proper h = inr (e, fees_dynamic req fees (rw e at proper) (rw e at h))

required_complete :
    (req : TxRequest) (t : ℕ)
    → req.nonce ≢ []
    → req.gas ≢ []
    → req.value ≢ []
    → check_required_fees req t ≡ ok tt
    → check_required req t ≡ ok tt
unfolding check_required
required_complete req t nonce gas value h =
    rw (not_empty req.nonce nonce, not_empty req.gas gas, not_empty req.value value) h

module _ (req : TxRequest) (fees : Fees) where
  legacy_complete :
      LegacyFees req fees
      → (check_required_fees req 0 ≡ ok tt)
        × (check_inappropriate req 0 ≡ ok tt)
        × (parse_fees req 0 ≡ ok fees)
  unfolding check_required_fees check_inappropriate parse_fees
  legacy_complete f = (
    rw (not_empty req.gas_price (Numeral-ne-nil req.gas_price f.gas_price f.spelled.0)),
    rw (f.no_max_fee, f.no_max_priority_fee),
    rw ((parse_amount_iff req.gas_price _ _ f.gas_price).1 f.spelled)
        (ground (arith, f.price, f.no_tip, f.no_cap)),
  )

  dynamic_complete :
      DynamicFees req fees
      → (check_required_fees req 2 ≡ ok tt)
        × (check_inappropriate req 2 ≡ ok tt)
        × (parse_fees req 2 ≡ ok fees)
  unfolding check_required_fees check_inappropriate parse_fees
  dynamic_complete f = (
    rw (
      not_empty req.max_fee_per_gas (Numeral-ne-nil req.max_fee_per_gas f.cap f.spelled_cap.0),
      not_empty req.max_priority_fee_per_gas
          (Numeral-ne-nil req.max_priority_fee_per_gas f.tip f.spelled_tip.0),
    ),
    rw f.no_gas_price,
    rw
        (
          (parse_amount_iff req.max_priority_fee_per_gas _ _ f.tip).1 f.spelled_tip,
          (parse_amount_iff req.max_fee_per_gas _ _ f.cap).1 f.spelled_cap,
        )
        (ground (arith, f.no_price, f.tipped, f.capped)),
  )

-- Requests with the fields of their type pass the three rules on them.
pub fees_complete :
    (req : TxRequest) (t : ℕ) (fees : Fees)
    → req.nonce ≢ []
    → req.gas ≢ []
    → req.value ≢ []
    → FeesOf req t fees
    → (check_required req t ≡ ok tt)
      × (check_inappropriate req t ≡ ok tt)
      × (parse_fees req t ≡ ok fees)
fees_complete req t fees nonce gas value (inl (e, f)) =
    let (required, proper, parsed) = legacy_complete req fees f in
    rw e (required_complete req 0 nonce gas value required, proper, parsed)
fees_complete req t fees nonce gas value (inr (e, f)) =
    let (required, proper, parsed) = dynamic_complete req fees f in
    rw e (required_complete req 2 nonce gas value required, proper, parsed)
