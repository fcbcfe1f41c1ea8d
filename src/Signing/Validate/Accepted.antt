-- ===== src/Signing/Validate/Accepted.antt =====
-- The requests that `validate` accepts, described with no order of rules, and the transaction that
-- it makes of each.
use blockchain_ai_tools.Base.{
  ℕ, ◌^◌, ◌<◌, Bytes, length, [], Option, none, some, ok, invert, ok-injective, ◌≡◌, ◌↔◌, ◌⊎◌, inl,
  inr, refl, arith, subst,
}
use blockchain_ai_tools.Signing.Numbers.Numeral.{Numeral}
use blockchain_ai_tools.Signing.Hex.{parse_data}
use blockchain_ai_tools.Signing.Hex.Spelling.{IsCalldata, parse_data_iff}
use blockchain_ai_tools.Signing.Address.{Common, Address, parse_to_address}
use blockchain_ai_tools.Signing.Address.Laws.{IsCommon}
use blockchain_ai_tools.Signing.Address.Recipient.{
  IsRecipient, parse_to_address_iff, parse_to_address-none_iff,
}
use blockchain_ai_tools.Signing.Request.{TxRequest}
use blockchain_ai_tools.Signing.Validate.{
  ParsedTx, Fees, validate, parse_fields, validate_chain_id, check_guard, parse_tx_type,
  check_required, check_inappropriate, check_access_list, parse_counter, parse_amount, parse_fees,
}
use blockchain_ai_tools.Signing.Validate.Rules.{
  Numeral-ne-nil, validate_chain_id_iff, Allowed, check_guard_iff, TypeName, parse_tx_type_iff,
  Amount, parse_amount_iff, Counter, parse_counter_iff,
}
use blockchain_ai_tools.Signing.Validate.FeeRules.{
  FeesOf, check_access_list_iff, fees_sound, fees_complete,
}

-- No recipient, or the address that the field spells.
abbrev pub Destination : Common → Bytes → Option Address → Type 0
Destination common s none = s ≡ []
Destination common s (some a) = IsRecipient common s a

abbrev pub fees_of : ParsedTx → Fees
fees_of p = record {
  gas_price = p.gas_price;
  gas_tip_cap = p.gas_tip_cap;
  gas_fee_cap = p.gas_fee_cap;
}

pub record Accepts (common : Common) (req : TxRequest) (guard : Option ℕ) (p : ParsedTx)
    : Type 0 where
  pub chain : Numeral req.chain_id p.chain_id
  pub protected : 0 < p.chain_id
  pub chain_fits : p.chain_id < 2 ^ 64
  pub allowed : Allowed guard p.chain_id
  pub typed : TypeName req.type p.tx_type
  pub nonce : Counter req.nonce p.nonce
  pub gas : Counter req.gas p.gas
  pub amount : ℕ
  pub value : p.value ≡ some amount
  pub spelled : Amount req.value amount
  pub fees : FeesOf req p.tx_type (fees_of p)
  pub no_access_list : length req.access_list ≡ 0
  pub bytes : Bytes
  pub call_data : p.call_data ≡ some bytes
  pub calldata : IsCalldata req.call_data bytes
  pub destination : Destination common req.to p.to

module _ (common : Common) (laws : IsCommon common) where
  to_iff :
      (s : Bytes) (to : Option Address)
      → (parse_to_address common s ≡ ok to) ↔ Destination common s to
  to_iff s none = parse_to_address-none_iff common s
  to_iff s (some a) = parse_to_address_iff common laws s a

  type_cases : (s : Bytes) (t : ℕ) → TypeName s t → (t ≡ 0) ⊎ (t ≡ 2)
  type_cases s t (inl h) = inl h.1
  type_cases s t (inr h) = inr h.1

  fields_sound :
      (req : TxRequest) (guard : Option ℕ) (id t : ℕ) (p : ParsedTx)
      → validate_chain_id req.chain_id ≡ ok id
      → check_guard id guard ≡ ok tt
      → parse_tx_type req.type ≡ ok t
      → check_inappropriate req t ≡ ok tt
      → check_access_list req ≡ ok tt
      → parse_fields common req id t ≡ ok p
      → Accepts common req guard p
  unfolding parse_fields
  fields_sound req guard id t p chain allowed typed proper access h =
      invert (parse_counter req.nonce _) _ h λ nonce counted h1.
        invert (parse_counter req.gas _) _ h1 λ gas limited h2.
          invert (parse_amount req.value _ _) _ h2 λ value paid h3.
            invert (parse_fees req t) _ h3 λ fees priced h4.
              invert (parse_data req.call_data) _ h4 λ bytes decoded h5.
                invert (parse_to_address common req.to) _ h5 λ to sent built.
                  let chained = (validate_chain_id_iff req.chain_id id).0 chain in
                  let named = (parse_tx_type_iff req.type t).0 typed in
                  subst (Accepts common req guard) (ok-injective built) (record {
                    chain = chained.0;
                    protected = chained.1;
                    chain_fits = chained.2;
                    allowed = (check_guard_iff id guard).0 allowed;
                    typed = named;
                    nonce = (parse_counter_iff req.nonce _ nonce).0 counted;
                    gas = (parse_counter_iff req.gas _ gas).0 limited;
                    amount = value;
                    value = refl;
                    spelled = (parse_amount_iff req.value _ _ value).0 paid;
                    fees = fees_sound req t fees (type_cases req.type t named) proper priced;
                    no_access_list = (check_access_list_iff req).0 access;
                    bytes = bytes;
                    call_data = refl;
                    calldata = (parse_data_iff req.call_data bytes).0 decoded;
                    destination = (to_iff req.to to).0 sent;
                  })

  validate_sound :
      (req : TxRequest) (guard : Option ℕ) (p : ParsedTx)
      → validate common req guard ≡ ok p
      → Accepts common req guard p
  unfolding validate
  validate_sound req guard p h = invert (validate_chain_id req.chain_id) _ h λ id chain h1.
      invert (check_guard id guard) _ h1 λ _ allowed h2.
        invert (parse_tx_type req.type) _ h2 λ t typed h3.
          invert (check_required req t) _ h3 λ _ required h4.
            invert (check_inappropriate req t) _ h4 λ _ proper h5.
              invert (check_access_list req) _ h5
                λ _ access h6. fields_sound req guard id t p chain allowed typed proper access h6

  validate_complete :
      (req : TxRequest) (guard : Option ℕ) (p : ParsedTx)
      → Accepts common req guard p
      → validate common req guard ≡ ok p
  unfolding validate parse_fields
  validate_complete req guard p h =
      let (required, proper, priced) =
        fees_complete req p.tx_type (fees_of p) (Numeral-ne-nil req.nonce p.nonce h.nonce.0)
          (Numeral-ne-nil req.gas p.gas h.gas.0) (Numeral-ne-nil req.value h.amount h.spelled.0)
          h.fees in
      rw
        (
          (validate_chain_id_iff req.chain_id p.chain_id).1 (h.chain, h.protected, h.chain_fits),
          (check_guard_iff p.chain_id guard).1 h.allowed,
          (parse_tx_type_iff req.type p.tx_type).1 h.typed,
          required,
          proper,
          (check_access_list_iff req).1 h.no_access_list,
          (parse_counter_iff req.nonce _ p.nonce).1 h.nonce,
          (parse_counter_iff req.gas _ p.gas).1 h.gas,
          (parse_amount_iff req.value _ _ h.amount).1 h.spelled,
          priced,
          (parse_data_iff req.call_data h.bytes).1 h.calldata,
          (to_iff req.to p.to).1 h.destination,
        )
        (ground (arith, h.value, h.call_data))

  -- `validate` accepts exactly these requests, with exactly these transactions.
  pub validate_iff :
      (req : TxRequest) (guard : Option ℕ) (p : ParsedTx)
      → (validate common req guard ≡ ok p) ↔ Accepts common req guard p
  validate_iff req guard p = (validate_sound req guard p, validate_complete req guard p)
