-- ===== src/Signing/Build/Faithful.antt =====
-- A validated request is built into the transaction that it describes.
use blockchain_ai_tools.Base.{ℕ, [], Option, some, ok, ◌≡◌, inl, inr, arith}
use blockchain_ai_tools.Signing.Numbers.Numeral.{Numeral}
use blockchain_ai_tools.Signing.Hex.Spelling.{IsCalldata}
use blockchain_ai_tools.Signing.Address.{Common}
use blockchain_ai_tools.Signing.Address.Laws.{IsCommon}
use blockchain_ai_tools.Signing.Request.{TxRequest}
use blockchain_ai_tools.Signing.Validate.{ParsedTx, validate}
use blockchain_ai_tools.Signing.Validate.Rules.{Amount, Counter, TypeName}
use blockchain_ai_tools.Signing.Validate.FeeRules.{LegacyFees, DynamicFees, FeesOf}
use blockchain_ai_tools.Signing.Validate.Accepted.{Accepts, Destination, fees_of, validate_iff}
use blockchain_ai_tools.Signing.Types.{Types, TxData, LegacyTx, DynamicFeeTx, legacy, dynamic_fee}
use blockchain_ai_tools.Signing.Build.{or_default, build_tx, legacy_data, dynamic_fee_data}

-- The transaction spells what the fields of the request spell.
pub record LegacySpelled (common : Common) (req : TxRequest) (tx : LegacyTx) : Type 0 where
  pub nonce : Counter req.nonce tx.nonce
  pub gas : Counter req.gas tx.gas
  pub price : ℕ
  pub gas_price : tx.gas_price ≡ some price
  pub spelled_price : Amount req.gas_price price
  pub to : Destination common req.to tx.to
  pub value : Amount req.value tx.value
  pub call_data : IsCalldata req.call_data tx.call_data

pub record DynamicSpelled (common : Common) (req : TxRequest) (tx : DynamicFeeTx) : Type 0 where
  pub chain : Numeral req.chain_id tx.chain_id
  pub nonce : Counter req.nonce tx.nonce
  pub gas : Counter req.gas tx.gas
  pub tip : ℕ
  pub cap : ℕ
  pub gas_tip_cap : tx.gas_tip_cap ≡ some tip
  pub gas_fee_cap : tx.gas_fee_cap ≡ some cap
  pub spelled_tip : Amount req.max_priority_fee_per_gas tip
  pub spelled_cap : Amount req.max_fee_per_gas cap
  pub to : Destination common req.to tx.to
  pub value : Amount req.value tx.value
  pub call_data : IsCalldata req.call_data tx.call_data

-- Type 0 makes a legacy transaction, type 2 one with dynamic fees.
abbrev pub Describes : Common → TxRequest → TxData → Type 0
Describes common req (legacy tx) = TypeName req.type 0 × LegacySpelled common req tx
Describes common req (dynamic_fee tx) = TypeName req.type 2 × DynamicSpelled common req tx

module _ {Transaction Signer : Type 0} (types : Types Transaction Signer) (common : Common)
    (laws : IsCommon common) where
  builds_legacy :
      (p : ParsedTx)
      → p.tx_type ≡ 0
      → build_tx types p
        ≡ some (types.new_tx (legacy_data p), types.latest_signer_for_chain_id p.chain_id)
  unfolding build_tx
  builds_legacy p e = ground arith

  builds_dynamic :
      (p : ParsedTx)
      → p.tx_type ≡ 2
      → build_tx types p
        ≡ some (types.new_tx (dynamic_fee_data p), types.latest_signer_for_chain_id p.chain_id)
  unfolding build_tx
  builds_dynamic p e = ground arith

  module _ (req : TxRequest) (guard : Option ℕ) (p : ParsedTx)
      (h : Accepts common req guard p) where
    value_is_spelled : Amount req.value (or_default p.value 0)
    value_is_spelled = rw h.value h.spelled

    bytes_spelled : IsCalldata req.call_data (or_default p.call_data [])
    bytes_spelled = rw h.call_data h.calldata

    legacy_spelled :
        p.tx_type ≡ 0 → LegacyFees req (fees_of p) → Describes common req (legacy_data p)
    legacy_spelled e f = (
      rw e at h.typed,
      record {
        nonce = h.nonce;
        gas = h.gas;
        price = f.gas_price;
        gas_price = f.price;
        spelled_price = f.spelled;
        to = h.destination;
        value = value_is_spelled;
        call_data = bytes_spelled;
      },
    )

    dynamic_spelled :
        p.tx_type ≡ 2 → DynamicFees req (fees_of p) → Describes common req (dynamic_fee_data p)
    dynamic_spelled e f = (
      rw e at h.typed,
      record {
        chain = h.chain;
        nonce = h.nonce;
        gas = h.gas;
        tip = f.tip;
        cap = f.cap;
        gas_tip_cap = f.tipped;
        gas_fee_cap = f.capped;
        spelled_tip = f.spelled_tip;
        spelled_cap = f.spelled_cap;
        to = h.destination;
        value = value_is_spelled;
        call_data = bytes_spelled;
      },
    )

  build_accepted :
      (req : TxRequest) (guard : Option ℕ) (p : ParsedTx)
      → Accepts common req guard p
      → (d : TxData) × (build_tx types p
          ≡ some (types.new_tx d, types.latest_signer_for_chain_id p.chain_id))
        × Describes common req d
  build_accepted req guard p h = from_fees h.fees
    where
      from_fees :
          FeesOf req p.tx_type (fees_of p)
          → (d : TxData) × (build_tx types p
              ≡ some (types.new_tx d, types.latest_signer_for_chain_id p.chain_id))
            × Describes common req d
      from_fees (inl (e, f)) = (legacy_data p, builds_legacy p e, legacy_spelled req guard p h e f)
      from_fees (inr (e, f)) =
          (dynamic_fee_data p, builds_dynamic p e, dynamic_spelled req guard p h e f)

  -- What `validate` accepts, `buildTx` turns into the transaction that the request describes, for the
  -- chain that it names; it never reaches its panic.
  pub validate-build_tx :
      (req : TxRequest) (guard : Option ℕ) (p : ParsedTx)
      → validate common req guard ≡ ok p
      → (d : TxData) × (build_tx types p
          ≡ some (types.new_tx d, types.latest_signer_for_chain_id p.chain_id))
        × Describes common req d
        × Numeral req.chain_id p.chain_id
  validate-build_tx req guard p h =
      let accepts = (validate_iff common laws req guard p).0 h in
      let (d, built, described) = build_accepted req guard p accepts in
      (d, built, described, accepts.chain)
