-- ===== src/Signing/Build/Typed.antt =====
-- What is built fits the types of the fields that go-ethereum encodes.
use blockchain_ai_tools.Base.{
  ℕ, ◌^◌, ◌≤◌, ◌<◌, Bytes, IsByte, length, All, Option, none, some, ok, ok-injective, ◌≡◌, sym, ◌∙◌,
  subst, arith,
}
use blockchain_ai_tools.Signing.Numbers.Numeral.{Numeral, parse_big_int_iff}
use blockchain_ai_tools.Signing.Hex.{max_data_bytes}
use blockchain_ai_tools.Signing.Hex.Spelling.{IsCalldata, Spells-IsByte, length-Spells}
use blockchain_ai_tools.Signing.Address.{Common, Address}
use blockchain_ai_tools.Signing.Address.Laws.{IsAddress, IsCommon}
use blockchain_ai_tools.Signing.Request.{TxRequest}
use blockchain_ai_tools.Signing.Validate.{ParsedTx, validate}
use blockchain_ai_tools.Signing.Validate.Accepted.{Accepts, Destination, validate_iff}
use blockchain_ai_tools.Signing.Types.{Types, TxData, LegacyTx, DynamicFeeTx, legacy, dynamic_fee}
use blockchain_ai_tools.Signing.Build.{build_tx}
use blockchain_ai_tools.Signing.Build.Faithful.{
  LegacySpelled, DynamicSpelled, Describes, validate-build_tx,
}

-- A 256-bit quantity that is there.
abbrev IsQuantity : Option ℕ → Type 0
IsQuantity o = (n : ℕ) × (o ≡ some n) × (n < 2 ^ 256)

-- The call data: bytes, and at most 256 KiB of them.
abbrev IsData : Bytes → Type 0
IsData b = All IsByte b × (length b ≤ max_data_bytes)

abbrev IsTo : Option Address → Type 0
IsTo none = Unit
IsTo (some a) = IsAddress a

pub record IsLegacy (tx : LegacyTx) : Type 0 where
  pub nonce : tx.nonce < 2 ^ 64
  pub gas : tx.gas < 2 ^ 64
  pub gas_price : IsQuantity tx.gas_price
  pub to : IsTo tx.to
  pub value : tx.value < 2 ^ 256
  pub call_data : IsData tx.call_data

pub record IsDynamicFee (tx : DynamicFeeTx) : Type 0 where
  pub chain : (0 < tx.chain_id) × (tx.chain_id < 2 ^ 64)
  pub nonce : tx.nonce < 2 ^ 64
  pub gas : tx.gas < 2 ^ 64
  pub gas_tip_cap : IsQuantity tx.gas_tip_cap
  pub gas_fee_cap : IsQuantity tx.gas_fee_cap
  pub to : IsTo tx.to
  pub value : tx.value < 2 ^ 256
  pub call_data : IsData tx.call_data

abbrev pub IsTyped : TxData → Type 0
IsTyped (legacy tx) = IsLegacy tx
IsTyped (dynamic_fee tx) = IsDynamicFee tx

Numeral-unique : (s : Bytes) (n m : ℕ) → Numeral s n → Numeral s m → n ≡ m
Numeral-unique s n m h k =
    ok-injective (sym ((parse_big_int_iff s n).1 h) ∙ (parse_big_int_iff s m).1 k)

IsCalldata-IsData : (s b : Bytes) → IsCalldata s b → IsData b
IsCalldata-IsData s b h = (Spells-IsByte h.rest b h.spelled, h.within)

Destination-IsTo :
    (common : Common) (s : Bytes) (to : Option Address) → Destination common s to → IsTo to
Destination-IsTo common s none h = tt
Destination-IsTo common s (some a) h =
    let twice = length-Spells h.digits a h.spelled in
    let forty = h.sized in (omega (arith, twice, forty), Spells-IsByte h.digits a h.spelled)

module _ (common : Common) (req : TxRequest) where
  LegacySpelled-IsLegacy : (tx : LegacyTx) → LegacySpelled common req tx → IsLegacy tx
  LegacySpelled-IsLegacy tx h = record {
    nonce = h.nonce.1;
    gas = h.gas.1;
    gas_price = (h.price, h.gas_price, h.spelled_price.1);
    to = Destination-IsTo common (req.to) (tx.to) h.to;
    value = h.value.1;
    call_data = IsCalldata-IsData (req.call_data) (tx.call_data) h.call_data;
  }

  DynamicSpelled-IsDynamicFee :
      (tx : DynamicFeeTx) (guard : Option ℕ) (p : ParsedTx)
      → Accepts common req guard p
      → DynamicSpelled common req tx
      → IsDynamicFee tx
  DynamicSpelled-IsDynamicFee tx guard p a h =
      let same_chain = Numeral-unique (req.chain_id) (tx.chain_id) (p.chain_id) h.chain a.chain in
      let positive = a.protected in
      let fits = a.chain_fits in
      record {
        chain =
            (omega (arith, same_chain, positive), subst (λ n. n < 2 ^ 64) (sym same_chain) fits);
        nonce = h.nonce.1;
        gas = h.gas.1;
        gas_tip_cap = (h.tip, h.gas_tip_cap, h.spelled_tip.1);
        gas_fee_cap = (h.cap, h.gas_fee_cap, h.spelled_cap.1);
        to = Destination-IsTo common (req.to) (tx.to) h.to;
        value = h.value.1;
        call_data = IsCalldata-IsData (req.call_data) (tx.call_data) h.call_data;
      }

  Describes-IsTyped :
      (d : TxData) (guard : Option ℕ) (p : ParsedTx)
      → Accepts common req guard p
      → Describes common req d
      → IsTyped d
  Describes-IsTyped (legacy tx) guard p a h = LegacySpelled-IsLegacy tx h.1
  Describes-IsTyped (dynamic_fee tx) guard p a h = DynamicSpelled-IsDynamicFee tx guard p a h.1

module _ {Transaction Signer : Type 0} (types : Types Transaction Signer) (common : Common)
    (laws : IsCommon common) where
  -- Of a request that validate accepts, buildTx makes a transaction whose fields fit their types:
  -- a nonce, gas and chain id below 2 ^ 64, amounts below 2 ^ 256, addresses of 20 bytes, and at
  -- most 256 KiB of bytes as call data; for a chain id that is not zero.
  pub build_tx-IsTyped :
      (req : TxRequest) (guard : Option ℕ) (p : ParsedTx)
      → validate common req guard ≡ ok p
      → (d : TxData) × (build_tx types p
          ≡ some (types.new_tx d, types.latest_signer_for_chain_id p.chain_id))
        × IsTyped d
        × (0 < p.chain_id)
        × (p.chain_id < 2 ^ 64)
  build_tx-IsTyped req guard p h =
      let a = (validate_iff common laws req guard p).0 h in
      let (d, built, described, _) = validate-build_tx types common laws req guard p h in
      (d, built, Describes-IsTyped common req d guard p a described, a.protected, a.chain_fits)
