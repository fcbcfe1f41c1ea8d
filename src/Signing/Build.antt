-- ===== src/Signing/Build.antt =====
-- buildTx of build.go.
pub mod Faithful
pub mod Typed
use blockchain_ai_tools.Base.{ℕ, Bytes, ◌==◌, if◌then◌else◌, [], Option, none, some}
use blockchain_ai_tools.Signing.Validate.{ParsedTx}
use blockchain_ai_tools.Signing.Types.{Types, TxData, legacy, dynamic_fee}

-- `if x == nil { x = d }`
abbrev pub or_default {ℓ} : {A : Type ℓ} → Option A → A → A
or_default none d = d
or_default (some a) d = a

abbrev pub legacy_data : ParsedTx → TxData
legacy_data p = legacy (record {
  nonce = p.nonce;
  gas_price = p.gas_price;
  gas = p.gas;
  to = p.to;
  value = or_default p.value 0;
  call_data = or_default p.call_data [];
})

abbrev pub dynamic_fee_data : ParsedTx → TxData
dynamic_fee_data p = dynamic_fee (record {
  chain_id = p.chain_id;
  nonce = p.nonce;
  gas_tip_cap = p.gas_tip_cap;
  gas_fee_cap = p.gas_fee_cap;
  gas = p.gas;
  to = p.to;
  value = or_default p.value 0;
  call_data = or_default p.call_data [];
})

-- `none` is the panic on a type that is neither 0 nor 2.
module _ {Transaction Signer : Type 0} (types : Types Transaction Signer) where
  open types use {new_tx, latest_signer_for_chain_id}

  unfoldable pub build_tx : ParsedTx → Option (Transaction × Signer)
  build_tx p =
      let signer = latest_signer_for_chain_id p.chain_id in
      if p.tx_type == 2
      then some (new_tx (dynamic_fee_data p), signer)
      else if p.tx_type == 0
      then some (new_tx (legacy_data p), signer)
      else none
