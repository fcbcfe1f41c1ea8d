-- ===== src/Signing/Types.antt =====
-- What the program calls of go-ethereum's packages `core/types` and `common/hexutil`.
use blockchain_ai_tools.Base.{ℕ, Bytes, Option, Result}
use blockchain_ai_tools.Signing.Errors.{Error}
use blockchain_ai_tools.Signing.Address.{Address}

-- The fields of `types.LegacyTx` and `types.DynamicFeeTx` that the program sets. The access list of
-- the second is never set.
pub record LegacyTx : Type 0 where
  pub nonce : ℕ
  pub gas_price : Option ℕ
  pub gas : ℕ
  pub to : Option Address
  pub value : ℕ
  pub call_data : Bytes

pub record DynamicFeeTx : Type 0 where
  pub chain_id : ℕ
  pub nonce : ℕ
  pub gas_tip_cap : Option ℕ
  pub gas_fee_cap : Option ℕ
  pub gas : ℕ
  pub to : Option Address
  pub value : ℕ
  pub call_data : Bytes

pub data TxData : Type 0 where
  legacy : LegacyTx → TxData
  dynamic_fee : DynamicFeeTx → TxData

-- The transactions and signers of the package. A private key is known by its scalar.
pub record Types (Transaction Signer : Type 0) : Type 0 where
  pub new_tx : TxData → Transaction
  pub latest_signer_for_chain_id : ℕ → Signer
  -- `none` where the call panics
  pub sign_tx : Transaction → Signer → ℕ → Option (Result Error Transaction)
  pub marshal_binary : Transaction → Result Error Bytes
  -- v, r and s
  pub raw_signature_values : Transaction → ℕ × ℕ × ℕ
  pub sender : Signer → Transaction → Result Error Address
  pub hash_hex : Transaction → Bytes
  pub encode_big : ℕ → Bytes
