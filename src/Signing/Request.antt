-- ===== src/Signing/Request.antt =====
-- request.go and result.go: what crosses the wire.
use blockchain_ai_tools.Base.{Bytes, List}

-- A field that the request leaves out is the empty string.
pub record TxRequest : Type 0 where
  pub type : Bytes
  pub chain_id : Bytes
  pub nonce : Bytes
  pub to : Bytes
  pub value : Bytes
  pub call_data : Bytes
  pub gas : Bytes
  pub gas_price : Bytes
  pub max_fee_per_gas : Bytes
  pub max_priority_fee_per_gas : Bytes
  pub access_list : List (Unit {0})

pub record SignatureValues : Type 0 where
  pub r : Bytes
  pub s : Bytes
  pub v : Bytes

pub record SignResult : Type 0 where
  pub raw_transaction : Bytes
  pub signature : SignatureValues
  pub hash : Bytes
  pub from : Bytes

pub record AddressResult : Type 0 where
  pub address : Bytes
