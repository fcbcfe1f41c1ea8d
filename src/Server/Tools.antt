-- ===== src/Server/Tools.antt =====
-- server.go and stdio.go of the package `server`: the tools of the MCP server, and its run on stdio.
use blockchain_ai_tools.Base.{
  Bytes, text, ◌||◌, if◌then◌else◌, List, [], ◌∷◌, ◌++◌, Option, none, some,
}
use blockchain_ai_tools.Signing.Errors.{Error, in_chain, is_canceled, is_deadline_exceeded}
use blockchain_ai_tools.Server.Handlers.{SignerPort}

pub record Options : Type 0 where
  pub name : Bytes
  pub version : Bytes

-- The handler of a tool, on the signer that it was made with.
pub data ToolHandler : Type 0 where
  sign_transaction_handler get_address_handler : SignerPort → ToolHandler

-- mcp.Tool, with the handler that AddTool is given
pub record Tool : Type 0 where
  pub name : Bytes
  pub description : Bytes
  pub handler : ToolHandler

-- The mcp.Server that is set up.
pub record Server : Type 0 where
  pub name : Bytes
  pub version : Bytes
  pub tools : List Tool

abbrev em_dash : Bytes
em_dash = 0xe2 ∷ 0x80 ∷ 0x94 ∷ []

abbrev pub sign_transaction_description : Bytes
sign_transaction_description =
    text
      "Sign a fully-specified Ethereum transaction (type 0 / legacy or type 2 / EIP-1559) with the loaded keystore. Supported types: 0x0 (legacy, EIP-155) and 0x2 (EIP-1559). The signed transaction is returned as a hex-encoded RLP string (rawTransaction) ready for eth_sendRawTransaction, along with signature components and the transaction hash. The result is NOT broadcast "
    ++ (em_dash ++ text " the caller is responsible for submission.")

abbrev pub get_address_description : Bytes
get_address_description =
    text
      "Return the EIP-55 checksummed Ethereum address of the loaded keystore account. This is a read-only operation served from the boot-time keystore snapshot; the password file is NOT read and no KDF runs on this path. Safe to call even if the password file has been rotated or made unreadable. For keystores without a declared top-level address field, returns IsError:true with code \"address_unknown\" until sign_transaction has been called at least once (which discovers the address from the decrypted key)."

unfoldable pub new_server : SignerPort → Options → Server
new_server sp opts = record {
  name = opts.name;
  version = opts.version;
  tools =
      record {
        name = text "sign_transaction";
        description = sign_transaction_description;
        handler = sign_transaction_handler sp;
      }
      ∷ record {
        name = text "get_address";
        description = get_address_description;
        handler = get_address_handler sp;
      }
      ∷ [];
}

-- errors.Is of nil is false.
unfoldable pub normalize_shutdown_err : Option Error → Option Error
normalize_shutdown_err none = none
normalize_shutdown_err (some e) =
    if in_chain is_canceled e || in_chain is_deadline_exceeded e then none else some e

-- New
abbrev pub new : SignerPort → Options → Server
new = new_server

-- mcp.Transport, as far as the program makes one
pub data McpTransport : Type 0 where
  stdio_transport : McpTransport

-- `sdk_run` is (*mcp.Server).Run.
abbrev pub run_with_transport :
    (sdk_run : Server → McpTransport → Option Error) → Server → McpTransport → Option Error
run_with_transport sdk_run s t = sdk_run s t

unfoldable pub run_stdio : (sdk_run : Server → McpTransport → Option Error) → Server → Option Error
unfolding normalize_shutdown_err
run_stdio sdk_run s = normalize_shutdown_err (run_with_transport sdk_run s stdio_transport)
