-- ===== src/Command/CommandLine.antt =====
-- newCommand of main.go: the command that is handed to urfave/cli.
use blockchain_ai_tools.Base.{Bytes, text, Bool, true, false, List, [], ◌∷◌, Option, none, some}
use blockchain_ai_tools.Obs.{Info, info_string}

-- cli.StringFlag, cli.BoolFlag and cli.Uint64Flag, with the default where one is declared
pub data FlagKind : Type 0 where
  string_flag : Option Bytes → FlagKind
  bool_flag : Bool → FlagKind
  uint64_flag : FlagKind

pub record FlagDecl : Type 0 where
  pub name : Bytes
  pub kind : FlagKind
  pub is_required : Bool

pub record Command : Type 0 where
  pub name : Bytes
  pub version : Bytes
  pub flags : List FlagDecl

abbrev pub flag : Bytes → FlagKind → Bool → FlagDecl
flag name kind required = record { name = name; kind = kind; is_required = required }

-- Without the texts of the help.
unfoldable pub new_command : Info → Command
unfolding info_string
new_command info = record {
  name = text "eth-signer-mcp";
  version = info_string info;
  flags =
      flag (text "keystore") (string_flag none) true
      ∷ flag (text "password-file") (string_flag none) true
      ∷ flag (text "http") (bool_flag false) false
      ∷ flag (text "http-addr") (string_flag (some (text "127.0.0.1:0"))) false
      ∷ flag (text "http-auth-token-file") (string_flag none) false
      ∷ flag (text "chain-id") uint64_flag false
      ∷ flag (text "strict-perms") (bool_flag false) false
      ∷ flag (text "log-level") (string_flag (some (text "info"))) false
      ∷ [];
}
