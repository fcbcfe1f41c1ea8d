-- ===== src/Command/Program.antt =====
-- main.go as a process: from the command line to the exit status.
pub mod ExitStatus
use blockchain_ai_tools.Base.{
  ℕ, Bytes, text, Bool, false, ◌∷◌, ◌++◌, [], List, Option, none, some, Result,
}
use blockchain_ai_tools.Signing.Errors.{Error, error_text}
use blockchain_ai_tools.Signing.Address.{Common}
use blockchain_ai_tools.Signing.Keystore.{Json}
use blockchain_ai_tools.Server.Auth.{Sum256}
use blockchain_ai_tools.Server.Http.{BoundAddr, Ending, MaxBytes, HttpEnv, run_http}
use blockchain_ai_tools.Server.Handlers.{SignerPort}
use blockchain_ai_tools.Server.Tools.{Options, Server, McpTransport, new_server, new, run_stdio}
use blockchain_ai_tools.Server.Handling.{Handler}
use blockchain_ai_tools.Obs.{BuildInfo, build}
use blockchain_ai_tools.Command.CommandLine.{Command, new_command}
use blockchain_ai_tools.Command.Config.{Flags, Platform}
use blockchain_ai_tools.Command.FilePerms.{FileInfo, Exit}
use blockchain_ai_tools.Command.Startup.{
  http, stdio, Served, Transport, Started, failed_with, exits, serves, run,
}

-- What cmd.Run makes of the command line: an error of its own, a text that it prints, as for
-- --help, or flags for the Action.
pub data Parsed : Type 0 where
  refused : Error → Parsed
  informed : Parsed
  parsed : Flags → Parsed

-- What cmd.Run returns: nil, a cli.ExitCoder, or another error.
pub data Returned : Type 0 where
  nil : Returned
  exit_coder : Exit → Returned
  other : Error → Returned

abbrev pub returned_by_transport : Option Error → Returned
returned_by_transport none = nil
returned_by_transport (some e) = other e

-- main: the exit status, and what it prints
unfoldable pub main_exit : Returned → ℕ × List Bytes
main_exit nil = (0, [])
main_exit (exit_coder e) = (e.code, [])
main_exit (other e) = (1, (text "eth-signer-mcp: " ++ (error_text e ++ b'\n' ∷ [])) ∷ [])

-- What is outside of the program, as a process meets it.
pub record Surroundings : Type 0 where
  pub platform : Platform
  pub stat : Bytes → Result Error FileInfo
  pub describe : Bytes → FileInfo → Bytes
  pub json : Json
  pub common : Common
  pub read_file : Bytes → Result Error Bytes
  pub sum256 : Sum256
  pub quote : Bytes → Bytes
  pub listen : Bytes → Result Error BoundAddr
  pub is_server_closed : Error → Bool
  pub ending : Ending
  pub signer : Served → SignerPort
  pub max_bytes : MaxBytes
  pub streamable_http_handler : Server → Handler
  pub sdk_run : Server → McpTransport → Option Error
  pub build_info : Option BuildInfo
  pub cli_run : Command → Parsed

-- Step 6
unfoldable pub served_server : Surroundings → Served → Server
unfolding new_server build
served_server env served =
    new (env.signer served)
      (record { name = text "eth-signer-mcp"; version = (build env.build_info).version })

abbrev pub http_env : Surroundings → Server → HttpEnv
http_env env server = record {
  sum256 = env.sum256;
  quote = env.quote;
  read_file = env.read_file;
  listen = env.listen;
  is_server_closed = env.is_server_closed;
  max_bytes = env.max_bytes;
  sdk_handler = env.streamable_http_handler server;
}

-- Steps 7 to 9
unfoldable pub run_transport : Surroundings → Served → Transport → Option Error
unfolding run_http run_stdio served_server
run_transport env served (http addr token_file_path) =
    (run_http (http_env env (served_server env served))
      (record {
        addr = addr;
        token_file_path = token_file_path;
        ready_ch = none;
        capture_http_srv_ch = false;
      })
      env.ending).0
run_transport env served stdio = run_stdio env.sdk_run (served_server env served)

abbrev pub act : Surroundings → Started → Returned
act env (failed_with e) = other e
act env (exits e) = exit_coder e
act env (serves served t) = returned_by_transport (run_transport env served t)

unfoldable pub run_command : Surroundings → Parsed → Returned
unfolding run run_transport
run_command env (refused e) = other e
run_command env informed = nil
run_command env (parsed cmd) =
    act env (run env.platform env.stat env.describe env.json env.common env.read_file cmd).0

-- main, with what cmd.Run makes of the arguments of the process
unfoldable pub exit_status : Surroundings → ℕ
unfolding main_exit run_command build new_command
exit_status env = (main_exit (run_command env (env.cli_run (new_command (build env.build_info))))).0
