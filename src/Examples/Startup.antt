-- ===== src/Examples/Startup.antt =====
-- The theorems on the startup, at a concrete command line.
use blockchain_ai_tools.Base.{Bytes, text, true, false, none, refl, some, Result, ok, ◌≡◌, ◌↔◌}
use blockchain_ai_tools.Signing.Errors.{Error}
use blockchain_ai_tools.Command.Config.{
  Config, Flags, build_config, Platform, IsValid, validate_config, validate_config_iff,
}
use blockchain_ai_tools.Command.FilePerms.{FileInfo}
use blockchain_ai_tools.Command.Startup.{Served, serves, http, run}
use blockchain_ai_tools.Command.Serving.{Serves, run_iff}
use blockchain_ai_tools.Server.Handling.{returns}
use blockchain_ai_tools.Server.Http.{shut_down}
use blockchain_ai_tools.Command.Program.{Surroundings, parsed, exit_status}
use blockchain_ai_tools.Command.Program.ExitStatus.{Tells, exit_status-Tells}
use blockchain_ai_tools.Examples.Signing.{some_port}
use blockchain_ai_tools.Examples.Addresses.{plain_common, plain_common-IsCommon}
use blockchain_ai_tools.Examples.Vault.{one_document, read_document, loaded_vault}

abbrev pub loopback_only : Platform
loopback_only = record {
  split_host = λ _. ok (text "127.0.0.1");
  parse_ip_is_loopback = λ _. some true;
  to_lower = λ s. s;
}

abbrev pub http_config : Config
http_config = record {
  keystore_path = text "k.json";
  password_path = text "pw.txt";
  http = true;
  http_addr = text "127.0.0.1:0";
  token_file_path = text "token";
  chain_id_guard = some 1;
  strict_perms = true;
  log_level = text "info";
}

abbrev every_flag : Flags
every_flag = record { string = λ name. name; bool = λ _. true; uint64 = λ _. 1; is_set = λ _. true }

abbrev closed_file : Bytes → Result Error FileInfo
closed_file _ = ok (record { is_regular = true; perm = 0o600 })

abbrev describe_mode : Bytes → FileInfo → Bytes
describe_mode path _ = path

abbrev served : Served
served = record { vault = loaded_vault; guard = some 1 }

validate_config_iff_example :
    (validate_config loopback_only http_config ≡ ok tt) ↔ IsValid loopback_only http_config
validate_config_iff_example = validate_config_iff loopback_only http_config

run_iff_example :
    ((run loopback_only closed_file describe_mode one_document plain_common read_document
        every_flag).0
      ≡ serves served (http (text "a") (text "t")))
    ↔ Serves loopback_only closed_file describe_mode one_document plain_common plain_common-IsCommon
        read_document
        (build_config every_flag)
        served
        (http (text "a") (text "t"))
run_iff_example =
    run_iff loopback_only closed_file describe_mode one_document plain_common plain_common-IsCommon
      read_document every_flag served (http (text "a") (text "t"))

abbrev quiet_surroundings : Surroundings
quiet_surroundings = record {
  platform = loopback_only;
  stat = closed_file;
  describe = describe_mode;
  json = one_document;
  common = plain_common;
  read_file = read_document;
  sum256 = λ b. b;
  quote = λ b. b;
  listen =
      λ _. ok (record { addr_text = text "127.0.0.1:8080"; is_tcp = true; is_loopback = true });
  is_server_closed = λ _. false;
  ending = shut_down none;
  signer = λ _. some_port;
  max_bytes = λ h _. h;
  streamable_http_handler = λ _ _. returns;
  sdk_run = λ _ _. none;
  build_info = none;
  cli_run = λ _. parsed every_flag;
}

exit_status-Tells_example :
    Tells quiet_surroundings plain_common-IsCommon every_flag (exit_status quiet_surroundings)
exit_status-Tells_example =
    exit_status-Tells quiet_surroundings plain_common-IsCommon every_flag refl
