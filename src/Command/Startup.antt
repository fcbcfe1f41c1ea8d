-- ===== src/Command/Startup.antt =====
-- `run` of main.go: from the command line to the transport.
use blockchain_ai_tools.Base.{
  ℕ, Bytes, text, if◌then◌else◌, ◌∷◌, ◌++◌, [], List, Option, none, some, Result, ok, err,
}
use blockchain_ai_tools.Signing.Errors.{
  Error, wrapped, as_tool_error, cause_of, code_of, message_of, code_text, cause, no_cause,
  error_text,
}
use blockchain_ai_tools.Signing.Address.{Common}
use blockchain_ai_tools.Signing.Keystore.{Json, FileKeyVault, new_file_key_vault, vault_address}
use blockchain_ai_tools.Command.Config.{Config, Flags, build_config, Platform, validate_config}
use blockchain_ai_tools.Command.FilePerms.{FileInfo, PermLine, Exit, apply_perm_checks}

-- The lines of the logger, and what is printed on stderr.
pub data StartupLine : Type 0 where
  starting : (log_level : Bytes) → StartupLine
  perm_line : PermLine → StartupLine
  printed : Bytes → StartupLine
  keystore_failed : (code message cause_text : Bytes) → StartupLine
  keystore_failed_with : (error : Bytes) → StartupLine
  keystore_loaded : (address : Bytes) → StartupLine

-- The signer behind the server, and the transport that it runs on.
pub record Served : Type 0 where
  pub vault : FileKeyVault
  pub guard : Option ℕ

-- NewSigner, with the options that it is given; it panics on a vault that is nil, and this one is not.
abbrev pub new_signer : FileKeyVault → Option ℕ → Served
new_signer vault chain_id_guard = record { vault = vault; guard = chain_id_guard }

pub data Transport : Type 0 where
  http : (addr token_file_path : Bytes) → Transport
  stdio : Transport

-- What `run` comes to: an error, an exit with a code, or the call of a transport.
pub data Started : Type 0 where
  failed_with : Error → Started
  exits : Exit → Started
  serves : Served → Transport → Started

abbrev pub secret_paths : Config → List Bytes
secret_paths cfg =
    cfg.keystore_path ∷ cfg.password_path ∷ (if cfg.http then cfg.token_file_path ∷ [] else [])

abbrev pub transport_of : Config → Transport
transport_of cfg = if cfg.http then http cfg.http_addr cfg.token_file_path else stdio

abbrev pub perm_lines : List PermLine → List StartupLine
perm_lines [] = []
perm_lines (l ∷ ls) = perm_line l ∷ perm_lines ls

abbrev pub keystore_startup_error : Bytes
keystore_startup_error = text "eth-signer-mcp: keystore startup error: "

abbrev pub without_cause : Error → List StartupLine
without_cause e =
    printed (keystore_startup_error ++ error_text e) ∷ keystore_failed_with (error_text e) ∷ []

-- `errors.As(err, &te) && te.Cause != nil`
unfoldable pub report_keystore_error : Error → List StartupLine
report_keystore_error e = elim (as_tool_error e) [
  | none ↦ without_cause e
  | some t ↦ elim (cause_of t) [
    | no_cause ↦ without_cause e
    | cause c ↦
        printed (keystore_startup_error ++ message_of t)
        ∷ keystore_failed (code_text (code_of t)) (message_of t) (error_text c)
        ∷ []
  ]
]

module _ (platform : Platform) (stat : Bytes → Result Error FileInfo)
    (describe : Bytes → FileInfo → Bytes) (json : Json) (common : Common)
    (read_file : Bytes → Result Error Bytes) where
  -- Step 4 and on.
  unfoldable pub load_and_serve : Config → Started × List StartupLine
  load_and_serve cfg =
      elim (new_file_key_vault json common read_file
        (record { keystore_path = cfg.keystore_path; password_path = cfg.password_path })) [
          | err e ↦
              (failed_with (wrapped (text "keystore startup error") e), report_keystore_error e)
          | ok vault ↦ (
            serves (new_signer vault cfg.chain_id_guard) (transport_of cfg),
            keystore_loaded (common.hex (vault_address vault)) ∷ [],
          )
        ]

  -- Step 3.
  unfoldable pub check_and_serve : Config → Started × List StartupLine
  unfolding load_and_serve
  check_and_serve cfg =
      let (checked, lines) = apply_perm_checks stat describe (secret_paths cfg) cfg.strict_perms in
      let (served, more) = load_and_serve cfg in
      elim checked [
        | err e ↦ (exits e, perm_lines lines)
        | ok _ ↦ (served, perm_lines lines ++ more)
      ]

  unfoldable pub run : Flags → Started × List StartupLine
  unfolding check_and_serve
  run cmd =
      let cfg = build_config cmd in
      let (started, lines) = check_and_serve cfg in
      elim (validate_config platform cfg) [
        | err e ↦ (failed_with e, [])
        | ok _ ↦ (started, starting (cfg.log_level) ∷ lines)
      ]
