-- ===== src/Obs.antt =====
-- The package internal/obs: the build information, and the levels of the log.
use blockchain_ai_tools.Base.{
  Bytes, Bool, text, same, is_empty, if◌then◌else◌, List, [], ◌∷◌, ◌++◌, Option, none, some,
}

abbrev pub unknown_value : Bytes
unknown_value = text "<unknown>"

-- debug.BuildInfo, as far as it is read: the settings are keys with values.
pub record BuildInfo : Type 0 where
  pub main_version : Bytes
  pub go_version : Bytes
  pub settings : List (Bytes × Bytes)

pub record Info : Type 0 where
  pub version : Bytes
  pub commit : Bytes
  pub date : Bytes
  pub go_version : Bytes

unfoldable pub info_string : Info → Bytes
info_string i =
    i.version
    ++ (text " (commit "
        ++ (i.commit ++ (text ", built " ++ (i.date ++ (text ", " ++ (i.go_version ++ text ")"))))))

unfoldable pub non_empty : Bytes → Bytes
non_empty s = if is_empty s then unknown_value else s

abbrev pub apply_setting : Bytes × Bytes → Info → Info
apply_setting (key, value) i =
    if same key (text "vcs.revision")
    then record i { commit = non_empty value }
    else if same key (text "vcs.time")
    then record i { date = non_empty value }
    else i

-- for _, s := range info.Settings
unfoldable pub apply_settings : List (Bytes × Bytes) → Info → Info
unfolding non_empty
apply_settings [] i = i
apply_settings (s ∷ settings) i = apply_settings settings (apply_setting s i)

abbrev pub fill_missing : Info → Info
fill_missing i = record i {
  commit = if is_empty i.commit then unknown_value else i.commit;
  date = if is_empty i.date then unknown_value else i.date;
}

-- `read_build_info` is debug.ReadBuildInfo, with `none` for false.
unfoldable pub build : (read_build_info : Option BuildInfo) → Info
unfolding apply_settings non_empty
build none = record {
  version = unknown_value;
  commit = unknown_value;
  date = unknown_value;
  go_version = unknown_value;
}
build (some info) = fill_missing (
    apply_settings info.settings (record {
      version = non_empty info.main_version;
      commit = [];
      date = [];
      go_version = non_empty info.go_version;
    }))

pub data Level : Type 0 where
  level_debug level_info level_warn level_error : Level

-- `to_lower` is strings.ToLower.
unfoldable pub parse_level : (to_lower : Bytes → Bytes) → Bytes → Level
parse_level to_lower level =
    let l = to_lower level in
    if same l (text "debug")
    then level_debug
    else if same l (text "info")
    then level_info
    else if same l (text "warn")
    then level_warn
    else if same l (text "error")
    then level_error
    else level_info

-- log/slog, as far as a logger is made: what it makes of a level, and whether it writes a line.
pub record Slog (Writer Logger : Type 0) : Type 0 where
  pub new_json : Writer → Level → Logger
  pub enabled : Logger → Level → Bool

module _ {Writer Logger : Type 0} (slog : Slog Writer Logger) (to_lower : Bytes → Bytes) where
  abbrev pub new_logger_to : Writer → Bytes → Logger
  new_logger_to w level = slog.new_json w (parse_level to_lower level)

  abbrev pub new_logger : (stderr : Writer) → Bytes → Logger
  new_logger stderr level = new_logger_to stderr level
