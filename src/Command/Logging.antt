-- ===== src/Command/Logging.antt =====
-- The logger that `run` makes of --log-level, and what it writes of the lines of the signer and the
-- handlers.
pub mod Levels
use blockchain_ai_tools.Base.{ℕ, Bytes, Bool, if◌then◌else◌, List, [], ◌∷◌}
use blockchain_ai_tools.Obs.{
  Level, level_debug, level_info, level_warn, level_error, Slog, new_logger,
}
use blockchain_ai_tools.Signing.Signer.{
  LogLine, signed, panic_recovered, tool_error_with_cause, system_failure,
}
use blockchain_ai_tools.Command.Config.{Platform, Config}

-- logger.Info and logger.Error, at the calls that make the lines
abbrev pub level_of : LogLine → Level
level_of (signed _ _ _ _) = level_info
level_of (panic_recovered _) = level_error
level_of (tool_error_with_cause _ _ _) = level_error
level_of (system_failure _ _) = level_error

module _ {Writer Logger : Type 0} (slog : Slog Writer Logger) (platform : Platform) where
  -- Step 2
  abbrev pub run_logger : (stderr : Writer) → Config → Logger
  run_logger stderr cfg = new_logger slog platform.to_lower stderr cfg.log_level

  -- The lines that a logger writes.
  unfoldable pub written : Logger → List LogLine → List LogLine
  written logger [] = []
  written logger (l ∷ lines) =
      let rest = written logger lines in if slog.enabled logger (level_of l) then l ∷ rest else rest
