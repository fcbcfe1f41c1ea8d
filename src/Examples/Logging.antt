-- ===== src/Examples/Logging.antt =====
-- The theorem on the logger, at the level warn.
use blockchain_ai_tools.Base.{
  text, ℕ, ◌≤◌, true, arith, ◌↔◌, leb, same, [], ◌∷◌, List, ok, ◌≡◌, refl,
}
use blockchain_ai_tools.Obs.{Level, Slog}
use blockchain_ai_tools.Signing.Signer.{LogLine, signed, panic_recovered}
use blockchain_ai_tools.Command.Config.{
  Config, check_http_addr, check_loopback, check_chain_id_guard, is_level, validate_config,
}
use blockchain_ai_tools.Command.Logging.{run_logger, written}
use blockchain_ai_tools.Command.Logging.Levels.{severity, IsSlog, Shows, written-Shows}
use blockchain_ai_tools.Examples.Startup.{loopback_only, http_config}

-- A logger is its level.
abbrev plain_slog : Slog (Unit {0}) Level
plain_slog = record {
  new_json = λ _ min. min;
  enabled = λ min level. leb (severity min) (severity level);
}

leb_holds_iff : (a b : ℕ) → (leb a b ≡ true) ↔ (a ≤ b)
leb_holds_iff a b = (λ h. ground arith, λ h. ground arith)

plain_slog-IsSlog : IsSlog plain_slog
plain_slog-IsSlog = record {
  minimum = λ _ min level. leb_holds_iff (severity min) (severity level);
}

abbrev warn_config : Config
warn_config = record http_config { log_level = text "warn" }

warn_config-passes : validate_config loopback_only warn_config ≡ ok tt
unfolding validate_config check_http_addr check_loopback check_chain_id_guard is_level same text
warn_config-passes = refl

abbrev two_lines : List LogLine
two_lines = signed (text "id") (text "0xhash") 1 7 ∷ panic_recovered (text "id") ∷ []

written-Shows_example : Shows (loopback_only.to_lower warn_config.log_level) two_lines (
    written plain_slog loopback_only (run_logger plain_slog loopback_only tt warn_config) two_lines)
written-Shows_example =
    written-Shows plain_slog loopback_only plain_slog-IsSlog tt two_lines warn_config
      warn_config-passes
