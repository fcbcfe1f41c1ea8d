-- ===== src/Command/Logging/Levels.antt =====
-- What each of the four levels lets through.
use blockchain_ai_tools.Base.{
  ℕ, ◌≤◌, ◌<◌, Bytes, text, same, same_iff, true, false, Bool-cases, List, [], ◌∷◌, ok, ◌≡◌, ◌⊎◌,
  ◌↔◌, inl, inr, refl, sym, ap, subst, arith,
}
use blockchain_ai_tools.Obs.{
  Level, level_debug, level_info, level_warn, level_error, parse_level, Slog,
}
use blockchain_ai_tools.Signing.Signer.{
  LogLine, signed, panic_recovered, tool_error_with_cause, system_failure,
}
use blockchain_ai_tools.Command.Config.{
  Platform, Config, is_level, is_level_iff, validate_config, validate_config_iff,
}
use blockchain_ai_tools.Command.Logging.{run_logger, written}

-- The order of slog.LevelDebug, LevelInfo, LevelWarn and LevelError.
abbrev pub severity : Level → ℕ
severity level_debug = 0
severity level_info = 1
severity level_warn = 2
severity level_error = 3

-- What slog.HandlerOptions says of its Level: it is the minimum of what is logged.
pub record IsSlog {Writer Logger : Type 0} (slog : Slog Writer Logger) : Type 0 where
  pub minimum :
      (w : Writer) (min level : Level)
      → (slog.enabled (slog.new_json w min) level ≡ true) ↔ (severity min ≤ severity level)

-- The lines that are not of a success.
unfoldable pub failures : List LogLine → List LogLine
failures [] = []
failures (signed _ _ _ _ ∷ lines) = failures lines
failures (panic_recovered id ∷ lines) = panic_recovered id ∷ failures lines
failures (tool_error_with_cause id c t ∷ lines) = tool_error_with_cause id c t ∷ failures lines
failures (system_failure id e ∷ lines) = system_failure id e ∷ failures lines

-- What a logger of a level, in lower case, makes of the lines of a log.
pub data Shows (level : Bytes) (log : List LogLine) : List LogLine → Type 0 where
  all_lines : (level ≡ text "debug") ⊎ (level ≡ text "info") → Shows level log log
  failures_only : (level ≡ text "warn") ⊎ (level ≡ text "error") → Shows level log (failures log)

-- The four names, and where their levels stand.
module _ (to_lower : Bytes → Bytes) (s : Bytes) where
  named :
      is_level (to_lower s) ≡ true
      → (((to_lower s ≡ text "debug") ⊎ (to_lower s ≡ text "info"))
          × (severity (parse_level to_lower s) ≤ 1))
        ⊎ (((to_lower s ≡ text "warn") ⊎ (to_lower s ≡ text "error"))
            × (1 < severity (parse_level to_lower s))
            × (severity (parse_level to_lower s) ≤ 3))
  unfolding is_level parse_level
  named h = elim (Bool-cases (same (to_lower s) (text "debug"))) [
    | inl e ↦ inl (inl ((same_iff _ _).0 e), ground arith)
    | inr d ↦ elim (Bool-cases (same (to_lower s) (text "info"))) [
      | inl e ↦ inl (inr ((same_iff _ _).0 e), ground arith)
      | inr i ↦ elim (Bool-cases (same (to_lower s) (text "warn"))) [
        | inl e ↦ inr (inl ((same_iff _ _).0 e), ground arith, ground arith)
        | inr w ↦ elim (Bool-cases (same (to_lower s) (text "error"))) [
          | inl e ↦ inr (inr ((same_iff _ _).0 e), ground arith, ground arith)
          | inr n ↦ absurd (ground arith)
        ]
      ]
    ]
  ]

module _ {Writer Logger : Type 0} (slog : Slog Writer Logger) (platform : Platform) where
  written_all :
      (logger : Logger) (log : List LogLine)
      → slog.enabled logger level_info ≡ true
      → slog.enabled logger level_error ≡ true
      → written slog platform logger log ≡ log
  unfolding written
  written_all logger [] i e = refl
  written_all logger (signed id h c n ∷ log) i e =
      rw i (ap (λ x. signed id h c n ∷ x) (written_all logger log i e))
  written_all logger (panic_recovered id ∷ log) i e =
      rw e (ap (λ x. panic_recovered id ∷ x) (written_all logger log i e))
  written_all logger (tool_error_with_cause id c t ∷ log) i e =
      rw e (ap (λ x. tool_error_with_cause id c t ∷ x) (written_all logger log i e))
  written_all logger (system_failure id t ∷ log) i e =
      rw e (ap (λ x. system_failure id t ∷ x) (written_all logger log i e))

  written_failures :
      (logger : Logger) (log : List LogLine)
      → slog.enabled logger level_info ≡ false
      → slog.enabled logger level_error ≡ true
      → written slog platform logger log ≡ failures log
  unfolding written failures
  written_failures logger [] i e = refl
  written_failures logger (signed id h c n ∷ log) i e = rw i (written_failures logger log i e)
  written_failures logger (panic_recovered id ∷ log) i e =
      rw e (ap (λ x. panic_recovered id ∷ x) (written_failures logger log i e))
  written_failures logger (tool_error_with_cause id c t ∷ log) i e =
      rw e (ap (λ x. tool_error_with_cause id c t ∷ x) (written_failures logger log i e))
  written_failures logger (system_failure id t ∷ log) i e =
      rw e (ap (λ x. system_failure id t ∷ x) (written_failures logger log i e))

  module _ (laws : IsSlog slog) (stderr : Writer) (log : List LogLine) where
    abbrev at_level : Level → List LogLine
    at_level min = written slog platform (slog.new_json stderr min) log

    shows_all : (min : Level) → severity min ≤ 1 → at_level min ≡ log
    shows_all min h =
        written_all (slog.new_json stderr min) log ((laws.minimum stderr min level_info).1 h)
          ((laws.minimum stderr min level_error).1 (omega (arith, h)))

    shows_failures :
        (min : Level) → 1 < severity min → severity min ≤ 3 → at_level min ≡ failures log
    shows_failures min h k =
        written_failures (slog.new_json stderr min) log
          (elim (Bool-cases (slog.enabled (slog.new_json stderr min) level_info)) [
            | inl on ↦
                let low = (laws.minimum stderr min level_info).0 on in
                absurd (omega (arith, low, h))
            | inr off ↦ off
          ])
          ((laws.minimum stderr min level_error).1 k)

    -- On a configuration that passes: with the level debug or info, the logger writes every line of
    -- the signer and the handlers; with warn or error, the lines of failures and panics, and no
    -- audit line.
    pub written-Shows :
        (cfg : Config)
        → validate_config platform cfg ≡ ok tt
        → Shows
            (platform.to_lower cfg.log_level)
            log
            (written slog platform (run_logger slog platform stderr cfg) log)
    written-Shows cfg h =
        let v = (validate_config_iff platform cfg).0 h in
        let l = platform.to_lower cfg.log_level in
        elim (named platform.to_lower (cfg.log_level) ((is_level_iff _).1 v.level)) [
          | inl (name, low) ↦ subst (Shows l log) (sym (shows_all _ low)) (all_lines name)
          | inr (name, high, bound) ↦
              subst (Shows l log) (sym (shows_failures _ high bound)) (failures_only name)
        ]
