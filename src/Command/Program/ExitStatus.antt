-- ===== src/Command/Program/ExitStatus.antt =====
-- Which exit status the process has, and why.
use blockchain_ai_tools.Base.{
  ℕ, Bytes, text, Bool, ◌&&◌, Bool-cases, List, [], ◌∷◌, All, none, some, Option-cases, Result, err,
  Result-cases, ◌≡◌, ◌↔◌, ◌⊎◌, inl, inr, refl, sym, ap, arith, subst,
}
use blockchain_ai_tools.Signing.Errors.{Error, wrapped}
use blockchain_ai_tools.Signing.Address.Laws.{IsCommon}
use blockchain_ai_tools.Signing.Keystore.{new_file_key_vault}
use blockchain_ai_tools.Obs.{build}
use blockchain_ai_tools.Command.CommandLine.{new_command}
use blockchain_ai_tools.Command.Config.{
  Flags, build_config, IsValid, validate_config, validate_config_iff, Config,
}
use blockchain_ai_tools.Command.FilePerms.{
  FileInfo, Exit, check_perms, apply_perm_checks, IsPassable, apply_perm_checks_iff,
}
use blockchain_ai_tools.Command.Startup.{
  Served, Transport, Started, failed_with, exits, serves, secret_paths, transport_of,
  load_and_serve, check_and_serve, run,
}
use blockchain_ai_tools.Command.Serving.{Serves, run_iff, vault_options}
use blockchain_ai_tools.Command.Program.{
  Surroundings, parsed, main_exit, run_transport, act, run_command, exit_status,
}

module _ (stat : Bytes → Result Error FileInfo) (describe : Bytes → FileInfo → Bytes) where
  -- The checks of the files exit with 2 or not at all.
  check_code :
      (paths : List Bytes) (strict : Bool) (e : Exit)
      → (apply_perm_checks stat describe paths strict).0 ≡ err e
      → e.code ≡ 2
  unfolding apply_perm_checks
  check_code [] strict e h = absurd (cc)
  check_code (p ∷ paths) strict e h = elim (Result-cases (check_perms stat describe p)) [
    | inr (x, c) ↦ ground arith
    | inl (too_open, c) ↦ elim (Bool-cases (too_open && strict)) [
      | inl b ↦ ground arith
      | inr b ↦ check_code paths strict e (ground arith)
    ]
  ]

module _ (env : Surroundings) (cmd : Flags) where
  abbrev cfg : Config
  cfg = build_config cmd

  abbrev started : Started
  started = (run env.platform env.stat env.describe env.json env.common env.read_file cmd).0

  abbrev checks : Result Exit (Unit {0})
  checks = (apply_perm_checks env.stat env.describe (secret_paths cfg) cfg.strict_perms).0

  abbrev AllPassable : Type 0
  AllPassable = All (IsPassable env.stat env.describe cfg.strict_perms) (secret_paths cfg)

  -- The three kinds of start.
  data Start : Started → Type 0 where
    fails : (e : Error) → (¬ (IsValid env.platform cfg)) ⊎ AllPassable → Start (failed_with e)
    aborts : (e : Exit) → IsValid env.platform cfg → ¬ AllPassable → e.code ≡ 2 → Start (exits e)
    starts : (s : Served) (t : Transport) → AllPassable → Start (serves s t)

  load_and_serve-Start :
      IsValid env.platform cfg
      → AllPassable
      → Start
          (load_and_serve env.platform env.stat env.describe env.json env.common env.read_file
            cfg).0
  unfolding load_and_serve
  load_and_serve-Start valid passable =
      elim (Result-cases
        (new_file_key_vault env.json env.common env.read_file (vault_options cfg))) [
          | inl (v, l) ↦ subst Start (ground arith) (
              starts (record { vault = v; guard = cfg.chain_id_guard }) (transport_of cfg) passable)
          | inr (e, l) ↦
              subst Start (ground arith)
                (fails (wrapped (text "keystore startup error") e) (inr passable))
        ]

  run-Start : Start started
  unfolding run check_and_serve
  run-Start = elim (Result-cases (validate_config env.platform cfg)) [
    | inr (e, c) ↦
        subst Start (ground arith)
          (fails e (inl (λ valid. absurd (cc (c, (validate_config_iff env.platform cfg).1 valid)))))
    | inl (_, c) ↦ elim (Result-cases checks) [
      | inr (e, p) ↦ subst Start (ground arith) (
          aborts e ((validate_config_iff env.platform cfg).0 c)
            (λ all. absurd (
              cc (
                p,
                (apply_perm_checks_iff env.stat env.describe cfg.strict_perms (secret_paths cfg)).1
                    all,
              )))
            (check_code env.stat env.describe (secret_paths cfg) cfg.strict_perms e p))
      | inl (_, p) ↦ subst Start (ground arith) (
          load_and_serve-Start ((validate_config_iff env.platform cfg).0 c)
            ((apply_perm_checks_iff env.stat env.describe cfg.strict_perms (secret_paths cfg)).0 p))
    ]
  ]

  abbrev status : Started → ℕ
  status x = (main_exit (act env x)).0

  -- The start that ends well.
  abbrev EndsWell : Started → Type 0
  EndsWell x = (s : Served) × (t : Transport) × (x ≡ serves s t) × (run_transport env s t ≡ none)

  failed_and_ended :
      (s : Served) (t : Transport) (s' : Served) (t' : Transport) (y : Error)
      → serves s t ≡ serves s' t'
      → run_transport env s t ≡ some y
      → ¬ (run_transport env s' t' ≡ none)
  failed_and_ended s t s' t' y e f g = absurd (cc)

  ends_well : (x : Started) → Start x → (status x ≡ 0) ↔ EndsWell x
  unfolding main_exit
  ends_well x (fails e why) = (λ h. absurd (cc), λ (s, t, e, _). absurd (cc e))
  ends_well x (aborts e valid closed two) = (λ h. absurd (cc), λ (s, t, e, _). absurd (cc e))
  ends_well x (starts s t passable) = elim (Option-cases (run_transport env s t)) [
    | inl e ↦ (λ h. (s, t, refl, e), λ w. ground arith)
    | inr (y, e) ↦ (
      λ h. absurd (ground arith),
      λ (s', t', same_start, w). absurd (failed_and_ended s t s' t' y same_start e w),
    )
  ]

  refuses_files :
      (x : Started) → Start x → (status x ≡ 2) ↔ (IsValid env.platform cfg × ¬ AllPassable)
  unfolding main_exit
  refuses_files x (fails e (inl invalid)) = (λ h. absurd (cc), λ both. absurd (invalid both.0))
  refuses_files x (fails e (inr passable)) = (λ h. absurd (cc), λ both. absurd (both.1 passable))
  refuses_files x (aborts e valid closed two) = (λ h. (valid, closed), λ both. two)
  refuses_files x (starts s t passable) = elim (Option-cases (run_transport env s t)) [
    | inl e ↦ (λ h. absurd (ground arith), λ both. absurd (both.1 passable))
    | inr (y, e) ↦ (λ h. absurd (ground arith), λ both. absurd (both.1 passable))
  ]

  at_most_two : (x : Started) → Start x → (status x ≡ 0) ⊎ ((status x ≡ 1) ⊎ (status x ≡ 2))
  unfolding main_exit
  at_most_two x (fails e why) = inr (inl refl)
  at_most_two x (aborts e valid closed two) = inr (inr two)
  at_most_two x (starts s t passable) = elim (Option-cases (run_transport env s t)) [
    | inl e ↦ inl (ground arith)
    | inr (y, e) ↦ inr (inl (ground arith))
  ]

-- What the exit status of the process tells.
module _ (env : Surroundings) (laws : IsCommon env.common) (cmd : Flags) where
  -- Everything that the start rests on holds, and the transport ended without an error.
  pub record Ended : Type 0 where
    pub served : Served
    pub transport : Transport
    pub start :
        Serves env.platform env.stat env.describe env.json env.common laws env.read_file
          (build_config cmd)
          served
          transport
    pub no_error : run_transport env served transport ≡ none

  pub record Tells (n : ℕ) : Type 0 where
    pub at_most_two : (n ≡ 0) ⊎ ((n ≡ 1) ⊎ (n ≡ 2))
    pub zero_iff : (n ≡ 0) ↔ Ended
    pub two_iff : (n ≡ 2) ↔ (
        IsValid env.platform (build_config cmd)
        × ¬ (
            All
              (IsPassable env.stat env.describe (build_config cmd).strict_perms)
              (secret_paths (build_config cmd))))

  tells : Tells (main_exit (run_command env (parsed cmd))).0
  unfolding run_command
  tells =
      let s = run-Start env cmd in
      let well = ends_well env cmd (started env cmd) s in
      record {
        at_most_two = at_most_two env cmd (started env cmd) s;
        two_iff = refuses_files env cmd (started env cmd) s;
        zero_iff = (
          λ h.
              let (served, transport, e, no_error) = well.0 h in
              record {
                served = served;
                transport = transport;
                start =
                    (run_iff env.platform env.stat env.describe env.json env.common laws
                        env.read_file cmd served transport).0
                      e;
                no_error = no_error;
              },
          λ x. well.1 (
            x.served,
            x.transport,
            (run_iff env.platform env.stat env.describe env.json env.common laws env.read_file cmd
                  x.served x.transport).1
                x.start,
            x.no_error,
          ),
        );
      }

  -- On flags that the command line parser accepts, the status is 0, 1 or 2. It is 0 exactly if the configuration is valid, the files with secrets
  -- pass, the keystore loads, and the transport that is named ends without an error; and 2 exactly
  -- if the configuration is valid and such a file does not pass.
  pub exit_status-Tells :
      env.cli_run (new_command (build env.build_info)) ≡ parsed cmd → Tells (exit_status env)
  unfolding exit_status run_command
  exit_status-Tells accepted =
      subst Tells (sym (ap (λ l. (main_exit (run_command env l)).0) accepted)) tells
