-- ===== src/Command/Serving.antt =====
-- When the program starts to serve, and what it serves with.
use blockchain_ai_tools.Base.{
  true, false, Bool-cases, if◌then◌else◌, ◌∷◌, [], ◌⊎◌, subst, Bytes, All, Result, ok, Result-cases,
  ◌≡◌, ◌↔◌, inl, inr, sym, ap, ◌∙◌, arith,
}
use blockchain_ai_tools.Signing.Errors.{Error}
use blockchain_ai_tools.Signing.Address.{Common}
use blockchain_ai_tools.Signing.Address.Laws.{IsCommon}
use blockchain_ai_tools.Signing.Keystore.{Json, VaultOptions, FileKeyVault, new_file_key_vault}
use blockchain_ai_tools.Signing.Keystore.Load.{Loads, new_file_key_vault_iff}
use blockchain_ai_tools.Command.Config.{
  Config, Flags, build_config, Platform, IsValid, validate_config, validate_config_iff,
}
use blockchain_ai_tools.Command.FilePerms.{
  Exit, FileInfo, IsPassable, apply_perm_checks, apply_perm_checks_iff,
}
use blockchain_ai_tools.Command.Startup.{
  http, stdio, Served, Transport, Started, serves, secret_paths, transport_of, load_and_serve,
  check_and_serve, run,
}

abbrev pub vault_options : Config → VaultOptions
vault_options cfg = record { keystore_path = cfg.keystore_path; password_path = cfg.password_path }

serves-injective : {a b : Served} {t u : Transport} → serves a t ≡ serves b u → (a ≡ b) × (t ≡ u)
serves-injective e = (cc, cc)

ap2 {ℓ κ μ} :
    {A : Type ℓ} {B : Type κ} {C : Type μ} (f : A → B → C) {a b : A} {c d : B}
    → a ≡ b
    → c ≡ d
    → f a c ≡ f b d
ap2 f e h = cc

module _ (platform : Platform) (stat : Bytes → Result Error FileInfo)
    (describe : Bytes → FileInfo → Bytes) (json : Json) (common : Common) (laws : IsCommon common)
    (read_file : Bytes → Result Error Bytes) where
  -- All that a start rests on.
  pub record Serves (cfg : Config) (s : Served) (t : Transport) : Type 0 where
    pub configured : IsValid platform cfg
    pub keystore_file : IsPassable stat describe (cfg.strict_perms) (cfg.keystore_path)
    pub password_file : IsPassable stat describe (cfg.strict_perms) (cfg.password_path)
    pub token_file :
        (cfg.http ≡ false) ⊎ IsPassable stat describe (cfg.strict_perms) (cfg.token_file_path)
    pub loaded : Loads json common read_file (vault_options cfg) s.vault
    pub guarded : s.guard ≡ cfg.chain_id_guard
    pub transport :
        ((cfg.http ≡ true) × (t ≡ http (cfg.http_addr) (cfg.token_file_path)))
        ⊎ ((cfg.http ≡ false) × (t ≡ stdio))

  -- The files that are checked, and the transport, with and without HTTP.
  abbrev Files : Config → Type 0
  Files cfg =
      IsPassable stat describe (cfg.strict_perms) (cfg.keystore_path)
      × IsPassable stat describe (cfg.strict_perms) (cfg.password_path)
      × ((cfg.http ≡ false) ⊎ IsPassable stat describe (cfg.strict_perms) (cfg.token_file_path))

  secret_paths-Files :
      (cfg : Config)
      → All (IsPassable stat describe (cfg.strict_perms)) (secret_paths cfg)
      → Files cfg
  secret_paths-Files cfg (k, (p, rest)) = (
    k,
    p,
    elim (Bool-cases cfg.http) [
      | inr off ↦ inl off
      | inl on ↦
          inr
            (subst
              (λ b.
                All (IsPassable stat describe (cfg.strict_perms))
                  (if b then cfg.token_file_path ∷ [] else []))
              on rest).0
    ],
  )

  passable_paths :
      (cfg : Config)
      → Files cfg
      → All (IsPassable stat describe (cfg.strict_perms)) (secret_paths cfg)
  passable_paths cfg (k, p, token) = (
    k,
    (
      p,
      elim (Bool-cases cfg.http) [
        | inr off ↦
            subst
              (λ b.
                All (IsPassable stat describe (cfg.strict_perms))
                  (if b then cfg.token_file_path ∷ [] else []))
              (sym off) tt
        | inl on ↦ elim token [
          | inl off ↦ absurd (cc)
          | inr passable ↦
              subst
                (λ b.
                  All (IsPassable stat describe (cfg.strict_perms))
                    (if b then cfg.token_file_path ∷ [] else []))
                (sym on) (passable, tt)
        ]
      ],
    ),
  )

  transport_named :
      (cfg : Config) (t : Transport)
      → (t ≡ transport_of cfg) ↔ (
          ((cfg.http ≡ true) × (t ≡ http (cfg.http_addr) (cfg.token_file_path)))
          ⊎ ((cfg.http ≡ false) × (t ≡ stdio)))
  transport_named cfg t = (
    λ e. elim (Bool-cases cfg.http) [
      | inl on ↦ inl (on, ground arith)
      | inr off ↦ inr (off, ground arith)
    ],
    λ named. elim named [ inl (on, e) ↦ ground arith | inr (off, e) ↦ ground arith ],
  )

  abbrev vault_of : Config → Result Error FileKeyVault
  vault_of cfg = new_file_key_vault json common read_file (vault_options cfg)

  abbrev checked_files : Config → Result Exit (Unit {0})
  checked_files cfg = (apply_perm_checks stat describe (secret_paths cfg) cfg.strict_perms).0

  abbrev served : FileKeyVault → Config → Started
  served v cfg = serves (record { vault = v; guard = cfg.chain_id_guard }) (transport_of cfg)

  load_served :
      (cfg : Config) (v : FileKeyVault)
      → vault_of cfg ≡ ok v
      → (load_and_serve platform stat describe json common read_file cfg).0 ≡ served v cfg
  unfolding load_and_serve
  load_served cfg v l = ground arith

  loads :
      (cfg : Config) (s : Served) (t : Transport)
      → (load_and_serve platform stat describe json common read_file cfg).0 ≡ serves s t
      → Loads json common read_file (vault_options cfg) s.vault
        × (s.guard ≡ cfg.chain_id_guard)
        × (t ≡ transport_of cfg)
  unfolding load_and_serve
  loads cfg s t h = elim (Result-cases (vault_of cfg)) [
    | inr (e, l) ↦ absurd (ground arith)
    | inl (v, l) ↦
        let (same_served, same_transport) = serves-injective (sym (load_served cfg v l) ∙ h) in
        (
          (new_file_key_vault_iff json common laws read_file (vault_options cfg) s.vault).0
              (l ∙ ap (λ x. ok (x.vault)) same_served),
          sym (ap (λ x. x.guard) same_served),
          sym same_transport,
        )
  ]

  runs :
      (cmd : Flags)
      → validate_config platform (build_config cmd) ≡ ok tt
      → checked_files (build_config cmd) ≡ ok tt
      → (run platform stat describe json common read_file cmd).0
        ≡ (load_and_serve platform stat describe json common read_file (build_config cmd)).0
  unfolding run check_and_serve
  runs cmd c p = ground arith

  run-Serves :
      (cmd : Flags) (s : Served) (t : Transport)
      → (run platform stat describe json common read_file cmd).0 ≡ serves s t
      → Serves (build_config cmd) s t
  unfolding run check_and_serve
  run-Serves cmd s t h = elim (Result-cases (validate_config platform (build_config cmd))) [
    | inr (e, c) ↦ absurd (ground arith)
    | inl (_, c) ↦ elim (Result-cases (checked_files (build_config cmd))) [
      | inr (e, p) ↦ absurd (ground arith)
      | inl (_, p) ↦
          let files =
            secret_paths-Files (build_config cmd) ((apply_perm_checks_iff stat describe _ _).0 p) in
          let (l, g, u) = loads (build_config cmd) s t (sym (runs cmd c p) ∙ h) in
          record {
            configured = (validate_config_iff platform _).0 c;
            keystore_file = files.0;
            password_file = files.1;
            token_file = files.2;
            loaded = l;
            guarded = g;
            transport = (transport_named (build_config cmd) t).0 u;
          }
    ]
  ]

  Serves-run :
      (cmd : Flags) (s : Served) (t : Transport)
      → Serves (build_config cmd) s t
      → (run platform stat describe json common read_file cmd).0 ≡ serves s t
  Serves-run cmd s t h =
      runs cmd ((validate_config_iff platform _).1 h.configured) (
        (apply_perm_checks_iff stat describe _ _).1
          (passable_paths (build_config cmd) (h.keystore_file, h.password_file, h.token_file)))
      ∙ load_served (build_config cmd) s.vault
          ((new_file_key_vault_iff json common laws read_file _ s.vault).1 h.loaded)
      ∙ ap2 (λ g u. serves (record { vault = s.vault; guard = g }) u) (sym h.guarded)
          (sym ((transport_named (build_config cmd) t).1 h.transport))

  -- The program calls a transport exactly if the configuration is valid, every file with a secret
  -- passes its check, the token file of HTTP included, and the keystore loads. It serves with that
  -- vault and the guard of the command line, on the transport that the configuration names.
  pub run_iff :
      (cmd : Flags) (s : Served) (t : Transport)
      → ((run platform stat describe json common read_file cmd).0 ≡ serves s t)
        ↔ Serves (build_config cmd) s t
  run_iff cmd s t = (run-Serves cmd s t, Serves-run cmd s t)
