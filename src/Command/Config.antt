-- ===== src/Command/Config.antt =====
-- config.go, and buildConfig of main.go.
use blockchain_ai_tools.Base.{
  ℕ, zero, suc, some_eq, Bytes, text, same, same_iff, is_empty, is_empty_iff, not_empty, Bool, true,
  false, not, ◌&&◌, ◌||◌, ◌==◌, if◌then◌else◌, ◌∷◌, ◌++◌, [], Option, none, some, Bool-cases,
  Result, ok, err, Result-cases, invert, ◌>>◌, reject, ◌≡◌, ◌≢◌, ◌↔◌, ◌⊎◌, inl, inr, refl, arith,
}
use blockchain_ai_tools.Signing.Errors.{Error, plain}

pub record Config : Type 0 where
  pub keystore_path : Bytes
  pub password_path : Bytes
  pub http : Bool
  pub http_addr : Bytes
  pub token_file_path : Bytes
  pub chain_id_guard : Option ℕ
  pub strict_perms : Bool
  pub log_level : Bytes

-- What the program reads of the parsed command line of urfave/cli.
pub record Flags : Type 0 where
  pub string : Bytes → Bytes
  pub bool : Bytes → Bool
  pub uint64 : Bytes → ℕ
  pub is_set : Bytes → Bool

unfoldable pub build_config : Flags → Config
build_config cmd = record {
  keystore_path = cmd.string (text "keystore");
  password_path = cmd.string (text "password-file");
  http = cmd.bool (text "http");
  http_addr = cmd.string (text "http-addr");
  token_file_path = cmd.string (text "http-auth-token-file");
  chain_id_guard =
      if cmd.is_set (text "chain-id") then some (cmd.uint64 (text "chain-id")) else none;
  strict_perms = cmd.bool (text "strict-perms");
  log_level = cmd.string (text "log-level");
}

-- net.SplitHostPort (the host), net.ParseIP with IsLoopback (`none` for nil), and strings.ToLower.
pub record Platform : Type 0 where
  pub split_host : Bytes → Result Error Bytes
  pub parse_ip_is_loopback : Bytes → Option Bool
  pub to_lower : Bytes → Bytes

abbrev pub is_loopback : Option Bool → Bool
is_loopback none = false
is_loopback (some b) = b

-- The four names of `--log-level`.
unfoldable pub is_level : Bytes → Bool
is_level s =
    same s (text "debug")
    || (same s (text "info") || (same s (text "warn") || same s (text "error")))

abbrev pub IsLevelName : Bytes → Type 0
IsLevelName s = (s ≡ text "debug") ⊎ ((s ≡ text "info") ⊎ ((s ≡ text "warn") ⊎ (s ≡ text "error")))

pub is_level_iff : (s : Bytes) → (is_level s ≡ true) ↔ IsLevelName s
unfolding is_level
is_level_iff s = (
  λ h. elim (Bool-cases (same s (text "debug"))) [
    | inl e ↦ inl ((same_iff _ _).0 e)
    | inr d ↦ elim (Bool-cases (same s (text "info"))) [
      | inl e ↦ inr (inl ((same_iff _ _).0 e))
      | inr i ↦ elim (Bool-cases (same s (text "warn"))) [
        | inl e ↦ inr (inr (inl ((same_iff _ _).0 e)))
        | inr w ↦ inr (inr (inr ((same_iff _ _).0 (ground arith))))
      ]
    ]
  ],
  λ h. elim h [
    | inl e ↦ let f = (same_iff s (text "debug")).1 e in ground arith
    | inr (inl e) ↦ let f = (same_iff s (text "info")).1 e in ground arith
    | inr (inr (inl e)) ↦ let f = (same_iff s (text "warn")).1 e in ground arith
    | inr (inr (inr e)) ↦ let f = (same_iff s (text "error")).1 e in ground arith
  ],
)

suc_not_zero : {n : ℕ} → ¬ (suc n ≡ 0)
suc_not_zero e = omega (arith, e)

module _ (platform : Platform) where
  open platform use {split_host, parse_ip_is_loopback, to_lower}

  unfoldable pub check_loopback : Bytes → Result Error (Unit {0})
  check_loopback addr = elim (split_host addr) [
    | err _ ↦ err (
        plain (
          text "--http-addr: invalid host:port "
          ++ (0xe2
              ∷ 0x80
              ∷ 0x94
              ∷ text " must be a loopback address (e.g. 127.0.0.1:0 or [::1]:0)")))
    | ok host ↦ reject (not (is_loopback (parse_ip_is_loopback host))) (
        plain (
          text
            "--http-addr must be a loopback address (127.0.0.1 or [::1]); non-loopback binds are rejected (ADR-006)"))
  ]

  unfoldable pub check_http_addr : Config → Result Error (Unit {0})
  unfolding check_loopback
  check_http_addr cfg =
      if cfg.http && not (is_empty cfg.http_addr) then check_loopback cfg.http_addr else ok tt

  unfoldable pub check_chain_id_guard : Option ℕ → Result Error (Unit {0})
  check_chain_id_guard none = ok tt
  check_chain_id_guard (some guard) = reject (guard == 0) (
      plain (
        text "--chain-id 0 is rejected: chain-id 0 is replay-unprotected; use a non-zero chain-id"))

  unfoldable pub validate_config : Config → Result Error (Unit {0})
  unfolding check_http_addr check_chain_id_guard is_level
  validate_config cfg = do
    reject (is_empty cfg.keystore_path) (plain (text "--keystore is required"))
    reject (is_empty cfg.password_path) (plain (text "--password-file is required"))
    reject (cfg.http && is_empty cfg.token_file_path)
        (plain (text "--http-auth-token-file is required when --http is set"))
    check_http_addr cfg
    check_chain_id_guard cfg.chain_id_guard
    reject (not (is_level (to_lower cfg.log_level)))
        (plain (text "--log-level must be one of debug|info|warn|error"))

  -- HTTP wants a token, and an address, where one is given, on the loopback interface.
  pub record Guarded (cfg : Config) : Type 0 where
    pub token : cfg.token_file_path ≢ []
    pub bound :
        (cfg.http_addr ≡ [])
        ⊎ ((host : Bytes) × (split_host cfg.http_addr ≡ ok host)
            × (parse_ip_is_loopback host ≡ some true))

  pub record IsValid (cfg : Config) : Type 0 where
    pub keystore : cfg.keystore_path ≢ []
    pub password : cfg.password_path ≢ []
    pub transport : (cfg.http ≡ false) ⊎ Guarded cfg
    pub guard : cfg.chain_id_guard ≢ some 0
    pub level : IsLevelName (to_lower cfg.log_level)

  check_chain_id_guard_iff : (g : Option ℕ) → (check_chain_id_guard g ≡ ok tt) ↔ (g ≢ some 0)
  unfolding check_chain_id_guard
  check_chain_id_guard_iff none = (λ _ e. cc, λ _. refl)
  check_chain_id_guard_iff (some zero) = (λ h e. cc, λ h. absurd (h refl))
  check_chain_id_guard_iff (some (suc g)) =
      (λ h e. absurd (suc_not_zero (some_eq e)), λ h. ground arith)

  bound_iff :
      (addr : Bytes)
      → (check_loopback addr ≡ ok tt)
        ↔ ((host : Bytes) × (split_host addr ≡ ok host) × (parse_ip_is_loopback host ≡ some true))
  unfolding check_loopback
  bound_iff addr = (λ h. is_bound h, λ (host, split, ip). ground arith)
    where
      is_bound :
          check_loopback addr ≡ ok tt
          → (host : Bytes) × (split_host addr ≡ ok host) × (parse_ip_is_loopback host ≡ some true)
      is_bound h = elim (Result-cases (split_host addr)) [
        | inr (e, split) ↦ absurd (ground arith)
        | inl (host, split) ↦ (host, split, ground arith)
      ]

  reject_ok {ℓ} : {E : Type ℓ} (b : Bool) (e : E) → (reject b e ≡ ok tt) ↔ (b ≡ false)
  reject_ok true e = (λ h. cc, λ h. cc)
  reject_ok false e = (λ _. refl, λ _. refl)

  transport_iff :
      (cfg : Config)
      → (((cfg.http && is_empty cfg.token_file_path) ≡ false) × (check_http_addr cfg ≡ ok tt))
        ↔ ((cfg.http ≡ false) ⊎ Guarded cfg)
  unfolding check_http_addr
  transport_iff cfg = (λ (t, a). forward t a, backward)
    where
      forward :
          (cfg.http && is_empty cfg.token_file_path) ≡ false
          → check_http_addr cfg ≡ ok tt
          → (cfg.http ≡ false) ⊎ Guarded cfg
      forward t a = elim (Bool-cases cfg.http) [
        | inr stdio ↦ inl stdio
        | inl http ↦ inr (record {
          token =
              λ e. let nothing = (is_empty_iff cfg.token_file_path).1 e in absurd (ground arith);
          bound = elim (Bool-cases (is_empty cfg.http_addr)) [
            | inl nothing ↦ inl ((is_empty_iff _).0 nothing)
            | inr something ↦ inr ((bound_iff cfg.http_addr).0 (ground arith))
          ];
        })
      ]

      backward :
          (cfg.http ≡ false) ⊎ Guarded cfg
          → ((cfg.http && is_empty cfg.token_file_path) ≡ false) × (check_http_addr cfg ≡ ok tt)
      backward (inl stdio) = (ground arith, ground arith)
      backward (inr g) = (
        let full = not_empty _ g.token in ground arith,
        elim g.bound [
          | inl nothing ↦ let e = (is_empty_iff cfg.http_addr).1 nothing in ground arith
          | inr b ↦ let e = (bound_iff cfg.http_addr).1 b in ground arith
        ],
      )

  accepted-IsValid : (cfg : Config) → validate_config cfg ≡ ok tt → IsValid cfg
  unfolding validate_config
  accepted-IsValid cfg h = invert (reject (is_empty cfg.keystore_path) _) _ h λ _ e1 h1.
      invert (reject (is_empty cfg.password_path) _) _ h1 λ _ e2 h2.
        invert (reject (cfg.http && is_empty cfg.token_file_path) _) _ h2 λ _ e3 h3.
          invert (check_http_addr cfg) _ h3 λ _ e4 h4.
            invert (check_chain_id_guard cfg.chain_id_guard) _ h4 λ _ e5 h5. record {
              keystore = λ e. let n = (is_empty_iff cfg.keystore_path).1 e in absurd (ground arith);
              password = λ e. let n = (is_empty_iff cfg.password_path).1 e in absurd (ground arith);
              transport = (transport_iff cfg).0 ((reject_ok _ _).0 e3, e4);
              guard = (check_chain_id_guard_iff cfg.chain_id_guard).0 e5;
              level = (is_level_iff _).0 (ground arith);
            }

  IsValid-accepted : (cfg : Config) → IsValid cfg → validate_config cfg ≡ ok tt
  unfolding validate_config
  IsValid-accepted cfg v =
      let k = not_empty _ v.keystore in
      let p = not_empty _ v.password in
      let (t, a) = (transport_iff cfg).1 v.transport in
      let g = (check_chain_id_guard_iff cfg.chain_id_guard).1 v.guard in
      let l = (is_level_iff _).1 v.level in ground arith

  -- The configuration passes exactly if the two paths are given, HTTP comes with a token file and
  -- binds a loopback address where one is given, the chain-id guard is not 0, and the level has one
  -- of the four names in lower case.
  pub validate_config_iff : (cfg : Config) → (validate_config cfg ≡ ok tt) ↔ IsValid cfg
  validate_config_iff cfg = (accepted-IsValid cfg, IsValid-accepted cfg)
