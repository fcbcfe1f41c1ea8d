-- ===== src/Command/FilePerms.antt =====
-- fsperm.go: the checks of the files with secrets.
use blockchain_ai_tools.Base.{
  ℕ, Bytes, text, Bool, true, false, ◌&&◌, not, ◌==◌, Bool-cases, if◌then◌else◌, bit_and, ◌∷◌, ◌++◌,
  All, [], List, Result, ok, err, Result-cases, ◌≡◌, ◌↔◌, ◌⊎◌, inl, inr, refl, arith,
}
use blockchain_ai_tools.Signing.Errors.{Error, plain, wrapped}

-- os.FileInfo, as far as the checks read it.
pub record FileInfo : Type 0 where
  pub is_regular : Bool
  pub perm : ℕ

-- The lines of the logger, with the path and the error of each.
pub data PermLine : Type 0 where
  cannot_check : Bytes → Error → PermLine
  refused warned : Bytes → PermLine

-- cli.Exit(…, 2)
pub record Exit : Type 0 where
  pub message : Bytes
  pub code : ℕ

-- `stat` is os.Stat, and `describe` the text of a path that is no regular file.
module _ (stat : Bytes → Result Error FileInfo) (describe : Bytes → FileInfo → Bytes) where
  unfoldable pub check_perms : Bytes → Result Error Bool
  check_perms path = elim (stat path) [
    | err e ↦ err (wrapped (text "cannot stat") e)
    | ok info ↦
        if not info.is_regular
        then err (plain (text "not a regular file: " ++ describe path info))
        else if not (bit_and info.perm 0o077 == 0)
        then ok true
        else ok false
  ]

  unfoldable pub apply_perm_checks : List Bytes → Bool → Result Exit (Unit {0}) × List PermLine
  unfolding check_perms
  apply_perm_checks [] strict = (ok tt, [])
  apply_perm_checks (p ∷ paths) strict =
      let (rest, lines) = apply_perm_checks paths strict in
      elim (check_perms p) [
        | err e ↦ (
          err (record {
            message = text "startup aborted: cannot check file permissions";
            code = 2;
          }),
          cannot_check p e ∷ [],
        )
        | ok too_open ↦
            if too_open && strict
            then (
              err (record {
                message =
                    text
                      "startup aborted: refusing to start: file is group/world accessible; chmod 600";
                code = 2;
              }),
              refused p ∷ [],
            )
            else (rest, if too_open then warned p ∷ lines else lines)
      ]

  -- A file that the checks let pass: regular, and with strict checks closed to group and world.
  pub record IsPassable (strict : Bool) (path : Bytes) : Type 0 where
    pub info : FileInfo
    pub found : stat path ≡ ok info
    pub regular : info.is_regular ≡ true
    pub closed : (strict ≡ false) ⊎ (bit_and info.perm 0o077 ≡ 0)

  -- The check of one file lets the startup go on.
  abbrev GoesOn : Bool → Bytes → Type 0
  GoesOn strict p =
      (too_open : Bool) × (check_perms p ≡ ok too_open) × ((too_open && strict) ≡ false)

  is_closed : (n : ℕ) → (n == 0) ≡ true → n ≡ 0
  is_closed n h = ground arith

  GoesOn-IsPassable : (strict : Bool) (p : Bytes) → GoesOn strict p → IsPassable strict p
  unfolding check_perms
  GoesOn-IsPassable strict p (b, c, allowed) = elim (Result-cases (stat p)) [
    | inr (e, s) ↦ absurd (ground arith)
    | inl (info, s) ↦ record {
      info = info;
      found = s;
      regular = ground arith;
      closed = elim (Bool-cases (bit_and info.perm 0o077 == 0)) [
        | inl closed ↦ inr (is_closed _ closed)
        | inr open_to_all ↦ inl (ground arith)
      ];
    }
  ]

  IsPassable-GoesOn : (strict : Bool) (p : Bytes) → IsPassable strict p → GoesOn strict p
  unfolding check_perms
  IsPassable-GoesOn strict p h =
      let s = h.found in
      let r = h.regular in
      elim (Bool-cases (bit_and h.info.perm 0o077 == 0)) [
        | inl closed ↦ (false, ground arith, refl)
        | inr open_to_all ↦
            (true, ground arith, elim h.closed [ inl lax ↦ lax | inr c ↦ absurd (ground arith) ])
      ]

  every_file_passes :
      (strict : Bool) (paths : List Bytes)
      → (apply_perm_checks paths strict).0 ≡ ok tt
      → All (IsPassable strict) paths
  unfolding apply_perm_checks
  every_file_passes strict [] h = tt
  every_file_passes strict (p ∷ paths) h = elim (Result-cases (check_perms p)) [
    | inr (e, c) ↦ absurd (ground arith)
    | inl (b, c) ↦ (
      GoesOn-IsPassable strict p (b, c, ground arith),
      every_file_passes strict paths (ground arith),
    )
  ]

  passes_on_each :
      (strict : Bool) (paths : List Bytes)
      → All (IsPassable strict) paths
      → (apply_perm_checks paths strict).0 ≡ ok tt
  unfolding apply_perm_checks
  passes_on_each strict [] h = refl
  passes_on_each strict (p ∷ paths) (hp, h) =
      let (b, c, allowed) = IsPassable-GoesOn strict p hp in
      let rest = passes_on_each strict paths h in ground arith

  -- The checks pass exactly if every file is there, is regular, and, where they are strict, is closed
  -- to group and world.
  pub apply_perm_checks_iff :
      (strict : Bool) (paths : List Bytes)
      → ((apply_perm_checks paths strict).0 ≡ ok tt) ↔ All (IsPassable strict) paths
  apply_perm_checks_iff strict paths = (every_file_passes strict paths, passes_on_each strict paths)
