-- ===== src/Command/WindowsFilePerms.antt =====
-- fsperm_windows.go: what stands in the place of the checks of the files on Windows.
use blockchain_ai_tools.Base.{Bytes, text, Bool, false, List, [], ◌∷◌, Result, ok}
use blockchain_ai_tools.Signing.Errors.{Error}
use blockchain_ai_tools.Command.FilePerms.{Exit}

unfoldable pub check_perms_on_windows : Bytes → Result Error Bool
check_perms_on_windows _ = ok false

abbrev pub skipped_line : Bytes
skipped_line =
    text
      "file-permission checks skipped on Windows; access is governed by ACLs, not POSIX mode bits (--strict-perms has no effect here)"

-- The error, and the lines of the logger.
unfoldable pub apply_perm_checks_on_windows :
    List Bytes → Bool → Result Exit (Unit {0}) × List Bytes
apply_perm_checks_on_windows paths strict = (ok tt, skipped_line ∷ [])
