-- ===== src/Signing/Vault/Password.antt =====
-- What readPasswordFile strips.
use blockchain_ai_tools.Base.{
  ℕ, zero, suc, ◌≤◌, ◌<◌, Bytes, length, take, drop, All, [], ◌∷◌, ◌++◌, Result, ok, ◌≡◌, ◌⊎◌, refl,
  arith, sym,
}
use blockchain_ai_tools.Signing.Errors.{Error}
use blockchain_ai_tools.Signing.Zero.{Slice, shown}
use blockchain_ai_tools.Signing.Vault.{byte_at, strip_line_ends, read_password_file}

abbrev pub IsLineEnd : ℕ → Type 0
IsLineEnd b = (b ≡ b'\n') ⊎ (b ≡ b'\r')

strip-le : (raw : Bytes) (n : ℕ) → strip_line_ends raw n ≤ n
unfolding strip_line_ends
strip-le raw zero = omega arith
strip-le raw (suc n) = ground (arith, strip-le raw n)

-- The stripped bytes end lines, and the last byte that is kept does not.
strip_stripped :
    (raw : Bytes) (n i : ℕ) → strip_line_ends raw n ≤ i → i < n → IsLineEnd (byte_at raw i)
unfolding strip_line_ends
strip_stripped raw zero i h k = absurd (omega arith)
strip_stripped raw (suc n) i h k = ground (arith, strip_stripped raw n i)

strip_kept : (raw : Bytes) (n k : ℕ) → strip_line_ends raw n ≡ suc k → ¬ (IsLineEnd (byte_at raw k))
unfolding strip_line_ends
strip_kept raw zero k h = absurd (omega arith)
strip_kept raw (suc n) k h = ground (arith, strip_kept raw n k)

take-append-drop : (n : ℕ) (xs : Bytes) → take n xs ++ drop n xs ≡ xs
take-append-drop zero xs = refl
take-append-drop (suc n) [] = refl
take-append-drop (suc n) (x ∷ xs) = rw (take-append-drop n xs)

All-drop :
    (raw : Bytes) (k : ℕ)
    → ((i : ℕ) → k ≤ i → i < length raw → IsLineEnd (byte_at raw i))
    → All IsLineEnd (drop k raw)
All-drop [] zero h = tt
All-drop [] (suc k) h = tt
All-drop (b ∷ raw) zero h = (
  h 0 (omega arith) (omega arith),
  All-drop raw zero (λ i _ k. h (suc i) (omega arith) (omega arith)),
)
All-drop (b ∷ raw) (suc k) h = All-drop raw k (λ i j l. h (suc i) (omega arith) (omega arith))

-- The password of a file: its bytes up to the line ends at its end.
pub record IsPassword (raw : Bytes) (password : Slice) : Type 0 where
  pub in_place : password.backing ≡ raw
  pub within : password.len ≤ length raw
  pub split : raw ≡ shown password ++ drop password.len raw
  pub stripped : All IsLineEnd (drop password.len raw)
  pub kept : (k : ℕ) → password.len ≡ suc k → ¬ (IsLineEnd (byte_at raw k))

stripped_slice :
    (raw : Bytes)
    → IsPassword raw (record { backing = raw; len = strip_line_ends raw (length raw) })
stripped_slice raw = record {
  in_place = refl;
  within = strip-le raw (length raw);
  split = sym (take-append-drop (strip_line_ends raw (length raw)) raw);
  stripped = All-drop raw (strip_line_ends raw (length raw)) (strip_stripped raw (length raw));
  kept = strip_kept raw (length raw);
}

-- The file's bytes, less all line ends at the end and nothing else, are the password.
pub read_password_file-IsPassword :
    (path : Bytes) (read_fn : Bytes → Result Error Bytes) (raw : Bytes)
    → read_fn path ≡ ok raw
    → (password : Slice) × (read_password_file path read_fn ≡ ok password) × IsPassword raw password
unfolding read_password_file
read_password_file-IsPassword path read_fn raw h = (
  record { backing = raw; len = strip_line_ends raw (length raw) },
  rw (h, read_password_file),
  stripped_slice raw,
)
