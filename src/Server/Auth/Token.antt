-- ===== src/Server/Auth/Token.antt =====
-- The token that a file spells, and the buffer that it was read into.
use blockchain_ai_tools.Base.{
  ℕ, ◌-◌, Bytes, text, is_empty, is_empty_iff, true, false, ◌==◌, Bool-cases, length, length-append,
  take, ◌∷◌, ◌++◌, [], Option, some, Result, ok, err, ◌≡◌, ◌≢◌, ◌⊎◌, inl, inr, refl, sym, ap, ◌∙◌,
  subst, arith,
}
use blockchain_ai_tools.Signing.Secret.{new_secret}
use blockchain_ai_tools.Signing.Errors.{Error, plain}
use blockchain_ai_tools.Signing.Zero.{Slice, zero_bytes}
use blockchain_ai_tools.Signing.Zero.Wiped.{IsWiped, zero_bytes-IsWiped}
use blockchain_ai_tools.Signing.Vault.{byte_at}
use blockchain_ai_tools.Server.Auth.{
  Sum256, BearerVerifier, token_file, strip_one, strip_line_ending, new_bearer_verifier_from_file,
}

-- The last byte, put back behind the others.
take-last : (c : ℕ) (s : Bytes) → take (length s) (c ∷ s) ++ byte_at (c ∷ s) (length s) ∷ [] ≡ c ∷ s
take-last c [] = refl
take-last c (d ∷ s) = ap (λ x. c ∷ x) (take-last d s)

-- `s` ends with `c`.
abbrev pub EndsWith : ℕ → Bytes → Type 0
EndsWith c s = (t : Bytes) × (s ≡ t ++ c ∷ [])

-- What is left of `s` when one `c` at its end is taken off.
pub data Strips (c : ℕ) (s : Bytes) : Bytes → Type 0 where
  took : (t : Bytes) → s ≡ t ++ c ∷ [] → Strips c s t
  kept : ¬ (EndsWith c s) → Strips c s s

-- The last byte of a text and what is before it.
byte_at-last : (t : Bytes) (c : ℕ) → byte_at (t ++ c ∷ []) (length t) ≡ c
byte_at-last [] c = refl
byte_at-last (d ∷ t) c = byte_at-last t c

not_empty_snoc : (t : Bytes) (c : ℕ) → ¬ ([] ≡ t ++ c ∷ [])
not_empty_snoc [] c e = cc
not_empty_snoc (d ∷ t) c e = cc

length-snoc : (t : Bytes) (c : ℕ) → length (t ++ c ∷ []) - 1 ≡ length t
length-snoc [] c = refl
length-snoc (d ∷ t) c = omega (arith, length-append (d ∷ t) (c ∷ []))

not_ended : (c : ℕ) (s : Bytes) → byte_at s (length s - 1) == c ≡ false → ¬ (EndsWith c s)
not_ended c s h (t, e) =
    let last : byte_at s (length s - 1) ≡ c =
      rw e (ap (byte_at (t ++ c ∷ [])) (length-snoc t c) ∙ byte_at-last t c) in
    ground arith

one_less : (d : ℕ) (s : Bytes) → length (d ∷ s) - 1 ≡ length s
one_less d s = omega arith

took_last :
    (c d : ℕ) (s : Bytes)
    → byte_at (d ∷ s) (length (d ∷ s) - 1) == c ≡ true
    → (d ∷ s ≡ take (length (d ∷ s) - 1) (d ∷ s) ++ c ∷ [])
took_last c d s h =
    let is_c : byte_at (d ∷ s) (length (d ∷ s) - 1) ≡ c = ground arith in
    sym (
      subst (λ n. take n (d ∷ s) ++ byte_at (d ∷ s) n ∷ [] ≡ d ∷ s) (sym (one_less d s))
        (take-last d s))
    ∙ ap (λ b. take (length (d ∷ s) - 1) (d ∷ s) ++ b ∷ []) is_c

strip_one-Strips : (c : ℕ) (s : Bytes) → Strips c s (strip_one c s)
unfolding strip_one
strip_one-Strips c [] = kept (λ e. not_empty_snoc (e.0) c (e.1))
strip_one-Strips c (d ∷ s) = elim (Bool-cases (byte_at (d ∷ s) (length (d ∷ s) - 1) == c)) [
  | inl is_last ↦
      subst (Strips c (d ∷ s)) (ground arith)
        (took (take (length (d ∷ s) - 1) (d ∷ s)) (took_last c d s is_last))
  | inr is_not ↦ subst (Strips c (d ∷ s)) (ground arith) (kept (not_ended c (d ∷ s) is_not))
]

-- The token of a file: what is before one line feed at its end, if there is one, and then before
-- one carriage return at its end, if there is one.
pub record TokenOf (raw token : Bytes) : Type 0 where
  pub line : Bytes
  pub line_feed : Strips b'\n' raw line
  pub carriage_return : Strips b'\r' line token

strip_line_ending-TokenOf : (raw : Bytes) → TokenOf raw (strip_line_ending raw)
unfolding strip_line_ending
strip_line_ending-TokenOf raw = record {
  line = strip_one b'\n' raw;
  line_feed = strip_one-Strips _ raw;
  carriage_return = strip_one-Strips _ _;
}

module _ (sum256 : Sum256) (quote : Bytes → Bytes) (read_file : Bytes → Result Error Bytes)
    (path raw : Bytes) (was_read : read_file path ≡ ok raw) where
  -- The constructor's result and its buffer.
  abbrev made : Result Error BearerVerifier × Option Slice
  made = new_bearer_verifier_from_file sum256 quote read_file path

  -- What is known behind a call for a file that can be read.
  pub record Made (token : Bytes) : Type 0 where
    pub is_token : TokenOf raw token
    pub outcome :
        ((token ≢ []) × (made.0 ≡ ok (record { token_hash = new_secret (sum256 token) })))
        ⊎ ((token ≡ [])
            × (made.0
                ≡ err (
                    plain (
                      token_file (quote path) ++ text ": empty after stripping trailing newline"))))
    pub buffer : Slice
    pub left : made.1 ≡ some buffer
    pub wiped : IsWiped (record { backing = raw; len = length raw }) buffer

  -- The verifier keeps the hash of the file's token, and is refused where the token is empty; on
  -- both paths every byte of the file is zero in the buffer that it was read into.
  pub new_bearer_verifier_from_file-Made : Made (strip_line_ending raw)
  unfolding new_bearer_verifier_from_file
  new_bearer_verifier_from_file-Made = record {
    is_token = strip_line_ending-TokenOf raw;
    outcome = elim (Bool-cases (is_empty (strip_line_ending raw))) [
      | inl nothing ↦ inr ((is_empty_iff _).0 nothing, ground arith)
      | inr something ↦ inl (
        λ e. let nothing = (is_empty_iff (strip_line_ending raw)).1 e in absurd (cc),
        ground arith,
      )
    ];
    buffer = zero_bytes (record { backing = raw; len = length raw });
    left = ground arith;
    wiped = zero_bytes-IsWiped (record { backing = raw; len = length raw });
  }
