-- ===== src/Signing/Service/Simulates.antt =====
-- The vault of the service is a shared vault: each call of SignTransaction is at most one call of
-- WithSigningKey on it.
use blockchain_ai_tools.Base.{
  ℕ, ◌==◌, ==_iff, Bool-cases, inl, inr, List, Option, none, some, Result, ok, err, ◌≡◌, ◌≢◌, refl,
  sym, ap, ◌∙◌, subst,
}
use blockchain_ai_tools.Signing.Errors.{tool, ToolError}
use blockchain_ai_tools.Signing.Address.{Common}
use blockchain_ai_tools.Signing.Request.{SignResult}
use blockchain_ai_tools.Signing.Validate.{ParsedTx, validate}
use blockchain_ai_tools.Signing.Types.{Types}
use blockchain_ai_tools.Signing.Build.{build_tx}
use blockchain_ai_tools.Signing.Zero.{Slice, Magnitude}
use blockchain_ai_tools.Signing.Keystore.{FileKeyVault}
use blockchain_ai_tools.Signing.Vault.{Keystore, Outcome, panicked}
use blockchain_ai_tools.Signing.Vault.Sharing
use blockchain_ai_tools.Signing.Vault.Sharing.{
  Call, Place, waiting, returned, Move, update, System, start,
}
use blockchain_ai_tools.Signing.Vault.Sharing.Snapshot.{Onward, here, and_on}
use blockchain_ai_tools.Signing.Vault.Sharing.Updates.{update_keeps, update_other, update_same}
use blockchain_ai_tools.Signing.Signer.{LogLine}
use blockchain_ai_tools.Signing.Service.{
  Asking, Stage, received, in_vault, answered, Service, vault_call, recovered, audited, Act, refuse,
  fail_to_build, call_vault, move_in_vault, answer_caller, pick, Reach, at_start, later,
}

module _ {Transaction Signer : Type 0} (types : Types Transaction Signer) (common : Common)
    (guard : Option ℕ) (keystore : Keystore) where
  -- A caller that never gets to the vault.
  abbrev pub no_call : Asking → Call SignResult
  no_call a = record { fn = λ _ _. panicked; read_fn = a.read_fn; ctx = a.ctx.context }

  abbrev pub call_if_built : Asking → Option (Transaction × Signer) → Call SignResult
  call_if_built a none = no_call a
  call_if_built a (some built) = vault_call types common guard keystore a built

  abbrev pub call_if_valid : Asking → Result ToolError ParsedTx → Call SignResult
  call_if_valid a (err _) = no_call a
  call_if_valid a (ok p) = call_if_built a (build_tx types p)

  -- The call of WithSigningKey that a call of SignTransaction makes.
  abbrev pub call_of : Asking → Call SignResult
  call_of a = call_if_valid a (validate common a.req guard)

  pub call_of_built :
      (a : Asking) (p : ParsedTx) (built : Transaction × Signer)
      → validate common a.req guard ≡ ok p
      → build_tx types p ≡ some built
      → call_of a ≡ vault_call types common guard keystore a built
  call_of_built a p built e f = ap (call_if_valid a) e ∙ ap (call_if_built a) f

  -- A stage of a call, and its place at the vault.
  pub data Fits (a : Asking) : Stage Transaction Signer → Place SignResult → Type 0 where
    is_received : Fits a received waiting
    is_in_vault :
        {p : ParsedTx} {built : Transaction × Signer} {q : Place SignResult}
        → validate common a.req guard ≡ ok p
        → build_tx types p ≡ some built
        → Fits a (in_vault p built q) q
    is_refused :
        {t : ToolError}
        → validate common a.req guard ≡ err t
        → Fits a (answered (err (tool t))) waiting
    is_unbuilt :
        {p : ParsedTx} (v : FileKeyVault) (log : List LogLine)
        → validate common a.req guard ≡ ok p
        → build_tx types p ≡ none
        → Fits a (answered (recovered types common guard keystore a v log).0) waiting
    is_answered :
        {p : ParsedTx} {built : Transaction × Signer} {o : Outcome SignResult} {x : Slice}
        {y : Option Magnitude} (v : FileKeyVault) (log : List LogLine)
        → validate common a.req guard ≡ ok p
        → build_tx types p ≡ some built
        → Fits a (answered (audited types common guard keystore a p o v log).0) (returned o x y)

  module _ (asked : ℕ → Asking) where
    abbrev pub calls : ℕ → Call SignResult
    calls i = call_of (asked i)

    -- A reachable state of the shared vault that the service agrees with.
    pub record Simulates (v : FileKeyVault) (s : Service Transaction Signer) : Type 0 where
      pub system : System SignResult
      pub reached : Sharing.Reach keystore calls v system
      pub same_vault : system.vault ≡ s.vault
      pub fits : (j : ℕ) → Fits (asked j) (s.stage j) (system.place j)

    -- The shared vault goes on to a state that the service agrees with.
    pub record GoesOn (v : FileKeyVault) (from : System SignResult) (s : Service Transaction Signer)
        : Type 0 where
      pub next : Simulates v s
      pub onward : Onward keystore calls from next.system

    -- The vault does nothing where a call moves outside of it.
    stands :
        (v : FileKeyVault) (s : Service Transaction Signer) (i : ℕ) (log : List LogLine)
        (p : Stage Transaction Signer)
        → (m : Simulates v s) → Fits (asked i) p (m.system.place i)
        → GoesOn v m.system (record { vault = s.vault; log = log; stage = update s.stage i p })
    stands v s i log p m f = record {
      next = record {
        system = m.system;
        reached = m.reached;
        same_vault = m.same_vault;
        fits =
            update_keeps (λ j x. Fits (asked j) x (m.system.place j)) s.stage i p f
              (λ j _. m.fits j);
      };
      onward = here;
    }

    moves :
        (v : FileKeyVault) (s : Service Transaction Signer) (i : ℕ) (p : ParsedTx)
        (built : Transaction × Signer) (q' : Place SignResult) (v' : FileKeyVault)
        → (m : Simulates v s) → validate common (asked i).req guard ≡ ok p
        → build_tx types p ≡ some built
        → Move keystore
            (vault_call types common guard keystore (asked i) built)
            s.vault
            (m.system.place i)
            v'
            q'
        → GoesOn v m.system
            (record { vault = v'; log = s.log; stage = update s.stage i (in_vault p built q') })
    moves v s i p built q' v' m e f step =
        let same_call = call_of_built (asked i) p built e f in
        let shared =
          subst (λ c. Move keystore c m.system.vault (m.system.place i) v' q') (sym same_call)
            (subst
              (λ u.
                Move keystore (vault_call types common guard keystore (asked i) built) u
                  (m.system.place i) v' q')
              (sym m.same_vault) step) in
        record {
          next = record {
            system = record { vault = v'; place = update m.system.place i q' };
            reached = Sharing.later m.reached (Sharing.pick i shared);
            same_vault = refl;
            fits = fits_both;
          };
          onward = and_on here (Sharing.pick i shared);
        }
      where
        other :
            (j : ℕ)
            → j ≢ i
            → Fits
                (asked j)
                (update s.stage i (in_vault p built q') j)
                (update m.system.place i q' j)
        other j apart =
            subst (λ x. Fits (asked j) x (update m.system.place i q' j))
              (sym (update_other s.stage i (in_vault p built q') j apart))
              (subst (Fits (asked j) (s.stage j)) (sym (update_other m.system.place i q' j apart))
                (m.fits j))

        same :
            Fits (asked i) (update s.stage i (in_vault p built q') i) (update m.system.place i q' i)
        same =
            subst (λ x. Fits (asked i) x (update m.system.place i q' i))
              (sym (update_same s.stage i (in_vault p built q')))
              (subst (Fits (asked i) (in_vault p built q')) (sym (update_same m.system.place i q'))
                (is_in_vault e f))

        fits_both :
            (j : ℕ)
            → Fits
                (asked j)
                (update s.stage i (in_vault p built q') j)
                (update m.system.place i q' j)
        fits_both j = elim (Bool-cases (j == i)) [
          | inl e' ↦
              subst
                (λ k.
                  Fits (asked k) (update s.stage i (in_vault p built q') k)
                    (update m.system.place i q' k))
                (sym ((==_iff j i).0 e')) same
          | inr e' ↦ other j (λ x. absurd (cc (e', (==_iff j i).1 x)))
        ]

    pub acts :
        (v : FileKeyVault) (s : Service Transaction Signer) (i : ℕ) (st : Stage Transaction Signer)
        (m : Simulates v s) (q : Place SignResult)
        → m.system.place i ≡ q
        → Fits (asked i) st q
        → (v' : FileKeyVault) (log : List LogLine) (st' : Stage Transaction Signer)
        → Act types common guard keystore (asked i) s.vault s.log st v' log st'
        → GoesOn v m.system (record { vault = v'; log = log; stage = update s.stage i st' })
    acts v s i st m q at is_received v' log st' (refuse e) =
        stands v s i s.log st' m (subst (Fits (asked i) st') (sym at) (is_refused e))
    acts v s i st m q at is_received v' log st' (fail_to_build e n) =
        stands v s i log st' m (subst (Fits (asked i) st') (sym at) (is_unbuilt s.vault s.log e n))
    acts v s i st m q at is_received v' log st' (call_vault e b) =
        stands v s i s.log st' m (subst (Fits (asked i) st') (sym at) (is_in_vault e b))
    acts v s i st m q at (is_in_vault {p} {built} e b) v' log st' (move_in_vault {q' = q'} step) =
        moves v s i p built q' v' m e b (
          subst
            (λ x.
              Move keystore (vault_call types common guard keystore (asked i) built) s.vault x v'
                q')
            (sym at) step)
    acts v s i st m q at (is_in_vault e b) v' log st' answer_caller =
        stands v s i log st' m (subst (Fits (asked i) st') (sym at) (is_answered s.vault s.log e b))
    acts v s i st m q at (is_refused e) v' log st' a = elim a [ ]
    acts v s i st m q at (is_unbuilt u l e n) v' log st' a = elim a [ ]
    acts v s i st m q at (is_answered u l e b) v' log st' a = elim a [ ]

    -- Whatever the calls of SignTransaction do, their calls of WithSigningKey interleave on the
    -- shared vault.
    pub Reach-Simulates :
        (v : FileKeyVault) (s : Service Transaction Signer)
        → Reach types common guard keystore asked v s
        → Simulates v s
    Reach-Simulates v s at_start = record {
      system = start v;
      reached = Sharing.at_start;
      same_vault = refl;
      fits = λ j. is_received;
    }
    Reach-Simulates v s (later {s = before} r (pick i {v = v'} {log = log} {p = p} act)) =
        let m = Reach-Simulates v before r in
        (acts v before i (before.stage i) m (m.system.place i) refl (m.fits i) v' log p act).next
