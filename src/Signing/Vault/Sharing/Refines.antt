-- ===== src/Signing/Vault/Sharing/Refines.antt =====
-- Calls that interleave on a vault do what calls one after the other would do.
use blockchain_ai_tools.Base.{
  ℕ, ◌<◌, ◌==◌, ==_iff, Bool-cases, none, some, ◌≡◌, ◌≢◌, inl, inr, refl, sym, ap, ◌∙◌, subst,
  arith,
}
use blockchain_ai_tools.Signing.Keystore.{FileKeyVault}
use blockchain_ai_tools.Signing.Vault.{Keystore, failed, with_signing_key}
use blockchain_ai_tools.Signing.Vault.Secrets.{sem-with_signing_key}
use blockchain_ai_tools.Signing.Vault.Sharing.{
  Call, no_slice, Place, taken, Move, System, update, pick, Reach, at_start, later,
}
use blockchain_ai_tools.Signing.Vault.Sharing.Updates.{
  subst2, update_same, update_other, update_keeps,
}
use blockchain_ai_tools.Signing.Vault.Sharing.Holder.{
  Left, Sequential, unused, left_at, whole_call, left_by, Ends, Held, at_holding, Held-Goes,
  Held-sem, left_at-Held, Outside, at_waiting, at_returned, Outside-left, Outside-not_Held, Enters,
  turned_away, let_in, Outside-Enters,
}

module _ {ℓ} {R : Type ℓ} (keystore : Keystore) (calls : ℕ → Call R) where
  -- One whole call, by a caller that has not called.
  abbrev pub called : ℕ → Sequential R → Sequential R
  called i a =
      let r = whole_call keystore (calls i) a.vault in
      record { vault = r.1.vault; left = update a.left i (some (left_by keystore r)) }

  -- Whole calls, one after the other, each caller once.
  pub data InTurn (v : FileKeyVault) : Sequential R → Type ℓ where
    none_yet : InTurn v (unused v)
    and_then : (i : ℕ) {a : Sequential R} → InTurn v a → a.left i ≡ none → InTurn v (called i a)

  -- The sequential system waits, or makes one call.
  pub data Next (a : Sequential R) : Sequential R → Type ℓ where
    waits : Next a a
    calls_now : (i : ℕ) → a.left i ≡ none → Next a (called i a)

  -- The interleaved system against the sequential one: the semaphore is free and the vaults agree,
  -- or one call holds it, which took it when the vault was the sequential one's.
  pub data Guarded (s : System R) (before : FileKeyVault) : Type ℓ where
    free : s.vault ≡ before → ((j : ℕ) → Outside (s.place j)) → Guarded s before
    held :
        (i : ℕ)
        → Held keystore (calls i) before s.vault (s.place i)
        → ((j : ℕ) → j ≢ i → Outside (s.place j))
        → Guarded s before

  pub record Agrees (s : System R) (a : Sequential R) : Type ℓ where
    pub lefts : (j : ℕ) → a.left j ≡ left_at (s.place j)
    pub quiet : a.vault.sem ≡ 0
    pub guarded : Guarded s a.vault

  -- A state of the sequential system that the interleaved one agrees with.
  abbrev pub Matched : FileKeyVault → System R → Type ℓ
  Matched v s = (a : Sequential R) × InTurn v a × Agrees s a

  module _ (v : FileKeyVault) (s : System R) (a : Sequential R) (turns : InTurn v a)
      (g : Agrees s a) where
    -- A state of the sequential system that comes next, and agrees.
    abbrev pub Follows : System R → Type ℓ
    Follows t = (b : Sequential R) × InTurn v b × Agrees t b × Next a b

    abbrev after : ℕ → FileKeyVault → Place R → System R
    after i w p = record { vault = w; place = update s.place i p }

    -- The sequential system makes the call that ends.
    call_now :
        (i : ℕ) (w b : FileKeyVault) (p : Place R) (l : Left R)
        → left_at (s.place i) ≡ none
        → left_at p ≡ some l
        → Ends keystore (calls i) a.vault l b
        → Guarded (after i w p) b
        → Follows (after i w p)
    call_now i w b p l before behind ends guarded = (
      called i a,
      and_then i turns (g.lefts i ∙ before),
      record {
        lefts =
            update_keeps (λ j x. x ≡ left_at (update s.place i p j)) a.left i _
              (ap some ends.gives ∙ sym behind ∙ sym (ap left_at (update_same s.place i p)))
              (λ j other. g.lefts j ∙ sym (ap left_at (update_other s.place i p j other)));
        quiet = sem-with_signing_key _ keystore _ _ _ ∙ g.quiet;
        guarded = subst (Guarded (after i w p)) (sym ends.leaves) guarded;
      },
      calls_now i (g.lefts i ∙ before),
    )

    -- The sequential system waits.
    go_on :
        (i : ℕ) (w : FileKeyVault) (p : Place R)
        → left_at (s.place i) ≡ none
        → left_at p ≡ none
        → Guarded (after i w p) a.vault
        → Follows (after i w p)
    go_on i w p before behind guarded = (
      a,
      turns,
      record {
        lefts =
            update_keeps (λ j x. a.left j ≡ left_at x) s.place i p (g.lefts i ∙ before ∙ sym behind)
              (λ j other. g.lefts j);
        quiet = g.quiet;
        guarded = guarded;
      },
      waits,
    )

    -- What is outside stays so where another call moves.
    update-Outside :
        (i : ℕ) (p : Place R)
        → ((j : ℕ) → j ≢ i → Outside (s.place j))
        → (j : ℕ) → j ≢ i
        → Outside (update s.place i p j)
    update-Outside i p h j other =
        subst Outside (sym (update_other s.place i p j other)) (h j other)

    all_update-Outside :
        (i : ℕ) (p : Place R)
        → Outside p
        → ((j : ℕ) → j ≢ i → Outside (s.place j))
        → (j : ℕ) → Outside (update s.place i p j)
    all_update-Outside i p o h = update_keeps (λ j x. Outside x) s.place i p o h

    -- The holder moves.
    holder_moves :
        (i : ℕ) (w : FileKeyVault) (p : Place R)
        → Held keystore (calls i) a.vault s.vault (s.place i)
        → ((j : ℕ) → j ≢ i → Outside (s.place j))
        → Move keystore (calls i) s.vault (s.place i) w p
        → Follows (after i w p)
    holder_moves i w p h others m =
        elim (Held-Goes keystore (calls i) a.vault s.vault w (s.place i) p h m) [
          | inl still ↦
              go_on i w p (left_at-Held keystore (calls i) a.vault s.vault (s.place i) h)
                (left_at-Held keystore (calls i) a.vault w p still)
                (held i
                  (subst (Held keystore (calls i) a.vault w) (sym (update_same s.place i p)) still)
                  (update-Outside i p others))
          | inr (l, behind, ends) ↦
              call_now i w w p l (left_at-Held keystore (calls i) a.vault s.vault (s.place i) h)
                behind ends (free refl (all_update-Outside i p (Outside-left p l behind) others))
        ]

    -- Whoever holds the semaphore goes on to hold it while a call outside moves outside.
    Guarded-update :
        (i : ℕ) (w : FileKeyVault) (p : Place R)
        → Outside (s.place i)
        → Outside p
        → w ≡ s.vault
        → Guarded s a.vault
        → Guarded (after i w p) a.vault
    Guarded-update i w p was now e (free same_vault all) =
        free (e ∙ same_vault) (all_update-Outside i p now (λ j _. all j))
    Guarded-update i w p was now e (held k h others) =
        held k
          (subst2 (Held keystore (calls k) a.vault) (sym e) (sym (update_other s.place i p k apart))
            h)
          (update_keeps (λ j x. j ≢ k → Outside x) s.place i p (λ _. now) (λ j _. others j))
      where
        apart : k ≢ i
        apart e' =
            Outside-not_Held keystore (calls i) a.vault s.vault (s.place i) was
              (subst (λ x. Held keystore (calls x) a.vault s.vault (s.place x)) e' h)

    only_free :
        s.vault.sem < 1 → Guarded s a.vault → (s.vault ≡ a.vault) × ((j : ℕ) → Outside (s.place j))
    only_free idle (free same_vault all) = (same_vault, all)
    only_free idle (held k h others) =
        let one = Held-sem keystore (calls k) a.vault s.vault (s.place k) h in
        absurd (omega (arith, one, idle))

    -- A call that waits is turned away, or takes the free semaphore.
    waiter_moves :
        (i : ℕ) (w : FileKeyVault) (p : Place R)
        → Outside (s.place i)
        → Enters keystore (calls i) s.vault w (s.place i) p
        → Follows (after i w p)
    unfolding with_signing_key
    waiter_moves i w p was (turned_away {e} c before same_vault behind) =
        call_now i w a.vault p (record { outcome = failed e; password = no_slice; scalar = none })
          before (ap left_at behind) (record { gives = ground arith; leaves = ground arith })
          (Guarded-update i w p was (subst Outside (sym behind) at_returned) same_vault g.guarded)
    waiter_moves i w p was (let_in c before idle taken_vault behind) =
        let (same_vault, all) = only_free idle g.guarded in
        let here : Held keystore (calls i) a.vault w (update s.place i p i) =
          subst (Held keystore (calls i) a.vault w) (sym (update_same s.place i p ∙ behind))
            (at_holding c (taken_vault ∙ ap taken same_vault)) in
        go_on i w p before (ap left_at behind) (held i here (update-Outside i p (λ j _. all j)))

    pub moves :
        (i : ℕ) (w : FileKeyVault) (p : Place R)
        → Move keystore (calls i) s.vault (s.place i) w p
        → Guarded s a.vault
        → Follows (after i w p)
    moves i w p m (free same_vault all) =
        waiter_moves i w p (all i)
          (Outside-Enters keystore (calls i) s.vault w (s.place i) p (all i) m)
    moves i w p m (held k h others) = elim (Bool-cases (i == k)) [
      | inl e ↦
          let same_call = (==_iff i k).0 e in
          holder_moves i w p
            (subst (λ x. Held keystore (calls x) a.vault s.vault (s.place x)) (sym same_call) h)
            (λ j other. others j (λ e'. other (e' ∙ sym same_call))) m
      | inr e ↦
          let was = others i (λ e'. absurd (cc (e, (==_iff i k).1 e'))) in
          waiter_moves i w p was (Outside-Enters keystore (calls i) s.vault w (s.place i) p was m)
    ]

  -- On a vault that starts with a free semaphore, however the calls interleave, each that has
  -- returned left what it leaves in some order of whole calls, one after the other; and the vault
  -- is as those calls leave it, or as the one call makes it that holds the semaphore now.
  pub Reach-Matched :
      (v : FileKeyVault) → v.sem ≡ 0 → (s : System R) → Reach keystore calls v s → Matched v s
  Reach-Matched v idle s at_start = (
    unused v,
    none_yet,
    record { lefts = λ j. refl; quiet = idle; guarded = free refl (λ j. at_waiting) },
  )
  Reach-Matched v idle s (later {s = before} r (pick i m)) =
      let (a, turns, agrees) = Reach-Matched v idle before r in
      let (b, more, still, _) = moves v before a turns agrees i _ _ m agrees.guarded in
      (b, more, still)
