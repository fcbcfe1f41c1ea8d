-- ===== src/Signing/Vault/Sharing/Progress.antt =====
-- No call waits for ever: whoever holds the semaphore can go on until it gives it back.
use blockchain_ai_tools.Base.{
  ℕ, suc, ◌+◌, ◌*◌, ◌≤◌, ◌<◌, Option-cases, ◌≡◌, ◌≢◌, ◌⊎◌, inl, inr, refl, sym, ap, ◌∙◌, subst,
  arith,
}
use blockchain_ai_tools.Signing.Keystore.{FileKeyVault}
use blockchain_ai_tools.Signing.Vault.{Keystore}
use blockchain_ai_tools.Signing.Vault.Sharing.{
  Call, Place, waiting, Move, cancel, enter, System, update, start, pick, Reach, at_start, later,
}
use blockchain_ai_tools.Signing.Vault.Sharing.Holder.{
  Held-sem, Outside, at_waiting, Outside-not_Held,
}
use blockchain_ai_tools.Signing.Vault.Sharing.Updates.{
  update_other, total, total-const, total-update,
}
use blockchain_ai_tools.Signing.Vault.Sharing.Refines.{Guarded, free, held, Reach-Matched}
use blockchain_ai_tools.Signing.Vault.Sharing.Moves.{
  moves_left, above_or_below, EachReturned, find_unreturned, Outside-waiting, within, can_move,
  Move-moves_left,
}

module _ {ℓ} {R : Type ℓ} (keystore : Keystore) (calls : ℕ → Call R) where
  module _ (v : FileKeyVault) (idle : v.sem ≡ 0) where
    -- What the semaphore says of who is inside.
    pub semaphore :
        (s : System R)
        → Reach keystore calls v s
        → (((j : ℕ) → Outside (s.place j)) × (s.vault.sem ≡ 0))
          ⊎ ((k : ℕ) × ¬ (Outside (s.place k))
              × ((j : ℕ) → j ≢ k → Outside (s.place j))
              × (s.vault.sem ≡ 1))
    semaphore s r =
        let (a, turns, agrees) = Reach-Matched keystore calls v idle s r in
        who a.vault agrees.quiet agrees.guarded
      where
        who :
            (b : FileKeyVault)
            → b.sem ≡ 0
            → Guarded keystore calls s b
            → (((j : ℕ) → Outside (s.place j)) × (s.vault.sem ≡ 0))
              ⊎ ((k : ℕ) × ¬ (Outside (s.place k))
                  × ((j : ℕ) → j ≢ k → Outside (s.place j))
                  × (s.vault.sem ≡ 1))
        who b quiet (free e all) = inl (all, ap (λ x. x.sem) e ∙ quiet)
        who b quiet (held k h others) = inr (
          k,
          (λ o. Outside-not_Held keystore (calls k) b s.vault (s.place k) o h),
          others,
          Held-sem keystore (calls k) b s.vault (s.place k) h ∙ ap (λ n. n + 1) quiet,
        )

  -- A run of the first n calls, and how many moves it has made.
  pub data Run (v : FileKeyVault) (n : ℕ) : ℕ → System R → Type ℓ where
    not_run : Run v n 0 (start v)
    one_more :
        {k : ℕ} {s : System R} (i : ℕ) {v' : FileKeyVault} {p : Place R}
        → Run v n k s
        → i < n
        → Move keystore (calls i) s.vault (s.place i) v' p
        → Run v n (suc k) (record { vault = v'; place = update s.place i p })

  Run-Reach : (v : FileKeyVault) (n k : ℕ) (s : System R) → Run v n k s → Reach keystore calls v s
  Run-Reach v n k s not_run = at_start
  Run-Reach v n k s (one_more {k = m} {s = before} i r h step) =
      later (Run-Reach v n m before r) (pick i step)

  Run-waiting :
      (v : FileKeyVault) (n k : ℕ) (s : System R)
      → Run v n k s
      → (j : ℕ) → n ≤ j
      → s.place j ≡ waiting
  Run-waiting v n k s not_run j h = refl
  Run-waiting v n k s (one_more {k = m} {s = before} i {p = p} r below step) j h =
      let apart : j ≢ i = (λ e. absurd (omega (arith, e, h, below))) in
      update_other before.place i p j apart ∙ Run-waiting v n m before r j h

  Run-total :
      (v : FileKeyVault) (n k : ℕ) (s : System R)
      → Run v n k s
      → k + total moves_left s.place n ≤ 9 * n
  Run-total v n k s not_run = let e = total-const (moves_left {R = R}) waiting n in omega (arith, e)
  Run-total v n k s (one_more {k = m} {s = before} i {v' = w} {p = p} r below step) =
      let e = total-update moves_left before.place i p n below in
      let fewer = Move-moves_left keystore (calls i) before.vault w (before.place i) p step in
      let rest = Run-total v n m before r in omega (arith, e, fewer, rest)

  module _ (v : FileKeyVault) (idle : v.sem ≡ 0) (n : ℕ) where
    -- One of the first n calls can move.
    pub record CanMove (s : System R) : Type ℓ where
      pub who : ℕ
      pub below : who < n
      pub vault : FileKeyVault
      pub place : Place R
      pub move : Move keystore (calls who) s.vault (s.place who) vault place

    from_waiting :
        (s : System R) (j : ℕ) {w : FileKeyVault} {p : Place R}
        → j < n
        → s.place j ≡ waiting
        → Move keystore (calls j) s.vault waiting w p
        → CanMove s
    from_waiting s j {w} {p} below starts step = record {
      who = j;
      below = below;
      vault = w;
      place = p;
      move = subst (λ x. Move keystore (calls j) s.vault x w p) (sym starts) step;
    }

    waiting-CanMove :
        (s : System R) (j : ℕ)
        → j < n
        → 0 < moves_left (s.place j)
        → s.vault.sem ≡ 0
        → Outside (s.place j)
        → CanMove s
    waiting-CanMove s j below h vacant o =
        let starts = Outside-waiting (s.place j) o h in
        elim (Option-cases (calls j).ctx.while_waiting) [
          | inl e ↦ from_waiting s j below starts (enter e (omega (arith, vacant)))
          | inr (x, e) ↦ from_waiting s j below starts (cancel e)
        ]

    holding-CanMove :
        (s : System R) (k : ℕ) → k < n → ¬ (Outside (s.place k)) → s.vault.sem ≡ 1 → CanMove s
    holding-CanMove s k below h full =
        let (positive, fewer) = within (s.place k) h in
        let (v', p', step) =
          can_move keystore (calls k) s.vault (s.place k) positive fewer (omega (arith, full)) in
        record { who = k; below = below; vault = v'; place = p'; move = step }

    -- On a vault that starts with a free semaphore, a run of the first n calls makes at most 9 * n
    -- moves; and until each of them has returned, one of them can move.
    pub every_call_returns :
        (k : ℕ) (s : System R) → Run v n k s → (k ≤ 9 * n) × (EachReturned s.place n ⊎ CanMove s)
    every_call_returns k s r =
        let bound = Run-total v n k s r in
        (
          omega (arith, bound),
          elim (find_unreturned s.place n) [
            | inl all ↦ inl all
            | inr (j, below, h) ↦ inr (mover j below h)
          ],
        )
      where
        mover : (j : ℕ) → j < n → 0 < moves_left (s.place j) → CanMove s
        mover j below h = elim (semaphore v idle s (Run-Reach v n k s r)) [
          | inl (all, vacant) ↦ waiting-CanMove s j below h vacant (all j)
          | inr (i, inside, others, full) ↦ elim (above_or_below n i) [
            | inl above ↦
                absurd (inside (subst Outside (sym (Run-waiting v n k s r i above)) at_waiting))
            | inr here ↦ holding-CanMove s i here inside full
          ]
        ]
