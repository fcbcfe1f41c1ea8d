-- ===== src/Signing/Service/Progress.antt =====
-- Every call of SignTransaction comes to its answer, however the calls take their turns.
use blockchain_ai_tools.Base.{
  ℕ, zero, suc, ◌+◌, ◌*◌, ◌≤◌, ◌<◌, List, Option, ◌≡◌, ◌≢◌, ◌⊎◌, inl, inr, refl, sym, ap, ◌∙◌,
  subst, arith,
}
use blockchain_ai_tools.Signing.Address.{Common}
use blockchain_ai_tools.Signing.Request.{SignResult}
use blockchain_ai_tools.Signing.Types.{Types}
use blockchain_ai_tools.Signing.Keystore.{FileKeyVault}
use blockchain_ai_tools.Signing.Vault.{Keystore}
use blockchain_ai_tools.Signing.Vault.Sharing.{Place, update}
use blockchain_ai_tools.Signing.Vault.Sharing.Updates.{
  update_other, total, total-const, total-update,
}
use blockchain_ai_tools.Signing.Vault.Sharing.Holder.{Outside, at_waiting, at_returned}
use blockchain_ai_tools.Signing.Vault.Sharing.Moves.{above_or_below}
use blockchain_ai_tools.Signing.Vault.Sharing.Progress.{semaphore}
use blockchain_ai_tools.Signing.Signer.{LogLine}
use blockchain_ai_tools.Signing.Service.{
  Asking, Stage, received, in_vault, answered, Service, idle_service, Act, pick, Reach, at_start,
  later,
}
use blockchain_ai_tools.Signing.Service.Simulates.{
  Fits, is_received, is_in_vault, is_refused, is_unbuilt, is_answered, calls, Reach-Simulates,
}
use blockchain_ai_tools.Signing.Service.Acts.{
  steps_left, EachAnswered, find-IsOpen, Act-steps_left, CanAct, received-CanAct, Outside-CanAct,
  holder-CanAct,
}

module _ {Transaction Signer : Type 0} (types : Types Transaction Signer) (common : Common)
    (guard : Option ℕ) (keystore : Keystore) (asked : ℕ → Asking) where
  -- A call that can act, for the sake of the call j: it is that one, or is inside.
  record ActsFor (s : Service Transaction Signer) (j : ℕ) : Type 0 where
    who : ℕ
    can : CanAct types common guard keystore asked s who
    called : (who ≡ j) ⊎ (s.stage who ≢ received)

  own :
      (s : Service Transaction Signer) (j : ℕ)
      → CanAct types common guard keystore asked s j
      → ActsFor s j
  own s j c = record { who = j; can = c; called = inl refl }

  by_holder :
      (s : Service Transaction Signer) (j k : ℕ) (st : Stage Transaction Signer)
      (q : Place SignResult)
      → s.stage k ≡ st
      → Fits types common guard keystore (asked k) st q
      → ¬ (Outside q)
      → 0 < s.vault.sem
      → ActsFor s j
  by_holder s j k st q here f inside full = record {
    who = k;
    can = holder-CanAct types common guard keystore asked s k st q here f inside full;
    called = inr (λ e. not_received st q (sym here ∙ e) f inside);
  }
    where
      not_received :
          (p : Stage Transaction Signer) (x : Place SignResult)
          → p ≡ received
          → Fits types common guard keystore (asked k) p x
          → ¬ (¬ (Outside x))
      not_received p x e is_received inside' = inside' at_waiting
      not_received p x e (is_in_vault _ _) inside' = absurd (cc)
      not_received p x e (is_refused _) inside' = absurd (cc)
      not_received p x e (is_unbuilt _ _ _ _) inside' = inside' at_waiting
      not_received p x e (is_answered _ _ _ _) inside' = inside' at_returned

  -- While a call has no answer, some call can act.
  for_open :
      (v : FileKeyVault)
      → v.sem ≡ 0
      → (s : Service Transaction Signer) → Reach types common guard keystore asked v s
      → (j : ℕ) (st : Stage Transaction Signer) → s.stage j ≡ st
      → 0 < steps_left st
      → ActsFor s j
  for_open v idle s r j received here h =
      own s j (received-CanAct types common guard keystore asked s j here)
  for_open v idle s r j (answered x) here h = absurd (omega (arith, h))
  for_open v idle s r j (in_vault p built q) here h =
      let m = Reach-Simulates types common guard keystore asked v s r in
      let same_sem = ap (λ w. w.sem) m.same_vault in
      elim (semaphore keystore (calls types common guard keystore asked) v idle m.system
        m.reached) [
          | inl (all, vacant) ↦ own s j (
              Outside-CanAct types common guard keystore asked s j p built q here
                (subst Outside (at_place (s.stage j) (m.system.place j) here (m.fits j)) (all j))
                (omega (arith, same_sem, vacant)))
          | inr (k, inside, others, full) ↦
              by_holder s j k (s.stage k) (m.system.place k) refl (m.fits k) inside
                (omega (arith, same_sem, full))
        ]
    where
      at_place :
          (st' : Stage Transaction Signer) (x : Place SignResult)
          → st' ≡ in_vault p built q
          → Fits types common guard keystore (asked j) st' x
          → x ≡ q
      at_place st' x e (is_in_vault _ _) = cc
      at_place st' x e is_received = absurd (cc)
      at_place st' x e (is_refused _) = absurd (cc)
      at_place st' x e (is_unbuilt _ _ _ _) = absurd (cc)
      at_place st' x e (is_answered _ _ _ _) = absurd (cc)

  -- Steps of the first n calls.
  pub data Onward (n : ℕ)
      : Service Transaction Signer → ℕ → Service Transaction Signer → Type 0 where
    no_step : {s : Service Transaction Signer} → Onward n s 0 s
    one_step :
        (i : ℕ) {s : Service Transaction Signer} {v : FileKeyVault} {log : List LogLine}
        {p : Stage Transaction Signer} {m : ℕ} {t : Service Transaction Signer}
        → i < n
        → Act types common guard keystore (asked i) s.vault s.log (s.stage i) v log p
        → Onward n (record { vault = v; log = log; stage = update s.stage i p }) m t
        → Onward n s (suc m) t

  -- A run of the first n calls that has ended.
  pub record Ends (n : ℕ) (s : Service Transaction Signer) : Type 0 where
    pub steps : ℕ
    pub last : Service Transaction Signer
    pub onward : Onward n s steps last
    pub all_answered : EachAnswered last.stage n

  -- A state that steps of the first n calls reach.
  record IsRun (v : FileKeyVault) (n : ℕ) (s : Service Transaction Signer) : Type 0 where
    reached : Reach types common guard keystore asked v s
    not_asked : (j : ℕ) → n ≤ j → s.stage j ≡ received

  module _ (n : ℕ) (s : Service Transaction Signer) (i : ℕ) (below : i < n) (w : FileKeyVault)
      (log : List LogLine) (p : Stage Transaction Signer)
      (act : Act types common guard keystore (asked i) s.vault s.log (s.stage i) w log p) where
    abbrev behind : Service Transaction Signer
    behind = record { vault = w; log = log; stage = update s.stage i p }

    stepped-IsRun : (v : FileKeyVault) → IsRun v n s → IsRun v n behind
    stepped-IsRun v r = record {
      reached = later r.reached (pick i act);
      not_asked = λ j h.
          let apart : j ≢ i = (λ e. absurd (omega (arith, e, h, below))) in
          update_other s.stage i p j apart ∙ r.not_asked j h;
    }

    stepped_total : total steps_left (behind).stage n < total steps_left s.stage n
    stepped_total =
        let e = total-update steps_left s.stage i p n below in
        let fewer =
          Act-steps_left types common guard keystore asked (asked i) s.vault w s.log log (s.stage i)
            p act in
        omega (arith, e, fewer)

  Onward-IsRun :
      (v : FileKeyVault) (n k : ℕ) (s t : Service Transaction Signer)
      → IsRun v n s
      → Onward n s k t
      → IsRun v n t × (k + total steps_left t.stage n ≤ total steps_left s.stage n)
  Onward-IsRun v n k s t r no_step = (r, omega arith)
  Onward-IsRun v n k s t r (one_step i {v = w} {log} {p} {m} below act rest) =
      let next = behind n s i below w log p act in
      let fewer = stepped_total n s i below w log p act in
      let (run, bound) =
        Onward-IsRun v n m next t (stepped-IsRun n s i below w log p act v r) rest in
      (run, omega (arith, bound, fewer))

  -- Some call acts, as long as one has no answer.
  finish :
      (v : FileKeyVault) (n : ℕ)
      → v.sem ≡ 0
      → (fuel : ℕ) (s : Service Transaction Signer) → IsRun v n s
      → total steps_left s.stage n < fuel
      → Ends n s
  finish v n idle zero s r h = absurd (omega (arith, h))
  finish v n idle (suc fuel) s r h = elim (find-IsOpen s.stage n) [
    | inl all ↦ record { steps = 0; last = s; onward = no_step; all_answered = all }
    | inr o ↦
        let mover = for_open v idle s r.reached o.which (s.stage o.which) refl o.left in
        let below = who_below mover o.below in
        let c = mover.can in
        let fewer = stepped_total n s mover.who below c.vault c.log c.stage c.act in
        let rest =
          finish v n idle fuel (behind n s mover.who below c.vault c.log c.stage c.act)
            (stepped-IsRun n s mover.who below c.vault c.log c.stage c.act v r)
            (omega (arith, h, fewer)) in
        record {
          steps = suc rest.steps;
          last = rest.last;
          onward = one_step mover.who below c.act rest.onward;
          all_answered = rest.all_answered;
        }
  ]
    where
      who_below : {j : ℕ} (mover : ActsFor s j) → j < n → mover.who < n
      who_below mover below = elim mover.called [
        | inl same_call ↦ omega (arith, same_call, below)
        | inr called ↦ elim (above_or_below n mover.who) [
          | inl above ↦ absurd (called (r.not_asked mover.who above))
          | inr here ↦ here
        ]
      ]

  -- On a vault that starts with a free semaphore, a run of the first n calls of SignTransaction
  -- takes at most 11 * n steps, however they take their turns; and from wherever it has come to,
  -- it can go on to an end at which each of them has its answer.
  pub every_call_answers :
      (v : FileKeyVault)
      → v.sem ≡ 0
      → (n k : ℕ) (s : Service Transaction Signer) → Onward n (idle_service v) k s
      → (k ≤ 11 * n) × Ends n s
  every_call_answers v idle n k s o =
      let (run, bound) =
        Onward-IsRun v n k (idle_service v) s
          (record { reached = at_start; not_asked = λ j h. refl }) o in
      let all = total-const (steps_left {Transaction = Transaction} {Signer = Signer}) received n in
      (
        omega (arith, bound, all),
        finish v n idle (suc (total steps_left s.stage n)) s run (omega arith),
      )
