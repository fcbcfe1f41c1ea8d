-- ===== src/Signing/Vault/Sharing/Turns.antt =====
-- The turn of a call in an order of whole calls of WithSigningKey.
use blockchain_ai_tools.Base.{
  ℕ, ◌==◌, ==_iff, Bool-cases, some, some_eq, none, ◌≡◌, ◌≢◌, inl, inr, sym, ap, ◌∙◌, subst,
}
use blockchain_ai_tools.Signing.Keystore.{FileKeyVault}
use blockchain_ai_tools.Signing.Vault.{Keystore}
use blockchain_ai_tools.Signing.Vault.Sharing.{Call, System, pick, update}
use blockchain_ai_tools.Signing.Vault.Sharing.Snapshot.{Onward, here, and_on}
use blockchain_ai_tools.Signing.Vault.Sharing.Updates.{update_same, update_other}
use blockchain_ai_tools.Signing.Vault.Sharing.Holder.{Left, Sequential, unused, whole_call, left_by}
use blockchain_ai_tools.Signing.Vault.Sharing.Refines.{
  called, InTurn, none_yet, and_then, Next, waits, calls_now, Agrees, moves,
}

module _ {ℓ} {R : Type ℓ} (keystore : Keystore) (shared : ℕ → Call R) where
  -- Whole calls, one after the other, behind those that came before.
  pub data Turns (b : Sequential R) : Sequential R → Type ℓ where
    no_more : Turns b b
    one_more :
        (i : ℕ) {a : Sequential R}
        → Turns b a
        → a.left i ≡ none
        → Turns b (called keystore shared i a)

  pub InTurn-Turns :
      (v : FileKeyVault) (a : Sequential R) → InTurn keystore shared v a → Turns (unused v) a
  InTurn-Turns v a none_yet = no_more
  InTurn-Turns v a (and_then i {a = b} turn free) = one_more i (InTurn-Turns v b turn) free

  -- A call's turn, in an order of whole calls.
  pub record Turn (v : FileKeyVault) (a : Sequential R) (j : ℕ) (l : Left R) : Type ℓ where
    pub before : Sequential R
    pub turns : InTurn keystore shared v before
    pub free : before.left j ≡ none
    pub own : Turns (called keystore shared j before) a
    pub behind : Turns before a
    pub leaves : left_by keystore (whole_call keystore (shared j) before.vault) ≡ l

  -- What a call left, it left in its turn.
  pub left-InTurn :
      (v : FileKeyVault) (a : Sequential R) (j : ℕ) (l : Left R)
      → InTurn keystore shared v a
      → a.left j ≡ some l
      → Turn v a j l
  left-InTurn v a j l none_yet h = absurd (cc)
  left-InTurn v a j l (and_then i {a = b} turn free) h = elim (Bool-cases (j == i)) [
    | inl e ↦
        let same_index = (==_iff j i).0 e in
        record {
          before = b;
          turns = turn;
          free = ap b.left same_index ∙ free;
          own =
              subst (λ k. Turns (called keystore shared k b) (called keystore shared i b))
                (sym same_index) no_more;
          behind = one_more i no_more free;
          leaves =
              ap (λ k. left_by keystore (whole_call keystore (shared k) b.vault)) same_index
              ∙ some_eq
                  (sym (update_same b.left i _) ∙ ap (update b.left i _) (sym same_index) ∙ h);
        }
    | inr e ↦
        let apart : j ≢ i = (λ x. absurd (cc (e, (==_iff j i).1 x))) in
        let t = left-InTurn v b j l turn (sym (update_other b.left i _ j apart) ∙ h) in
        record {
          before = t.before;
          turns = t.turns;
          free = t.free;
          own = one_more i t.own free;
          behind = one_more i t.behind free;
          leaves = t.leaves;
        }
  ]

  pub InTurn-since :
      (v : FileKeyVault) (a b : Sequential R)
      → InTurn keystore shared v a
      → Turns a b
      → InTurn keystore shared v b
  InTurn-since v a b h no_more = h
  InTurn-since v a b h (one_more i {a = d} k free) = and_then i (InTurn-since v a d h k) free

  pub Turns-trans : (a b c : Sequential R) → Turns a b → Turns b c → Turns a c
  Turns-trans a b c h no_more = h
  Turns-trans a b c h (one_more i {a = d} k free) = one_more i (Turns-trans a b d h k) free

  Next-Turns : (a b : Sequential R) → Next keystore shared a b → Turns a b
  Next-Turns a b waits = no_more
  Next-Turns a b (calls_now i free) = one_more i no_more free

  -- What was left stays.
  pub left-Turns :
      (a b : Sequential R) (j : ℕ) (l : Left R) → Turns a b → a.left j ≡ some l → b.left j ≡ some l
  left-Turns a b j l no_more h = h
  left-Turns a b j l (one_more i {a = d} k free) h =
      let before = left-Turns a d j l k h in
      let apart : j ≢ i = (λ e. absurd (cc (ap d.left e, before, free))) in
      update_other d.left i _ j apart ∙ before

  -- A call that had left nothing has its turn since.
  pub record TurnSince (v : FileKeyVault) (a b : Sequential R) (j : ℕ) (l : Left R) : Type ℓ where
    pub before : Sequential R
    pub turns : InTurn keystore shared v before
    pub since : Turns a before
    pub leaves : left_by keystore (whole_call keystore (shared j) before.vault) ≡ l

  pub left-TurnSince :
      (v : FileKeyVault) (a b : Sequential R) (j : ℕ) (l : Left R)
      → InTurn keystore shared v a
      → Turns a b
      → a.left j ≡ none
      → b.left j ≡ some l
      → TurnSince v a b j l
  left-TurnSince v a b j l turn no_more n h = absurd (cc)
  left-TurnSince v a b j l turn (one_more i {a = d} k free) n h = elim (Bool-cases (j == i)) [
    | inl e ↦
        let same_index = (==_iff j i).0 e in
        record {
          before = d;
          turns = InTurn-since v a d turn k;
          since = k;
          leaves =
              ap (λ x. left_by keystore (whole_call keystore (shared x) d.vault)) same_index
              ∙ some_eq
                  (sym (update_same d.left i _) ∙ ap (update d.left i _) (sym same_index) ∙ h);
        }
    | inr e ↦
        let apart : j ≢ i = (λ x. absurd (cc (e, (==_iff j i).1 x))) in
        let t = left-TurnSince v a d j l turn k n (sym (update_other d.left i _ j apart) ∙ h) in
        record { before = t.before; turns = t.turns; since = t.since; leaves = t.leaves }
  ]

  -- The interleaved system goes on, and the sequential one with it.
  pub record OnwardTo (v : FileKeyVault) (a : Sequential R) (t : System R) : Type ℓ where
    pub state : Sequential R
    pub in_turn : InTurn keystore shared v state
    pub agrees : Agrees keystore shared t state
    pub extends : Turns a state

  pub Onward-OnwardTo :
      (v : FileKeyVault) (s t : System R) (a : Sequential R)
      → InTurn keystore shared v a
      → Agrees keystore shared s a
      → Onward keystore shared s t
      → OnwardTo v a t
  Onward-OnwardTo v s t a turn g here = record {
    state = a;
    in_turn = turn;
    agrees = g;
    extends = no_more;
  }
  Onward-OnwardTo v s t a turn g (and_on {t = u} o (pick i m)) =
      let b = Onward-OnwardTo v s u a turn g o in
      let (c, turns, agrees, next) =
        moves keystore shared v u b.state b.in_turn b.agrees i _ _ m b.agrees.guarded in
      record {
        state = c;
        in_turn = turns;
        agrees = agrees;
        extends = Turns-trans a b.state c b.extends (Next-Turns b.state c next);
      }
