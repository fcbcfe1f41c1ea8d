-- ===== src/Signing/Service/Places.antt =====
-- Where the turns of two calls stand in an order of whole calls of WithSigningKey.
use blockchain_ai_tools.Base.{
  ℕ, List, Option, none, some, Result, ok, ◌≡◌, ◌⊎◌, inl, inr, refl, sym, ap, ◌∙◌,
}
use blockchain_ai_tools.Signing.Errors.{Error}
use blockchain_ai_tools.Signing.Address.{Common}
use blockchain_ai_tools.Signing.Request.{SignResult}
use blockchain_ai_tools.Signing.Validate.{ParsedTx, validate}
use blockchain_ai_tools.Signing.Types.{Types}
use blockchain_ai_tools.Signing.Build.{build_tx}
use blockchain_ai_tools.Signing.Keystore.{FileKeyVault}
use blockchain_ai_tools.Signing.Vault.{Keystore, Outcome}
use blockchain_ai_tools.Signing.Vault.Sharing.{Place}
use blockchain_ai_tools.Signing.Vault.Sharing.Holder.{
  Left, Sequential, left_at, whole_call, left_by,
}
use blockchain_ai_tools.Signing.Vault.Sharing.Refines.{InTurn}
use blockchain_ai_tools.Signing.Vault.Sharing.Turns.{Turns, no_more, left-InTurn, left-TurnSince}
use blockchain_ai_tools.Signing.Service.{Asking, Stage, received, answered, audited}
use blockchain_ai_tools.Signing.Service.Simulates.{
  call_of, call_of_built, Fits, is_received, is_in_vault, is_refused, is_unbuilt, is_answered,
  calls,
}
use blockchain_ai_tools.Signing.Service.Alone.{
  alone, Unmade, refused_alone, unbuilt_alone, built_alone,
}

module _ {Transaction Signer : Type 0} (types : Types Transaction Signer) (common : Common)
    (guard : Option ℕ) (keystore : Keystore) (asked : ℕ → Asking) where
  -- What the vault's call of `i` left, where its turn came behind `b`.
  abbrev pub left_behind : ℕ → Sequential SignResult → Left SignResult
  left_behind i b =
      left_by keystore (whole_call keystore (calls types common guard keystore asked i) b.vault)

  pub record First (v : FileKeyVault) (a : Sequential SignResult) (i : ℕ)
      (r : Result Error SignResult) : Type 0 where
    pub before : Sequential SignResult
    pub behind : Turns keystore (calls types common guard keystore asked) before a
    pub answers : (alone types common guard keystore (asked i) before.vault).0 ≡ r
    pub made :
        Unmade types common guard keystore (asked i) ⊎ (a.left i ≡ some (left_behind i before))

  pub record Second (v : FileKeyVault) (a : Sequential SignResult) (j : ℕ)
      (q : Result Error SignResult) : Type 0 where
    pub before : Sequential SignResult
    pub in_turn : InTurn keystore (calls types common guard keystore asked) v before
    pub since : Turns keystore (calls types common guard keystore asked) a before
    pub answers : (alone types common guard keystore (asked j) before.vault).0 ≡ q

  answered_is :
      {r q : Result Error SignResult}
      → (◌≡◌ {A = Stage Transaction Signer} (answered r) (answered q))
      → r ≡ q
  answered_is h = cc

  -- The outcome that a call left is what it answers alone.
  as_left :
      (a : Asking) (i : ℕ) (p : ParsedTx) (built : Transaction × Signer) (o : Outcome SignResult)
      (w b : FileKeyVault) (log : List _) (l : Left SignResult)
      → asked i ≡ a
      → validate common a.req guard ≡ ok p
      → build_tx types p ≡ some built
      → left_by keystore (whole_call keystore (calls types common guard keystore asked i) b) ≡ l
      → l.outcome ≡ o
      → (alone types common guard keystore a b).0
        ≡ (audited types common guard keystore a p o w log).0
  as_left a i p built o w b log l is_asked e n left is_o =
      let same_call =
        ap (call_of types common guard keystore) is_asked
        ∙ call_of_built types common guard keystore a p built e n in
      built_alone types common guard keystore a b w log p built e n
      ∙ ap (λ x. (audited types common guard keystore a p x w log).0)
          (ap (λ c. (whole_call keystore c b).0) (sym same_call) ∙ ap (λ x. x.outcome) left ∙ is_o)

  pub Fits-First :
      (v : FileKeyVault) (a : Sequential SignResult) (i : ℕ) (r : Result Error SignResult)
      (st : Stage Transaction Signer) (x : Place SignResult)
      → InTurn keystore (calls types common guard keystore asked) v a
      → Fits types common guard keystore (asked i) st x
      → a.left i ≡ left_at x
      → st ≡ answered r
      → First v a i r
  Fits-First v a i r st x turns (is_refused {t} e) h is_r = record {
    before = a;
    behind = no_more;
    answers = refused_alone types common guard keystore (asked i) a.vault t e ∙ answered_is is_r;
    made = inl (λ (p, built, f, _). absurd (cc (e, f)));
  }
  Fits-First v a i r st x turns (is_unbuilt {p} w log e n) h is_r = record {
    before = a;
    behind = no_more;
    answers =
        unbuilt_alone types common guard keystore (asked i) a.vault w log p e n ∙ answered_is is_r;
    made = inl (λ (p', built, f, g). absurd (cc (e, f, n, g)));
  }
  Fits-First v a i r st x turns (is_answered {p} {built} {o} w log e n) h is_r =
      let t = left-InTurn keystore (calls types common guard keystore asked) v a i _ turns h in
      record {
        before = t.before;
        behind = t.behind;
        answers =
            as_left (asked i) i p built o w t.before.vault log _ refl e n t.leaves refl
            ∙ answered_is is_r;
        made = inr (h ∙ ap some (sym t.leaves));
      }
  Fits-First v a i r st x turns f h is_r = absurd (cc)

  pub Fits-Second :
      (v : FileKeyVault) (a b : Sequential SignResult) (j : ℕ) (q : Result Error SignResult)
      (st : Stage Transaction Signer) (x : Place SignResult)
      → InTurn keystore (calls types common guard keystore asked) v a
      → InTurn keystore (calls types common guard keystore asked) v b
      → Turns keystore (calls types common guard keystore asked) a b
      → a.left j ≡ none
      → Fits types common guard keystore (asked j) st x
      → b.left j ≡ left_at x
      → st ≡ answered q
      → Second v a j q
  Fits-Second v a b j q st x turns in_turn since free (is_refused {t} e) h is_q = record {
    before = b;
    in_turn = in_turn;
    since = since;
    answers = refused_alone types common guard keystore (asked j) b.vault t e ∙ answered_is is_q;
  }
  Fits-Second v a b j q st x turns in_turn since free (is_unbuilt {p} w log e n) h is_q = record {
    before = b;
    in_turn = in_turn;
    since = since;
    answers =
        unbuilt_alone types common guard keystore (asked j) b.vault w log p e n ∙ answered_is is_q;
  }
  Fits-Second v a b j q st x turns in_turn since free (is_answered {p} {built} {o} w log e n) h
        is_q =
      let t =
        left-TurnSince keystore (calls types common guard keystore asked) v a b j _ turns since free
          h in
      record {
        before = t.before;
        in_turn = t.turns;
        since = t.since;
        answers =
            as_left (asked j) j p built o w t.before.vault log _ refl e n t.leaves refl
            ∙ answered_is is_q;
      }
  Fits-Second v a b j q st x turns in_turn since free f h is_q = absurd (cc)

  pub received-free :
      (a : Asking) (st : Stage Transaction Signer) (x : Place SignResult)
      → Fits types common guard keystore a st x
      → st ≡ received
      → left_at x ≡ none
  received-free a st x is_received e = refl
  received-free a st x (is_refused _) e = refl
  received-free a st x (is_unbuilt _ _ _ _) e = refl
  received-free a st x (is_in_vault _ _) e = absurd (cc)
  received-free a st x (is_answered _ _ _ _) e = absurd (cc)
