-- ===== src/Signing/Service/RealTime.antt =====
-- Calls of SignTransaction that do not overlap keep their order.
use blockchain_ai_tools.Base.{ℕ, Option, some, Result, ◌≡◌, ◌⊎◌, inl, inr, ◌∙◌}
use blockchain_ai_tools.Signing.Errors.{Error}
use blockchain_ai_tools.Signing.Address.{Common}
use blockchain_ai_tools.Signing.Request.{SignResult}
use blockchain_ai_tools.Signing.Types.{Types}
use blockchain_ai_tools.Signing.Keystore.{FileKeyVault}
use blockchain_ai_tools.Signing.Vault.{Keystore}
use blockchain_ai_tools.Signing.Vault.Sharing.Holder.{Sequential}
use blockchain_ai_tools.Signing.Vault.Sharing.Refines.{InTurn, Reach-Matched}
use blockchain_ai_tools.Signing.Vault.Sharing.Turns.{
  Turns, Turns-trans, left-Turns, Onward-OnwardTo,
}
use blockchain_ai_tools.Signing.Service.{Asking, received, answered, Service, Reach}
use blockchain_ai_tools.Signing.Service.Simulates.{calls, Reach-Simulates}
use blockchain_ai_tools.Signing.Service.Alone.{alone, Unmade}
use blockchain_ai_tools.Signing.Service.Later.{Later, Later-GoesOn}
use blockchain_ai_tools.Signing.Service.Places.{left_behind, Fits-First, Fits-Second, received-free}

module _ {Transaction Signer : Type 0} (types : Types Transaction Signer) (common : Common)
    (guard : Option ℕ) (keystore : Keystore) (asked : ℕ → Asking) where
  -- The turns of two calls, of which the second comes behind the first and sees what it left.
  pub record InOrder (v : FileKeyVault) (i j : ℕ) (r q : Result Error SignResult) : Type 0 where
    pub first : Sequential SignResult
    pub second : Sequential SignResult
    pub in_turn : InTurn keystore (calls types common guard keystore asked) v second
    pub ordered : Turns keystore (calls types common guard keystore asked) first second
    pub first_answers : (alone types common guard keystore (asked i) first.vault).0 ≡ r
    pub second_answers : (alone types common guard keystore (asked j) second.vault).0 ≡ q
    pub seen :
        Unmade types common guard keystore (asked i)
        ⊎ (second.left i ≡ some (left_behind types common guard keystore asked i first))

  -- On a vault that starts with a free semaphore, however the calls of SignTransaction interleave:
  -- where the call i has answered before the call j begins, there is an order of whole calls of
  -- WithSigningKey in which the turn of i is not behind that of j, each of them answers what it
  -- answers alone at its turn, and the call of i, if it came to the vault, is over at the turn of j.
  pub answers-InOrder :
      (v : FileKeyVault)
      → v.sem ≡ 0
      → (s t : Service Transaction Signer) → Reach types common guard keystore asked v s
      → Later types common guard keystore asked s t
      → (i j : ℕ) (r q : Result Error SignResult) → s.stage i ≡ answered r
      → s.stage j ≡ received
      → t.stage j ≡ answered q
      → InOrder v i j r q
  answers-InOrder v idle s t reached later i j r q done fresh replied =
      let shared = calls types common guard keystore asked in
      let m = Reach-Simulates types common guard keystore asked v s reached in
      let (a, turns, agrees) = Reach-Matched keystore shared v idle m.system m.reached in
      let g = Later-GoesOn types common guard keystore asked v s t m later in
      let n = g.next in
      let o = Onward-OnwardTo keystore shared v m.system n.system a turns agrees g.onward in
      let f =
        Fits-First types common guard keystore asked v a i r (s.stage i) (m.system.place i) turns
          (m.fits i) (agrees.lefts i) done in
      let free =
        agrees.lefts j
        ∙ received-free types common guard keystore asked (asked j) (s.stage j) (m.system.place j)
            (m.fits j) fresh in
      let k =
        Fits-Second types common guard keystore asked v a o.state j q (t.stage j) (n.system.place j)
          turns o.in_turn o.extends free (n.fits j) (o.agrees.lefts j) replied in
      record {
        first = f.before;
        second = k.before;
        in_turn = k.in_turn;
        ordered = Turns-trans keystore shared f.before a k.before f.behind k.since;
        first_answers = f.answers;
        second_answers = k.answers;
        seen = elim f.made [
          | inl unmade ↦ inl unmade
          | inr left ↦ inr (left-Turns keystore shared a k.before i _ k.since left)
        ];
      }
