-- ===== src/Signing/Vault/Sharing/Moves.antt =====
-- The moves that the calls on a shared vault have before them.
use blockchain_ai_tools.Base.{
  ℕ, zero, suc, ◌≤◌, ◌<◌, some, Option-cases, Result-cases, ◌≡◌, ◌⊎◌, inl, inr, refl, arith,
}
use blockchain_ai_tools.Signing.Zero.{shown}
use blockchain_ai_tools.Signing.Keystore.{FileKeyVault}
use blockchain_ai_tools.Signing.Vault.{Keystore, read_password_file}
use blockchain_ai_tools.Signing.Vault.Outcomes.{decrypted_cases}
use blockchain_ai_tools.Signing.Vault.Sharing.{
  Call, Place, waiting, holding, reading, decrypting, discovering, running, zeroing_scalar,
  zeroing_password, releasing, returned, Move, cancel, enter, give_up, go_on, fail_to_read, read,
  fail_to_decrypt, panic_in_decrypt, decrypt, discover_address, call_fn, wipe_scalar, wipe_password,
  let_go,
}
use blockchain_ai_tools.Signing.Vault.Sharing.Holder.{
  Left, left_at, Outside, at_waiting, at_returned,
}

-- How many moves a call has before it at most.
abbrev pub moves_left {ℓ} : {R : Type ℓ} → Place R → ℕ
moves_left waiting = 9
moves_left holding = 8
moves_left reading = 7
moves_left (decrypting _) = 6
moves_left (discovering _ _) = 5
moves_left (running _ _) = 4
moves_left (zeroing_scalar _ _ _) = 3
moves_left (zeroing_password _ _ _) = 2
moves_left (releasing _ _ _) = 1
moves_left (returned _ _ _) = 0

ℕ-cases : (n : ℕ) → (n ≡ 0) ⊎ (0 < n)
ℕ-cases zero = inl refl
ℕ-cases (suc n) = inr (omega arith)

has_left {ℓ} : {R : Type ℓ} (p : Place R) → moves_left p ≡ 0 → (l : Left R) × (left_at p ≡ some l)
has_left (returned o a s) h = (_, refl)
has_left p h = absurd (omega (arith, h))

-- Each of the calls below a bound has left what it leaves.
pub data EachReturned {ℓ} {R : Type ℓ} (f : ℕ → Place R) : ℕ → Type ℓ where
  no_call : EachReturned f 0
  one_returned :
      {n : ℕ} → EachReturned f n → (l : Left R) → left_at (f n) ≡ some l → EachReturned f (suc n)

pub find_unreturned {ℓ} :
    {R : Type ℓ} (f : ℕ → Place R) (n : ℕ)
    → EachReturned f n ⊎ ((j : ℕ) × (j < n) × (0 < moves_left (f j)))
find_unreturned f zero = inl no_call
find_unreturned f (suc n) = elim (ℕ-cases (moves_left (f n))) [
  | inr h ↦ inr (n, omega arith, h)
  | inl e ↦ elim (find_unreturned f n) [
    | inl all ↦ let (l, left) = has_left (f n) e in inl (one_returned all l left)
    | inr (j, below, h) ↦ inr (j, omega (arith, below), h)
  ]
]

pub Outside-waiting {ℓ} : {R : Type ℓ} (p : Place R) → Outside p → 0 < moves_left p → p ≡ waiting
Outside-waiting p at_waiting h = refl
Outside-waiting p at_returned h = absurd (omega (arith, h))

-- Behind the select and before the return.
pub within {ℓ} :
    {R : Type ℓ} (p : Place R) → ¬ (Outside p) → (0 < moves_left p) × (moves_left p < 9)
within waiting h = absurd (h at_waiting)
within (returned o a s) h = absurd (h at_returned)
within holding h = (omega arith, omega arith)
within reading h = (omega arith, omega arith)
within (decrypting _) h = (omega arith, omega arith)
within (discovering _ _) h = (omega arith, omega arith)
within (running _ _) h = (omega arith, omega arith)
within (zeroing_scalar _ _ _) h = (omega arith, omega arith)
within (zeroing_password _ _ _) h = (omega arith, omega arith)
within (releasing _ _ _) h = (omega arith, omega arith)

pub above_or_below : (n i : ℕ) → (n ≤ i) ⊎ (i < n)
above_or_below zero i = inl (omega arith)
above_or_below (suc n) zero = inr (omega arith)
above_or_below (suc n) (suc i) = elim (above_or_below n i) [
  | inl h ↦ inl (omega (arith, h))
  | inr h ↦ inr (omega (arith, h))
]

module _ {ℓ} {R : Type ℓ} (keystore : Keystore) where
  -- A call that holds the semaphore is never stuck.
  pub can_move :
      (c : Call R) (v : FileKeyVault) (p : Place R)
      → 0 < moves_left p
      → moves_left p < 9
      → 0 < v.sem
      → (v' : FileKeyVault) × (p' : Place R) × Move keystore c v p v' p'
  can_move c v waiting h k s = absurd (omega (arith, k))
  can_move c v holding h k s = elim (Option-cases c.ctx.when_acquired) [
    | inl e ↦ (_, _, go_on e)
    | inr (x, e) ↦ (_, _, give_up e s)
  ]
  can_move c v reading h k s = elim (Result-cases (read_password_file v.password_path c.read_fn)) [
    | inl (password, e) ↦ (_, _, read e)
    | inr (x, e) ↦ (_, _, fail_to_read e)
  ]
  can_move c v (decrypting password) h k s =
      elim (decrypted_cases (keystore.decrypt_key v.keystore_json (shown password))) [
        | inl e ↦ (_, _, panic_in_decrypt e)
        | inr (inl (key, e)) ↦ (_, _, decrypt e)
        | inr (inr (x, e)) ↦ (_, _, fail_to_decrypt e)
      ]
  can_move c v (discovering password key) h k s = (_, _, discover_address)
  can_move c v (running password key) h k s = (_, _, call_fn)
  can_move c v (zeroing_scalar o password key) h k s = (_, _, wipe_scalar)
  can_move c v (zeroing_password o password x) h k s = (_, _, wipe_password)
  can_move c v (releasing o password x) h k s = (_, _, let_go s)
  can_move c v (returned o password x) h k s = absurd (omega (arith, h))

  -- Every move takes its call on.
  pub Move-moves_left :
      (c : Call R) (v v' : FileKeyVault) (p p' : Place R)
      → Move keystore c v p v' p'
      → moves_left p' < moves_left p
  Move-moves_left c v v' p p' (cancel e) = omega arith
  Move-moves_left c v v' p p' (enter e h) = omega arith
  Move-moves_left c v v' p p' (give_up e h) = omega arith
  Move-moves_left c v v' p p' (go_on e) = omega arith
  Move-moves_left c v v' p p' (fail_to_read e) = omega arith
  Move-moves_left c v v' p p' (read e) = omega arith
  Move-moves_left c v v' p p' (fail_to_decrypt e) = omega arith
  Move-moves_left c v v' p p' (panic_in_decrypt e) = omega arith
  Move-moves_left c v v' p p' (decrypt e) = omega arith
  Move-moves_left c v v' p p' discover_address = omega arith
  Move-moves_left c v v' p p' call_fn = omega arith
  Move-moves_left c v v' p p' wipe_scalar = omega arith
  Move-moves_left c v v' p p' wipe_password = omega arith
  Move-moves_left c v v' p p' (let_go h) = omega arith
