-- ===== src/Signing/Vault/Sharing/Updates.antt =====
-- A family of items of which one is updated.
use blockchain_ai_tools.Base.{
  ℕ, zero, suc, ◌+◌, ◌*◌, ◌≤◌, ◌<◌, ap, arith, ◌==◌, ==_iff, Bool-cases, ◌≡◌, ◌≢◌, inl, inr, refl,
  sym, subst,
}
use blockchain_ai_tools.Signing.Vault.Sharing.{update}

pub subst2 {ℓ κ μ} :
    {A : Type ℓ} {B : Type κ} (P : A → B → Type μ) {a b : A} {c d : B}
    → a ≡ b
    → c ≡ d
    → P a c
    → P b d
subst2 P {b} {c} e f h = subst (P b) f (subst (λ x. P x c) e h)

pub update_same {ℓ} : {A : Type ℓ} (f : ℕ → A) (i : ℕ) (a : A) → update f i a i ≡ a
update_same f i a = let e = (==_iff i i).1 refl in rw e refl

pub update_other {ℓ} :
    {A : Type ℓ} (f : ℕ → A) (i : ℕ) (a : A) (j : ℕ) → j ≢ i → update f i a j ≡ f j
update_other f i a j n = elim (Bool-cases (j == i)) [
  | inl e ↦ absurd (n ((==_iff j i).0 e))
  | inr e ↦ rw e refl
]

-- What holds of a family holds of an update of it, if it holds of the new item, and elsewhere.
module _ {ℓ κ} {A : Type ℓ} (P : ℕ → A → Type κ) where
  pub update_keeps :
      (f : ℕ → A) (i : ℕ) (a : A)
      → P i a
      → ((j : ℕ) → j ≢ i → P j (f j))
      → (j : ℕ) → P j (update f i a j)
  update_keeps f i a h k j = elim (Bool-cases (j == i)) [
    | inl e ↦
        let same_index = (==_iff j i).0 e in
        subst (λ x. P x (update f i a x)) (sym same_index) (subst (P i) (sym (update_same f i a)) h)
    | inr e ↦
        let other : j ≢ i = (λ x. absurd (cc (e, (==_iff j i).1 x))) in
        subst (P j) (sym (update_other f i a j other)) (k j other)
  ]

-- A measure of the items below a bound.
module _ {ℓ} {A : Type ℓ} (measure : A → ℕ) where
  unfoldable pub total : (ℕ → A) → ℕ → ℕ
  total f zero = 0
  total f (suc n) = total f n + measure (f n)

  pub total-const : (a : A) (n : ℕ) → total (λ _. a) n ≡ measure a * n
  unfolding total
  total-const a zero = omega arith
  total-const a (suc n) = let rest = total-const a n in ground arith

  total-update_above :
      (f : ℕ → A) (i : ℕ) (p : A) (n : ℕ) → n ≤ i → total (update f i p) n ≡ total f n
  unfolding total
  total-update_above f i p zero h = refl
  total-update_above f i p (suc n) h =
      let apart : n ≢ i = (λ e. absurd (omega (arith, e, h))) in
      let same_item = ap measure (update_other f i p n apart) in
      let rest = total-update_above f i p n (omega (arith, h)) in omega (arith, same_item, rest)

  pub total-update :
      (f : ℕ → A) (i : ℕ) (p : A) (n : ℕ)
      → i < n
      → total (update f i p) n + measure (f i) ≡ total f n + measure p
  unfolding total
  total-update f i p zero h = absurd (omega (arith, h))
  total-update f i p (suc n) h = elim (Bool-cases (n == i)) [
    | inl e ↦
        let same_index = (==_iff n i).0 e in
        let here = ap measure (update_same f i p) in
        let there = ap (λ j. measure (update f i p j)) same_index in
        let old = ap (λ j. measure (f j)) same_index in
        let rest = total-update_above f i p n (omega (arith, same_index)) in
        omega (arith, here, there, old, rest)
    | inr e ↦
        let apart : n ≢ i = (λ x. absurd (cc (e, (==_iff n i).1 x))) in
        let same_item = ap measure (update_other f i p n apart) in
        let rest = total-update f i p n (omega (arith, h, apart)) in omega (arith, same_item, rest)
  ]
