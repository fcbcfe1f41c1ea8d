-- ===== src/Base/Results.antt =====
-- What a Go function with an error in its result returns, with `do` for `if err != nil { return }`.
use mathlib.Core.Path.{◌≡◌, refl}
use mathlib.Core.Bool.{Bool, true, false}
use mathlib.Core.Option.{some}
use mathlib.Core.Logic.{◌⊎◌, inl, inr}

pub data Result {ℓ κ} (E : Type ℓ) (A : Type κ) : Type (ℓ ⊔ κ) where
  ok : A → Result E A
  err : E → Result E A

module _ {ℓ κ μ} {E : Type ℓ} {A : Type κ} {B : Type μ} where
  infixl 5 ◌>>=◌
  abbrev pub ◌>>=◌ : Result E A → (A → Result E B) → Result E B
  err failure >>= next = err failure
  ok value >>= next = next value

-- Inversion of a successful bind, with a continuation for chains of binds: what it names is bound,
-- and stays small.
pub invert {ℓ κ μ ν} :
    {E : Type ℓ} {A : Type κ} {B : Type μ} {P : Type ν} (m : Result E A) (f : A → Result E B)
    {b : B}
    → (m >>= f) ≡ ok b
    → ((a : A) → m ≡ ok a → f a ≡ ok b → P)
    → P
invert (ok a) f h k = k a refl h
invert (err e) f h k = absurd (cc)

-- The same as a tuple.
pub inverted {ℓ κ μ} :
    {E : Type ℓ} {A : Type κ} {B : Type μ} (m : Result E A) (f : A → Result E B) {b : B}
    → (m >>= f) ≡ ok b
    → (a : A) × (m ≡ ok a) × (f a ≡ ok b)
inverted m f h = invert m f h (λ a first rest. (a, first, rest))

-- A failed bind failed in its first part or in its second.
pub invert_err {ℓ κ μ ν} :
    {E : Type ℓ} {A : Type κ} {B : Type μ} {P : Type ν} (m : Result E A) (f : A → Result E B)
    {e : E}
    → (m >>= f) ≡ err e
    → (m ≡ err e → P)
    → ((a : A) → m ≡ ok a → f a ≡ err e → P)
    → P
invert_err (ok a) f h j k = k a refl h
invert_err (err e') f h j k = j (cc)

pub ok-injective {ℓ κ} :
    {E : Type ℓ} {A : Type κ} {a b : A} → ◌≡◌ {A = Result E A} (ok a) (ok b) → a ≡ b
ok-injective e = cc

infixl 5 ◌>>◌
abbrev pub ◌>>◌ {ℓ κ} : {E : Type ℓ} {B : Type κ} → Result E (Unit {0}) → Result E B → Result E B
m >> k = m >>= λ _. k

-- `if test { return nil, e }`
abbrev pub reject {ℓ} : {E : Type ℓ} → Bool → E → Result E (Unit {0})
reject true e = err e
reject false e = ok tt

pub Result-cases {ℓ κ} :
    {E : Type ℓ} {A : Type κ} (r : Result E A) → ((a : A) × (r ≡ ok a)) ⊎ ((e : E) × (r ≡ err e))
Result-cases (ok a) = inl (a, refl)
Result-cases (err e) = inr (e, refl)

pub some_eq {ℓ} : {A : Type ℓ} {a b : A} → some a ≡ some b → a ≡ b
some_eq e = cc
