-- ===== src/Base/Texts.antt =====
-- Go strings and byte slices: a list of bytes. A literal of the source is `text "…"`.
use Prim.Native.Nat.{ℕ, ◌<◌}
use Prim.Native.Char.{code}
use Prim.Native.String.{String}
use mathlib.Core.Path.{◌≡◌, refl}
use mathlib.Core.Logic.{◌↔◌, ◌≢◌, inl, inr}
use mathlib.Core.Bool.{Bool, true, false, ◌&&◌}
use mathlib.Core.Option.{Option, none, some}
use mathlib.Core.List.{List, [], ◌∷◌, ◌++◌}
use native.Mathlib.Omega.{arith}
use blockchain_ai_tools.Base.Tests.{◌==◌, Bool-cases, if◌then◌else◌}

abbrev pub Bytes : Type 0
Bytes = List ℕ

-- The code points of a text, which are its bytes: every literal of the source that is used is ASCII.
unfoldable pub text : String → Bytes
text String.[] = []
text (String.◌∷◌ c s) = code c ∷ text s

-- s == t
unfoldable pub same : Bytes → Bytes → Bool
same [] [] = true
same [] (_ ∷ _) = false
same (_ ∷ _) [] = false
same (b ∷ s) (c ∷ t) = b == c && same s t

pub same_refl : (s : Bytes) → same s s ≡ true
unfolding same
same_refl [] = refl
same_refl (b ∷ s) = ground (arith, same_refl s)

pub eq_of_same : (s t : Bytes) → same s t ≡ true → s ≡ t
unfolding same
eq_of_same [] [] h = refl
eq_of_same [] (_ ∷ _) h = cc
eq_of_same (_ ∷ _) [] h = cc
eq_of_same (b ∷ s) (c ∷ t) h = ground (arith, eq_of_same s t)

pub same_iff : (s t : Bytes) → (same s t ≡ true) ↔ (s ≡ t)
same_iff s t = (eq_of_same s t, λ e. rw e (same_refl t))

pub ne_of_same : (s t : Bytes) → same s t ≡ false → s ≢ t
ne_of_same s t h e = cc (h, same_refl t, e)

-- s == ""
abbrev pub is_empty : Bytes → Bool
is_empty [] = true
is_empty (_ ∷ _) = false

pub is_empty_iff : (s : Bytes) → (is_empty s ≡ true) ↔ (s ≡ [])
is_empty_iff [] = (λ h. refl, λ h. refl)
is_empty_iff (c ∷ s) = (λ h. cc, λ h. cc)

pub not_empty : (s : Bytes) → s ≢ [] → is_empty s ≡ false
not_empty [] h = absurd (h refl)
not_empty (c ∷ s) h = refl

pub not_same : (s t : Bytes) → s ≢ t → same s t ≡ false
not_same s t h = elim (Bool-cases (same s t)) [ inl e ↦ absurd (h (eq_of_same s t e)) | inr e ↦ e ]

-- strings.CutPrefix: the rest behind the prefix, or `none`.
unfoldable pub cut_prefix : Bytes → Bytes → Option Bytes
cut_prefix s [] = some s
cut_prefix [] (_ ∷ _) = none
cut_prefix (b ∷ s) (c ∷ p) = if b == c then cut_prefix s p else none

pub cut_prefix-append : (p s : Bytes) → cut_prefix (p ++ s) p ≡ some s
unfolding cut_prefix
cut_prefix-append [] s = refl
cut_prefix-append (c ∷ p) s = ground (arith, cut_prefix-append p s)

pub append_of_cut_prefix : (s p r : Bytes) → cut_prefix s p ≡ some r → s ≡ p ++ r
unfolding cut_prefix
append_of_cut_prefix s [] r h = ground arith
append_of_cut_prefix [] (_ ∷ _) r h = cc
append_of_cut_prefix (b ∷ s) (c ∷ p) r h = ground (arith, append_of_cut_prefix s p r)

-- Values that fit a byte.
abbrev pub IsByte : ℕ → Type 0
IsByte b = b < 256
