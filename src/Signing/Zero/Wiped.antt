-- ===== src/Signing/Zero/Wiped.antt =====
-- What ZeroBytes and ZeroBigInt leave of a secret.
use blockchain_ai_tools.Base.{
  ℕ, zero, suc, length, take, drop, List, [], ◌∷◌, some, ◌≡◌, refl, ap, All,
}
use blockchain_ai_tools.Signing.Zero.{Slice, cleared, zero_bytes, Magnitude, zero_big_int}

abbrev pub IsZero : ℕ → Type 0
IsZero b = b ≡ 0

pub take-cleared : (n : ℕ) (xs : List ℕ) → All IsZero (take n (cleared n xs))
take-cleared zero xs = tt
take-cleared (suc n) [] = tt
take-cleared (suc n) (x ∷ xs) = (refl, take-cleared n xs)

pub drop-cleared : (n : ℕ) (xs : List ℕ) → drop n (cleared n xs) ≡ drop n xs
drop-cleared zero xs = refl
drop-cleared (suc n) [] = refl
drop-cleared (suc n) (x ∷ xs) = drop-cleared n xs

pub length-cleared : (n : ℕ) (xs : List ℕ) → length (cleared n xs) ≡ length xs
length-cleared zero xs = refl
length-cleared (suc n) [] = refl
length-cleared (suc n) (x ∷ xs) = ap suc (length-cleared n xs)

-- The bytes that a slice shows are overwritten in place: the slice shows as many, all of them are
-- zero, and what is behind them is as it was.
pub record IsWiped (before after : Slice) : Type 0 where
  pub same_len : after.len ≡ before.len
  pub same_size : length after.backing ≡ length before.backing
  pub zeroed : All IsZero (take before.len after.backing)
  pub rest : drop before.len after.backing ≡ drop before.len before.backing

pub zero_bytes-IsWiped : (b : Slice) → IsWiped b (zero_bytes b)
unfolding zero_bytes
zero_bytes-IsWiped b = record {
  same_len = refl;
  same_size = length-cleared b.len b.backing;
  zeroed = take-cleared b.len b.backing;
  rest = drop-cleared b.len b.backing;
}

-- The words that a number took are overwritten in place, and it is zero.
pub record IsErased (before after : Magnitude) : Type 0 where
  pub none_used : after.used ≡ 0
  pub same_size : length after.words ≡ length before.words
  pub zeroed : All IsZero (take before.used after.words)
  pub rest : drop before.used after.words ≡ drop before.used before.words

pub zero_big_int-IsErased :
    (n : Magnitude) → (s : Magnitude) × (zero_big_int (some n) ≡ some s) × IsErased n s
unfolding zero_big_int
zero_big_int-IsErased n = (
  record { words = cleared n.used n.words; used = 0 },
  refl,
  record {
    none_used = refl;
    same_size = length-cleared n.used n.words;
    zeroed = take-cleared n.used n.words;
    rest = drop-cleared n.used n.words;
  },
)
