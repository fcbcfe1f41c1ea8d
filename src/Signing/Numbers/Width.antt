-- ===== src/Signing/Numbers/Width.antt =====
-- The tests on the size of a number.
use blockchain_ai_tools.Base.{ℕ, zero, suc, ◌/◌, ◌^◌, ◌≤◌, ◌<◌, ◌↔◌, arith}
use blockchain_ai_tools.Signing.Numbers.{bits, bit_len}
use native.Mathlib.Nat.{two-pow-succ, one-le-pow}

bits-le : (k f n : ℕ) → n ≤ f → bits f n ≤ k → n < 2 ^ k
unfolding bits
bits-le k zero n fits h = omega (arith, one-le-pow k 2 (omega arith))
bits-le k (suc f) zero fits h = one-le-pow k 2 (omega arith)
bits-le zero (suc f) (suc n) fits h = ground arith
bits-le (suc k) (suc f) (suc n) fits h = ground (arith, bits-le k f (suc n / 2), two-pow-succ k)

bits_of_lt : (k f n : ℕ) → n < 2 ^ k → bits f n ≤ k
unfolding bits
bits_of_lt k zero n h = omega arith
bits_of_lt k (suc f) zero h = omega arith
bits_of_lt zero (suc f) (suc n) h = ground arith
bits_of_lt (suc k) (suc f) (suc n) h = ground (arith, bits_of_lt k f (suc n / 2), two-pow-succ k)

-- The fuel of `bit_len` suffices: a number has at most k bits exactly when it is below 2 ^ k.
pub bit_len_iff : (k n : ℕ) → (bit_len n ≤ k) ↔ (n < 2 ^ k)
unfolding bit_len
bit_len_iff k n = (bits-le k n n (omega arith), bits_of_lt k n n)
