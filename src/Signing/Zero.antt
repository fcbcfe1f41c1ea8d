-- ===== src/Signing/Zero.antt =====
-- zero.go: the buffers that hold secrets, and how they are overwritten.
pub mod Wiped
use blockchain_ai_tools.Base.{
  ℕ, zero, suc, ◌+◌, ◌*◌, ◌^◌, Bytes, take, List, [], ◌∷◌, Option, none, some,
}

-- A slice is a backing array and how much of it the slice shows.
pub record Slice : Type 0 where
  pub backing : Bytes
  pub len : ℕ

abbrev pub shown : Slice → Bytes
shown b = take b.len b.backing

-- clear(b)
abbrev pub cleared : ℕ → List ℕ → List ℕ
cleared zero xs = xs
cleared (suc n) [] = []
cleared (suc n) (x ∷ xs) = 0 ∷ cleared n xs

unfoldable pub zero_bytes : Slice → Slice
zero_bytes b = record b { backing = cleared b.len b.backing }

-- A big.Int's magnitude: 64-bit words, the least significant first.
pub record Magnitude : Type 0 where
  pub words : List ℕ
  pub used : ℕ

pub magnitude_of : List ℕ → ℕ
magnitude_of [] = 0
magnitude_of (w ∷ ws) = w + 2 ^ 64 * magnitude_of ws

abbrev pub value_of : Magnitude → ℕ
value_of n = magnitude_of (take n.used n.words)

unfoldable pub zero_big_int : Option Magnitude → Option Magnitude
zero_big_int none = none
zero_big_int (some n) = some (record { words = cleared n.used n.words; used = 0 })
