-- ===== src/Base/Int.antt =====
-- Signed integers over the native numbers, and the truncating cast to `i32`.
use Prim.Native.Nat.{ℕ, ◌-◌, ◌%◌, ◌^◌, ◌≤◌, ◌<◌, suc}
use mathlib.Core.Path.{◌≡◌}
use mathlib.Core.Bool.{Bool, true, false}
use native.Mathlib.Omega.{arith}
use core_shift.Base.Tests.{ltb, leb, if◌then◌else◌}

-- `negsuc n` is -(n + 1).
pub data ℤ : Type 0 where
  pos : ℕ → ℤ
  negsuc : ℕ → ℤ

-- a < b on signed integers.
abbrev pub ltb_ℤ : ℤ → ℤ → Bool
ltb_ℤ (pos a) (pos b) = ltb a b
ltb_ℤ (pos a) (negsuc b) = false
ltb_ℤ (negsuc a) (pos b) = true
ltb_ℤ (negsuc a) (negsuc b) = ltb b a

abbrev pub is_minus_one : ℤ → Bool
is_minus_one (pos a) = false
is_minus_one (negsuc a) = leb a 0

-- `-n`, as an `i32`.
abbrev pub neg : ℤ → ℤ
neg (pos n) = if ltb 0 n then negsuc (n - 1) else pos 0
neg (negsuc n) = pos (suc n)

-- `n as i32` for an unsigned `n`: the low 32 bits, read as two's complement.
unfoldable pub as_i32 : ℕ → ℤ
as_i32 n = let w = n % 2 ^ 32 in if ltb w (2 ^ 31) then pos w else negsuc (2 ^ 32 - w - 1)

pub as_i32_small : (n : ℕ) → n < 2 ^ 31 → as_i32 n ≡ pos n
unfolding as_i32
as_i32_small n h = ground arith

-- From 2^31 up to 2^32 the cast is negative.
pub as_i32_wrapped : (n : ℕ) → 2 ^ 31 ≤ n → n < 2 ^ 32 → as_i32 n ≡ negsuc (2 ^ 32 - n - 1)
unfolding as_i32
as_i32_wrapped n h l = ground arith
