-- ===== src/MidLevel/Wire/Bytes.antt =====
-- Little-endian numbers (mid_level/ipc.rs): what is written is read back.
use core_shift.Base.{ℕ, zero, suc, ◌*◌, ◌/◌, ◌^◌, ◌<◌, ◌≡◌, refl, length, arith}
use native.Mathlib.Nat.{pow-succ'}
use core_shift.MidLevel.Wire.{to_le_bytes, from_le_bytes}

-- A number that fits into `count` bytes is read back from its little-endian form.
pub from_le_bytes-to_le_bytes :
    (count n : ℕ) → n < 256 ^ count → from_le_bytes (to_le_bytes count n) ≡ n
unfolding from_le_bytes to_le_bytes
from_le_bytes-to_le_bytes zero n h = omega arith
from_le_bytes-to_le_bytes (suc count) n h =
    let p : 256 ^ suc count ≡ 256 * 256 ^ count = pow-succ' 256 count in
    omega (arith, from_le_bytes-to_le_bytes count (n / 256) (omega arith))

pub length-to_le_bytes : (count n : ℕ) → length (to_le_bytes count n) ≡ count
unfolding to_le_bytes
length-to_le_bytes zero n = refl
length-to_le_bytes (suc count) n = omega (arith, length-to_le_bytes count (n / 256))
