-- ===== src/LowLevel/WaitLoop/Poll.antt =====
-- How long wait_loop (low_level/spawn/mod.rs) polls.
use core_shift.Base.{
  ℕ, ◌+◌, ◌-◌, ◌*◌, ◌/◌, ◌^◌, min, ◌≤◌, ◌<◌, ◌≡◌, refl, true, false, some, Result, arith,
  Bool-cases, inl, inr, ltb, leb,
}
use core_shift.Base.Int.{pos}
use core_shift.LowLevel.Libc.{SysError}
use core_shift.LowLevel.WaitLoop.{Options, Watch, round, wait_timeout}

poll_before :
    (o : Options) (dl now : ℕ) (answer : Result (Unit {0}) SysError) (w : Watch)
    → o.deadline ≡ some dl
    → leb dl now ≡ false
    → (round o now answer w).poll_timeout ≡ pos (min ((dl - now) / 1_000_000) (2 ^ 31 - 1))
unfolding round
poll_before o dl now answer w e h = rw (e, h, round) refl

poll_past :
    (o : Options) (dl now : ℕ) (answer : Result (Unit {0}) SysError) (w : Watch)
    → o.deadline ≡ some dl
    → leb dl now ≡ true
    → (round o now answer w).poll_timeout ≡ pos 100
unfolding round
poll_past o dl now answer w e h = rw (e, h, round) refl

-- With a deadline, the timeout of a round's poll is neither negative nor too large for 32 bits, and
-- until the deadline has come the poll ends before it does.
pub round_poll :
    (o : Options) (dl now : ℕ) (answer : Result (Unit {0}) SysError) (w : Watch)
    → o.deadline ≡ some dl
    → (n : ℕ) × ((round o now answer w).poll_timeout ≡ pos n)
      × (n < 2 ^ 31)
      × (now < dl → now + n * 1_000_000 ≤ dl)
round_poll o dl now answer w e = elim (Bool-cases (leb dl now)) [
  | inl past ↦
      (100, poll_past o dl now answer w e past, omega arith, λ early. ground (arith, past, early))
  | inr before ↦ (_, poll_before o dl now answer w e before, omega arith, λ early. omega arith)
]

-- Once the exit status is known, the poll of a round with a deadline waits a millisecond at most.
pub wait_timeout_short : (n : ℕ) → (m : ℕ) × (wait_timeout true (pos n) ≡ pos m) × (m ≤ 1) × (m ≤ n)
unfolding wait_timeout
wait_timeout_short n = elim (Bool-cases (ltb 1 n)) [
  | inl long ↦ (1, rw (long, wait_timeout) refl, omega arith, ground (arith, long))
  | inr short ↦ (n, rw (short, wait_timeout) refl, ground (arith, short), omega arith)
]
