-- ===== src/LowLevel/Reactor/Drained.antt =====
-- The rounds of Reactor::drain_signalfd (low_level/reactor/mod.rs).
use core_shift.Base.{
  ℕ, zero, suc, ◌<◌, ◌≡◌, refl, some, List, Result, ok, err, length, ltb, Bool-cases, Option-cases,
  inl, inr, arith,
}
use core_shift.LowLevel.Libc.{Errno, SysError}
use core_shift.LowLevel.Fd.{Source, read}
use core_shift.LowLevel.Fd.Transfers.{Settles, Pending, read-returns, read-Reads}
use core_shift.LowLevel.Reactor.{Reactor, drain_rounds, drain_signalfd}

module _ (c : Errno) (size : ℕ) where
  abbrev Returns : ℕ → Source → Type 0
  Returns fuel source = (last : Source) × (drain_rounds fuel c size source ≡ some last)

  after_read :
      (fuel : ℕ) (source : Source)
      → ((s : Source) → Settles c s.answers → length s.answers < fuel → Returns fuel s)
      → (r : Result (List ℕ) SysError) (s : Source) → read c size source ≡ some (r, s)
      → Pending c r s.answers
      → length s.answers < fuel
      → Returns (suc fuel) source
  unfolding drain_rounds
  after_read fuel source others (err x) s e p l = (s, rw (e, drain_rounds) refl)
  after_read fuel source others (ok bytes) s e p l = elim (Bool-cases (ltb (length bytes) size)) [
    | inl short ↦ (s, rw (e, short, drain_rounds) refl)
    | inr full ↦ let (last, f) = others s p l in (last, rw (e, full, drain_rounds) f)
  ]

  drain_rounds-Returns :
      (fuel : ℕ) (source : Source)
      → Settles c source.answers
      → length source.answers < fuel
      → Returns fuel source
  drain_rounds-Returns zero source h l = absurd (omega arith)
  drain_rounds-Returns (suc fuel) source h l =
      let (r, s, e, p) = read-returns c size source h in
      let used = (read-Reads c size source r s e).used in
      after_read fuel source (drain_rounds-Returns fuel) r s e p (omega (arith, used))

-- The drain of the signal descriptor returns, provided that the kernel at some point answers with an
-- error other than EINTR, as it does when there is no more to read.
pub drain_signalfd-returns :
    (c : Errno) (size : ℕ) (r : Reactor) (source : Source)
    → Settles c source.answers
    → (last : Source) × (drain_signalfd c size r source ≡ some last)
unfolding drain_signalfd
drain_signalfd-returns c size r source h = elim (Option-cases r.signalfd) [
  | inl e ↦ (source, rw (e, drain_signalfd) refl)
  | inr (fd, e) ↦
      let (last, f) =
        drain_rounds-Returns c size (suc (length source.answers)) source h (omega arith) in
      (last, rw (e, drain_signalfd) f)
]
