-- ===== src/Core/Timeout/Deadlines.antt =====
-- TimeoutPolicyModule::compute_timeout_ms (core/policy.rs) against the least time left.
use core_shift.Base.{
  ℕ, ◌-◌, ◌+◌, ◌^◌, ◌≤◌, ◌<◌, ◌≡◌, refl, ◌⊎◌, inl, inr, Bool, true, false, some, [], ◌∷◌, ltb,
  if◌then◌else◌, arith, Bool-cases,
}
use core_shift.Base.Int.{pos, negsuc, as_i32_small, as_i32_wrapped}
use core_shift.Base.HashMap.{HashMap, insert}
use core_shift.Core.Types.{Action, ExecSpec, ExecPolicy}
use core_shift.Core.Timeout
use core_shift.Core.Timeout.{
  TimeoutEntry, TimeoutPolicyModule, due, as_millis, from_millis, remaining_ms, scan,
  compute_timeout_ms, waiting_for_deadline,
}

-- The whole milliseconds until an entry is due.
abbrev pub left : ℕ → TimeoutEntry → ℕ
left now entry = as_millis (due entry.state entry.deadline - now)

-- Every entry is due within 2^31 milliseconds, some 24 days.
abbrev pub InRange : ℕ → HashMap TimeoutEntry → Type 0
InRange now [] = Unit
InRange now ((k, e) ∷ m) = (left now e < 2 ^ 31) × InRange now m

-- `n` is at most the time left of each entry.
abbrev pub Below : ℕ → ℕ → HashMap TimeoutEntry → Type 0
Below n now [] = Unit
Below n now ((k, e) ∷ m) = (n ≤ left now e) × Below n now m

-- `n` is the time left of an entry.
abbrev pub Attains : ℕ → ℕ → HashMap TimeoutEntry → Type 0
Attains n now [] = ⊥
Attains n now ((k, e) ∷ m) = (n ≡ left now e) ⊎ Attains n now m

pub remaining_ms_lem :
    (now : ℕ) (e : TimeoutEntry) → left now e < 2 ^ 31 → remaining_ms now e ≡ pos (left now e)
unfolding remaining_ms
remaining_ms_lem now e h = ground (arith, as_i32_small (left now e))

-- What the loop makes of a minimum `a` that it has found.
unfoldable pub least : ℕ → ℕ → HashMap TimeoutEntry → ℕ
least now a [] = a
least now a ((k, e) ∷ m) = least now (if ltb (left now e) a then left now e else a) m

pub scan_lem :
    (now a : ℕ) (m : HashMap TimeoutEntry)
    → InRange now m
    → scan now (pos a) m ≡ pos (least now a m)
unfolding scan least
scan_lem now a [] h = refl
scan_lem now a ((k, e) ∷ m) h =
    rw (remaining_ms_lem now e h.0) (elim (Bool-cases (ltb (left now e) a)) [
      | inl b ↦ rw b (scan_lem now (left now e) m h.1)
      | inr b ↦ rw b (scan_lem now a m h.1)
    ])

least-le : (now a : ℕ) (m : HashMap TimeoutEntry) → least now a m ≤ a
unfolding least
least-le now a [] = omega arith
least-le now a ((k, e) ∷ m) =
    ground (arith, least-le now (if ltb (left now e) a then left now e else a) m)

Below-mono : (n b now : ℕ) (m : HashMap TimeoutEntry) → n ≤ b → Below b now m → Below n now m
Below-mono n b now [] h w = tt
Below-mono n b now ((k, e) ∷ m) h w = (omega arith, Below-mono n b now m h w.1)

least-Below : (now a : ℕ) (m : HashMap TimeoutEntry) → Below (least now a m) now m
unfolding least
least-Below now a [] = tt
least-Below now a ((k, e) ∷ m) =
    let b : ℕ = if ltb (left now e) a then left now e else a in
    (ground (arith, least-le now b m), least-Below now b m)

-- The minimum is the old one, the entry's, or that of an entry further on.
pick :
    (P : Type 0) (n a x : ℕ) (b : Bool) → (n ≡ (if b then x else a)) ⊎ P → (n ≡ a) ⊎ ((n ≡ x) ⊎ P)
pick P n a x true (inl h) = inr (inl h)
pick P n a x false (inl h) = inl h
pick P n a x true (inr h) = inr (inr h)
pick P n a x false (inr h) = inr (inr h)

least-Attains :
    (now a : ℕ) (m : HashMap TimeoutEntry) → (least now a m ≡ a) ⊎ Attains (least now a m) now m
unfolding least
least-Attains now a [] = inl refl
least-Attains now a ((k, e) ∷ m) =
    pick _ _ a (left now e) (ltb (left now e) a)
      (least-Attains now (if ltb (left now e) a then left now e else a) m)

-- With nothing tracked the poll waits without end. With every entry due within 2^31 milliseconds it
-- waits exactly for the entry that is due first: no longer than any entry has left, and as long as
-- one of them has.
pub compute_timeout_ms_least :
    (now : ℕ) (m : TimeoutPolicyModule)
    → InRange now m.tracking
    → ((m.tracking ≡ []) × (compute_timeout_ms now m ≡ negsuc 0))
      ⊎ ((n : ℕ) × (compute_timeout_ms now m ≡ pos n)
          × Below n now m.tracking
          × Attains n now m.tracking)
unfolding compute_timeout_ms
compute_timeout_ms_least now m h = cases m.tracking h
  where
    cases :
        (t : HashMap TimeoutEntry)
        → InRange now t
        → ((t ≡ []) × (scan now (negsuc 0) t ≡ negsuc 0))
          ⊎ ((n : ℕ) × (scan now (negsuc 0) t ≡ pos n) × Below n now t × Attains n now t)
    cases [] h = inl (refl, refl)
    cases ((k, e) ∷ t) h = inr (
      least now (left now e) t,
      rw (remaining_ms_lem now e h.0) (scan_lem now (left now e) t h.1),
      (least-le now (left now e) t, least-Below now (left now e) t),
      least-Attains now (left now e) t,
    )

-- A job is admitted with a timeout below 2^32 milliseconds, while nothing else is tracked. At any later
-- reading of the clock at which 2^31 milliseconds or more are left of it, the poll's timeout is
-- negative: the poll waits without end, although a deadline is set.
pub compute_timeout_ms_wraps :
    (now later id owner t : ℕ) (exec : ExecSpec) (policy : ExecPolicy)
    → policy.timeout_ms ≡ some t
    → t < 2 ^ 32
    → now ≤ later
    → 2 ^ 31 ≤ as_millis (now + from_millis t - later)
    → compute_timeout_ms later
        (Timeout.handle now Timeout.new (Action.admitted id owner exec policy)).0
      ≡ negsuc (2 ^ 32 - as_millis (now + from_millis t - later) - 1)
unfolding compute_timeout_ms Timeout.handle Timeout.new insert
compute_timeout_ms_wraps now later id owner t exec policy e l after h =
    rw (e, Timeout.track)
      (ground (arith, as_i32_wrapped (as_millis (now + from_millis t - later)) h (omega arith)))
