-- ===== src/LowLevel/WaitLoop/Escalation.antt =====
-- The signals of wait_loop (low_level/spawn/mod.rs) over all its rounds.
use core_shift.Base.{
  ℕ, ◌+◌, ◌-◌, ◌*◌, ◌/◌, ◌≤◌, ◌<◌, ◌≡◌, refl, ap, subst, Bool, true, false, some, List, [], ◌∷◌,
  ◌++◌, Result, ok, err, arith, Option-cases, inl, inr, ◌⊎◌, ltb, leb, Bool-cases,
}
use core_shift.LowLevel.Libc.{SysError}
use core_shift.LowLevel.Sys.{CancelPolicy}
use core_shift.LowLevel.WaitLoop.{
  KillState, Signal, sigterm, sigkill, Options, target_is_group, Watch, escalate, round, rounds,
}

-- The signals that may still follow, in each state.
abbrev pub Allowed : Bool → CancelPolicy → KillState → List Signal → Type 0
Allowed g policy KillState.kill_sent signals = signals ≡ []
Allowed g policy KillState.term_sent signals = (signals ≡ []) ⊎ (signals ≡ sigkill g ∷ [])
Allowed g CancelPolicy.none KillState.not_sent signals = signals ≡ []
Allowed g CancelPolicy.kill KillState.not_sent signals = (signals ≡ []) ⊎ (signals ≡ sigkill g ∷ [])
Allowed g CancelPolicy.graceful KillState.not_sent signals =
    (signals ≡ []) ⊎ ((signals ≡ sigterm g ∷ []) ⊎ (signals ≡ sigterm g ∷ sigkill g ∷ []))

none-Allowed : (g : Bool) (policy : CancelPolicy) (state : KillState) → Allowed g policy state []
none-Allowed g policy KillState.kill_sent = refl
none-Allowed g policy KillState.term_sent = inl refl
none-Allowed g CancelPolicy.none KillState.not_sent = refl
none-Allowed g CancelPolicy.kill KillState.not_sent = inl refl
none-Allowed g CancelPolicy.graceful KillState.not_sent = inl refl

module _ (o : Options) where
  escalate-Allowed :
      (elapsed : ℕ) (answer : Result (Unit {0}) SysError) (state : KillState)
      (policy : CancelPolicy) (more : List Signal)
      → Allowed (target_is_group o) policy (escalate o elapsed answer state policy).0 more
      → Allowed
          (target_is_group o)
          policy
          state
          ((escalate o elapsed answer state policy).1 ++ more)
  unfolding escalate
  escalate-Allowed elapsed (err e) KillState.not_sent CancelPolicy.graceful more h =
      inr (inl (ap (λ m. sigterm (target_is_group o) ∷ m) h))
  escalate-Allowed elapsed (ok u) KillState.not_sent CancelPolicy.graceful more h = elim h [
    | inl e ↦ inr (inl (ap (λ m. sigterm (target_is_group o) ∷ m) e))
    | inr e ↦ inr (inr (ap (λ m. sigterm (target_is_group o) ∷ m) e))
  ]
  escalate-Allowed elapsed answer KillState.not_sent CancelPolicy.kill more h =
      inr (ap (λ m. sigkill (target_is_group o) ∷ m) h)
  escalate-Allowed elapsed answer KillState.not_sent CancelPolicy.none more h = h
  escalate-Allowed elapsed answer KillState.term_sent policy more h =
      elim (Bool-cases (ltb o.kill_grace_ms elapsed)) [
        | inl late ↦
            rw (late, escalate) (inr (ap (λ m. sigkill (target_is_group o) ∷ m) (rw late at h)))
        | inr early ↦ rw (early, escalate) (rw early at h)
      ]
  escalate-Allowed elapsed answer KillState.kill_sent policy more h = h

  -- One round, before whatever follows it.
  round-Allowed :
      (now : ℕ) (answer : Result (Unit {0}) SysError) (w : Watch) (more : List Signal)
      → Allowed (target_is_group o) o.cancel (round o now answer w).watch.state more
      → Allowed (target_is_group o) o.cancel w.state ((round o now answer w).signals ++ more)
  unfolding round
  round-Allowed now answer w more h = elim (Option-cases o.deadline) [
    | inl e ↦ rw (e, round) (rw (e, round) at h)
    | inr (dl, e) ↦ elim (Bool-cases (leb dl now)) [
      | inl past ↦
          rw (e, past, round)
            (escalate-Allowed ((now - dl) / 1_000_000) answer w.state o.cancel more
              (rw (e, past, round) at h))
      | inr before ↦ rw (e, before, round) (rw (e, before, round) at h)
    ]
  ]

  rounds-Allowed :
      (more : List (ℕ × Result (Unit {0}) SysError)) (w : Watch)
      → Allowed (target_is_group o) o.cancel w.state (rounds o more w).1
  unfolding rounds
  rounds-Allowed [] w = none-Allowed (target_is_group o) o.cancel w.state
  rounds-Allowed ((now, answer) ∷ more) w =
      round-Allowed now answer w (rounds o more (round o now answer w).watch).1
        (rounds-Allowed more (round o now answer w).watch)

-- Over all the rounds, whatever the clock reads and whatever sending gives: no policy sends
-- nothing, the policy to kill sends nothing or one SIGKILL, the graceful one nothing, one SIGTERM,
-- or one SIGTERM and after it one SIGKILL; and each goes to the group exactly if there is one.
pub rounds_escalate :
    (o : Options) (more : List (ℕ × Result (Unit {0}) SysError))
    → Allowed
        (target_is_group o)
        o.cancel
        KillState.not_sent
        (rounds o more (record { state = KillState.not_sent; timed_out = false })).1
rounds_escalate o more =
    rounds-Allowed o more (record { state = KillState.not_sent; timed_out = false })

-- After the first round past the deadline.
term_round :
    (o : Options) (dl now : ℕ) (w : Watch)
    → o.deadline ≡ some dl
    → o.cancel ≡ CancelPolicy.graceful
    → w.state ≡ KillState.not_sent
    → dl ≤ now
    → ((round o now (ok tt) w).watch.state ≡ KillState.term_sent)
      × ((round o now (ok tt) w).signals ≡ sigterm (target_is_group o) ∷ [])
unfolding round escalate
term_round o dl now w e p h late =
    let past : leb dl now ≡ true = ground (arith, late) in rw (e, past, p, h, round) (refl, refl)

-- After the first round past the grace.
kill_round :
    (o : Options) (dl now : ℕ) (answer : Result (Unit {0}) SysError) (w : Watch)
    → o.deadline ≡ some dl
    → w.state ≡ KillState.term_sent
    → dl + (o.kill_grace_ms + 1) * 1_000_000 ≤ now
    → ((round o now answer w).watch.state ≡ KillState.kill_sent)
      × ((round o now answer w).signals ≡ sigkill (target_is_group o) ∷ [])
unfolding round escalate
kill_round o dl now answer w e h late =
    let past : leb dl now ≡ true = ground (arith, late) in
    let grace : o.kill_grace_ms < (now - dl) / 1_000_000 = omega (arith, late) in
    let over : ltb o.kill_grace_ms ((now - dl) / 1_000_000) ≡ true = ground (arith, grace) in
    rw (e, past, h, over, round) (refl, refl)

-- Where the policy is graceful and SIGTERM is sent without an error by a first round past the
-- deadline, a next round more than a millisecond past the grace sends SIGKILL, and whatever rounds
-- follow send nothing more: the escalation is completed.
pub rounds_complete :
    (o : Options) (dl now now' : ℕ) (answer : Result (Unit {0}) SysError)
    (more : List (ℕ × Result (Unit {0}) SysError))
    → o.deadline ≡ some dl
    → o.cancel ≡ CancelPolicy.graceful
    → dl ≤ now
    → dl + (o.kill_grace_ms + 1) * 1_000_000 ≤ now'
    → (rounds o
        ((now, ok tt) ∷ (now', answer) ∷ more)
        (record { state = KillState.not_sent; timed_out = false })).1
      ≡ sigterm (target_is_group o) ∷ sigkill (target_is_group o) ∷ []
unfolding rounds
rounds_complete o dl now now' answer more e p late later =
    let start : Watch = record { state = KillState.not_sent; timed_out = false } in
    let first = term_round o dl now start e p refl late in
    let second_watch = (round o now (ok tt) start).watch in
    let second = kill_round o dl now' answer second_watch e first.0 later in
    let last = (round o now' answer second_watch).watch in
    let rest : (rounds o more last).1 ≡ [] =
      subst (λ s. Allowed (target_is_group o) o.cancel s (rounds o more last).1) second.0
        (rounds-Allowed o more last) in
    rw (first.1, second.1, rest) refl
