-- ===== src/Runtime/Tables.antt =====
-- The table of processes of the executor (runtime.rs) over any effects.
use core_shift.Base.{
  ℕ, ◌+◌, ◌*◌, ◌^◌, ◌<◌, ◌≤◌, ◌≡◌, refl, sym, subst, Option, none, some, List, [], ◌∷◌, Result, ok,
  err, length, arith, Option-cases, inl, inr, Ensures, Ensures-some,
}
use core_shift.Base.HashMap.{HashMap, get, insert, get-insert_ne}
use core_shift.Core.Types.{Effect, Event}
use core_shift.LowLevel.Libc.{Errno, SysError}
use core_shift.LowLevel.Launch.{Running, spawn_start}
use core_shift.LowLevel.Spawn.{StatusMacros}
use core_shift.Runtime.{
  EffectExecutor, Answers, gen_handle, watch_stream, unwatch_stream, spawn_options, started,
  kill_process, poll_process, perform_io, apply,
}
use core_shift.Runtime.Kept.{
  Keeps, watch_stream-Keeps, unwatch_stream-Keeps, kill_process-Keeps, perform_io-Keeps,
}

-- The keys of a table are below a number.
abbrev pub Below {ℓ} : {V : Type ℓ} → ℕ → HashMap V → Type 0
Below n [] = Unit
Below n ((k, v) ∷ m) = (k < n) × Below n m

Below-get {ℓ} :
    {V : Type ℓ} (n k : ℕ) (v : V) (m : HashMap V) → Below n m → get k m ≡ some v → k < n
unfolding get
Below-get n k v [] b e = absurd (ground arith)
Below-get n k v ((j, u) ∷ m) b e = ground (arith, Below-get n k v m b.1)

Below-later {ℓ} : {V : Type ℓ} (n l : ℕ) (m : HashMap V) → Below n m → n ≤ l → Below l m
Below-later n l [] b h = tt
Below-later n l ((j, u) ∷ m) b h = (omega arith, Below-later n l m b.1 h)

Below-insert {ℓ} :
    {V : Type ℓ} (n l k : ℕ) (v : V) (m : HashMap V)
    → Below n m
    → n ≤ l
    → k < l
    → Below l (insert k v m)
unfolding insert
Below-insert n l k v [] b h g = (g, tt)
Below-insert n l k v ((j, u) ∷ m) b h g =
    ground (arith, Below-insert n l k v m b.1, Below-later n l m b.1)

-- What an effect makes of the table, as long as the handles are not used up.
record Grows (ex after : EffectExecutor) : Type 0 where
  pub later : ex.next_handle ≤ after.next_handle
  pub little : after.next_handle ≤ ex.next_handle + 2
  pub below : Below after.next_handle after.processes
  pub kept : (h pid : ℕ) → get h ex.processes ≡ some pid → get h after.processes ≡ some pid

Grows-same :
    (ex after : EffectExecutor)
    → Below ex.next_handle ex.processes
    → after.processes ≡ ex.processes
    → after.next_handle ≡ ex.next_handle
    → Grows ex after
Grows-same ex after b p n = record {
  later = omega arith;
  little = omega arith;
  below =
      subst (λ m. Below after.next_handle m) (sym p) (subst (λ k. Below k ex.processes) (sym n) b);
  kept = λ h pid e. ground (arith, p, e);
}

started-Grows :
    (ex : EffectExecutor) (id : ℕ) (r : Result Running SysError)
    → Below ex.next_handle ex.processes
    → ex.next_handle + 2 < 2 ^ 64
    → Grows ex (started ex id r).0
unfolding started gen_handle
started-Grows ex id (err e) b l = Grows-same ex ex b refl refl
started-Grows ex id (ok (pid, drain)) b l = record {
  later = omega arith;
  little = omega arith;
  below =
      Below-insert ex.next_handle _ ex.next_handle pid ex.processes b (omega arith) (omega arith);
  kept = λ h p e. ground (
    arith,
    get-insert_ne ex.next_handle h pid ex.processes,
    Below-get ex.next_handle h p ex.processes b e,
    e,
  );
}

module _ (c : Errno) (w : StatusMacros) where
  abbrev GrowsIn : EffectExecutor → EffectExecutor × Option Event → Type 0
  GrowsIn ex (after, event) = Grows ex after

  Keeps-Grows :
      (ex after : EffectExecutor)
      → Below ex.next_handle ex.processes
      → Keeps ex after
      → Grows ex after
  unfolding Keeps
  Keeps-Grows ex after b k = Grows-same ex after b k.0 k.1

  apply-Grows :
      (a : Answers) (ex : EffectExecutor) (effect : Effect)
      → Below ex.next_handle ex.processes
      → ex.next_handle + 2 < 2 ^ 64
      → Ensures (GrowsIn ex) (apply c w a ex effect)
  unfolding apply
  apply-Grows a ex (Effect.log level event) b l = Grows-same ex _ b refl refl
  apply-Grows a ex (Effect.watch_stream id io stream) b l =
      Keeps-Grows ex (watch_stream a ex id io stream) b (watch_stream-Keeps a ex id io stream)
  apply-Grows a ex (Effect.unwatch_stream id io stream) b l =
      Keeps-Grows ex (unwatch_stream ex io stream) b (unwatch_stream-Keeps ex io stream)
  apply-Grows a ex (Effect.start_process id exec policy) b l =
      started-Grows ex id (spawn_start a.system id (spawn_options exec policy)).result b l
  apply-Grows a ex (Effect.kill_process id signal process is_group) b l =
      Keeps-Grows ex (kill_process ex signal process is_group) b
        (kill_process-Keeps ex signal process is_group)
  apply-Grows a ex (Effect.poll_process id process) b l =
      elim (Option-cases (poll_process c w a ex id process)) [
        | inl e ↦ rw (e, apply, Ensures) tt
        | inr (event, e) ↦ rw (e, apply, Ensures) (Grows-same ex ex b refl refl)
      ]
  apply-Grows a ex (Effect.perform_io id io) b l = elim (Option-cases (perform_io c a ex io)) [
    | inl e ↦ rw (e, apply, Ensures) tt
    | inr (after, e) ↦
        rw (e, apply, Ensures)
          (Keeps-Grows ex after b
            (Ensures-some (Keeps ex) (perform_io c a ex io) after e (perform_io-Keeps c a ex io)))
  ]

  -- Effects one after the other, each with what the system answers to its calls.
  unfoldable pub execute_all : EffectExecutor → List (Answers × Effect) → Option EffectExecutor
  unfolding apply
  execute_all ex [] = some ex
  execute_all ex ((a, effect) ∷ effects) = elim (apply c w a ex effect) [
    | none ↦ none
    | some (after, event) ↦ execute_all after effects
  ]

  -- Over any number of effects.
  record Lasts (ex out : EffectExecutor) : Type 0 where
    pub below : Below out.next_handle out.processes
    pub kept : (h pid : ℕ) → get h ex.processes ≡ some pid → get h out.processes ≡ some pid

  execute_all-Lasts :
      (effects : List (Answers × Effect)) (ex : EffectExecutor)
      → Below ex.next_handle ex.processes
      → ex.next_handle + 2 * length effects < 2 ^ 64
      → Ensures (Lasts ex) (execute_all ex effects)
  unfolding execute_all
  execute_all-Lasts [] ex b l = record { below = b; kept = λ h pid e. e }
  execute_all-Lasts ((a, effect) ∷ effects) ex b l = elim (Option-cases (apply c w a ex effect)) [
    | inl e ↦ rw (e, execute_all, Ensures) tt
    | inr ((after, event), e) ↦
        let g =
          Ensures-some (GrowsIn ex) (apply c w a ex effect) (after, event) e
            (apply-Grows a ex effect b (omega arith)) in
        let little = g.little in
        rw (e, execute_all)
          (further ex after (execute_all after effects) g
            (execute_all-Lasts effects after g.below (omega (arith, little))))
  ]
    where
      further :
          (ex after : EffectExecutor) (r : Option EffectExecutor)
          → Grows ex after
          → Ensures (Lasts after) r
          → Ensures (Lasts ex) r
      further ex after none g t = tt
      further ex after (some out) g t = record {
        below = t.below;
        kept = λ h pid e. t.kept h pid (g.kept h pid e);
      }

Below-unused {ℓ} : {V : Type ℓ} (n : ℕ) (m : HashMap V) → Below n m → get n m ≡ none
unfolding get
Below-unused n m b = elim (Option-cases (get n m)) [
  | inl e ↦ e
  | inr (v, e) ↦ absurd (omega (arith, Below-get n n v m b e))
]

-- As long as the 64-bit handles do not run out: whatever effects are executed, and a poll that finds
-- the process gone is one of them, a process stays under its handle, and the next handle is unused.
pub processes_kept :
    (c : Errno) (w : StatusMacros) (ex out : EffectExecutor) (effects : List (Answers × Effect))
    → Below ex.next_handle ex.processes
    → ex.next_handle + 2 * length effects < 2 ^ 64
    → execute_all c w ex effects ≡ some out
    → ((h pid : ℕ) → get h ex.processes ≡ some pid → get h out.processes ≡ some pid)
      × (get out.next_handle out.processes ≡ none)
processes_kept c w ex out effects b l e =
    let t =
      Ensures-some (Lasts c w ex) (execute_all c w ex effects) out e
        (execute_all-Lasts c w effects ex b l) in
    (t.kept, Below-unused out.next_handle out.processes t.below)
