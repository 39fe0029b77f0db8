-- ===== src/Core/Timeout/Order.antt =====
-- The order in which TimeoutPolicyModule (core/policy.rs) goes through its table, which a HashMap
-- leaves open.
use core_shift.Base.{
  ℕ, ◌^◌, ◌<◌, ◌≡◌, refl, sym, ap, subst, ◌∙◌, List, [], ◌∷◌, ◌++◌, ltb, ltb-true, if◌then◌else◌,
  arith,
}
use mathlib.Core.Logic.{∥∥₁_elim}
use mathlib.Core.List.{Perm, Permᴰ, Perm-prop, perm_append_comm, append_assoc}
use mathlib.Core.List.Perm
use core_shift.Base.Int.{ℤ, pos, negsuc}
use core_shift.Base.HashMap.{HashMap}
use core_shift.Core.Types.{Action, Event}
use core_shift.Core.Timeout.{
  TimeoutEntry, TimeoutPolicyModule, fire, fire_all, handle_event, scan, compute_timeout_ms,
}
use core_shift.Core.Timeout.Deadlines.{left, InRange, least, scan_lem, remaining_ms_lem}

InRange-Permᴰ : (now : ℕ) {t u : HashMap TimeoutEntry} → Permᴰ t u → InRange now t → InRange now u
InRange-Permᴰ now Permᴰ.nil h = tt
InRange-Permᴰ now (Permᴰ.cons e d) h =
    (subst (λ x. left now x.1 < 2 ^ 31) e h.0, InRange-Permᴰ now d h.1)
InRange-Permᴰ now (Permᴰ.swap e f) h =
    (subst (λ x. left now x.1 < 2 ^ 31) f h.1.0, (subst (λ x. left now x.1 < 2 ^ 31) e h.0, h.1.1))
InRange-Permᴰ now (Permᴰ.trans d₁ d₂) h = InRange-Permᴰ now d₂ (InRange-Permᴰ now d₁ h)

-- Two entries in either order.
smaller_comm :
    (a x y : ℕ)
    → (if ltb y (if ltb x a then x else a) then y else (if ltb x a then x else a))
      ≡ (if ltb x (if ltb y a then y else a) then x else (if ltb y a then y else a))
smaller_comm a x y = ground arith

least-Permᴰ : (now a : ℕ) {t u : HashMap TimeoutEntry} → Permᴰ t u → least now a t ≡ least now a u
unfolding least
least-Permᴰ now a Permᴰ.nil = refl
least-Permᴰ now a (Permᴰ.cons {a = x} {b = y} {l₁ = l} e d) =
    ap (λ z. least now (if ltb (left now z.1) a then left now z.1 else a) l) e
    ∙ least-Permᴰ now (if ltb (left now y.1) a then left now y.1 else a) d
least-Permᴰ now a (Permᴰ.swap {a = x} {b = y} {a' = x'} {b' = y'} {l = l} e f) =
    ap (λ n. least now n l) (smaller_comm a (left now x.1) (left now y.1))
    ∙ ap (λ z. least now a (z ∷ x ∷ l)) f
    ∙ ap (λ z. least now a (x' ∷ z ∷ l)) e
least-Permᴰ now a (Permᴰ.trans d₁ d₂) = least-Permᴰ now a d₁ ∙ least-Permᴰ now a d₂

-- The first entry counts from any bound that it is below.
scan-least :
    (now : ℕ) (x : ℕ × TimeoutEntry) (t : HashMap TimeoutEntry)
    → InRange now (x ∷ t)
    → scan now (negsuc 0) (x ∷ t) ≡ pos (least now (2 ^ 31) (x ∷ t))
unfolding scan least
scan-least now x t h =
    rw (remaining_ms_lem now x.1 h.0, ltb-true _ _ h.0) (scan_lem now (left now x.1) t h.1)

scan-Permᴰ :
    (now : ℕ) (t u : HashMap TimeoutEntry)
    → Permᴰ t u
    → InRange now t
    → scan now (negsuc 0) t ≡ scan now (negsuc 0) u
scan-Permᴰ now [] u d h = ap (scan now (negsuc 0)) (Perm.nil-eq ∣ d ∣₁)
scan-Permᴰ now (x ∷ t) [] d h = ap (scan now (negsuc 0)) (Perm.eq-nil ∣ d ∣₁)
scan-Permᴰ now (x ∷ t) (y ∷ u) d h =
    scan-least now x t h
    ∙ ap pos (least-Permᴰ now (2 ^ 31) d)
    ∙ sym (scan-least now y u (InRange-Permᴰ now d h))

-- An entry of the table after a round of the loop, and what the round emits.
abbrev after : ℕ → ℕ × TimeoutEntry → ℕ × TimeoutEntry
after now x = (x.0, (fire now x.1 x.1.state).0)

abbrev emitted : ℕ → ℕ × TimeoutEntry → List Action
emitted now x = (fire now x.1 x.1.state).1

swap_front {ℓ} : {A : Type ℓ} (xs ys zs : List A) → Perm (xs ++ (ys ++ zs)) (ys ++ (xs ++ zs))
swap_front xs ys zs =
    subst (λ l. Perm (xs ++ (ys ++ zs)) l) (append_assoc ys xs zs)
      (subst (λ l. Perm l ((ys ++ xs) ++ zs)) (append_assoc xs ys zs)
        (Perm.append_right zs (perm_append_comm xs ys)))

fire_all-Permᴰ :
    (now : ℕ) {t u : HashMap TimeoutEntry}
    → Permᴰ t u
    → Perm (fire_all now t).0 (fire_all now u).0 × Perm (fire_all now t).1 (fire_all now u).1
unfolding fire_all
fire_all-Permᴰ now Permᴰ.nil = (Perm.nil, Perm.nil)
fire_all-Permᴰ now (Permᴰ.cons {a = x} {b = y} {l₁ = t} {l₂ = u} e d) =
    let (tables, actions) = fire_all-Permᴰ now d in
    (
      Perm.cons' (ap (after now) e) tables,
      subst (λ z. Perm (emitted now x ++ (fire_all now t).1) (emitted now z ++ (fire_all now u).1))
          e (Perm.append_left (emitted now x) actions),
    )
fire_all-Permᴰ now (Permᴰ.swap {a = x} {b = y} {a' = x'} {b' = y'} {l = l} e f) =
    subst
      (λ z.
        Perm (fire_all now (x ∷ y ∷ l)).0 (fire_all now (x' ∷ z ∷ l)).0
        × Perm (fire_all now (x ∷ y ∷ l)).1 (fire_all now (x' ∷ z ∷ l)).1)
      e
      (subst
        (λ z.
          Perm (fire_all now (x ∷ y ∷ l)).0 (fire_all now (z ∷ x ∷ l)).0
          × Perm (fire_all now (x ∷ y ∷ l)).1 (fire_all now (z ∷ x ∷ l)).1)
        f
        (
          Perm.swap (after now y) (after now x) (fire_all now l).0,
          swap_front (emitted now x) (emitted now y) (fire_all now l).1,
        ))
fire_all-Permᴰ now (Permᴰ.trans d₁ d₂) =
    let (p, q) = fire_all-Permᴰ now d₁ in
    let (r, s) = fire_all-Permᴰ now d₂ in (Perm.trans p r, Perm.trans q s)

ℤ_set : IsSet ℤ
ℤ_set = hlevel

-- Whatever the order in which the table of deadlines is gone through: with every entry due within
-- 2^31 milliseconds, the poll waits the same time; and an event leads to the same actions, and leaves
-- the same entries, up to their order.
pub deadlines_any_order :
    (now : ℕ) (m n : TimeoutPolicyModule) (event : Event)
    → Perm m.tracking n.tracking
    → InRange now m.tracking
    → (compute_timeout_ms now m ≡ compute_timeout_ms now n)
      × Perm (handle_event now m event).0.tracking (handle_event now n event).0.tracking
      × Perm (handle_event now m event).1 (handle_event now n event).1
unfolding compute_timeout_ms handle_event
deadlines_any_order now m n event p h = (
  ∥∥₁_elim p (ℤ_set _ _) (λ d. scan-Permᴰ now m.tracking n.tracking d h),
  ∥∥₁_elim p Perm-prop (λ d. (fire_all-Permᴰ now d).0),
  ∥∥₁_elim p Perm-prop (λ d. (fire_all-Permᴰ now d).1),
)
