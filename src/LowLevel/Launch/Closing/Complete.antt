-- ===== src/LowLevel/Launch/Closing/Complete.antt =====
-- The descriptors that close_range_fast (low_level/spawn/mod.rs) leaves.
use core_shift.Base.{
  ℕ, ◌+◌, ◌-◌, ◌<◌, ◌≤◌, ◌≡◌, ◌≢◌, refl, ◌∙◌, sym, subst, Bool, true, false, Option, none, some,
  List, [], ◌∷◌, ◌&&◌, not, ltb, ◌==◌, max, arith, inl, inr, ◌⊎◌, Bool-cases,
}
use core_shift.LowLevel.Launch.{Listing}
use core_shift.LowLevel.Launch.Table.{Table}
use native.Mathlib.Decide.{ℕ_discrete}
use core_shift.LowLevel.Launch.Closing.{
  last_fd, Closing, is_kept, range_if, close_listed, close_by_listing, close_range_fast,
}

abbrev pub In : ℕ → List ℕ → Type 0
In k [] = ⊥
In k (x ∷ xs) = (x ≡ k) ⊎ In k xs

-- A descriptor that the directory's loop closes.
abbrev pub picked : Option ℕ → ℕ → ℕ → Bool
picked keep dir_fd fd = ltb 2 fd && (not (is_kept keep fd) && not (fd == dir_fd))

module _ (t : Table) where
  -- The directory can be read, and lists what is open but itself.
  pub record Lists (s : t.State) (proc : Option Listing) : Type 0 where
    pub dir_fd : ℕ
    pub entries : List ℕ
    pub is_listed : proc ≡ some (record { dir_fd = dir_fd; entries = some entries })
    pub fresh : t.file s dir_fd ≡ none
    pub complete : (k : ℕ) → (t.file s k ≡ none) ⊎ In k entries

  pub close_listed-kept :
      (keep : Option ℕ) (dir_fd : ℕ) (entries : List ℕ) (s : t.State) (k : ℕ)
      → picked keep dir_fd k ≡ false
      → (t.file (close_listed t keep dir_fd entries s) k ≡ t.file s k)
        × (t.cloexec (close_listed t keep dir_fd entries s) k ≡ t.cloexec s k)
  unfolding close_listed
  close_listed-kept keep dir_fd [] s k h = (refl, refl)
  close_listed-kept keep dir_fd (fd ∷ entries) s k h = elim (Bool-cases (picked keep dir_fd fd)) [
    | inl p ↦
        let ne : fd ≢ k = λ e. cc in
        let (f, x) = close_listed-kept keep dir_fd entries (t.close s fd) k h in
        rw (p, close_listed) (f ∙ t.file-close_ne s fd k ne, x ∙ t.cloexec-close_ne s fd k ne)
    | inr p ↦ rw (p, close_listed) (close_listed-kept keep dir_fd entries s k h)
  ]

  pub close_listed-closed :
      (keep : Option ℕ) (dir_fd : ℕ) (entries : List ℕ) (s : t.State) (k : ℕ)
      → (t.file s k ≡ none) ⊎ In k entries
      → picked keep dir_fd k ≡ true
      → t.file (close_listed t keep dir_fd entries s) k ≡ none
  unfolding close_listed
  close_listed-closed keep dir_fd [] s k (inl e) h = e
  close_listed-closed keep dir_fd [] s k (inr e) h = absurd e
  close_listed-closed keep dir_fd (fd ∷ entries) s k o h = elim (ℕ_discrete fd k) [
    | yes e ↦
        rw (e, h, close_listed)
          (close_listed-closed keep dir_fd entries (t.close s k) k (inl (t.file-close s k)) h)
    | no ne ↦ elim (Bool-cases (picked keep dir_fd fd)) [
      | inl p ↦
          rw (p, close_listed)
            (close_listed-closed keep dir_fd entries (t.close s fd) k
              (later o ne (t.file-close_ne s fd k ne)) h)
      | inr p ↦
          rw (p, close_listed) (close_listed-closed keep dir_fd entries s k (later o ne refl) h)
    ]
  ]
    where
      later :
          {now : Option t.File}
          → (t.file s k ≡ none) ⊎ In k (fd ∷ entries)
          → fd ≢ k
          → now ≡ t.file s k
          → (now ≡ none) ⊎ In k entries
      later (inl e) ne same = inl (same ∙ e)
      later (inr (inl e)) ne same = absurd (ne e)
      later (inr (inr i)) ne same = inr i

  -- What is to be closed is; the rest is as before.
  pub record Cleared (keep : Option ℕ) (s after : t.State) : Type 0 where
    pub gone : (k : ℕ) → 2 < k → k ≤ last_fd → is_kept keep k ≡ false → t.file after k ≡ none
    pub spared : (k : ℕ) → (k ≤ 2) ⊎ (is_kept keep k ≡ true) → t.file after k ≡ t.file s k
    pub flags :
        (k : ℕ)
        → (k ≤ 2) ⊎ (is_kept keep k ≡ true)
        → (t.file s k ≡ none) ⊎ (t.cloexec after k ≡ t.cloexec s k)

  pub spared-picked :
      (keep : Option ℕ) (dir_fd k : ℕ)
      → (k ≤ 2) ⊎ (is_kept keep k ≡ true)
      → picked keep dir_fd k ≡ false
  spared-picked keep dir_fd k (inl l) = ground arith
  spared-picked keep dir_fd k (inr e) = ground (arith, e)

  close_by_listing-Cleared :
      (keep : Option ℕ) (proc : Option Listing) (s : t.State)
      → Lists s proc
      → Cleared keep s (close_by_listing t keep proc s)
  unfolding close_by_listing
  close_by_listing-Cleared keep proc s l = rw (l.is_listed) (record {
    gone = λ k above within other. elim (ℕ_discrete l.dir_fd k) [
      | yes e ↦ rw (e) (t.file-close _ k)
      | no ne ↦
          t.file-close_ne _ l.dir_fd k ne
          ∙ close_listed-closed keep l.dir_fd l.entries s k (l.complete k) (ground (arith, other))
    ];
    spared = λ k h. elim (ℕ_discrete l.dir_fd k) [
      | yes e ↦ rw (e) (t.file-close _ k) ∙ sym (subst (λ j. t.file s j ≡ none) e l.fresh)
      | no ne ↦
          t.file-close_ne _ l.dir_fd k ne
          ∙ (close_listed-kept keep l.dir_fd l.entries s k (spared-picked keep l.dir_fd k h)).0
    ];
    flags = λ k h. elim (ℕ_discrete l.dir_fd k) [
      | yes e ↦ inl (subst (λ j. t.file s j ≡ none) e l.fresh)
      | no ne ↦ inr (
          t.cloexec-close_ne _ l.dir_fd k ne
          ∙ (close_listed-kept keep l.dir_fd l.entries s k (spared-picked keep l.dir_fd k h)).1)
    ];
  })

  range-Cleared : (s : t.State) → Cleared none s (t.close_range s 3 last_fd)
  range-Cleared s = record {
    gone = λ k above within other. t.file-close_range s 3 last_fd k above within;
    spared = λ k h. t.file-close_range_lt s 3 last_fd k (at_most k h);
    flags = λ k h. inr (t.cloexec-close_range_lt s 3 last_fd k (at_most k h));
  }
    where
      at_most : (k : ℕ) → (k ≤ 2) ⊎ (false ≡ true) → k < 3
      at_most k (inl l) = omega arith
      at_most k (inr e) = cc

  -- Both calls around the descriptor to keep.
  abbrev pub ranges : Closing → ℕ → t.State → t.State
  ranges c fd s = range_if t c.above (range_if t c.below s 3 (max (fd - 1) 2)) (fd + 1) last_fd

  -- The calls of close_range succeed, or the directory stands in for them.
  abbrev pub Works : Closing → Option ℕ → t.State → Type 0
  Works c none s = (c.above ≡ true) ⊎ Lists s c.proc
  Works c (some fd) s = (((c.below ≡ true) × (c.above ≡ true)) ⊎ Lists (ranges c fd s) c.proc)

  range_if-kept :
      (done : Bool) (s : t.State) (lo hi k : ℕ)
      → (k < lo) ⊎ (hi < k)
      → (t.file (range_if t done s lo hi) k ≡ t.file s k)
        × (t.cloexec (range_if t done s lo hi) k ≡ t.cloexec s k)
  unfolding range_if
  range_if-kept true s lo hi k (inl h) =
      (t.file-close_range_lt s lo hi k h, t.cloexec-close_range_lt s lo hi k h)
  range_if-kept true s lo hi k (inr h) =
      (t.file-close_range_gt s lo hi k h, t.cloexec-close_range_gt s lo hi k h)
  range_if-kept false s lo hi k h = (refl, refl)

  range_if-closed :
      (done : Bool) (s : t.State) (lo hi k : ℕ)
      → done ≡ true
      → lo ≤ k
      → k ≤ hi
      → t.file (range_if t done s lo hi) k ≡ none
  unfolding range_if
  range_if-closed done s lo hi k e l h = rw (e) (t.file-close_range s lo hi k l h)

  ranges-kept :
      (c : Closing) (fd : ℕ) (s : t.State) (k : ℕ)
      → 2 ≤ fd
      → (k ≤ 2) ⊎ ((k == fd) ≡ true)
      → (t.file (ranges c fd s) k ≡ t.file s k) × (t.cloexec (ranges c fd s) k ≡ t.cloexec s k)
  ranges-kept c fd s k two h =
      let low : (k < 3) ⊎ (max (fd - 1) 2 < k) = below_or_above k h in
      let high : (k < fd + 1) ⊎ (last_fd < k) = inl (at_most k h) in
      let (f1, x1) = range_if-kept c.below s 3 (max (fd - 1) 2) k low in
      let (f2, x2) =
        range_if-kept c.above (range_if t c.below s 3 (max (fd - 1) 2)) (fd + 1) last_fd k high in
      (f2 ∙ f1, x2 ∙ x1)
    where
      below_or_above : (k : ℕ) → (k ≤ 2) ⊎ ((k == fd) ≡ true) → (k < 3) ⊎ (max (fd - 1) 2 < k)
      below_or_above k (inl l) = inl (omega arith)
      below_or_above k (inr e) = ground arith

      at_most : (k : ℕ) → (k ≤ 2) ⊎ ((k == fd) ≡ true) → k < fd + 1
      at_most k (inl l) = omega arith
      at_most k (inr e) = ground arith

  ranges-Cleared :
      (c : Closing) (fd : ℕ) (s : t.State)
      → 2 ≤ fd
      → c.below ≡ true
      → c.above ≡ true
      → Cleared (some fd) s (ranges c fd s)
  ranges-Cleared c fd s two b a = record {
    gone = λ k above within other. elim (Bool-cases (ltb k fd)) [
      | inl l ↦
          (range_if-kept c.above _ (fd + 1) last_fd k (inl (ground arith))).0
          ∙ range_if-closed c.below s 3 (max (fd - 1) 2) k b above (ground arith)
      | inr g ↦ range_if-closed c.above _ (fd + 1) last_fd k a (ground arith) within
    ];
    spared = λ k h. (ranges-kept c fd s k two h).0;
    flags = λ k h. inr ((ranges-kept c fd s k two h).1);
  }

  Cleared-ranges :
      (c : Closing) (fd : ℕ) (s after : t.State)
      → 2 ≤ fd
      → Cleared (some fd) (ranges c fd s) after
      → Cleared (some fd) s after
  Cleared-ranges c fd s after two d = record {
    gone = d.gone;
    spared = λ k h. d.spared k h ∙ (ranges-kept c fd s k two h).0;
    flags = λ k h. elim (d.flags k h) [
      | inl e ↦ inl (sym ((ranges-kept c fd s k two h).0) ∙ e)
      | inr e ↦ inr (e ∙ (ranges-kept c fd s k two h).1)
    ];
  }

  -- After close_range_fast nothing above the standard streams is open but the descriptor to keep, if
  -- there is one, and the streams and that one are as they were: provided that the descriptor to keep
  -- is at least 2, and that the calls of close_range succeed or the directory of open descriptors can
  -- be read.
  pub close_range_fast-Cleared :
      (c : Closing) (keep : Option ℕ) (s : t.State)
      → ((fd : ℕ) → keep ≡ some fd → 2 ≤ fd)
      → Works c keep s
      → Cleared keep s (close_range_fast t c keep s)
  unfolding close_range_fast
  close_range_fast-Cleared c none s least (inl e) = rw (e) (range-Cleared s)
  close_range_fast-Cleared c none s least (inr l) = elim (Bool-cases c.above) [
    | inl e ↦ rw (e) (range-Cleared s)
    | inr e ↦ rw (e) (close_by_listing-Cleared none c.proc s l)
  ]
  close_range_fast-Cleared c (some fd) s least (inl (b, a)) =
      rw (b, a)
        (subst (Cleared (some fd) s) (rw (b, a) refl) (ranges-Cleared c fd s (least fd refl) b a))
  close_range_fast-Cleared c (some fd) s least (inr l) = elim (Bool-cases (c.below && c.above)) [
    | inl e ↦ rw (e) (ranges-Cleared c fd s (least fd refl) (ground (arith, e)) (ground (arith, e)))
    | inr e ↦ rw (e) (
        Cleared-ranges c fd s _ (least fd refl)
          (close_by_listing-Cleared (some fd) c.proc (ranges c fd s) l))
  ]
