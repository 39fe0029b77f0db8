-- ===== src/LowLevel/PlainTable.antt =====
-- A concrete table of descriptors, for runs of the child of a start (low_level/spawn/mod.rs).
use core_shift.Base.{
  ℕ, ◌<◌, ◌≤◌, ◌≡◌, ◌≢◌, refl, ◌∙◌, ap, Bool, true, false, Option, none, some, ◌==◌, ◌&&◌, leb,
  arith, if◌then◌else◌,
}
use core_shift.LowLevel.Launch.Table.{Table}

-- The number of a file, and whether exec closes the descriptor.
abbrev pub Entry : Type 0
Entry = Option (ℕ × Bool)

abbrev pub entry_file : Entry → Option ℕ
entry_file none = none
entry_file (some (f, b)) = some f

abbrev pub entry_cloexec : Entry → Bool
entry_cloexec none = false
entry_cloexec (some (f, b)) = b

abbrev pub dup2_entry : Bool → Entry → Entry → Entry
dup2_entry true old new = new
dup2_entry false none new = new
dup2_entry false (some (f, b)) new = some (f, false)

abbrev pub dup2_at : (ℕ → Entry) → ℕ → ℕ → ℕ → Entry
dup2_at s old new k = if k == new then dup2_entry (old == new) (s old) (s new) else s k

abbrev pub close_at : (ℕ → Entry) → ℕ → ℕ → Entry
close_at s fd k = if k == fd then none else s k

abbrev pub close_range_at : (ℕ → Entry) → ℕ → ℕ → ℕ → Entry
close_range_at s lo hi k = if leb lo k && leb k hi then none else s k

abbrev pub exec_at : (ℕ → Entry) → ℕ → Entry
exec_at s k = if entry_cloexec (s k) then none else s k

dup2_entry-file :
    (b : Bool) (old new : Entry) (f : ℕ)
    → entry_file old ≡ some f
    → (b ≡ true → new ≡ old)
    → entry_file (dup2_entry b old new) ≡ some f
dup2_entry-file true old new f e same = ap entry_file (same refl) ∙ e
dup2_entry-file false none new f e same = cc
dup2_entry-file false (some (g, b)) new f e same = e

dup2_entry-cloexec :
    (old new : Entry) (f : ℕ)
    → entry_file old ≡ some f
    → entry_cloexec (dup2_entry false old new) ≡ false
dup2_entry-cloexec none new f e = cc
dup2_entry-cloexec (some (g, b)) new f e = refl

pub dup2_at-file :
    (s : ℕ → Entry) (old new f : ℕ)
    → entry_file (s old) ≡ some f
    → entry_file (dup2_at s old new new) ≡ some f
dup2_at-file s old new f e =
    let same : (new == new) ≡ true = ground arith in
    rw (same) (dup2_entry-file (old == new) (s old) (s new) f e (λ q. ap s (ground (arith, q))))

pub dup2_at-cloexec :
    (s : ℕ → Entry) (old new f : ℕ)
    → old ≢ new
    → entry_file (s old) ≡ some f
    → entry_cloexec (dup2_at s old new new) ≡ false
dup2_at-cloexec s old new f ne e =
    let same : (new == new) ≡ true = ground arith in
    let differs : (old == new) ≡ false = ground (arith, ne) in
    rw (same, differs) (dup2_entry-cloexec (s old) (s new) f e)

pub dup2_at_ne : (s : ℕ → Entry) (old new k : ℕ) → new ≢ k → dup2_at s old new k ≡ s k
dup2_at_ne s old new k ne =
    let differs : (k == new) ≡ false = ground (arith, ne) in rw (differs) refl

pub close_at_eq : (s : ℕ → Entry) (k : ℕ) → close_at s k k ≡ none
close_at_eq s k = let same : (k == k) ≡ true = ground arith in rw (same) refl

pub close_at_ne : (s : ℕ → Entry) (j k : ℕ) → j ≢ k → close_at s j k ≡ s k
close_at_ne s j k ne = let differs : (k == j) ≡ false = ground (arith, ne) in rw (differs) refl

pub close_range_at_out :
    (s : ℕ → Entry) (lo hi k : ℕ) → (leb lo k && leb k hi) ≡ false → close_range_at s lo hi k ≡ s k
close_range_at_out s lo hi k e = rw (e) refl

pub close_range_at_in :
    (s : ℕ → Entry) (lo hi k : ℕ) → (leb lo k && leb k hi) ≡ true → close_range_at s lo hi k ≡ none
close_range_at_in s lo hi k e = rw (e) refl

pub range_in : (lo hi k : ℕ) → lo ≤ k → k ≤ hi → (leb lo k && leb k hi) ≡ true
range_in lo hi k a b = ground arith

pub range_below : (lo hi k : ℕ) → k < lo → (leb lo k && leb k hi) ≡ false
range_below lo hi k a = ground arith

pub range_above : (lo hi k : ℕ) → hi < k → (leb lo k && leb k hi) ≡ false
range_above lo hi k a = ground arith

pub exec_entry :
    (e : Entry)
    → entry_file (if entry_cloexec e then none else e)
      ≡ (if entry_cloexec e then none else entry_file e)
exec_entry none = refl
exec_entry (some (f, true)) = refl
exec_entry (some (f, false)) = refl

abbrev pub plain_table : Table
plain_table = record {
  State = ℕ → Entry;
  File = ℕ;
  file = λ s k. entry_file (s k);
  cloexec = λ s k. entry_cloexec (s k);
  dup2 = dup2_at;
  close = close_at;
  close_range = close_range_at;
  exec = exec_at;
  file-dup2 = dup2_at-file;
  file-dup2_ne = λ s old new k ne. ap entry_file (dup2_at_ne s old new k ne);
  cloexec-dup2 = dup2_at-cloexec;
  cloexec-dup2_ne = λ s old new k ne. ap entry_cloexec (dup2_at_ne s old new k ne);
  file-close = λ s k. ap entry_file (close_at_eq s k);
  file-close_ne = λ s j k ne. ap entry_file (close_at_ne s j k ne);
  cloexec-close_ne = λ s j k ne. ap entry_cloexec (close_at_ne s j k ne);
  file-close_range =
      λ s lo hi k a b. ap entry_file (close_range_at_in s lo hi k (range_in lo hi k a b));
  file-close_range_lt =
      λ s lo hi k a. ap entry_file (close_range_at_out s lo hi k (range_below lo hi k a));
  file-close_range_gt =
      λ s lo hi k a. ap entry_file (close_range_at_out s lo hi k (range_above lo hi k a));
  cloexec-close_range_lt =
      λ s lo hi k a. ap entry_cloexec (close_range_at_out s lo hi k (range_below lo hi k a));
  cloexec-close_range_gt =
      λ s lo hi k a. ap entry_cloexec (close_range_at_out s lo hi k (range_above lo hi k a));
  file-exec = λ s k. exec_entry (s k);
}
