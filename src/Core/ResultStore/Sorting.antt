-- ===== src/Core/ResultStore/Sorting.antt =====
-- The stamps of stored results, sorted: what `sort_by_key` and `take` leave (core/result.rs).
use core_shift.Base.{
  ℕ, zero, suc, ◌≤◌, ◌≡◌, refl, Option, none, some, [], ◌∷◌, length, take, arith, if◌then◌else◌,
  ◌==◌, is_some, Option-cases, inl, inr,
}
use core_shift.Base.HashMap.{HashMap, get, remove, Distinct, get-remove}
use core_shift.Core.Types.{StoredResult}
use core_shift.Core.ResultStore.{Stamped, stamps, insert_by_created, sort_by_created, remove_all}

abbrev created_of : Option StoredResult → Option ℕ
created_of none = none
created_of (some r) = some r.created

pub get-stamps : (k : ℕ) (m : HashMap StoredResult) → get k (stamps m) ≡ created_of (get k m)
unfolding get stamps
get-stamps k [] = refl
get-stamps k ((j, r) ∷ m) = ground (arith, get-stamps k m)

pub stamps-Distinct : (m : HashMap StoredResult) → Distinct m → Distinct (stamps m)
unfolding stamps
stamps-Distinct [] d = tt
stamps-Distinct ((j, r) ∷ m) d = (rw (get-stamps, d.0) refl, stamps-Distinct m d.1)

pub length-stamps : (m : HashMap StoredResult) → length (stamps m) ≡ length m
unfolding stamps
length-stamps [] = refl
length-stamps ((j, r) ∷ m) = omega (arith, length-stamps m)

get-insert_by_created :
    (k j c : ℕ) (l : Stamped)
    → get j l ≡ none
    → get k (insert_by_created (j, c) l) ≡ (if j == k then some c else get k l)
unfolding get insert_by_created
get-insert_by_created k j c [] h = refl
get-insert_by_created k j c ((i, d) ∷ l) h = ground (arith, get-insert_by_created k j c l)

insert_by_created-Distinct :
    (j c : ℕ) (l : Stamped) → get j l ≡ none → Distinct l → Distinct (insert_by_created (j, c) l)
unfolding get insert_by_created
insert_by_created-Distinct j c [] h d = (refl, tt)
insert_by_created-Distinct j c ((i, e) ∷ l) h d =
    ground (arith, get-insert_by_created i j c l, insert_by_created-Distinct j c l)

length-insert_by_created :
    (e : ℕ × ℕ) (l : Stamped) → length (insert_by_created e l) ≡ suc (length l)
unfolding insert_by_created
length-insert_by_created (k, c) [] = refl
length-insert_by_created (k, c) ((j, d) ∷ l) = ground (arith, length-insert_by_created (k, c) l)

pub get-sort_by_created : (k : ℕ) (l : Stamped) → Distinct l → get k (sort_by_created l) ≡ get k l
unfolding get sort_by_created
get-sort_by_created k [] d = refl
get-sort_by_created k ((j, c) ∷ l) d =
    rw (get-insert_by_created k j c (sort_by_created l) (rw (get-sort_by_created j l d.1) d.0))
      (rw (get-sort_by_created k l d.1) refl)

pub sort_by_created-Distinct : (l : Stamped) → Distinct l → Distinct (sort_by_created l)
unfolding sort_by_created
sort_by_created-Distinct [] d = tt
sort_by_created-Distinct ((j, c) ∷ l) d =
    insert_by_created-Distinct j c (sort_by_created l) (rw (get-sort_by_created j l d.1) d.0)
      (sort_by_created-Distinct l d.1)

pub length-sort_by_created : (l : Stamped) → length (sort_by_created l) ≡ length l
unfolding sort_by_created
length-sort_by_created [] = refl
length-sort_by_created ((j, c) ∷ l) =
    omega (arith, length-insert_by_created (j, c) (sort_by_created l), length-sort_by_created l)

-- No stamp of the list is below `c`.
abbrev pub AtLeast : ℕ → Stamped → Type 0
AtLeast c [] = Unit
AtLeast c ((j, d) ∷ l) = (c ≤ d) × AtLeast c l

abbrev pub IsSorted : Stamped → Type 0
IsSorted [] = Unit
IsSorted ((j, c) ∷ l) = AtLeast c l × IsSorted l

AtLeast-mono : (b c : ℕ) (l : Stamped) → b ≤ c → AtLeast c l → AtLeast b l
AtLeast-mono b c [] h a = tt
AtLeast-mono b c ((j, d) ∷ l) h a = (omega arith, AtLeast-mono b c l h a.1)

insert_by_created-AtLeast :
    (b j c : ℕ) (l : Stamped) → b ≤ c → AtLeast b l → AtLeast b (insert_by_created (j, c) l)
unfolding insert_by_created
insert_by_created-AtLeast b j c [] h a = (h, tt)
insert_by_created-AtLeast b j c ((i, d) ∷ l) h a =
    ground (arith, insert_by_created-AtLeast b j c l h a.1)

insert_by_created-IsSorted :
    (j c : ℕ) (l : Stamped) → IsSorted l → IsSorted (insert_by_created (j, c) l)
unfolding insert_by_created
insert_by_created-IsSorted j c [] s = (tt, tt)
insert_by_created-IsSorted j c ((i, d) ∷ l) s =
    ground (
      arith,
      AtLeast-mono c d l,
      insert_by_created-AtLeast d j c l,
      insert_by_created-IsSorted j c l,
    )

pub sort_by_created-IsSorted : (l : Stamped) → IsSorted (sort_by_created l)
unfolding sort_by_created
sort_by_created-IsSorted [] = tt
sort_by_created-IsSorted ((j, c) ∷ l) =
    insert_by_created-IsSorted j c (sort_by_created l) (sort_by_created-IsSorted l)

AtLeast-get : (c k d : ℕ) (l : Stamped) → AtLeast c l → get k l ≡ some d → c ≤ d
unfolding get
AtLeast-get c k d [] a e = cc
AtLeast-get c k d ((i, x) ∷ l) a e = ground (arith, AtLeast-get c k d l a.1)

pub get-take : (n k d : ℕ) (l : Stamped) → get k (take n l) ≡ some d → get k l ≡ some d
unfolding get
get-take zero k d l e = cc
get-take (suc n) k d [] e = e
get-take (suc n) k d ((i, x) ∷ l) e = ground (arith, get-take n k d l)

-- What a prefix of a sorted list holds is no newer than what it leaves.
pub take-oldest :
    (n j k c d : ℕ) (l : Stamped)
    → IsSorted l
    → get j (take n l) ≡ some d
    → get k (take n l) ≡ none
    → get k l ≡ some c
    → d ≤ c
unfolding get
take-oldest zero j k c d l s e f g = cc
take-oldest (suc n) j k c d [] s e f g = cc
take-oldest (suc n) j k c d ((i, x) ∷ l) s e f g =
    ground (arith, AtLeast-get x k c l s.0, take-oldest n j k c d l s.1)

pub take-Distinct : (n : ℕ) (l : Stamped) → Distinct l → Distinct (take n l)
take-Distinct zero l d = tt
take-Distinct (suc n) [] d = tt
take-Distinct (suc n) ((i, x) ∷ l) d = (absent, take-Distinct n l d.1)
  where
    absent : get i (take n l) ≡ none
    absent = elim (Option-cases (get i (take n l))) [
      | inl e ↦ e
      | inr (y, e) ↦ cc (get-take n i y l e, d.0)
    ]

pub get-remove_all :
    (k : ℕ) (t : Stamped) (m : HashMap StoredResult)
    → get k (remove_all t m) ≡ (if is_some (get k t) then none else get k m)
unfolding remove_all get
get-remove_all k [] m = refl
get-remove_all k ((j, c) ∷ t) m = ground (arith, get-remove_all k t (remove j m), get-remove j k m)
