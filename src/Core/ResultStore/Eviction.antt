-- ===== src/Core/ResultStore/Eviction.antt =====
-- ResultModule::evict_results (core/result.rs): what is dropped, and what is kept.
use core_shift.Base.{
  ℕ, suc, ◌+◌, ◌-◌, ◌≤◌, ◌<◌, ◌≡◌, refl, ap, Option, none, some, [], ◌∷◌, length, take, length-take,
  arith, if◌then◌else◌, leb, is_some, Option-cases, inl, inr, true,
}
use core_shift.Base.HashMap.{
  HashMap, get, remove, Distinct, get-remove, remove-Distinct, length-remove,
}
use core_shift.Core.Types.{StoredResult}
use core_shift.Core.ResultStore.{
  Stamped, stamps, sort_by_created, remove_all, retain_fresh, drop_oldest, evict_results, ttl,
  max_results,
}
use core_shift.Core.ResultStore.Sorting.{
  get-stamps, stamps-Distinct, length-stamps, get-sort_by_created, sort_by_created-Distinct,
  length-sort_by_created, sort_by_created-IsSorted, take-oldest, take-Distinct, get-take,
  get-remove_all,
}

-- A result that is stored for at most five minutes.
abbrev pub IsFresh : ℕ → StoredResult → Type 0
IsFresh now r = now - r.created ≤ ttl

abbrev pub fresh : ℕ → Option StoredResult → Option StoredResult
fresh now none = none
fresh now (some r) = if leb (now - r.created) ttl then some r else none

pub get-retain_fresh :
    (now k : ℕ) (m : HashMap StoredResult)
    → Distinct m
    → get k (retain_fresh now m) ≡ fresh now (get k m)
unfolding get retain_fresh
get-retain_fresh now k [] d = refl
get-retain_fresh now k ((j, r) ∷ m) d = ground (arith, get-retain_fresh now k m d.1, d.0)

pub retain_fresh-Distinct :
    (now : ℕ) (m : HashMap StoredResult) → Distinct m → Distinct (retain_fresh now m)
unfolding retain_fresh
retain_fresh-Distinct now [] d = tt
retain_fresh-Distinct now ((j, r) ∷ m) d =
    ground (arith, get-retain_fresh now j m d.1, d.0, retain_fresh-Distinct now m d.1)

-- Every key of `t` stands in `m`.
abbrev Covers : HashMap StoredResult → Stamped → Type 0
Covers m t = (k d : ℕ) → get k t ≡ some d → is_some (get k m) ≡ true

length-remove_all :
    (t : Stamped) (m : HashMap StoredResult)
    → Distinct t
    → Distinct m
    → Covers m t
    → length (remove_all t m) + length t ≡ length m
unfolding remove_all get
length-remove_all [] m dt dm c = omega arith
length-remove_all ((j, x) ∷ t) m dt dm c =
    let first : suc (length (remove j m)) ≡ length m =
      length-remove j m dm (c j x (ground arith)) in
    let others : length (remove_all t (remove j m)) + length t ≡ length (remove j m) =
      length-remove_all t (remove j m) dt.1 (remove-Distinct j m dm)
        (λ k d e. ground (arith, get-remove j k m, c k d, dt.0)) in
    omega arith

module _ (m : HashMap StoredResult) (d : Distinct m) where
  abbrev sorted : Stamped
  sorted = sort_by_created (stamps m)

  abbrev excess : Stamped
  excess = take (length m - max_results) sorted

  sorted-Distinct : Distinct sorted
  sorted-Distinct = sort_by_created-Distinct (stamps m) (stamps-Distinct m d)

  get-sorted : (k : ℕ) (r : StoredResult) → get k m ≡ some r → get k sorted ≡ some r.created
  get-sorted k r e = rw (get-sort_by_created k (stamps m) (stamps-Distinct m d), get-stamps k m, e)

  excess-Covers : Covers m excess
  excess-Covers k c e = ground (
    arith,
    get-take (length m - max_results) k c sorted e,
    get-sort_by_created k (stamps m) (stamps-Distinct m d),
    get-stamps k m,
  )

  length-excess : length excess ≡ length m - max_results
  length-excess = omega (
    arith,
    length-take (length m - max_results) sorted,
    length-sort_by_created (stamps m),
    length-stamps m,
  )

  length-drop_oldest : length (drop_oldest m) ≤ max_results
  unfolding drop_oldest
  length-drop_oldest = ground (
    arith,
    length-remove_all excess m (take-Distinct (length m - max_results) sorted sorted-Distinct) d
        excess-Covers,
    length-excess,
  )

  drop_oldest-subset :
      (k : ℕ) (r : StoredResult) → get k (drop_oldest m) ≡ some r → get k m ≡ some r
  unfolding drop_oldest
  drop_oldest-subset k r e = ground (arith, get-remove_all k excess m)

  pub drop_oldest-keeps : length m ≤ max_results → drop_oldest m ≡ m
  unfolding drop_oldest
  drop_oldest-keeps h = ground arith

  dropped_cause :
      (j : ℕ) (r : StoredResult)
      → get j m ≡ some r
      → get j (drop_oldest m) ≡ none
      → (is_some (get j excess) ≡ true) × (max_results < length m)
  unfolding drop_oldest
  dropped_cause j r e gone = ground (arith, get-remove_all j excess m)

  taken :
      (j : ℕ) (r : StoredResult)
      → get j m ≡ some r
      → get j (drop_oldest m) ≡ none
      → get j excess ≡ some r.created
  taken j r e gone = elim (Option-cases (get j excess)) [
    | inl absent ↦ cc (ap is_some absent, (dropped_cause j r e gone).0)
    | inr (x, present) ↦
        cc (present, get-take (length m - max_results) j x sorted present, get-sorted j r e)
  ]

  -- A result that is dropped is no newer than one that stays.
  drop_oldest-order :
      (j k : ℕ) (r r' : StoredResult)
      → get j m ≡ some r
      → get j (drop_oldest m) ≡ none
      → get k (drop_oldest m) ≡ some r'
      → r.created ≤ r'.created
  unfolding drop_oldest
  drop_oldest-order j k r r' e gone kept =
      let absent : get k excess ≡ none = ground (arith, get-remove_all k excess m) in
      take-oldest (length m - max_results) j k r'.created r.created sorted
        (sort_by_created-IsSorted (stamps m)) (taken j r e gone) absent
        (get-sorted k r' (drop_oldest-subset k r' kept))

-- After an eviction from a table that holds no id twice, at most a thousand results are stored, and
-- each of them was stored before under the same id and is at most five minutes old.
pub evict_results_bounds :
    (now : ℕ) (m : HashMap StoredResult)
    → Distinct m
    → (length (evict_results now m) ≤ max_results)
      × ((k : ℕ) (r : StoredResult)
          → get k (evict_results now m) ≡ some r
          → (get k m ≡ some r) × IsFresh now r)
unfolding evict_results
evict_results_bounds now m d = (
  length-drop_oldest (retain_fresh now m) (retain_fresh-Distinct now m d),
  λ k r e. ground (
    arith,
    drop_oldest-subset (retain_fresh now m) (retain_fresh-Distinct now m d) k r e,
    get-retain_fresh now k m d,
  ),
)

-- In a table that holds no id twice, a result at most five minutes old is dropped by an eviction
-- only if more than a thousand such results are stored, and then no result that stays is older than
-- it.
pub evict_results_oldest_first :
    (now : ℕ) (m : HashMap StoredResult) (j : ℕ) (r : StoredResult)
    → Distinct m
    → get j m ≡ some r
    → IsFresh now r
    → get j (evict_results now m) ≡ none
    → (max_results < length (retain_fresh now m))
      × ((k : ℕ) (r' : StoredResult)
          → get k (evict_results now m) ≡ some r'
          → r.created ≤ r'.created)
unfolding evict_results
evict_results_oldest_first now m j r d e young gone = (
  many,
  λ k r' kept.
      drop_oldest-order (retain_fresh now m) (retain_fresh-Distinct now m d) j k r r'
        (ground (arith, get-retain_fresh now j m d)) gone kept,
)
  where
    young' : get j (retain_fresh now m) ≡ some r
    young' = ground (arith, get-retain_fresh now j m d)

    many : max_results < length (retain_fresh now m)
    many = (dropped_cause (retain_fresh now m) (retain_fresh-Distinct now m d) j r young' gone).1
