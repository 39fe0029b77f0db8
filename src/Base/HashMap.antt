-- ===== src/Base/HashMap.antt =====
-- `std::collections::HashMap` with numeric keys, as an association list. The order of the list is
-- the order in which the map iterates, which the program leaves open.
use Prim.Native.Nat.{ℕ, suc, ◌≤◌}
use mathlib.Core.Path.{◌≡◌, refl}
use mathlib.Core.Logic.{◌≢◌}
use mathlib.Core.Bool.{Bool, true}
use mathlib.Core.Option.{Option, none, some}
use mathlib.Core.List.{List, [], ◌∷◌}
use native.Mathlib.Omega.{arith}
use core_shift.Base.Tests.{◌==◌, if◌then◌else◌, is_some}
use core_shift.Base.Lists.{length}

abbrev pub HashMap {ℓ} : Type ℓ → Type ℓ
HashMap V = List (ℕ × V)

module _ {ℓ} {V : Type ℓ} where
  unfoldable pub get : ℕ → HashMap V → Option V
  get k [] = none
  get k ((j, v) ∷ m) = if j == k then some v else get k m

  unfoldable pub insert : ℕ → V → HashMap V → HashMap V
  insert k v [] = (k, v) ∷ []
  insert k v ((j, w) ∷ m) = if j == k then (k, v) ∷ m else (j, w) ∷ insert k v m

  unfoldable pub remove : ℕ → HashMap V → HashMap V
  remove k [] = []
  remove k ((j, v) ∷ m) = let rest = remove k m in if j == k then rest else (j, v) ∷ rest

  abbrev pub contains_key : ℕ → HashMap V → Bool
  contains_key k m = is_some (get k m)

  pub get-insert :
      (k j : ℕ) (v : V) (m : HashMap V)
      → get j (insert k v m) ≡ (if k == j then some v else get j m)
  unfolding get insert
  get-insert k j v [] = refl
  get-insert k j v ((i, w) ∷ m) = ground (arith, get-insert k j v m)

  pub get-remove :
      (k j : ℕ) (m : HashMap V) → get j (remove k m) ≡ (if k == j then none else get j m)
  unfolding get remove
  get-remove k j [] = ground arith
  get-remove k j ((i, w) ∷ m) = ground (arith, get-remove k j m)

  pub get-insert_self : (k : ℕ) (v : V) (m : HashMap V) → get k (insert k v m) ≡ some v
  get-insert_self k v m = ground (arith, get-insert k k v m)

  pub get-insert_ne : (k j : ℕ) (v : V) (m : HashMap V) → k ≢ j → get j (insert k v m) ≡ get j m
  get-insert_ne k j v m h = ground (arith, get-insert k j v m)

  pub get-remove_self : (k : ℕ) (m : HashMap V) → get k (remove k m) ≡ none
  get-remove_self k m = ground (arith, get-remove k k m)

  pub get-remove_ne : (k j : ℕ) (m : HashMap V) → k ≢ j → get j (remove k m) ≡ get j m
  get-remove_ne k j m h = ground (arith, get-remove k j m)

  -- No key stands twice, which a `HashMap` guarantees.
  abbrev pub Distinct : HashMap V → Type ℓ
  Distinct [] = Unit
  Distinct ((k, v) ∷ m) = (get k m ≡ none) × Distinct m

  pub insert-Distinct : (k : ℕ) (v : V) (m : HashMap V) → Distinct m → Distinct (insert k v m)
  unfolding insert get
  insert-Distinct k v [] d = (refl, tt)
  insert-Distinct k v ((j, w) ∷ m) d = ground (arith, get-insert k j v m, insert-Distinct k v m d.1)

  pub remove-Distinct : (k : ℕ) (m : HashMap V) → Distinct m → Distinct (remove k m)
  unfolding remove get
  remove-Distinct k [] d = tt
  remove-Distinct k ((j, w) ∷ m) d = ground (arith, get-remove k j m, remove-Distinct k m d.1)

  remove_absent : (k : ℕ) (m : HashMap V) → get k m ≡ none → remove k m ≡ m
  unfolding get remove
  remove_absent k [] e = refl
  remove_absent k ((j, w) ∷ m) e = ground (arith, remove_absent k m)

  -- Without repeated keys, a removal takes one entry, or none.
  pub length-remove :
      (k : ℕ) (m : HashMap V)
      → Distinct m
      → is_some (get k m) ≡ true
      → suc (length (remove k m)) ≡ length m
  unfolding get remove
  length-remove k [] d h = cc
  length-remove k ((j, w) ∷ m) d h = ground (arith, length-remove k m d.1, remove_absent k m)

  pub length-insert-le : (k : ℕ) (v : V) (m : HashMap V) → length (insert k v m) ≤ suc (length m)
  unfolding insert
  length-insert-le k v [] = omega arith
  length-insert-le k v ((j, w) ∷ m) = ground (arith, length-insert-le k v m)

pub ruleset map_laws = (get-insert, get-remove)
