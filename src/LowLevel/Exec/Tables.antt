-- ===== src/LowLevel/Exec/Tables.antt =====
-- The tables of pointers for exec (low_level/sys/mod.rs), against the list of strings.
use core_shift.Base.{
  ℕ, zero, suc, ◌-◌, ◌≤◌, ◌<◌, ◌≡◌, refl, ◌∙◌, ap, Option, none, some, List, [], ◌∷◌, ◌++◌, map,
  length, take, String, arith, false, ◌⊎◌, inl, inr, length-append, length-take, take_all,
  take-take, Option-cases, All,
}
use mathlib.Core.List.{append-nil, append_assoc}
use mathlib.Core.Option.{map as map_option}
use core_shift.LowLevel.Exec.{
  ExecContext, capacity, try_push, push_all, pop, make_room, push_null, get_argv_ptrs,
  get_envp_ptrs, new, c_strings, has_nul, c_string, or_false,
}

abbrev pub pointers : List String → List (Option String)
pointers v = map some v

-- The room left takes one more.
take-room :
    (n m : ℕ) (p : Option String) (ptrs rest : List (Option String))
    → n ≡ suc m
    → (ptrs ++ (p ∷ [])) ++ take m rest ≡ ptrs ++ take n (p ∷ rest)
take-room n m p ptrs rest e = rw (e, append_assoc ptrs (p ∷ []) (take m rest)) refl

-- What there is room for is pushed.
push_all-take :
    (v : List String) (ptrs : List (Option String))
    → length ptrs ≤ capacity
    → push_all ptrs v ≡ ptrs ++ take (capacity - length ptrs) (pointers v)
unfolding push_all try_push
push_all-take [] ptrs h =
    rw (take_all (capacity - length ptrs) (pointers []) (omega arith), append-nil ptrs) refl
push_all-take (s ∷ v) ptrs h = ground (
  arith,
  push_all-take v (ptrs ++ (some s ∷ [])),
  length-append ptrs (some s ∷ []),
  append-nil ptrs,
  take-room (capacity - length ptrs) (capacity - length (ptrs ++ (some s ∷ []))) (some s) ptrs
      (pointers v),
)

pop-append : (ptrs : List (Option String)) (p : Option String) → pop (ptrs ++ (p ∷ [])) ≡ ptrs
unfolding pop
pop-append [] p = refl
pop-append (q ∷ []) p = refl
pop-append (q ∷ r ∷ ptrs) p = ap (λ l. q ∷ l) (pop-append (r ∷ ptrs) p)

pop-take : (n : ℕ) (ptrs : List (Option String)) → length ptrs ≡ suc n → pop ptrs ≡ take n ptrs
unfolding pop
pop-take n [] h = ground arith
pop-take zero (p ∷ []) h = refl
pop-take (suc n) (p ∷ []) h = ground arith
pop-take zero (p ∷ q ∷ ptrs) h = ground arith
pop-take (suc n) (p ∷ q ∷ ptrs) h = ground (arith, pop-take n (q ∷ ptrs))

-- The table that is made of a list of strings.
abbrev table : List String → List (Option String)
table v = push_null (make_room (push_all [] v))

push_null_room :
    (ptrs : List (Option String)) → length ptrs < capacity → push_null ptrs ≡ ptrs ++ (none ∷ [])
unfolding push_null try_push
push_null_room ptrs h = ground arith

make_room_full : (ptrs : List (Option String)) → length ptrs ≡ capacity → make_room ptrs ≡ pop ptrs
unfolding make_room
make_room_full ptrs h = ground arith

make_room_short : (ptrs : List (Option String)) → length ptrs < capacity → make_room ptrs ≡ ptrs
unfolding make_room
make_room_short ptrs h = ground arith

fits : (n m : ℕ) → (suc n ≤ m) ⊎ (m ≤ n)
fits n m = ground arith

-- At any capacity, so that no `take` is opened.
make_room-take :
    (n : ℕ) (ptrs : List (Option String))
    → suc n ≡ capacity
    → make_room (take (suc n) ptrs) ≡ take n ptrs
make_room-take n ptrs e = elim (fits n (length ptrs)) [
  | inl h ↦
      let full : length (take (suc n) ptrs) ≡ suc n = omega (arith, length-take (suc n) ptrs) in
      make_room_full (take (suc n) ptrs) (full ∙ e)
      ∙ pop-take n (take (suc n) ptrs) full
      ∙ take-take n (suc n) ptrs (omega arith)
  | inr h ↦
      rw (take_all (suc n) ptrs (omega arith), take_all n ptrs (omega arith))
        (make_room_short ptrs (omega arith))
]

push_null-take :
    (n : ℕ) (ptrs : List (Option String))
    → n < capacity
    → push_null (take n ptrs) ≡ take n ptrs ++ (none ∷ [])
push_null-take n ptrs h = push_null_room (take n ptrs) (omega (arith, length-take n ptrs))

table-take : (v : List String) → table v ≡ take 63 (pointers v) ++ (none ∷ [])
table-take v =
    rw (push_all-take v [] (omega arith), make_room-take 63 (pointers v) refl)
      (push_null-take 63 (pointers v) (omega arith))

-- The arguments' table, and the environment's if there is one, hold the first 63 strings and a null
-- pointer, which stands for the end: whatever there is beyond is left out.
pub get_argv_ptrs_truncated :
    (ctx : ExecContext)
    → (get_argv_ptrs ctx ≡ take 63 (pointers ctx.argv) ++ (none ∷ []))
      × (get_envp_ptrs ctx ≡ map_option (λ envp. take 63 (pointers envp) ++ (none ∷ [])) ctx.envp)
unfolding get_argv_ptrs get_envp_ptrs
get_argv_ptrs_truncated ctx = (
  table-take ctx.argv,
  elim (Option-cases ctx.envp) [
    | inl e ↦ rw (e) refl
    | inr (envp, e) ↦ rw (e) (ap some (table-take envp))
  ],
)

pub NulFree : String → Type 0
NulFree s = has_nul s ≡ false

c_string-NulFree : (s c : String) → c_string s ≡ some c → NulFree c
unfolding NulFree c_string
c_string-NulFree s c e = ground (arith, e)

kept-NulFree :
    (c : Option String) (v : List String)
    → ((t : String) → c ≡ some t → NulFree t)
    → All NulFree v
    → All NulFree (elim c [ none ↦ v | some t ↦ t ∷ v ])
kept-NulFree none v h a = a
kept-NulFree (some t) v h a = (h t refl, a)

c_strings-NulFree : (v : List String) → All NulFree (c_strings v)
unfolding c_strings
c_strings-NulFree [] = tt
c_strings-NulFree (s ∷ v) =
    kept-NulFree (c_string s) (c_strings v) (c_string-NulFree s) (c_strings-NulFree v)

or_false-NulFree :
    (v : List String)
    → All NulFree v
    → ((program : String) × (arguments : List String) × (or_false v ≡ program ∷ arguments))
      × All NulFree (or_false v)
unfolding NulFree has_nul
or_false-NulFree [] a = (("/bin/false", [], refl), (refl, tt))
or_false-NulFree (s ∷ v) a = ((s, v, refl), a)

-- Whatever the strings, the context that is made of them has a program to run, its first argument,
-- and none of its arguments holds a NUL.
pub new_runnable :
    (argv : List String) (env : Option (List String)) (cwd : Option String)
    → let ctx = new argv env cwd in
      ((program : String) × (arguments : List String) × (ctx.argv ≡ program ∷ arguments))
      × All NulFree ctx.argv
unfolding new
new_runnable argv env cwd = or_false-NulFree (c_strings argv) (c_strings-NulFree argv)
