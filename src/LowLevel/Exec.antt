-- ===== src/LowLevel/Exec.antt =====
-- ExecContext of low_level/sys/mod.rs: what is handed to exec. A `CString` is a string without NUL, and
-- a pointer of a table the string that it points to, or none at the end.
pub mod Tables
use Prim.Native.Char.{code}
use core_shift.Base.{
  ℕ, String, Bool, true, false, Option, none, some, List, [], ◌∷◌, ◌++◌, length, ltb, ◌==◌,
  if◌then◌else◌,
}

unfoldable pub has_nul : String → Bool
has_nul String.[] = false
has_nul (String.◌∷◌ c s) = let rest = has_nul s in if code c == 0 then true else rest

-- `CString::new(s).ok()`.
unfoldable pub c_string : String → Option String
unfolding has_nul
c_string s = if has_nul s then none else some s

-- `filter_map(|s| CString::new(s).ok())`.
unfoldable pub c_strings : List String → List String
unfolding c_string
c_strings [] = []
c_strings (s ∷ v) = let rest = c_strings v in elim (c_string s) [ none ↦ rest | some c ↦ c ∷ rest ]

pub record ExecContext : Type 0 where
  pub argv : List String
  pub envp : Option (List String)
  pub cwd : Option String

abbrev pub or_false : List String → List String
or_false [] = "/bin/false" ∷ []
or_false (s ∷ v) = s ∷ v

abbrev all_c_strings : Option (List String) → Option (List String)
all_c_strings none = none
all_c_strings (some vars) = some (c_strings vars)

abbrev one_c_string : Option String → Option String
one_c_string none = none
one_c_string (some s) = c_string s

unfoldable pub new : List String → Option (List String) → Option String → ExecContext
unfolding c_strings c_string
new argv env cwd = record {
  argv = or_false (c_strings argv);
  envp = all_c_strings env;
  cwd = one_c_string cwd;
}

-- `ArrayVec<_, 64>`.
abbrev pub capacity : ℕ
capacity = 64

unfoldable pub try_push : List (Option String) → Option String → Option (List (Option String))
try_push ptrs p = if ltb (length ptrs) capacity then some (ptrs ++ (p ∷ [])) else none

-- The loop, which ends when a string does not fit.
unfoldable pub push_all : List (Option String) → List String → List (Option String)
unfolding try_push
push_all ptrs [] = ptrs
push_all ptrs (s ∷ v) = elim (try_push ptrs (some s)) [ none ↦ ptrs | some more ↦ push_all more v ]

unfoldable pub pop : List (Option String) → List (Option String)
pop [] = []
pop (p ∷ []) = []
pop (p ∷ q ∷ ptrs) = p ∷ pop (q ∷ ptrs)

-- `if ptrs.is_full() { ptrs.pop(); }`.
unfoldable pub make_room : List (Option String) → List (Option String)
unfolding pop
make_room ptrs = if length ptrs == capacity then pop ptrs else ptrs

-- `let _ = ptrs.try_push(ptr::null_mut());`.
unfoldable pub push_null : List (Option String) → List (Option String)
unfolding try_push
push_null ptrs = elim (try_push ptrs none) [ none ↦ ptrs | some more ↦ more ]

unfoldable pub get_argv_ptrs : ExecContext → List (Option String)
unfolding push_all make_room push_null
get_argv_ptrs ctx = push_null (make_room (push_all [] ctx.argv))

unfoldable pub get_envp_ptrs : ExecContext → Option (List (Option String))
unfolding push_all make_room push_null
get_envp_ptrs ctx = elim ctx.envp [
  | none ↦ none
  | some envp ↦ some (push_null (make_room (push_all [] envp)))
]
