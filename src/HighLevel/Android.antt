-- ===== src/HighLevel/Android.antt =====
-- high_level/android.rs: the system's properties and the argument lists of the two system tools. The
-- properties are the Android C library's: what it answers is an argument.
use core_shift.Base.{ℕ, String, Bool, true, Option, none, List, ◌∷◌, ◌==◌, false, some}
use core_shift.LowLevel.Exec.{c_string}
use core_shift.Core.Types.{CancelPolicy}

pub record ExecConfig : Type 0 where
  pub timeout_ms : Option ℕ
  pub kill_grace_ms : ℕ
  pub cancel : CancelPolicy
  pub max_output : ℕ

pub record AndroidExecRequest : Type 0 where
  pub argv : List String
  pub stdin : Option (List ℕ)
  pub capture_stdout : Bool
  pub capture_stderr : Bool
  pub timeout_ms : Option ℕ
  pub kill_grace_ms : ℕ
  pub cancel : CancelPolicy
  pub max_output : ℕ

unfoldable pub cmd : String → List String → ExecConfig → AndroidExecRequest
cmd service args cfg = record {
  argv = "/system/bin/cmd" ∷ service ∷ args;
  stdin = none;
  capture_stdout = true;
  capture_stderr = true;
  timeout_ms = cfg.timeout_ms;
  kill_grace_ms = cfg.kill_grace_ms;
  cancel = cfg.cancel;
  max_output = cfg.max_output;
}

unfoldable pub dumpsys : String → List String → ExecConfig → AndroidExecRequest
dumpsys service args cfg = record {
  argv = "/system/bin/dumpsys" ∷ service ∷ args;
  stdin = none;
  capture_stdout = true;
  capture_stderr = true;
  timeout_ms = cfg.timeout_ms;
  kill_grace_ms = cfg.kill_grace_ms;
  cancel = cfg.cancel;
  max_output = cfg.max_output;
}

-- `property` is the text of a property whose value is not empty.
unfoldable pub getprop : (String → Option String) → String → Option String
unfolding c_string
getprop property key = elim (c_string key) [ none ↦ none | some k ↦ property k ]

-- `set` is what `__system_property_set` returns, which is 0 if it succeeds.
unfoldable pub setprop : (String → String → ℕ) → String → String → Bool
unfolding c_string
setprop set key value = elim (c_string key) [
  | none ↦ false
  | some k ↦ elim (c_string value) [ none ↦ false | some v ↦ set k v == 0 ]
]
