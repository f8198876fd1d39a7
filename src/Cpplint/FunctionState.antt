-- ===== src/Cpplint/FunctionState.antt =====
-- `_FunctionState` of cpplint.py: the name of the function that is read, and the number of its lines.
-- Python's int(math.log(k, 2)) is a parameter.
pub mod Size
mod Tests
use yarf.Common.{
  ℕ, suc, ◌+◌, ◌*◌, ◌/◌, ◌^◌, Bool, true, false, ◌||◌, Option, none, some, List, [], ◌∷◌, ltb,
  if◌then◌else◌,
}
use yarf.Text.{Text, codes, is_prefix}

pub record FunctionState : Type 0 where
  pub in_a_function : Bool
  pub lines_in_function : ℕ
  pub current_function : Text

abbrev pub new_state : FunctionState
new_state = record { in_a_function = false; lines_in_function = 0; current_function = [] }

unfoldable pub begin : Text → FunctionState → FunctionState
begin function_name s = record s {
  in_a_function = true;
  lines_in_function = 0;
  current_function = function_name;
}

unfoldable pub count : FunctionState → FunctionState
count s = if s.in_a_function then record s { lines_in_function = s.lines_in_function + 1 } else s

unfoldable pub end : FunctionState → FunctionState
end s = record s { in_a_function = false }

-- What `Check` reports: the level of the error, and what its text names.
pub record Report : Type 0 where
  pub error_level : ℕ
  pub function : Text
  pub lines : ℕ
  pub trigger : ℕ

-- _NORMAL_TRIGGER and _TEST_TRIGGER, by the name of the function
unfoldable pub base_trigger : Text → ℕ
base_trigger name =
    if is_prefix (codes "TEST") name || is_prefix (codes "Test") name then 400 else 250

-- The level is at most 5.
abbrev pub capped : ℕ → ℕ
capped error_level = if ltb 5 error_level then 5 else error_level

-- Check, under the verbosity of the module; `int_log2` is int(math.log(k, 2)).
unfoldable pub check : (ℕ → ℕ) → ℕ → FunctionState → Option Report
check int_log2 verbose_level s =
    let base = base_trigger s.current_function in
    let trigger = base * 2 ^ verbose_level in
    if s.in_a_function
    then (if ltb trigger s.lines_in_function
        then some (record {
          error_level = capped (int_log2 (s.lines_in_function / base));
          function = s.current_function;
          lines = s.lines_in_function;
          trigger = trigger;
        })
        else none)
    else none

-- The calls of a run over a file.
pub data Call : Type 0 where
  begins : Text → Call
  counts : Call
  leaves : Call

unfoldable pub run : List Call → FunctionState → FunctionState
run [] s = s
run (begins name ∷ calls) s = run calls (begin name s)
run (counts ∷ calls) s = run calls (count s)
run (leaves ∷ calls) s = run calls (end s)
