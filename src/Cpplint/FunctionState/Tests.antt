-- ===== src/Cpplint/FunctionState/Tests.antt =====
-- Runs of `_FunctionState` of cpplint.py, with a logarithm by halving.
use native.Mathlib.Nat.{two-pow-succ}
use yarf.Common.{
  ℕ, zero, suc, ◌/◌, ◌^◌, ◌≤◌, ◌<◌, ◌≡◌, refl, arith, true, false, inl, inr, none, some, List, [],
  ◌∷◌, ◌++◌, ltb, if◌then◌else◌, replicate, Bool-cases,
}
use yarf.Text.{codes, is_prefix}
use yarf.Cpplint.FunctionState.{
  FunctionState, new_state, Report, base_trigger, check, Call, begins, counts, leaves, run,
}
use yarf.Cpplint.FunctionState.Size.{IsIntLog, check-run, check-error_level}

unfoldable halvings : ℕ → ℕ → ℕ
halvings zero k = 0
halvings (suc fuel) k = let rest = halvings fuel (k / 2) in if ltb k 2 then 0 else suc rest

abbrev int_log2 : ℕ → ℕ
int_log2 k = halvings k k

at_least_two : (k : ℕ) → ltb k 2 ≡ false → 2 ≤ k
at_least_two k e = ground (arith, e)

smaller : {fuel : ℕ} (k : ℕ) → k ≤ suc fuel → ltb k 2 ≡ false → k / 2 ≤ fuel
smaller k h e = omega (arith, h, at_least_two k e)

positive : (k : ℕ) → ltb k 2 ≡ false → 1 ≤ k / 2
positive k e = omega (arith, at_least_two k e)

halvings_low : (fuel k : ℕ) → k ≤ fuel → 1 ≤ k → 2 ^ halvings fuel k ≤ k
unfolding halvings
halvings_low zero k h l = absurd (omega (arith, h, l))
halvings_low (suc fuel) k h l = elim (Bool-cases (ltb k 2)) [
  | inl e ↦ rw e l
  | inr e ↦ rw e (next (halvings_low fuel (k / 2)) e)
]
  where
    next :
        (k / 2 ≤ fuel → 1 ≤ k / 2 → 2 ^ halvings fuel (k / 2) ≤ k / 2)
        → ltb k 2 ≡ false
        → 2 ^ suc (halvings fuel (k / 2)) ≤ k
    next half e = omega (
      arith,
      at_least_two k e,
      half (smaller k h e) (positive k e),
      two-pow-succ (halvings fuel (k / 2)),
    )

halvings_high : (fuel k : ℕ) → k ≤ fuel → 1 ≤ k → k < 2 ^ suc (halvings fuel k)
unfolding halvings
halvings_high zero k h l = absurd (omega (arith, h, l))
halvings_high (suc fuel) k h l = elim (Bool-cases (ltb k 2)) [
  | inl e ↦ rw e (few e)
  | inr e ↦ rw e (next (halvings_high fuel (k / 2)) e)
]
  where
    few : ltb k 2 ≡ true → k < 2 ^ 1
    few e = ground (arith, e)

    next :
        (k / 2 ≤ fuel → 1 ≤ k / 2 → k / 2 < 2 ^ suc (halvings fuel (k / 2)))
        → ltb k 2 ≡ false
        → k < 2 ^ suc (suc (halvings fuel (k / 2)))
    next half e = omega (
      arith,
      at_least_two k e,
      half (smaller k h e) (positive k e),
      two-pow-succ (suc (halvings fuel (k / 2))),
    )

int_log2-IsIntLog : IsIntLog int_log2
int_log2-IsIntLog = record {
  low = λ k l. halvings_low k k (omega arith) l;
  high = λ k l. halvings_high k k (omega arith) l;
}

abbrev past : List Call
past = begins (codes "main") ∷ counts ∷ leaves ∷ counts ∷ []

check-run_example :
    (check int_log2 0 (run (past ++ (begins (codes "f") ∷ replicate 2 counts)) new_state) ≡ none)
    × (check int_log2 0 (run (past ++ (leaves ∷ replicate 2 counts)) new_state) ≡ none)
unfolding base_trigger is_prefix
check-run_example = check-run int_log2 0 past new_state (codes "f") 2

-- A function of 1100 lines
abbrev long_function : FunctionState
long_function = record {
  in_a_function = true;
  lines_in_function = 1100;
  current_function = codes "f";
}

abbrev long_report : Report
long_report = record { error_level = 2; function = codes "f"; lines = 1100; trigger = 500 }

run_long_function : check int_log2 1 long_function ≡ some long_report
unfolding check halvings base_trigger is_prefix
run_long_function = refl

check-error_level_example : (long_report.error_level ≤ 5) × ((1 ≤ 5) → 1 ≤ long_report.error_level)
check-error_level_example =
    check-error_level int_log2 int_log2-IsIntLog 1 long_function long_report run_long_function
