-- ===== src/Cpplint/FunctionState/Size.antt =====
-- When `_FunctionState` of cpplint.py reports a function, and at what level.
use mathlib.Core.Path.{subst}
use native.Mathlib.Nat.{pow-le-pow_right, one-le-pow}
use yarf.Common.{
  ℕ, zero, suc, ◌+◌, ◌*◌, ◌/◌, ◌^◌, ◌≤◌, ◌<◌, ◌≡◌, refl, ◌∙◌, ap, sym, arith, Bool, true, false,
  ◌||◌, inl, inr, ◌⊎◌, Option, none, some, List, [], ◌∷◌, ◌++◌, ltb, if◌then◌else◌, replicate,
  Bool-cases,
}
use yarf.Text.{Text, codes, is_prefix}
use yarf.Cpplint.FunctionState.{
  FunctionState, begin, count, end, Report, base_trigger, capped, check, Call, begins, counts,
  leaves, run,
}

run-append :
    (before after : List Call) (s : FunctionState)
    → run (before ++ after) s ≡ run after (run before s)
unfolding run
run-append [] after s = refl
run-append (begins name ∷ before) after s = run-append before after (begin name s)
run-append (counts ∷ before) after s = run-append before after (count s)
run-append (leaves ∷ before) after s = run-append before after (end s)

run-counts :
    (n k : ℕ) (name : Text)
    → run
        (replicate n counts)
        (record { in_a_function = true; lines_in_function = k; current_function = name })
      ≡ record { in_a_function = true; lines_in_function = k + n; current_function = name }
unfolding run count
run-counts zero k name =
    ap (λ (m : ℕ). record { in_a_function = true; lines_in_function = m; current_function = name })
      (omega arith)
run-counts (suc n) k name =
    run-counts n (k + 1) name
    ∙ ap
        (λ (m : ℕ). record { in_a_function = true; lines_in_function = m; current_function = name })
        (omega arith)

run-counts_outside :
    (n k : ℕ) (name : Text)
    → run
        (replicate n counts)
        (record { in_a_function = false; lines_in_function = k; current_function = name })
      ≡ record { in_a_function = false; lines_in_function = k; current_function = name }
unfolding run count
run-counts_outside zero k name = refl
run-counts_outside (suc n) k name = run-counts_outside n k name

-- Whatever was read before, when a function begins and `n` lines are counted, `Check` reports exactly
-- if they are more than the base of its name times 2 to the verbosity, with these lines, this bound
-- and a level of at most 5; when a function ends, `Check` reports nothing, however many lines are
-- counted.
pub check-run :
    (int_log2 : ℕ → ℕ) (v : ℕ) (before : List Call) (s : FunctionState) (name : Text) (n : ℕ)
    → (check int_log2 v (run (before ++ (begins name ∷ replicate n counts)) s) ≡ (
        if ltb (base_trigger name * 2 ^ v) n
        then some (record {
          error_level = capped (int_log2 (n / base_trigger name));
          function = name;
          lines = n;
          trigger = base_trigger name * 2 ^ v;
        })
        else none))
      × (check int_log2 v (run (before ++ (leaves ∷ replicate n counts)) s) ≡ none)
unfolding check run begin end
check-run int_log2 v before s name n =
    let now = run before s in
    (
      ap (check int_log2 v) (
          run-append before (begins name ∷ replicate n counts) s
          ∙ run-counts n 0 name
          ∙ ap
              (λ (m : ℕ). record {
                in_a_function = true;
                lines_in_function = m;
                current_function = name;
              })
              (omega arith)),
      ap (check int_log2 v) (
          run-append before (leaves ∷ replicate n counts) s
          ∙ run-counts_outside n now.lines_in_function now.current_function),
    )

-- The logarithm to the base 2, rounded down.
pub record IsIntLog (int_log2 : ℕ → ℕ) : Type 0 where
  pub low : (k : ℕ) → 1 ≤ k → 2 ^ int_log2 k ≤ k
  pub high : (k : ℕ) → 1 ≤ k → k < 2 ^ suc (int_log2 k)

-- A power that is below a later one has the smaller exponent.
exponent_le : (i j : ℕ) → 2 ^ i < 2 ^ suc j → i ≤ j
exponent_le i j h = elim (Bool-cases (ltb j i)) [
  | inl e ↦ absurd (differ (pow-le-pow_right (omega arith) (above e)))
  | inr e ↦ below e
]
  where
    above : ltb j i ≡ true → suc j ≤ i
    above e = ground (arith, e)

    below : ltb j i ≡ false → i ≤ j
    below e = ground (arith, e)

    differ : 2 ^ suc j ≤ 2 ^ i → ⊥
    differ k = omega (arith, h, k)

base_trigger-cases : (name : Text) → (base_trigger name ≡ 250) ⊎ (base_trigger name ≡ 400)
unfolding base_trigger
base_trigger-cases name =
    elim (Bool-cases (is_prefix (codes "TEST") name || is_prefix (codes "Test") name)) [
      | inl e ↦ inr (ap (λ b. if b then 400 else 250) e)
      | inr e ↦ inl (ap (λ b. if b then 400 else 250) e)
    ]

-- More lines than a multiple of the base hold the base as often.
quotient_le : (base m n : ℕ) → (base ≡ 250) ⊎ (base ≡ 400) → base * m < n → m ≤ n / base
quotient_le base m n (inl e) h =
    subst (λ (b : ℕ). b * m < n → m ≤ n / b) (sym e) (λ k. omega (arith, k)) h
quotient_le base m n (inr e) h =
    subst (λ (b : ℕ). b * m < n → m ≤ n / b) (sym e) (λ k. omega (arith, k)) h

capped_le : (k : ℕ) → capped k ≤ 5
capped_le k = ground arith

le_capped : (v k : ℕ) → v ≤ k → v ≤ 5 → v ≤ capped k
le_capped v k h l = ground arith

level_of : Option Report → ℕ
level_of none = 0
level_of (some r) = r.error_level

-- Where a function is reported, its level is at most 5, and it is not below the verbosity if that
-- is at most 5.
pub check-error_level :
    (int_log2 : ℕ → ℕ)
    → IsIntLog int_log2
    → (v : ℕ) (s : FunctionState) (r : Report) → check int_log2 v s ≡ some r
    → (r.error_level ≤ 5) × ((v ≤ 5) → v ≤ r.error_level)
unfolding check level_of
check-error_level int_log2 log v s r h =
    choose s.in_a_function (ltb (base_trigger s.current_function * 2 ^ v) s.lines_in_function)
      (λ e. over e) h
  where
    more :
        ltb (base_trigger s.current_function * 2 ^ v) s.lines_in_function ≡ true
        → base_trigger s.current_function * 2 ^ v < s.lines_in_function
    more e = ground (arith, e)

    between : {a b c : ℕ} → a ≤ b → b < c → a < c
    between p q = omega (arith, p, q)

    positive : {a b : ℕ} → 1 ≤ a → a ≤ b → 1 ≤ b
    positive p q = omega (arith, p, q)

    over :
        ltb (base_trigger s.current_function * 2 ^ v) s.lines_in_function ≡ true
        → v ≤ int_log2 (s.lines_in_function / base_trigger s.current_function)
    over e =
        let low =
          quotient_le (base_trigger s.current_function) (2 ^ v) s.lines_in_function
            (base_trigger-cases s.current_function) (more e) in
        exponent_le v _ (between low (log.high _ (positive (one-le-pow v 2 (omega arith)) low)))

    choose :
        (b c : Bool)
        → (c ≡ true → v ≤ int_log2 (s.lines_in_function / base_trigger s.current_function))
        → (if b
            then (if c
                then some (record {
                  error_level =
                      capped (int_log2 (s.lines_in_function / base_trigger s.current_function));
                  function = s.current_function;
                  lines = s.lines_in_function;
                  trigger = base_trigger s.current_function * 2 ^ v;
                })
                else none)
            else none)
          ≡ some r
        → (r.error_level ≤ 5) × ((v ≤ 5) → v ≤ r.error_level)
    choose true true f e =
        let same = ap level_of e in
        (
          subst (λ (k : ℕ). k ≤ 5) same
              (capped_le (int_log2 (s.lines_in_function / base_trigger s.current_function))),
          λ l.
              subst (λ (k : ℕ). v ≤ k) same
                (le_capped v (int_log2 (s.lines_in_function / base_trigger s.current_function))
                  (f refl) l),
        )
    choose true false f e = cc
    choose false c f e = cc
