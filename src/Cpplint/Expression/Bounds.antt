-- ===== src/Cpplint/Expression/Bounds.antt =====
-- Where `CloseExpression` of cpplint.py may end, on any lines whatever.
use mathlib.Core.Path.{subst}
use mathlib.Core.List.{reverse, reverse_aux}
use yarf.Common.{
  ℕ, zero, suc, ◌+◌, ◌≡◌, ◌≤◌, ◌<◌, refl, ◌∙◌, sym, ap, arith, Bool, true, false, ◌||◌, Option,
  none, some, List, [], ◌∷◌, ◌==◌, length, take, drop, get_elem?, Result, ok, raised, index_error,
  if◌then◌else◌,
}
use yarf.Text.{Text}
use yarf.Cpplint.Expression.{
  opens, closes, pairs, follows, after_operator, pop_all, Found, at, unclosed, open_with, Step,
  stop, next, pop_pair, at_semicolon, shift_left, pop_angle, end_step, begins, Place, find_end,
  close_loop, close_first, close_expression,
}

pop_pair_at :
    (fits : ℕ → Bool) (here n : ℕ) (stack : List ℕ)
    → pop_pair fits here stack ≡ stop (at n)
    → n ≡ here
pop_pair_at fits here n [] h = cc
pop_pair_at fits here n (top ∷ []) h = ground arith
pop_pair_at fits here n (top ∷ d ∷ stack) h = ground arith

pop_angle_at :
    (angle here n : ℕ) (stack : List ℕ) → pop_angle angle here stack ≡ stop (at n) → n ≡ here
pop_angle_at angle here n [] h = cc
pop_angle_at angle here n (top ∷ []) h = ground arith
pop_angle_at angle here n (top ∷ d ∷ stack) h = ground arith

shift_left_at : (here n : ℕ) (stack : List ℕ) → shift_left stack ≡ stop (at n) → n ≡ here
shift_left_at here n [] h = cc
shift_left_at here n (top ∷ []) h = ground arith
shift_left_at here n (top ∷ d ∷ stack) h = ground arith

at_semicolon_at : (here n : ℕ) (stack : List ℕ) → at_semicolon stack ≡ stop (at n) → n ≡ here
at_semicolon_at here n [] h = cc
at_semicolon_at here n (d ∷ stack) h = cc

-- Both branches of a test.
either :
    (here n : ℕ) (b : Bool) (x y : Step)
    → (x ≡ stop (at n) → n ≡ here)
    → (y ≡ stop (at n) → n ≡ here)
    → (if b then x else y) ≡ stop (at n)
    → n ≡ here
either here n true x y f g h = f h
either here n false x y f g h = g h

goes_on : (here n : ℕ) (stack : List ℕ) → next stack ≡ stop (at n) → n ≡ here
goes_on here n stack h = cc

end_step_at :
    (before : Text) (c n : ℕ) (stack : List ℕ)
    → end_step before c stack ≡ stop (at n)
    → n ≡ length before + 1
unfolding end_step
end_step_at before c n stack =
    let here = length before + 1 in
    either here n (opens c) _ _ (goes_on here n _) (
      either here n (c == b'<') _ _
        (either here n (follows b'<' before) _ _ (shift_left_at here n stack)
          (either here n (after_operator before) _ _ (goes_on here n _) (goes_on here n _)))
        (either here n (closes c) _ _
          (pop_pair_at (λ (top : ℕ). pairs top c) here n (pop_all b'<' stack))
          (either here n (c == b'>') _ _
            (either here n (follows b'-' before || after_operator (drop 1 before)) _ _
              (goes_on here n _) (pop_angle_at b'<' here n stack))
            (either here n (c == b';') _ _ (at_semicolon_at here n (pop_all b'<' stack))
              (goes_on here n _)))))

find_end_bounds :
    (before rest : Text) (stack : List ℕ) (n : ℕ)
    → find_end before rest stack ≡ at n
    → (length before < n) × (n ≤ length before + length rest)
unfolding find_end
find_end_bounds before [] stack n h = cc
find_end_bounds before (c ∷ rest) stack n h =
    go (end_step before c stack) (λ q. end_step_at before c n stack q)
      (λ stack' q. find_end_bounds (c ∷ before) rest stack' n q) h
  where
    go :
        (s : Step)
        → (s ≡ stop (at n) → n ≡ length before + 1)
        → ((stack' : List ℕ)
            → find_end (c ∷ before) rest stack' ≡ at n
            → (length (c ∷ before) < n) × (n ≤ length (c ∷ before) + length rest))
        → elim s [ stop r ↦ r | next stack' ↦ find_end (c ∷ before) rest stack' ] ≡ at n
        → (length before < n) × (n ≤ length before + length (c ∷ rest))
    go (stop r) f ih e = omega (arith, f (ap stop e))
    go (next stack') f ih e = omega (arith, ih stack' e)

-- A place in the file behind a position: its line is there, and the position is in the line.
pub record IsPlace (elided : List Text) (first : ℕ) (p : Place) (n : ℕ) : Type 0 where
  pub after : first ≤ p.linenum
  pub there : get_elem? elided p.linenum ≡ some p.line
  pub positive : 0 < n
  pub within : n ≤ length p.line

-- What the scan over the lines that follow comes to.
close_loop-IsPlace :
    (elided rest : List Text) (linenum : ℕ) (line : Text) (stack : List ℕ) (n : ℕ)
    → ((i : ℕ) → get_elem? rest i ≡ get_elem? elided (linenum + 1 + i))
    → (close_loop (length elided) rest linenum line stack).pos ≡ some n
    → IsPlace elided linenum (close_loop (length elided) rest linenum line stack) n
unfolding close_loop
close_loop-IsPlace elided [] linenum line stack n g h = cc
close_loop-IsPlace elided (l ∷ ls) linenum line [] n g h = cc
close_loop-IsPlace elided (l ∷ ls) linenum line (d ∷ stack) n g h =
    go (find_end [] l (d ∷ stack)) (λ p q. find_end_bounds [] l (d ∷ stack) p q)
      (λ stack' q.
        close_loop-IsPlace elided ls (linenum + 1) l stack' n
          (λ i. g (suc i) ∙ ap (get_elem? elided) {y = linenum + 1 + 1 + i} (omega arith)) q)
      h
  where
    here : get_elem? elided (linenum + 1) ≡ some l
    here = ap (get_elem? elided) {y = linenum + 1 + 0} (omega arith) ∙ sym (g 0)

    go :
        (f : Found)
        → ((p : ℕ) → f ≡ at p → (0 < p) × (p ≤ 0 + length l))
        → ((stack' : List ℕ)
            → (close_loop (length elided) ls (linenum + 1) l stack').pos ≡ some n
            → IsPlace elided (linenum + 1) (close_loop (length elided) ls (linenum + 1) l stack') n)
        → (elim f as (λ x. Place) [
          | at p ↦ record { line = l; linenum = linenum + 1; pos = some p }
          | unclosed ↦ record { line = l; linenum = length elided; pos = none }
          | open_with stack' ↦ close_loop (length elided) ls (linenum + 1) l stack'
        ]).pos
          ≡ some n
        → IsPlace elided linenum
            (elim f as (λ x. Place) [
              | at p ↦ record { line = l; linenum = linenum + 1; pos = some p }
              | unclosed ↦ record { line = l; linenum = length elided; pos = none }
              | open_with stack' ↦ close_loop (length elided) ls (linenum + 1) l stack'
            ])
            n
    go (at p) f ih e =
        let same : p ≡ n = cc in
        record {
          after = omega arith;
          there = here;
          positive = omega (arith, f p refl);
          within = omega (arith, f p refl);
        }
    go unclosed f ih e = cc
    go (open_with stack') f ih e =
        let r = ih stack' e in
        record {
          after = omega (arith, r.after);
          there = r.there;
          positive = r.positive;
          within = r.within;
        }

get_elem?-drop : (k i : ℕ) (l : List Text) → get_elem? (drop k l) i ≡ get_elem? l (k + i)
get_elem?-drop zero i l = ap (get_elem? l) (omega arith)
get_elem?-drop (suc k) i [] = refl
get_elem?-drop (suc k) i (x ∷ l) =
    get_elem?-drop k i l ∙ ap (get_elem? (x ∷ l)) {x = suc (k + i)} (omega arith)

length-reverse_aux : (s t : Text) → length (reverse_aux s t) ≡ length s + length t
length-reverse_aux [] t = omega arith
length-reverse_aux (c ∷ s) t = omega (arith, length-reverse_aux s (c ∷ t))

take-drop-length : (k : ℕ) (s : Text) → length (take k s) + length (drop k s) ≡ length s
take-drop-length zero s = omega arith
take-drop-length (suc k) [] = omega arith
take-drop-length (suc k) (c ∷ s) = omega (arith, take-drop-length k s)

close_first-IsPlace :
    (elided : List Text) (linenum : ℕ) (line : Text) (pos n : ℕ)
    → get_elem? elided linenum ≡ some line
    → (close_first elided linenum line pos (drop pos line)).pos ≡ some n
    → IsPlace elided linenum (close_first elided linenum line pos (drop pos line)) n
unfolding close_first
close_first-IsPlace elided linenum line pos n g h =
    go (begins (drop pos line)) (find_end (reverse (take pos line)) (drop pos line) [])
      (λ p q. in_line p (find_end_bounds (reverse (take pos line)) (drop pos line) [] p q)) h
  where
    rest : List Text
    rest = drop (linenum + 1) elided

    in_line :
        (p : ℕ)
        → (length (reverse (take pos line)) < p)
          × (p ≤ length (reverse (take pos line)) + length (drop pos line))
        → (0 < p) × (p ≤ length line)
    in_line p b = omega (arith, b, length-reverse_aux (take pos line) [], take-drop-length pos line)

    go :
        (b : Bool) (f : Found)
        → ((p : ℕ) → f ≡ at p → (0 < p) × (p ≤ length line))
        → (if b
            then (elim f as (λ x. Place) [
              | at p ↦ record { line = line; linenum = linenum; pos = some p }
              | unclosed ↦ record { line = line; linenum = length elided; pos = none }
              | open_with stack ↦ close_loop (length elided) rest linenum line stack
            ])
            else record { line = line; linenum = length elided; pos = none }).pos
          ≡ some n
        → IsPlace elided linenum
            (if b
              then (elim f as (λ x. Place) [
                | at p ↦ record { line = line; linenum = linenum; pos = some p }
                | unclosed ↦ record { line = line; linenum = length elided; pos = none }
                | open_with stack ↦ close_loop (length elided) rest linenum line stack
              ])
              else record { line = line; linenum = length elided; pos = none })
            n
    go false f k e = cc
    go true (at p) k e =
        let same : p ≡ n = cc in
        record {
          after = omega arith;
          there = g;
          positive = omega (arith, k p refl);
          within = omega (arith, k p refl);
        }
    go true unclosed k e = cc
    go true (open_with stack) k e =
        close_loop-IsPlace elided rest linenum line stack n
          (λ i. get_elem?-drop (linenum + 1) i elided) e

-- Wherever `CloseExpression` gives a position, it is a place in the file: in the line it started on or
-- a later one, whose text it returns, and behind a character of that line.
pub close_expression-IsPlace :
    (elided : List Text) (linenum pos n : ℕ) (place : Place)
    → close_expression elided linenum pos ≡ ok place
    → place.pos ≡ some n
    → IsPlace elided linenum place n
unfolding close_expression
close_expression-IsPlace elided linenum pos n place h q = go (get_elem? elided linenum) refl h
  where
    inner :
        (line : Text) (t : Text)
        → get_elem? elided linenum ≡ some line
        → drop pos line ≡ t
        → elim t as (λ x. Result Place) [
          | [] ↦ raised index_error
          | c ∷ u ↦ ok (close_first elided linenum line pos (c ∷ u))
        ]
          ≡ ok place
        → IsPlace elided linenum place n
    inner line [] g d e = cc
    inner line (c ∷ u) g d e =
        let same : close_first elided linenum line pos (drop pos line) ≡ place =
          ap (close_first elided linenum line pos) d ∙ ok_inj _ place e in
        subst (λ (x : Place). IsPlace elided linenum x n) same
          (close_first-IsPlace elided linenum line pos n g (ap (λ (x : Place). x.pos) same ∙ q))
      where
        ok_inj : (x y : Place) → ok x ≡ ok y → x ≡ y
        ok_inj x y k = cc

    go :
        (o : Option Text)
        → get_elem? elided linenum ≡ o
        → elim o as (λ x. Result Place) [
          | none ↦ raised index_error
          | some line ↦ elim (drop pos line) [
            | [] ↦ raised index_error
            | c ∷ t ↦ ok (close_first elided linenum line pos (c ∷ t))
          ]
        ]
          ≡ ok place
        → IsPlace elided linenum place n
    go none g e = cc
    go (some line) g e = inner line (drop pos line) g refl e
