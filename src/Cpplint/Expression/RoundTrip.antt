-- ===== src/Cpplint/Expression/RoundTrip.antt =====
-- `CloseExpression` and `ReverseCloseExpression` of cpplint.py on one line of nested brackets.
use mathlib.Core.List.{append_assoc, reverse}
use yarf.Common.{
  ℕ, ◌+◌, ◌-◌, ◌≡◌, refl, ◌∙◌, sym, ap, arith, true, false, ◌||◌, some, List, [], ◌∷◌, ◌++◌, ◌==◌,
  length, length-append, take, drop, get_elem?, ok,
}
use yarf.Text.{Text}
use yarf.Cpplint.Expression.{
  closes, pairs, at, begins, find_end, find_start, close_first, close_expression, reverse_first,
  reverse_close_expression,
}
use yarf.Cpplint.Expression.Balanced.{
  Balanced, rev_onto-append, length-rev_onto, find_end-match, find_start-match,
}

take-append : (s t : Text) → take (length s) (s ++ t) ≡ s
take-append [] t = refl
take-append (c ∷ s) t = ap (λ (x : Text). c ∷ x) (take-append s t)

drop-append : (s t : Text) → drop (length s) (s ++ t) ≡ t
drop-append [] t = refl
drop-append (c ∷ s) t = drop-append s t

close_at :
    (elided : List Text) (linenum pos n c : ℕ) (line t : Text)
    → get_elem? elided linenum ≡ some line
    → drop pos line ≡ c ∷ t
    → begins (c ∷ t) ≡ true
    → find_end (reverse (take pos line)) (c ∷ t) [] ≡ at n
    → close_expression elided linenum pos
      ≡ ok (record { line = line; linenum = linenum; pos = some n })
unfolding close_expression close_first
close_at elided linenum pos n c line t g d b f =
    rw (g, d, close_expression) (ap ok (rw (b, f, close_first) refl))

reverse_at :
    (elided : List Text) (linenum pos n c : ℕ) (line t : Text)
    → get_elem? elided linenum ≡ some line
    → drop pos line ≡ c ∷ t
    → closes c || c == b'>' ≡ true
    → find_start false (c ∷ reverse (take pos line)) t [] ≡ at n
    → reverse_close_expression elided linenum pos
      ≡ ok (record { line = line; linenum = linenum; pos = some n })
unfolding reverse_close_expression reverse_first
reverse_at elided linenum pos n c line t g d b f =
    rw (g, d, reverse_close_expression) (ap ok (rw (b, f, reverse_first) refl))

begins_open : (o c : ℕ) (t : Text) → pairs o c ≡ true → begins (o ∷ t) ≡ true
begins_open o c [] h = ground arith
begins_open o c (d ∷ t) h = ground arith

module _ (elided : List Text) (linenum o c : ℕ) (p s rest : Text) (h : pairs o c ≡ true)
    (b : Balanced s) (g : get_elem? elided linenum ≡ some (p ++ (o ∷ (s ++ (c ∷ rest))))) where
  abbrev line : Text
  line = p ++ (o ∷ (s ++ (c ∷ rest)))

  close_lem :
      close_expression elided linenum (length p)
      ≡ ok (record { line = line; linenum = linenum; pos = some (length p + length s + 2) })
  close_lem =
      close_at elided linenum (length p) _ o line (s ++ (c ∷ rest)) g (drop-append p _)
        (begins_open o c _ h)
        (ap (λ (x : Text). find_end (reverse x) (o ∷ (s ++ (c ∷ rest))) [])
            (take-append p (o ∷ (s ++ (c ∷ rest))))
          ∙ find_end-match o c s (reverse p) rest h b
          ∙ ap at (omega (arith, length-rev_onto p [])))

  regroup : line ≡ (p ++ (o ∷ s)) ++ (c ∷ rest)
  regroup = sym (append_assoc p (o ∷ s) (c ∷ rest))

  last_pos : length p + length s + 1 ≡ length (p ++ (o ∷ s))
  last_pos = omega (arith, length-append p (o ∷ s))

  reverse_lem :
      reverse_close_expression elided linenum (length p + length s + 1)
      ≡ ok (record { line = line; linenum = linenum; pos = some (length p) })
  reverse_lem =
      reverse_at elided linenum _ _ c line rest g
        (ap (λ (n : ℕ). drop n line) last_pos
          ∙ ap (drop (length (p ++ (o ∷ s)))) regroup
          ∙ drop-append (p ++ (o ∷ s)) (c ∷ rest))
        (is_closing o c h)
        (ap (λ (n : ℕ). find_start false (c ∷ reverse (take n line)) rest []) last_pos
          ∙ ap
              (λ (x : Text).
                find_start false (c ∷ reverse (take (length (p ++ (o ∷ s))) x)) rest [])
              regroup
          ∙ ap (λ (x : Text). find_start false (c ∷ reverse x) rest [])
              (take-append (p ++ (o ∷ s)) (c ∷ rest))
          ∙ ap (λ (x : Text). find_start false (c ∷ x) rest []) (rev_onto-append p (o ∷ s) [])
          ∙ find_start-match o c s (reverse p) rest h b
          ∙ ap at (omega (arith, length-rev_onto p [])))
    where
      is_closing : (o c : ℕ) → pairs o c ≡ true → closes c || c == b'>' ≡ true
      is_closing o c h = ground arith

  -- On a line of the file, at a bracket that opens a text of nested brackets without angles and
  -- semicolons, `CloseExpression` gives the place behind the bracket that closes it, and from that
  -- bracket `ReverseCloseExpression` gives the place of the first one.
  pub close-reverse_close :
      (close_expression elided linenum (length p)
        ≡ ok (record { line = line; linenum = linenum; pos = some (length p + length s + 2) }))
      × (reverse_close_expression elided linenum (length p + length s + 2 - 1)
          ≡ ok (record { line = line; linenum = linenum; pos = some (length p) }))
  close-reverse_close = (
    close_lem,
    ap (reverse_close_expression elided linenum) {y = length p + length s + 1} (omega arith)
        ∙ reverse_lem,
  )
