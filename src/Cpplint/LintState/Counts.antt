-- ===== src/Cpplint/LintState/Counts.antt =====
-- The counts of errors that `_CppLintState` of cpplint.py keeps.
use mathlib.Core.Path.{subst}
use yarf.Common.{
  ℕ, ◌+◌, ◌≡◌, refl, ap, ◌∙◌, sym, false, ◌==◌, ◌&&◌, arith, Bool, true, inl, inr, Option, none,
  some, List, [], ◌∷◌, ◌||◌, if◌then◌else◌, Bool-cases, length,
}
use yarf.Text.{Text, codes, text_eq, is_prefix, push, split, split_scan}
use yarf.Text.Equality.{text_eq→eq}
use yarf.Dict.{Dict, lookup, insert, lookup-insert}
use yarf.Cpplint.LintState.{
  LintState, counted_as, count_of, bump, first_part, increment_error_count,
}

-- Errors of these categories, one after the other.
unfoldable pub increments : List Text → LintState → LintState
increments [] s = s
increments (category ∷ cs) s = increments cs (increment_error_count category s)

abbrev pub hit : Text → Option Text → ℕ
hit k none = 0
hit k (some c) = if text_eq c k then 1 else 0

-- The text in front of the first slash.
unfoldable pub top_of : Text → Text
top_of [] = []
top_of (c ∷ t) = if c == b'/' then [] else c ∷ top_of t

-- An error belongs to its category in the style `detailed`, and to what stands in front of the first
-- slash of it in the style `toplevel`.
unfoldable pub belongs : Text → Text → Text → Bool
belongs counting k category =
    (text_eq counting (codes "detailed") && text_eq category k)
    || (text_eq counting (codes "toplevel") && text_eq (top_of category) k)

-- How many of the errors belong to `k`.
unfoldable pub occurrences : Text → Text → List Text → ℕ
occurrences counting k [] = 0
occurrences counting k (category ∷ cs) =
    (if belongs counting k category then 1 else 0) + occurrences counting k cs

is_prefix-slash : (c : ℕ) (t : Text) → is_prefix (codes "/") (c ∷ t) ≡ (c == b'/')
unfolding is_prefix
is_prefix-slash c t = ground arith

first_part-push : (c : ℕ) (ps : List Text) → first_part (push c ps) ≡ c ∷ first_part ps
first_part-push c [] = refl
first_part-push c (p ∷ ps) = refl

first_part-split : (t : Text) → first_part (split (codes "/") t) ≡ top_of t
unfolding split split_scan top_of is_prefix
first_part-split [] = refl
first_part-split (c ∷ t) =
    ap (λ b. first_part (round b)) (is_prefix-slash c t) ∙ by_mark (first_part-split t) (c == b'/')
  where
    round : Bool → List Text
    round b = elim b as (λ x. List Text) [
      | true ↦ [] ∷ split_scan (codes "/") 0 t
      | false ↦ push c (split_scan (codes "/") 0 t)
    ]

    by_mark :
        first_part (split (codes "/") t) ≡ top_of t
        → (b : Bool) → first_part (round b) ≡ (if b then [] else c ∷ top_of t)
    by_mark rest true = refl
    by_mark rest false = first_part-push c (split_scan (codes "/") 0 t) ∙ ap (λ u. c ∷ u) rest

or_false : (b : Bool) → (b || false) ≡ b
or_false true = refl
or_false false = refl

hit-counted_as :
    (counting k category : Text)
    → hit k (counted_as counting category) ≡ (if belongs counting k category then 1 else 0)
hit-counted_as counting k category = elim (Bool-cases (text_eq counting (codes "detailed"))) [
  | inl d ↦ subst by_style (sym (text_eq→eq counting (codes "detailed") d)) (
      unfold counted_as in
      unfold belongs in
      unfold text_eq in ap (λ (b : Bool). if b then 1 else 0) (sym (or_false (text_eq category k))))
  | inr d ↦ elim (Bool-cases (text_eq counting (codes "toplevel"))) [
    | inl t ↦ subst by_style (sym (text_eq→eq counting (codes "toplevel") t)) (
        unfold counted_as in
        unfold belongs in
        unfold text_eq in ap (λ u. if text_eq u k then 1 else 0) (first_part-split category))
    | inr t ↦ unfold counted_as in unfold belongs in rw (d, t) refl
  ]
]
  where
    by_style : Text → Type 0
    by_style c = hit k (counted_as c category) ≡ (if belongs c k category then 1 else 0)

bump-count :
    (k : Text) (c : Option Text) (d : Dict ℕ)
    → count_of (lookup k (bump c d)) ≡ count_of (lookup k d) + hit k c
bump-count k none d = omega arith
bump-count k (some c) d = elim (Bool-cases (text_eq c k)) [
  | inl e ↦ rw (lookup-insert, e) (rw (text_eq→eq c k e) refl)
  | inr e ↦ rw (lookup-insert, e) (omega arith)
]

unfoldable pub sum_counts : Dict ℕ → ℕ
sum_counts [] = 0
sum_counts ((k, n) ∷ d) = n + sum_counts d

sum_counts-insert :
    (c : Text) (v : ℕ) (d : Dict ℕ)
    → sum_counts (insert c v d) + count_of (lookup c d) ≡ sum_counts d + v
unfolding sum_counts insert lookup
sum_counts-insert c v [] = omega arith
sum_counts-insert c v ((k, n) ∷ d) = elim (Bool-cases (text_eq k c)) [
  | inl e ↦ rw e (omega arith)
  | inr e ↦ rw e (omega (arith, sum_counts-insert c v d))
]

-- Whether the style counts by category.
abbrev pub counts : Option Text → ℕ
counts none = 0
counts (some c) = 1

sum_counts-bump : (c : Option Text) (d : Dict ℕ) → sum_counts (bump c d) ≡ sum_counts d + counts c
sum_counts-bump none d = omega arith
sum_counts-bump (some c) d = omega (arith, sum_counts-insert c (count_of (lookup c d) + 1) d)

-- After any errors, in whatever style: the total has grown by their number, and the count of every
-- category by the number of the errors that belong to it, which are those of this category in the style
-- `detailed`, those with this text in front of the first slash of their category in the style
-- `toplevel`, and none in another style.
pub increments_lem :
    (cs : List Text) (s : LintState) (k : Text)
    → ((increments cs s).error_count ≡ s.error_count + length cs)
      × (count_of (lookup k (increments cs s).errors_by_category)
          ≡ count_of (lookup k s.errors_by_category) + occurrences s.counting k cs)
unfolding increments occurrences increment_error_count
increments_lem [] s k = (omega arith, omega arith)
increments_lem (category ∷ cs) s k =
    let (total, here) = increments_lem cs (increment_error_count category s) k in
    (
      omega (arith, total),
      omega (
        arith,
        here,
        bump-count k (counted_as s.counting category) s.errors_by_category,
        hit-counted_as s.counting k category,
      ),
    )

-- The styles `toplevel` and `detailed`.
abbrev pub by_category : Text → Bool
by_category counting = text_eq counting (codes "toplevel") || text_eq counting (codes "detailed")

counts-counted_as :
    (counting category : Text)
    → by_category counting ≡ true
    → counts (counted_as counting category) ≡ 1
unfolding counted_as
counts-counted_as counting category h = rw h refl

-- In a style that counts by category the table of a new count sums up to the total.
pub increments-sum :
    (cs : List Text) (s : LintState)
    → by_category s.counting ≡ true
    → sum_counts s.errors_by_category ≡ s.error_count
    → sum_counts (increments cs s).errors_by_category ≡ (increments cs s).error_count
unfolding increments increment_error_count
increments-sum [] s style h = h
increments-sum (category ∷ cs) s style h =
    increments-sum cs (increment_error_count category s) style (
      unfold increment_error_count in
      omega (
        arith,
        sum_counts-bump (counted_as s.counting category) s.errors_by_category,
        counts-counted_as s.counting category style,
      ))
