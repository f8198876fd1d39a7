-- ===== src/Cpplint/Comments/Search.antt =====
-- The two searches and the clearing of lines in cpplint.py, on a list cut at the lines they find.
use mathlib.Core.List.{append_assoc}
use yarf.Common.{
  ℕ, suc, ◌+◌, ◌≡◌, refl, ◌∙◌, ap, sym, arith, Bool, true, false, ◌||◌, inl, inr, ◌⊎◌, List, [],
  ◌∷◌, ◌++◌, length, drop, length-append, ok, ◌>>=◌, Bool-cases,
}
use yarf.Text.{Text}
use yarf.Cpplint.Comments.{dummy, find_from, set_line, clear_lines}
use yarf.Cpplint.Comments.Spec.{any}

-- A list at the first line that passes a test.
pub record Cut (p : Text → Bool) (lines : List Text) : Type 0 where
  pub before : List Text
  pub line : Text
  pub after : List Text
  pub parts : lines ≡ before ++ (line ∷ after)
  pub misses : any p before ≡ false
  pub hit : p line ≡ true

pub cut : (p : Text → Bool) (lines : List Text) → (any p lines ≡ false) ⊎ Cut p lines
cut p [] = inl refl
cut p (line ∷ lines) = elim (Bool-cases (p line)) [
  | inl e ↦
      inr (record { before = []; line = line; after = lines; parts = refl; misses = refl; hit = e })
  | inr e ↦ elim (cut p lines) [
    | inl h ↦ inl (ap (λ b. b || any p lines) e ∙ h)
    | inr c ↦ inr (record {
      before = line ∷ c.before;
      line = c.line;
      after = c.after;
      parts = ap (λ ls. line ∷ ls) c.parts;
      misses = ap (λ b. b || any p c.before) e ∙ c.misses;
      hit = c.hit;
    })
  ]
]

pub drop-append : (xs ys : List Text) → drop (length xs) (xs ++ ys) ≡ ys
drop-append [] ys = refl
drop-append (x ∷ xs) ys = drop-append xs ys

-- No line passes.
pub find_from_miss :
    (p : Text → Bool) (lines : List Text) (i : ℕ) (rest : List Text)
    → any p rest ≡ false
    → find_from p lines i rest ≡ length lines
unfolding find_from
find_from_miss p lines i [] h = refl
find_from_miss p lines i (x ∷ rest) h = ground (arith, find_from_miss p lines (i + 1) rest)

-- The first line that passes.
pub find_from_hit :
    (p : Text → Bool) (lines : List Text) (i : ℕ) (before : List Text) (x : Text)
    (after : List Text)
    → any p before ≡ false
    → p x ≡ true
    → find_from p lines i (before ++ (x ∷ after)) ≡ i + length before
unfolding find_from
find_from_hit p lines i [] x after h e = ground arith
find_from_hit p lines i (y ∷ before) x after h e =
    ground (arith, find_from_hit p lines (i + 1) before x after)

-- As many dummy lines as there are lines.
abbrev pub dummies : List Text → List Text
dummies [] = []
dummies (x ∷ xs) = dummy ∷ dummies xs

pub length-dummies : (xs : List Text) → length (dummies xs) ≡ length xs
length-dummies [] = refl
length-dummies (x ∷ xs) = ap suc (length-dummies xs)

set_line-append :
    (xs : List Text) (l x : Text) (ys : List Text)
    → set_line (length xs) l (xs ++ (x ∷ ys)) ≡ ok (xs ++ (l ∷ ys))
unfolding set_line
set_line-append [] l x ys = refl
set_line-append (y ∷ xs) l x ys = rw (set_line-append xs l x ys) refl

-- Clearing changes a range of lines to dummy lines, without an IndexError.
pub clear_lines-append :
    (xs ys zs : List Text)
    → clear_lines (length xs) (length ys) (xs ++ (ys ++ zs)) ≡ ok (xs ++ (dummies ys ++ zs))
unfolding clear_lines
clear_lines-append xs [] zs = refl
clear_lines-append xs (y ∷ ys) zs =
    let next = xs ++ (dummy ∷ []) in
    ap (λ r. r >>= λ lines. clear_lines (length xs + 1) (length ys) lines)
      (set_line-append xs dummy y (ys ++ zs))
    ∙ ap (λ lines. clear_lines (length xs + 1) (length ys) lines)
        (sym (append_assoc xs (dummy ∷ []) (ys ++ zs)))
    ∙ ap (λ (i : ℕ). clear_lines i (length ys) (next ++ (ys ++ zs)))
        (sym (length-append xs (dummy ∷ [])))
    ∙ clear_lines-append next ys zs
    ∙ ap ok (append_assoc xs (dummy ∷ []) (dummies ys ++ zs))
