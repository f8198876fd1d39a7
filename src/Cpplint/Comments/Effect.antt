-- ===== src/Cpplint/Comments/Effect.antt =====
-- What `RemoveMultiLineComments` of cpplint.py does to the lines.
use mathlib.Core.Path.{subst}
use yarf.Common.{
  ℕ, suc, ◌+◌, ◌≡◌, refl, ◌∙◌, ap, sym, arith, Bool, true, false, not, ◌&&◌, ◌||◌, inl, inr, ◌⊎◌,
  Option, none, some, List, [], ◌∷◌, ◌++◌, if◌then◌else◌, length,
}
use yarf.Text.{Text, is_prefix, find, strip, lstrip, rstrip}
use yarf.Cpplint.Comments.{starts, ends, dummy, returned, remove_multi_line_comments}
use yarf.Cpplint.Comments.Spec.{any, pass, unclosed}
use yarf.Cpplint.Comments.Pass.{pass_clean, unclosed_clean}
use yarf.Cpplint.Comments.Refine.{remove_multi_line_comments_lem}

-- Each line is what it was, or a dummy.
abbrev pub Covers : List Text → List Text → Type 0
Covers [] [] = Unit
Covers (x ∷ xs) (y ∷ ys) = ((y ≡ x) ⊎ (y ≡ dummy)) × Covers xs ys
Covers [] (y ∷ ys) = ⊥
Covers (x ∷ xs) [] = ⊥

Covers-refl : (xs : List Text) → Covers xs xs
Covers-refl [] = tt
Covers-refl (x ∷ xs) = (inl refl, Covers-refl xs)

pass-Covers : (inside : Bool) (lines : List Text) → Covers lines (pass inside lines)
unfolding pass
pass-Covers true [] = tt
pass-Covers false [] = tt
pass-Covers true (x ∷ lines) = (inr refl, pass-Covers (not (ends x)) lines)
pass-Covers false (x ∷ lines) =
    choose (starts x) (any ends (x ∷ lines)) _ (pass-Covers (starts x && not (ends x)) lines)
  where
    choose :
        (b c : Bool) (rest : List Text)
        → Covers lines rest
        → Covers (x ∷ lines) (if b then (if c then dummy ∷ rest else x ∷ lines) else x ∷ rest)
    choose true true rest h = (inr refl, h)
    choose true false rest h = (inl refl, Covers-refl lines)
    choose false c rest h = (inl refl, h)

starts-dummy : starts dummy ≡ false
unfolding starts strip lstrip rstrip find is_prefix
starts-dummy = refl

-- Where the pass reports nothing, nothing starts behind it.
pass_closed :
    (inside : Bool) (n : ℕ) (lines : List Text)
    → unclosed inside n lines ≡ none
    → any starts (pass inside lines) ≡ false
unfolding pass unclosed
pass_closed true n [] h = refl
pass_closed false n [] h = refl
pass_closed true n (x ∷ lines) h =
    ap (λ b. b || any starts (pass (not (ends x)) lines)) starts-dummy
    ∙ pass_closed (not (ends x)) (n + 1) lines h
pass_closed false n (x ∷ lines) h =
    choose (starts x) refl (any ends (x ∷ lines)) _ _
      (pass_closed (starts x && not (ends x)) (n + 1) lines) h
  where
    choose :
        (b : Bool)
        → starts x ≡ b
        → (c : Bool) (rest : List Text) (u : Option ℕ) → (u ≡ none → any starts rest ≡ false)
        → (if b && not c then some (n + 1) else u) ≡ none
        → any starts (if b then (if c then dummy ∷ rest else x ∷ lines) else x ∷ rest) ≡ false
    choose true s true rest u ih e = ap (λ t. t || any starts rest) starts-dummy ∙ ih e
    choose true s false rest u ih e = cc
    choose false s c rest u ih e = ap (λ t. t || any starts rest) s ∙ ih e

unpack :
    (lines out : List Text) (e : Option ℕ)
    → remove_multi_line_comments lines ≡ returned out e
    → (pass false lines ≡ out) × (unclosed false 0 lines ≡ e)
unpack lines out e h = fields _ _ (sym (remove_multi_line_comments_lem lines) ∙ h)
  where
    fields : (p : List Text) (u : Option ℕ) → returned p u ≡ returned out e → (p ≡ out) × (u ≡ e)
    fields p u q = (cc, cc)

-- No line is lost and none is added: each is what it was, or `/**/`.
pub remove_multi_line_comments-Covers :
    (lines out : List Text) (e : Option ℕ)
    → remove_multi_line_comments lines ≡ returned out e
    → Covers lines out
remove_multi_line_comments-Covers lines out e h =
    subst (Covers lines) (unpack lines out e h).0 (pass-Covers false lines)

-- When nothing is reported, no line begins a comment over several lines any more, and to remove them
-- again changes nothing.
pub remove_multi_line_comments_again :
    (lines out : List Text)
    → remove_multi_line_comments lines ≡ returned out none
    → (any starts out ≡ false) × (remove_multi_line_comments out ≡ returned out none)
remove_multi_line_comments_again lines out h =
    let (p, u) = unpack lines out none h in
    let clean = ap (any starts) (sym p) ∙ pass_closed false 0 lines u in
    (
      clean,
      remove_multi_line_comments_lem out
          ∙ ap (λ ls. returned ls (unclosed false 0 out)) (pass_clean out clean)
          ∙ ap (returned out) (unclosed_clean 0 out clean),
    )

-- The line of number `m`, and the lines before and behind it; `n` lines stand before the list.
pub record Reports (n : ℕ) (lines out : List Text) (m : ℕ) : Type 0 where
  pub before : List Text
  pub kept : List Text
  pub line : Text
  pub after : List Text
  pub number : m ≡ n + length kept + 1
  pub same_place : length before ≡ length kept
  pub were : lines ≡ before ++ (line ∷ after)
  pub are : out ≡ kept ++ (line ∷ after)
  pub closed : any starts kept ≡ false
  pub begins : starts line ≡ true
  pub endless : any ends (line ∷ after) ≡ false

report_behind :
    (n : ℕ) (x y : Text) (lines out : List Text) (m : ℕ)
    → starts y ≡ false
    → Reports (n + 1) lines out m
    → Reports n (x ∷ lines) (y ∷ out) m
report_behind n x y lines out m h r = record {
  before = x ∷ r.before;
  kept = y ∷ r.kept;
  line = r.line;
  after = r.after;
  number = omega (arith, r.number);
  same_place = ap suc r.same_place;
  were = ap (λ ls. x ∷ ls) r.were;
  are = ap (λ ls. y ∷ ls) r.are;
  closed = ap (λ b. b || any starts r.kept) h ∙ r.closed;
  begins = r.begins;
  endless = r.endless;
}

report_here :
    (n : ℕ) (x : Text) (lines : List Text) (m : ℕ)
    → starts x ≡ true
    → any ends (x ∷ lines) ≡ false
    → some (n + 1) ≡ some m
    → Reports n (x ∷ lines) (x ∷ lines) m
report_here n x lines m s e q = record {
  before = [];
  kept = [];
  line = x;
  after = lines;
  number = counted (inside_some q);
  same_place = refl;
  were = refl;
  are = refl;
  closed = refl;
  begins = s;
  endless = e;
}
  where
    inside_some : some (n + 1) ≡ some m → n + 1 ≡ m
    inside_some h = cc

    counted : n + 1 ≡ m → m ≡ n + 0 + 1
    counted h = omega (arith, h)

pass-Reports :
    (inside : Bool) (n : ℕ) (lines : List Text) (m : ℕ)
    → unclosed inside n lines ≡ some m
    → Reports n lines (pass inside lines) m
unfolding pass unclosed
pass-Reports true n [] m h = cc
pass-Reports false n [] m h = cc
pass-Reports true n (x ∷ lines) m h =
    report_behind n x dummy lines _ m starts-dummy (pass-Reports (not (ends x)) (n + 1) lines m h)
pass-Reports false n (x ∷ lines) m h =
    choose (starts x) refl (any ends (x ∷ lines)) refl _ _
      (pass-Reports (starts x && not (ends x)) (n + 1) lines m) h
  where
    choose :
        (b : Bool)
        → starts x ≡ b
        → (c : Bool) → any ends (x ∷ lines) ≡ c
        → (rest : List Text) (u : Option ℕ) → (u ≡ some m → Reports (n + 1) lines rest m)
        → (if b && not c then some (n + 1) else u) ≡ some m
        → Reports n (x ∷ lines) (if b then (if c then dummy ∷ rest else x ∷ lines) else x ∷ rest) m
    choose true s true c rest u ih e = report_behind n x dummy lines rest m starts-dummy (ih e)
    choose true s false c rest u ih e = report_here n x lines m s c e
    choose false s t c rest u ih e = report_behind n x x lines rest m s (ih e)

-- When line `m` is reported, it begins a comment that neither it nor a later line ends; it and the
-- later lines are as they were, at their places, and the lines before begin no comment any more.
pub remove_multi_line_comments-Reports :
    (lines out : List Text) (m : ℕ)
    → remove_multi_line_comments lines ≡ returned out (some m)
    → Reports 0 lines out m
remove_multi_line_comments-Reports lines out m h =
    let (p, u) = unpack lines out (some m) h in
    subst (λ ls. Reports 0 lines ls m) p (pass-Reports false 0 lines m u)
