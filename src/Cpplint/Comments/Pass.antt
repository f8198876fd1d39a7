-- ===== src/Cpplint/Comments/Pass.antt =====
-- The pass over the lines, at the parts of a list that the searches of cpplint.py find.
use yarf.Common.{
  ℕ, ◌+◌, ◌≡◌, refl, ap, arith, Bool, true, false, ◌||◌, none, some, List, [], ◌∷◌, ◌++◌,
  if◌then◌else◌, length,
}
use yarf.Text.{Text}
use yarf.Cpplint.Comments.{starts, ends, dummy}
use yarf.Cpplint.Comments.Spec.{any, pass, unclosed}
use yarf.Cpplint.Comments.Search.{dummies}

-- The pass where nothing starts.
pub pass-append :
    (before rest : List Text)
    → any starts before ≡ false
    → pass false (before ++ rest) ≡ before ++ pass false rest
unfolding pass
pass-append [] rest h = refl
pass-append (x ∷ before) rest h = ground (arith, pass-append before rest)

pub unclosed-append :
    (n : ℕ) (before rest : List Text)
    → any starts before ≡ false
    → unclosed false n (before ++ rest) ≡ unclosed false (n + length before) rest
unfolding unclosed
unclosed-append n [] rest h = ap (λ (k : ℕ). unclosed false k rest) (omega arith)
unclosed-append n (x ∷ before) rest h = ground (arith, unclosed-append (n + 1) before rest)

-- The pass over a comment that ends.
pub pass_comment :
    (body : List Text) (c : Text) (after : List Text)
    → any ends body ≡ false
    → ends c ≡ true
    → pass true (body ++ (c ∷ after)) ≡ dummies body ++ (dummy ∷ pass false after)
unfolding pass
pass_comment [] c after h e = ground arith
pass_comment (x ∷ body) c after h e = ground (arith, pass_comment body c after)

pub unclosed_comment :
    (n : ℕ) (body : List Text) (c : Text) (after : List Text)
    → any ends body ≡ false
    → ends c ≡ true
    → unclosed true n (body ++ (c ∷ after)) ≡ unclosed false (n + length body + 1) after
unfolding unclosed
unclosed_comment n [] c after h e = ground arith
unclosed_comment n (x ∷ body) c after h e = ground (arith, unclosed_comment (n + 1) body c after)

-- A line at which a comment starts.
pub pass_begin :
    (x : Text) (rest : List Text)
    → starts x ≡ true
    → pass false (x ∷ rest) ≡ (if any ends (x ∷ rest) then pass true (x ∷ rest) else x ∷ rest)
unfolding pass
pass_begin x rest h = ground arith

pub unclosed_begin :
    (n : ℕ) (x : Text) (rest : List Text)
    → starts x ≡ true
    → unclosed false n (x ∷ rest)
      ≡ (if any ends (x ∷ rest) then unclosed true n (x ∷ rest) else some (n + 1))
unfolding unclosed
unclosed_begin n x rest h = ground arith

pub pass_clean : (rest : List Text) → any starts rest ≡ false → pass false rest ≡ rest
unfolding pass
pass_clean [] h = refl
pass_clean (x ∷ rest) h = ground (arith, pass_clean rest)

pub unclosed_clean :
    (n : ℕ) (rest : List Text) → any starts rest ≡ false → unclosed false n rest ≡ none
unfolding unclosed
unclosed_clean n [] h = refl
unclosed_clean n (x ∷ rest) h = ground (arith, unclosed_clean (n + 1) rest)

pub any-append :
    (p : Text → Bool) (xs : List Text) (y : Text) (ys : List Text)
    → p y ≡ true
    → any p (xs ++ (y ∷ ys)) ≡ true
any-append p [] y ys h = ap (λ b. b || any p ys) h
any-append p (x ∷ xs) y ys h = ground (arith, any-append p xs y ys)
