-- ===== src/Text/Equality.antt =====
-- Laws of the tests on texts.
use yarf.Common.{◌≡◌, refl, ◌↔◌, true, false, sym, ap, ◌∙◌, [], ◌∷◌, ◌++◌, arith}
use yarf.Text.{Text, text_eq, is_prefix}

pub text_eq_refl : (s : Text) → text_eq s s ≡ true
unfolding text_eq
text_eq_refl [] = refl
text_eq_refl (c ∷ s) = ground (arith, text_eq_refl s)

pub text_eq→eq : (s t : Text) → text_eq s t ≡ true → s ≡ t
unfolding text_eq
text_eq→eq [] [] h = refl
text_eq→eq [] (d ∷ t) h = cc
text_eq→eq (c ∷ s) [] h = cc
text_eq→eq (c ∷ s) (d ∷ t) h = ground (arith, text_eq→eq s t)

pub text_eq_iff : (s t : Text) → (text_eq s t ≡ true) ↔ (s ≡ t)
text_eq_iff s t = (text_eq→eq s t, λ e. rw e (text_eq_refl t))

pub is_prefix-append : (s t : Text) → is_prefix s (s ++ t) ≡ true
unfolding is_prefix
is_prefix-append [] t = refl
is_prefix-append (c ∷ s) t = ground (arith, is_prefix-append s t)

pub text_eq-append : (p a b : Text) → text_eq (p ++ a) (p ++ b) ≡ text_eq a b
unfolding text_eq
text_eq-append [] a b = refl
text_eq-append (c ∷ p) a b = ground (arith, text_eq-append p a b)

-- Two names that begin alike and end differently.
pub endings_apart :
    (p a b k : Text) → text_eq b a ≡ false → text_eq (p ++ a) k ≡ true → text_eq (p ++ b) k ≡ false
endings_apart p a b k h e =
    ap (text_eq (p ++ b)) (sym (text_eq→eq (p ++ a) k e)) ∙ text_eq-append p b a ∙ h
