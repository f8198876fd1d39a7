-- ===== src/Wizard2svr/Paths.antt =====
-- The paths of the files that tools/wizard2svr.py writes are four.
use yarf.Common.{
  ℕ, ◌≡◌, refl, ◌∙◌, sym, ap, arith, false, inl, inr, Option, none, some, [], ◌∷◌, ◌++◌, Bool-cases,
}
use yarf.Text.{Text, codes, text_eq}
use yarf.Text.Equality.{text_eq→eq}
use yarf.Wizard2svr.{inc_path, src_path, main_make_path, src_make_path}

text_eq-append : (p s t : Text) → text_eq (p ++ s) (p ++ t) ≡ text_eq s t
unfolding text_eq
text_eq-append [] s t = refl
text_eq-append (c ∷ p) s t = ground (arith, text_eq-append p s t)

last_char : Text → Option ℕ
last_char [] = none
last_char (c ∷ []) = some c
last_char (c ∷ d ∷ t) = last_char (d ∷ t)

last_char-append : (s : Text) (c : ℕ) (t : Text) → last_char (s ++ (c ∷ t)) ≡ last_char (c ∷ t)
unfolding last_char
last_char-append [] c t = refl
last_char-append (d ∷ []) c t = refl
last_char-append (d ∷ e ∷ s) c t = last_char-append (e ∷ s) c t

some_inj : (a b : ℕ) → some a ≡ some b → a ≡ b
some_inj a b e = cc

-- No name makes the source file the one of the build.
source_name : (name : Text) → text_eq (name ++ codes "_main.cc") (codes "CMakeLists.txt") ≡ false
unfolding last_char
source_name name = elim (Bool-cases (text_eq (name ++ codes "_main.cc") (codes "CMakeLists.txt"))) [
  | inl e ↦ absurd (
      differ (
        some_inj b'c' b't' (
          sym (last_char-append name b'_' (codes "main.cc"))
          ∙ ap last_char (text_eq→eq (name ++ codes "_main.cc") (codes "CMakeLists.txt") e))))
  | inr e ↦ e
]
  where
    differ : ◌≡◌ {A = ℕ} b'c' b't' → ⊥
    differ e = omega (arith, e)

text_eq_sym : (s t : Text) → text_eq s t ≡ text_eq t s
unfolding text_eq
text_eq_sym [] [] = refl
text_eq_sym [] (d ∷ t) = refl
text_eq_sym (c ∷ s) [] = refl
text_eq_sym (c ∷ s) (d ∷ t) = ground (arith, text_eq_sym s t)

module _ (d n : Text) where
  pub inc-src : text_eq (inc_path d n) (src_path d n) ≡ false
  unfolding text_eq
  inc-src = text_eq-append d _ _

  pub inc-main_make : text_eq (inc_path d n) (main_make_path d) ≡ false
  unfolding text_eq
  inc-main_make = text_eq-append d _ _

  pub inc-src_make : text_eq (inc_path d n) (src_make_path d) ≡ false
  unfolding text_eq
  inc-src_make = text_eq-append d _ _

  pub src-main_make : text_eq (src_path d n) (main_make_path d) ≡ false
  unfolding text_eq
  src-main_make = text_eq-append d _ _

  pub main_make-src_make : text_eq (main_make_path d) (src_make_path d) ≡ false
  unfolding text_eq
  main_make-src_make = text_eq-append d _ _

  pub src-src_make : text_eq (src_path d n) (src_make_path d) ≡ false
  src-src_make =
      text_eq-append d (codes "/src" ++ (codes "/" ++ (n ++ codes "_main.cc")))
        (codes "/src" ++ codes "/CMakeLists.txt")
      ∙ text_eq-append (codes "/src/") (n ++ codes "_main.cc") (codes "CMakeLists.txt")
      ∙ source_name n

pub flip : (s t : Text) → text_eq s t ≡ false → text_eq t s ≡ false
flip s t h = text_eq_sym t s ∙ h
