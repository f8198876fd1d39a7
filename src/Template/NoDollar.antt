-- ===== src/Template/NoDollar.antt =====
-- What the text operations do with texts that hold no dollar.
use yarf.Common.{
  ℕ, zero, suc, ◌-◌, ◌≡◌, refl, true, inl, inr, List, [], ◌∷◌, arith, length, drop, all, Bool-cases,
}
use yarf.Text.{Text, is_prefix, push, split_scan, split, upper_char, upper}
use yarf.Template.{no_dollar}

pub upper_char-no_dollar :
    (c : ℕ) → no_dollar (c ∷ []) ≡ true → no_dollar (upper_char c ∷ []) ≡ true
unfolding upper_char no_dollar
upper_char-no_dollar c h = ground arith

pub upper-no_dollar : (t : Text) → no_dollar t ≡ true → no_dollar (upper t) ≡ true
unfolding upper no_dollar
upper-no_dollar [] h = refl
upper-no_dollar (c ∷ t) h = ground (arith, upper-no_dollar t)

pub drop-no_dollar : (k : ℕ) (t : Text) → no_dollar t ≡ true → no_dollar (drop k t) ≡ true
unfolding no_dollar
drop-no_dollar zero t h = h
drop-no_dollar (suc k) [] h = h
drop-no_dollar (suc k) (c ∷ t) h = drop-no_dollar k t (ground arith)

push-no_dollar :
    (c : ℕ) (l : List Text)
    → no_dollar (c ∷ []) ≡ true
    → all no_dollar l ≡ true
    → all no_dollar (push c l) ≡ true
unfolding no_dollar
push-no_dollar c [] hc hl = ground arith
push-no_dollar c (p ∷ ps) hc hl = ground arith

split_scan-no_dollar :
    (sep : Text) (k : ℕ) (t : Text) → no_dollar t ≡ true → all no_dollar (split_scan sep k t) ≡ true
unfolding split_scan no_dollar
split_scan-no_dollar sep zero [] h = refl
split_scan-no_dollar sep (suc k) [] h = refl
split_scan-no_dollar sep (suc k) (d ∷ t) h = split_scan-no_dollar sep k t (ground arith)
split_scan-no_dollar sep zero (d ∷ t) h = elim (Bool-cases (is_prefix sep (d ∷ t))) [
  | inl e ↦ rw (e, split_scan) (split_scan-no_dollar sep (length sep - 1) t (ground arith))
  | inr e ↦
      rw (e, split_scan)
        (push-no_dollar d _ (ground arith) (split_scan-no_dollar sep 0 t (ground arith)))
]

pub split-no_dollar : (sep t : Text) → no_dollar t ≡ true → all no_dollar (split sep t) ≡ true
unfolding split
split-no_dollar sep t h = split_scan-no_dollar sep 0 t h
