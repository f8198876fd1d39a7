-- ===== src/Util/Camel.antt =====
-- `first2upper` of tools/yarf_util.py, by the parts of the name between underscores.
use mathlib.Core.List.{append_assoc, append-nil}
use yarf.Common.{
  ℕ, ◌≡◌, refl, ◌∙◌, ap, sym, arith, Bool, true, false, inl, inr, List, [], ◌∷◌, ◌++◌, ◌==◌,
  if◌then◌else◌, map, Bool-cases,
}
use yarf.Text.{Text, codes, is_prefix, split, split_scan, push, upper_char}
use yarf.Util.{first2upper, first2upper_loop}

abbrev pub capital : Text → Text
capital [] = []
capital (c ∷ t) = upper_char c ∷ t

abbrev pub concat : List Text → Text
concat [] = []
concat (p ∷ ps) = p ++ concat ps

-- The parts put together, the first with a capital where `head` is true.
abbrev joined : Bool → List Text → Text
joined true parts = concat (map capital parts)
joined false [] = []
joined false (p ∷ ps) = p ++ concat (map capital ps)

joined-push :
    (head : Bool) (c : ℕ) (parts : List Text)
    → joined head (push c parts) ≡ (if head then upper_char c else c) ∷ joined false parts
joined-push true c [] = refl
joined-push false c [] = refl
joined-push true c (p ∷ ps) = refl
joined-push false c (p ∷ ps) = refl

joined_empty : (head : Bool) (parts : List Text) → joined head ([] ∷ parts) ≡ joined true parts
joined_empty true parts = refl
joined_empty false parts = refl

is_prefix-mark : (c : ℕ) (t : Text) → is_prefix (codes "_") (c ∷ t) ≡ (c == b'_')
unfolding is_prefix
is_prefix-mark c t = ground arith

-- The two rounds of `split`.
abbrev scan_round : ℕ → Text → Bool → List Text
scan_round c t b = elim b as (λ x. List Text) [
  | true ↦ [] ∷ split_scan (codes "_") 0 t
  | false ↦ push c (split_scan (codes "_") 0 t)
]

split_mark :
    (c : ℕ) (t : Text) → (c == b'_') ≡ true → split (codes "_") (c ∷ t) ≡ [] ∷ split (codes "_") t
unfolding split is_prefix split_scan
split_mark c t h = ap (scan_round c t) (is_prefix-mark c t ∙ h)

split_other :
    (c : ℕ) (t : Text)
    → (c == b'_') ≡ false
    → split (codes "_") (c ∷ t) ≡ push c (split (codes "_") t)
unfolding split is_prefix split_scan
split_other c t h = ap (scan_round c t) (is_prefix-mark c t ∙ h)

first2upper_loop_lem :
    (head : Bool) (ret t : Text)
    → first2upper_loop head ret t ≡ ret ++ joined head (split (codes "_") t)
unfolding first2upper_loop split split_scan
first2upper_loop_lem head ret [] = sym (ap (λ t. ret ++ t) (joined_empty head []) ∙ append-nil ret)
first2upper_loop_lem head ret (c ∷ t) = elim (Bool-cases (c == b'_')) [
  | inl e ↦
      ap (λ b. first2upper_loop (if b then true else false) (longer b) t) e
      ∙ first2upper_loop_lem true ret t
      ∙ ap (λ u. ret ++ u)
          (sym (joined_empty head (split (codes "_") t))
            ∙ ap (joined head) (sym (split_mark c t e)))
  | inr e ↦
      ap (λ b. first2upper_loop (if b then true else false) (longer b) t) e
      ∙ ap (λ r. first2upper_loop false r t) (extend head)
      ∙ first2upper_loop_lem false (ret ++ (letter ∷ [])) t
      ∙ append_assoc ret (letter ∷ []) (joined false (split (codes "_") t))
      ∙ ap (λ u. ret ++ u)
          (sym (joined-push head c (split (codes "_") t))
            ∙ ap (joined head) (sym (split_other c t e)))
]
  where
    letter : ℕ
    letter = if head then upper_char c else c

    longer : Bool → Text
    longer b = if b then ret else if head then ret ++ (upper_char c ∷ []) else ret ++ (c ∷ [])

    extend :
        (b : Bool)
        → (if b then ret ++ (upper_char c ∷ []) else ret ++ (c ∷ []))
          ≡ ret ++ ((if b then upper_char c else c) ∷ [])
    extend true = refl
    extend false = refl

-- first2upper writes the parts of a name between its underscores one behind the other, the first
-- letter of each as a capital.
pub first2upper_lem : (t : Text) → first2upper t ≡ concat (map capital (split (codes "_") t))
unfolding first2upper
first2upper_lem t = first2upper_loop_lem true [] t
