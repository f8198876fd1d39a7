-- ===== src/Text/Split.antt =====
-- `join` undoes `split`.
use yarf.Common.{
  ℕ, zero, suc, ◌-◌, ◌≡◌, refl, ap, ◌∙◌, true, inl, inr, List, [], ◌∷◌, ◌++◌, arith, length, drop,
  Bool-cases,
}
use yarf.Text.{Text, is_prefix, push, split_scan, split}

-- sep.join(parts)
unfoldable pub join : Text → List Text → Text
join sep [] = []
join sep (p ∷ []) = p
join sep (p ∷ q ∷ ps) = p ++ (sep ++ join sep (q ∷ ps))

-- A prefix and what follows it.
pub is_prefix-drop : (s t : Text) → is_prefix s t ≡ true → s ++ drop (length s) t ≡ t
unfolding is_prefix
is_prefix-drop [] t h = refl
is_prefix-drop (c ∷ s) [] h = cc
is_prefix-drop (c ∷ s) (d ∷ t) h = ground (arith, is_prefix-drop s t)

-- `split` yields one piece at least.
abbrev pub IsCons : List Text → Type 0
IsCons l = (p : Text) × (ps : List Text) × (l ≡ p ∷ ps)

push-IsCons : (c : ℕ) (l : List Text) → IsCons (push c l)
push-IsCons c [] = (c ∷ [], [], refl)
push-IsCons c (p ∷ ps) = (c ∷ p, ps, refl)

pub split_scan-IsCons : (sep : Text) (k : ℕ) (t : Text) → IsCons (split_scan sep k t)
unfolding split_scan
split_scan-IsCons sep zero [] = ([], [], refl)
split_scan-IsCons sep (suc k) [] = ([], [], refl)
split_scan-IsCons sep (suc k) (d ∷ t) = split_scan-IsCons sep k t
split_scan-IsCons sep zero (d ∷ t) = elim (Bool-cases (is_prefix sep (d ∷ t))) [
  | inl e ↦ rw (e, split_scan) ([], split_scan sep (length sep - 1) t, refl)
  | inr e ↦ rw (e, split_scan) (push-IsCons d (split_scan sep zero t))
]

join-push : (sep : Text) (c : ℕ) (l : List Text) → join sep (push c l) ≡ c ∷ join sep l
unfolding join
join-push sep c [] = refl
join-push sep c (p ∷ []) = refl
join-push sep c (p ∷ q ∷ ps) = refl

join-nil_cons : (sep : Text) (l : List Text) → IsCons l → join sep ([] ∷ l) ≡ sep ++ join sep l
unfolding join
join-nil_cons sep l (p, ps, e) = rw e

join-split_scan :
    (a : ℕ) (s : Text) (k : ℕ) (t : Text) → join (a ∷ s) (split_scan (a ∷ s) k t) ≡ drop k t
unfolding split_scan
join-split_scan a s zero [] = unfold join in refl
join-split_scan a s (suc k) [] = unfold join in refl
join-split_scan a s (suc k) (d ∷ t) = join-split_scan a s k t
join-split_scan a s zero (d ∷ t) = elim (Bool-cases (is_prefix (a ∷ s) (d ∷ t))) [
  | inl e ↦
      rw (e, split_scan)
        (join-nil_cons (a ∷ s) _ (split_scan-IsCons (a ∷ s) (suc (length s) - 1) t)
          ∙ ap (λ (x : Text). a ∷ s ++ x)
              (join-split_scan a s (suc (length s) - 1) t ∙ ap (λ (n : ℕ). drop n t) pred_suc)
          ∙ is_prefix-drop (a ∷ s) (d ∷ t) e)
  | inr e ↦
      rw (e, split_scan)
        (join-push (a ∷ s) d (split_scan (a ∷ s) zero t)
          ∙ ap (λ (x : Text). d ∷ x) (join-split_scan a s zero t))
]
  where
    pred_suc : suc (length s) - 1 ≡ length s
    pred_suc = omega arith

-- Joining the pieces of a split by the separator gives the text back.
pub join-split : (a : ℕ) (s t : Text) → join (a ∷ s) (split (a ∷ s) t) ≡ t
unfolding split
join-split a s t = join-split_scan a s 0 t
