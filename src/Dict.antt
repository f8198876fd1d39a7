-- ===== src/Dict.antt =====
-- Python's `dict` with string keys, as far as the tools use it: they never iterate over one.
use mathlib.Core.Path.{subst}
use yarf.Common.{
  true, false, ◌≡◌, All, Bool-cases, inl, inr, refl, Option, none, some, List, [], ◌∷◌, arith,
  if◌then◌else◌,
}
use yarf.Text.{Text, text_eq}
use yarf.Text.Equality.{text_eq_iff, text_eq_refl}

abbrev pub Dict {ℓ} : Type ℓ → Type ℓ
Dict V = List (Text × V)

module _ {ℓ} {V : Type ℓ} where
  -- d[k] on the right of an assignment; `none` is a missing key
  unfoldable pub lookup : Text → Dict V → Option V
  lookup k [] = none
  lookup k ((j, v) ∷ d) = if text_eq j k then some v else lookup k d

  -- d[k] = v
  unfoldable pub insert : Text → V → Dict V → Dict V
  insert k v [] = (k, v) ∷ []
  insert k v ((j, w) ∷ d) = if text_eq j k then (j, v) ∷ d else (j, w) ∷ insert k v d

  pub lookup-insert :
      (k j : Text) (v : V) (d : Dict V)
      → lookup j (insert k v d) ≡ (if text_eq k j then some v else lookup j d)
  unfolding lookup insert
  lookup-insert k j v [] = refl
  lookup-insert k j v ((i, w) ∷ d) =
      ground (arith, text_eq_iff k j, text_eq_iff i k, text_eq_iff i j, lookup-insert k j v d)

  pub lookup-insert_self : (k : Text) (v : V) (d : Dict V) → lookup k (insert k v d) ≡ some v
  lookup-insert_self k v d = rw (lookup-insert, text_eq_refl) refl

  -- What holds of every value holds of the one that is found.
  pub lookup-All {κ} :
      (P : V → Type κ) (k : Text) (d : Dict V) (v : V)
      → All (λ (e : Text × V). P e.1) d
      → lookup k d ≡ some v
      → P v
  unfolding lookup
  lookup-All P k [] v h q = cc
  lookup-All P k ((j, w) ∷ d) v (h, hs) q = elim (Bool-cases (text_eq j k)) [
    | inl b ↦ subst P (found b q) h
    | inr b ↦ lookup-All P k d v hs (missed b q)
  ]
    where
      found : text_eq j k ≡ true → (if text_eq j k then some w else lookup k d) ≡ some v → w ≡ v
      found b q = cc

      missed :
          text_eq j k ≡ false
          → (if text_eq j k then some w else lookup k d) ≡ some v
          → lookup k d ≡ some v
      missed b q = cc
