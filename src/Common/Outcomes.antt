-- ===== src/Common/Outcomes.antt =====
-- How a call ends: with a value, with an exception, and what then holds of the value.
use mathlib.Core.Path.{◌≡◌, refl, subst}
use yarf.Common.{Result, ok, raised, PyError, ◌>>=◌}

module _ {ℓ} {A : Type ℓ} where
  abbrev pub Returns : Result A → Type ℓ
  Returns r = (a : A) × (r ≡ ok a)

  abbrev pub Fails : Result A → Type ℓ
  Fails r = (e : PyError) × (r ≡ raised e)

  -- What holds of the value, if there is one.
  abbrev pub Ensures : (A → Type ℓ) → Result A → Type ℓ
  Ensures P (ok a) = P a
  Ensures P (raised e) = Unit

  the_same : (b a : A) → ok b ≡ ok a → b ≡ a
  the_same b a q = cc

  pub Ensures-ok : (P : A → Type ℓ) (r : Result A) (a : A) → Ensures P r → r ≡ ok a → P a
  Ensures-ok P (ok b) a h q = subst P (the_same b a q) h
  Ensures-ok P (raised x) a h e = cc

module _ {ℓ κ} {A : Type ℓ} {B : Type κ} where
  pub Returns->>= :
      (r : Result A) (k : A → Result B) → Returns r → ((a : A) → Returns (k a)) → Returns (r >>= k)
  Returns->>= (ok a) k h f = f a
  Returns->>= (raised e) k (a, q) f = cc

  pub Fails->>= : (r : Result A) (k : A → Result B) → Fails r → Fails (r >>= k)
  Fails->>= (ok a) k (e, q) = cc
  Fails->>= (raised x) k h = (x, refl)

  pub Fails->>=_after :
      (r : Result A) (k : A → Result B) → ((a : A) → Fails (k a)) → Fails (r >>= k)
  Fails->>=_after (ok a) k f = f a
  Fails->>=_after (raised x) k f = (x, refl)

  pub Ensures->>= :
      (P : A → Type ℓ) (Q : B → Type κ) (r : Result A) (k : A → Result B)
      → Ensures P r
      → ((a : A) → P a → Ensures Q (k a))
      → Ensures Q (r >>= k)
  Ensures->>= P Q (ok a) k h f = f a h
  Ensures->>= P Q (raised x) k h f = tt
