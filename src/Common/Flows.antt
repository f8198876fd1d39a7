-- ===== src/Common/Flows.antt =====
-- `do` blocks over `Flow`, for the functions that return early.
use mathlib.Core.Path.{◌≡◌, refl}
use yarf.Common.{Flow, next, returned, failed}

infixl 5 ◌>>=◌
abbrev pub ◌>>=◌ {ℓ κ} : {A : Type ℓ} {B : Type κ} → Flow A → (A → Flow B) → Flow B
next a >>= f = f a
returned >>= f = returned
failed e >>= f = failed e

-- Two continuations that agree on the value that is handed on.
pub >>=-cong {ℓ κ} :
    {A : Type ℓ} {B : Type κ} (r : Flow A) (k k' : A → Flow B)
    → ((a : A) → r ≡ next a → k a ≡ k' a)
    → (r >>= k) ≡ (r >>= k')
>>=-cong (next a) k k' h = h a refl
>>=-cong returned k k' h = refl
>>=-cong (failed e) k k' h = refl
