-- ===== src/Common/Results.antt =====
-- Python's way out of a call: a value, or an exception by its class.
use mathlib.Core.Option.{Option, none, some}

pub data PyError : Type 0 where
  key_error index_error type_error attribute_error io_error os_error recursion_error value_error
        assertion_error unicode_decode_error unicode_encode_error :
      PyError

pub data Result {ℓ} (A : Type ℓ) : Type ℓ where
  ok : A → Result A
  raised : PyError → Result A

-- `abbrev`, so that `ok a >>= f` computes wherever it stands.
infixl 5 ◌>>=◌
abbrev pub ◌>>=◌ {ℓ κ} : {A : Type ℓ} {B : Type κ} → Result A → (A → Result B) → Result B
ok a >>= f = f a
raised e >>= f = raised e

-- A call with an early `return`, which gives no value.
pub data Flow {ℓ} (A : Type ℓ) : Type ℓ where
  next : A → Flow A
  returned : Flow A
  failed : PyError → Flow A

abbrev pub flow {ℓ} : {A : Type ℓ} → Result A → Flow A
flow (ok a) = next a
flow (raised e) = failed e

-- `a, b = e` where `e` may be None
abbrev pub unpack {ℓ} : {A : Type ℓ} → Option A → Flow A
unpack none = failed type_error
unpack (some a) = next a
