-- ===== src/Channel/Memory.antt =====
-- Memory as bytes by their offsets, and numbers in it with the low byte first.
use yarf.Common.{
  ℕ, zero, suc, ◌+◌, ◌*◌, ◌/◌, ◌%◌, ◌≤◌, ◌<◌, ◌≡◌, refl, ◌∙◌, ap, arith, List, [], ◌∷◌, ◌==◌,
  if◌then◌else◌, length,
}

abbrev pub Bytes : Type 0
Bytes = List ℕ

abbrev pub Memory : Type 0
Memory = ℕ → ℕ

-- memcpy into memory
unfoldable pub store : ℕ → Bytes → Memory → Memory
store at [] buf i = buf i
store at (b ∷ bytes) buf i = if i == at then b else store (at + 1) bytes buf i

-- memcpy out of memory
unfoldable pub load : ℕ → ℕ → Memory → Bytes
load at zero buf = []
load at (suc n) buf = buf at ∷ load (at + 1) n buf

abbrev pub le16 : ℕ → Bytes
le16 v = (v % 256) ∷ (v / 256 % 256) ∷ []

abbrev pub le32 : ℕ → Bytes
le32 v = (v % 256) ∷ (v / 256 % 256) ∷ (v / 65536 % 256) ∷ (v / 16777216 % 256) ∷ []

-- A uint16_t at an offset
unfoldable pub u16 : Memory → ℕ → ℕ
u16 buf at = buf at + 256 * buf (at + 1)

abbrev pub nth : Bytes → ℕ → ℕ
nth [] k = 0
nth (b ∷ bytes) zero = b
nth (b ∷ bytes) (suc k) = nth bytes k

pub store_before :
    (at : ℕ) (bytes : Bytes) (buf : Memory) (i : ℕ) → i < at → store at bytes buf i ≡ buf i
unfolding store
store_before at [] buf i h = refl
store_before at (b ∷ bytes) buf i h = ground (arith, store_before (at + 1) bytes buf i)

pub store_behind :
    (at : ℕ) (bytes : Bytes) (buf : Memory) (i : ℕ)
    → at + length bytes ≤ i
    → store at bytes buf i ≡ buf i
unfolding store
store_behind at [] buf i h = refl
store_behind at (b ∷ bytes) buf i h = ground (arith, store_behind (at + 1) bytes buf i)

pub store-nth :
    (at : ℕ) (bytes : Bytes) (buf : Memory) (k : ℕ)
    → k < length bytes
    → store at bytes buf (at + k) ≡ nth bytes k
unfolding store
store-nth at [] buf k h = absurd (omega arith)
store-nth at (b ∷ bytes) buf zero h = ground arith
store-nth at (b ∷ bytes) buf (suc k) h =
    ap (store at (b ∷ bytes) buf) (omega arith)
    ∙ further (store-nth (at + 1) bytes buf k (omega (arith, h)))
  where
    further :
        store (at + 1) bytes buf (at + 1 + k) ≡ nth bytes k
        → store at (b ∷ bytes) buf (at + 1 + k) ≡ nth bytes k
    further e = ground (arith, e)

pub load_same :
    (at n : ℕ) (buf buf' : Memory)
    → ((i : ℕ) → at ≤ i → i < at + n → buf' i ≡ buf i)
    → load at n buf' ≡ load at n buf
unfolding load
load_same at zero buf buf' h = refl
load_same at (suc n) buf buf' h =
    pair (h at (omega arith) (omega arith))
      (load_same (at + 1) n buf buf' (λ i p q. h i (omega (arith, p)) (omega (arith, q))))
  where
    pair : {a b : ℕ} {s t : Bytes} → a ≡ b → s ≡ t → a ∷ s ≡ b ∷ t
    pair p q = cc

pub load-store :
    (at : ℕ) (bytes : Bytes) (buf : Memory) → load at (length bytes) (store at bytes buf) ≡ bytes
unfolding load store
load-store at [] buf = refl
load-store at (b ∷ bytes) buf = pair here (
    load_same (at + 1) (length bytes) (store (at + 1) bytes buf) (store at (b ∷ bytes) buf)
      (λ i p q. above i p)
    ∙ load-store (at + 1) bytes buf)
  where
    pair : {a c : ℕ} {s t : Bytes} → a ≡ c → s ≡ t → a ∷ s ≡ c ∷ t
    pair p q = cc

    here : store at (b ∷ bytes) buf at ≡ b
    here = ground arith

    above : (i : ℕ) → at + 1 ≤ i → store at (b ∷ bytes) buf i ≡ store (at + 1) bytes buf i
    above i p = ground arith

pub u16-le16 : (v : ℕ) → v < 65536 → v % 256 + 256 * (v / 256 % 256) ≡ v
u16-le16 v h = omega (arith, h)
