-- ===== src/Channel/Words.antt =====
-- uint32_t of C++, with its wrap-around, and remainders of sums.
use native.Mathlib.Nat.{mod-eq_of_lt, mod-eq-sub-mod}
use yarf.Common.{
  ℕ, ◌+◌, ◌-◌, ◌%◌, ◌^◌, ◌≤◌, ◌<◌, ◌≡◌, ◌∙◌, arith, true, false, inl, inr, ◌⊎◌, ltb, leb,
  Bool-cases,
}

abbrev pub add32 : ℕ → ℕ → ℕ
add32 a b = (a + b) % 2 ^ 32

-- For b below 2 ^ 32
abbrev pub sub32 : ℕ → ℕ → ℕ
sub32 a b = (a + 2 ^ 32 - b) % 2 ^ 32

pub add32_small : (a b : ℕ) → a + b < 2 ^ 32 → add32 a b ≡ a + b
add32_small a b h = omega (arith, h)

pub sub32_small : (a b : ℕ) → b ≤ a → a < 2 ^ 32 → sub32 a b ≡ a - b
sub32_small a b h l = omega (arith, h, l)

-- Comparisons as Booleans, in both directions.
pub ltb_lt : (a b : ℕ) → a < b → ltb a b ≡ true
ltb_lt a b h = ground (arith, h)

pub ltb_ge : (a b : ℕ) → b ≤ a → ltb a b ≡ false
ltb_ge a b h = ground (arith, h)

pub lt-ltb : (a b : ℕ) → ltb a b ≡ true → a < b
lt-ltb a b h = ground (arith, h)

pub ge-ltb : (a b : ℕ) → ltb a b ≡ false → b ≤ a
ge-ltb a b h = ground (arith, h)

pub leb_le : (a b : ℕ) → a ≤ b → leb a b ≡ true
leb_le a b h = ground (arith, h)

pub le-leb : (a b : ℕ) → leb a b ≡ true → a ≤ b
le-leb a b h = ground (arith, h)

pub gt-leb : (a b : ℕ) → leb a b ≡ false → b < a
gt-leb a b h = ground (arith, h)

pub mod-cases :
    (cap x : ℕ) → x < cap + cap → ((x < cap) × (x % cap ≡ x)) ⊎ ((cap ≤ x) × (x % cap ≡ x - cap))
mod-cases cap x h = elim (Bool-cases (ltb x cap)) [
  | inl e ↦ inl (lt-ltb _ _ e, mod-eq_of_lt (lt-ltb _ _ e))
  | inr e ↦
      inr (
        ge-ltb _ _ e,
        mod-eq-sub-mod (ge-ltb _ _ e) ∙ mod-eq_of_lt (omega (arith, h, ge-ltb _ _ e)),
      )
]
