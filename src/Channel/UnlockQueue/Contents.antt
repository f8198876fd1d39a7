-- ===== src/Channel/UnlockQueue/Contents.antt =====
-- What a queue holds: the packets in its ring, and the sizes that the calls compute from its head and tail.
use native.Mathlib.Nat.{mod-eq_of_lt, add-mod_right}
use yarf.Common.{ℕ, ◌+◌, ◌-◌, ◌%◌, ◌^◌, ◌≤◌, ◌<◌, ◌≡◌, ◌∙◌, ap, arith, inl, inr, ◌⊎◌, List}
use yarf.Channel.Words.{sub32, add32_small, sub32_small, mod-cases}
use yarf.Channel.Memory.{Bytes}
use yarf.Channel.UnlockQueue.{UnlockQueue, alloc_size}
use yarf.Channel.UnlockQueue.Layout.{Run}

-- The ring holds these messages, in `used` bytes from `head` to `tail`.
pub record Contains (q : UnlockQueue) (ms : List Bytes) : Type 0 where
  pub used : ℕ
  pub capacity_le : q.capacity ≤ 2 ^ 31
  pub head_lt : q.head < q.capacity
  pub used_lt : used < q.capacity
  pub tail_is : q.tail ≡ (q.head + used) % q.capacity
  pub run : Run q.capacity q.buf q.head used ms

module _ (q : UnlockQueue) (ms : List Bytes) (c : Contains q ms) where
  -- The two ways in which the bytes in use lie.
  pub tail-cases :
      ((q.head + c.used < q.capacity) × (q.tail ≡ q.head + c.used))
      ⊎ ((q.capacity ≤ q.head + c.used) × (q.tail ≡ q.head + c.used - q.capacity))
  tail-cases = elim (mod-cases q.capacity (q.head + c.used) (omega (arith, c.head_lt, c.used_lt))) [
    | inl (l, e) ↦ inl (l, c.tail_is ∙ e)
    | inr (l, e) ↦ inr (l, c.tail_is ∙ e)
  ]

  pub tail_lt : q.tail < q.capacity
  tail_lt = elim tail-cases [
    | inl (l, e) ↦ omega (arith, l, e)
    | inr (l, e) ↦ omega (arith, l, e, c.used_lt, c.head_lt)
  ]

  alloc_small :
      (h : ℕ) → h ≤ q.tail + q.capacity → alloc_size q h ≡ (q.tail + q.capacity - h) % q.capacity
  alloc_small h l =
      ap (λ (n : ℕ). n % q.capacity)
        (ap (λ (n : ℕ). sub32 n h)
            (add32_small q.tail q.capacity (omega (arith, tail_lt, c.capacity_le)))
          ∙ sub32_small (q.tail + q.capacity) h l (omega (arith, tail_lt, c.capacity_le)))

  pub alloc_head : alloc_size q q.head ≡ c.used
  alloc_head = alloc_small q.head (omega (arith, c.head_lt)) ∙ elim tail-cases [
    | inl (l, e) ↦
        ap (λ (n : ℕ). n % q.capacity) (omega (arith, l, e))
        ∙ add-mod_right c.used q.capacity
        ∙ mod-eq_of_lt c.used_lt
    | inr (l, e) ↦ ap (λ (n : ℕ). n % q.capacity) (omega (arith, l, e)) ∙ mod-eq_of_lt c.used_lt
  ]

  pub alloc_start : alloc_size q 0 ≡ q.tail
  alloc_start =
      alloc_small 0 (omega arith)
      ∙ ap (λ (n : ℕ). n % q.capacity) (omega arith)
      ∙ add-mod_right q.tail q.capacity
      ∙ mod-eq_of_lt tail_lt

  pub tail_alloc : sub32 q.capacity q.head ≡ q.capacity - q.head
  tail_alloc =
      sub32_small q.capacity q.head (omega (arith, c.head_lt)) (omega (arith, c.capacity_le))
