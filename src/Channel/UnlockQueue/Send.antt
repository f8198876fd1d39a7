-- ===== src/Channel/UnlockQueue/Send.antt =====
-- The sender of a queue: how `Send` ends.
use native.Mathlib.Nat.{mod-eq_of_lt, add-mod_right}
use yarf.Common.{
  ℕ, ◌+◌, ◌-◌, ◌%◌, ◌≤◌, ◌<◌, ◌≡◌, refl, ◌∙◌, ap, arith, Bool, true, false, not, ◌||◌, inl, inr,
  List, [], ◌∷◌, ◌++◌, ◌==◌, ltb, length, if◌then◌else◌, Bool-cases,
}
use yarf.Channel.Words.{add32, sub32, add32_small, sub32_small, lt-ltb, ge-ltb}
use yarf.Channel.Memory.{Bytes}
use yarf.Channel.UnlockQueue.{
  write_pack, Status, k_ok, k_unexpect, k_chan_full, UnlockQueue, place, get_alignment_size,
  send_at, send,
}
use yarf.Channel.UnlockQueue.Layout.{pack_space}
use yarf.Channel.UnlockQueue.Contents.{Contains, tail-cases, tail_lt}
use yarf.Channel.UnlockQueue.Placing.{Placed, nowhere, by_tail, by_start, placed}

-- How `Send` ends: the message stands behind the others, or nothing has changed.
pub data Sent (rest m : Bytes) (q : UnlockQueue) (ms : List Bytes) (c : Contains q ms)
    : Type 0 where
  accepted :
      (q' : UnlockQueue)
      → send rest m q ≡ (k_ok, q')
      → q'.capacity ≡ q.capacity
      → Contains q' (ms ++ (m ∷ []))
      → Sent rest m q ms c
  refused :
      send rest m q ≡ (k_chan_full, q)
      → q.capacity < c.used + (pack_space m + pack_space m)
      → Sent rest m q ms c

fine : (r x y : ℕ) → r ≡ 0 → y ≤ x → (not (r == 0) || ltb x y) ≡ false
fine r x y h l = ground (arith, h, l)

module _ (rest : Bytes) (whole : length rest ≡ 24) (m : Bytes) (small : length m ≤ 65528)
    (q : UnlockQueue) (ms : List Bytes) (c : Contains q ms) where
  aligned : get_alignment_size (48 + length m) ≡ pack_space m
  unfolding get_alignment_size
  aligned = omega (arith, small)

  free : add32 (sub32 (sub32 q.capacity q.tail) 1) q.head % q.capacity ≡ q.capacity - 1 - c.used
  free =
      ap (λ (n : ℕ). add32 (sub32 n 1) q.head % q.capacity)
        (sub32_small q.capacity q.tail (omega (arith, tail_lt q ms c))
          (omega (arith, c.capacity_le)))
      ∙ ap (λ (n : ℕ). add32 n q.head % q.capacity)
          (sub32_small (q.capacity - q.tail) 1 (omega (arith, tail_lt q ms c))
            (omega (arith, c.capacity_le)))
      ∙ ap (λ (n : ℕ). n % q.capacity)
          (add32_small (q.capacity - q.tail - 1) q.head (omega (arith, c.capacity_le, c.head_lt)))
      ∙ elim (tail-cases q ms c) [
        | inl (l, e) ↦
            ap (λ (n : ℕ). n % q.capacity) (omega (arith, l, e))
            ∙ mod-eq_of_lt (omega (arith, c.used_lt))
        | inr (l, e) ↦
            ap (λ (n : ℕ). n % q.capacity) (omega (arith, l, e, c.head_lt, c.used_lt))
            ∙ add-mod_right (q.capacity - 1 - c.used) q.capacity
            ∙ mod-eq_of_lt (omega (arith, c.used_lt))
      ]

  -- `Send` behind its tests.
  pub reaches :
      (b : Bool)
      → ltb (q.capacity - 1 - c.used) (pack_space m) ≡ b
      → send rest m q ≡ (
          if b
          then (k_chan_full, q)
          else send_at rest (place q.capacity q.head q.tail (pack_space m)) m (pack_space m) q)
  unfolding send
  reaches b e =
      ap
        (λ (n : ℕ).
          tested n (get_alignment_size n)
            (add32 (sub32 (sub32 q.capacity q.tail) 1) q.head % q.capacity))
        (omega (arith, small))
      ∙ ap
          (λ (n : ℕ).
            tested (48 + length m) n
              (add32 (sub32 (sub32 q.capacity q.tail) 1) q.head % q.capacity))
          aligned
      ∙ ap (tested (48 + length m) (pack_space m)) free
      ∙ ap (λ b. if b then (k_unexpect, q) else room (ltb (q.capacity - 1 - c.used) (pack_space m)))
          passes
      ∙ ap room e
    where
      room : Bool → Status × UnlockQueue
      room b =
          if b
          then (k_chan_full, q)
          else send_at rest (place q.capacity q.head q.tail (pack_space m)) m (pack_space m) q

      tested : ℕ → ℕ → ℕ → Status × UnlockQueue
      tested size align free_size =
          if not (align % 8 == 0) || ltb align size
          then (k_unexpect, q)
          else if ltb free_size align
          then (k_chan_full, q)
          else send_at rest (place q.capacity q.head q.tail align) m align q

      passes : (not (pack_space m % 8 == 0) || ltb (pack_space m) (48 + length m)) ≡ false
      passes = fine (pack_space m % 8) (pack_space m) (48 + length m) (omega arith) (omega arith)

  -- A message is put behind the others, or the queue is full and nothing has changed.
  pub send-Sent : Sent rest m q ms c
  unfolding write_pack
  send-Sent = elim (Bool-cases (ltb (q.capacity - 1 - c.used) (pack_space m))) [
    | inl e ↦ refused (reaches true e) (omega (arith, lt-ltb _ _ e))
    | inr e ↦ done (reaches false e) (placed rest whole m small q ms c (room e))
  ]
    where
      room :
          ltb (q.capacity - 1 - c.used) (pack_space m) ≡ false → c.used + pack_space m < q.capacity
      room e = omega (arith, ge-ltb _ _ e, c.used_lt)

      done :
          send rest m q
            ≡ send_at rest (place q.capacity q.head q.tail (pack_space m)) m (pack_space m) q
          → Placed rest m q ms c
          → Sent rest m q ms c
      done s (nowhere p t) = refused (s ∙ ap (λ x. send_at rest x m (pack_space m) q) p) t
      done s (by_tail p k) = accepted _ (s ∙ ap (λ x. send_at rest x m (pack_space m) q) p) refl k
      done s (by_start b buf p e k) =
          accepted _ (s ∙ ap (λ x. send_at rest x m (pack_space m) q) p ∙ e) refl k
