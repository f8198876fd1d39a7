-- ===== src/Channel/UnlockQueue/Placing.antt =====
-- Where `Send` puts a packet, and what the ring holds behind the writes.
use native.Mathlib.Nat.{add-mod_right}
use yarf.Common.{
  ℕ, ◌+◌, ◌-◌, ◌%◌, ◌≤◌, ◌<◌, ◌≡◌, refl, ◌∙◌, ap, sym, arith, Bool, true, false, not, inl, inr,
  List, [], ◌∷◌, ◌++◌, leb, ltb, length, if◌then◌else◌, Bool-cases,
}
use yarf.Channel.Words.{sub32, add32_small, sub32_small, lt-ltb, ge-ltb, le-leb, gt-leb}
use yarf.Channel.Memory.{Bytes, Memory}
use yarf.Channel.UnlockQueue.{
  k_ok, UnlockQueue, Place, full, at_tail, at_start, place, put_head, place_hold_head, zero_reserve,
  write_pack, send_at,
}
use yarf.Channel.UnlockQueue.Layout.{pack_space, LeftOut, Keeps, Run, Run_at, Run-append, u16_same}
use yarf.Channel.UnlockQueue.Write.{
  written, written_before, written_behind, written-Packet, put_head_before, place_holder-cmd,
}
use yarf.Channel.UnlockQueue.Contents.{Contains, tail-cases, tail_lt}

-- The place of a packet, with what the queue holds behind the writes there.
pub data Placed (rest m : Bytes) (q : UnlockQueue) (ms : List Bytes) (c : Contains q ms)
    : Type 0 where
  nowhere :
      place q.capacity q.head q.tail (pack_space m) ≡ full
      → q.capacity < c.used + (pack_space m + pack_space m)
      → Placed rest m q ms c
  by_tail :
      place q.capacity q.head q.tail (pack_space m) ≡ at_tail
      → Contains (write_pack rest m q.tail (pack_space m) q.buf q) (ms ++ (m ∷ []))
      → Placed rest m q ms c
  by_start :
      (b : Bool) (buf : Memory)
      → place q.capacity q.head q.tail (pack_space m) ≡ at_start b
      → send_at rest (at_start b) m (pack_space m) q
        ≡ (k_ok, write_pack rest m 0 (pack_space m) buf q)
      → Contains (write_pack rest m 0 (pack_space m) buf q) (ms ++ (m ∷ []))
      → Placed rest m q ms c

module _ (rest : Bytes) (whole : length rest ≡ 24) (m : Bytes) (small : length m ≤ 65528)
    (q : UnlockQueue) (ms : List Bytes) (c : Contains q ms) where
  abbrev now : Memory → ℕ → Memory
  now buf at = written rest m (pack_space m) q.seq at buf

  -- A packet at the tail.
  at_tail_lem :
      c.used + pack_space m < q.capacity
      → q.tail + pack_space m ≤ q.capacity
      → (q.tail < q.head → q.tail + pack_space m ≤ q.head)
      → Contains (write_pack rest m q.tail (pack_space m) q.buf q) (ms ++ (m ∷ []))
  unfolding write_pack Run
  at_tail_lem l a b = record {
    used = c.used + pack_space m;
    capacity_le = c.capacity_le;
    head_lt = c.head_lt;
    used_lt = l;
    tail_is =
        ap (λ (n : ℕ). n % q.capacity)
          (add32_small q.tail (pack_space m) (omega (arith, a, c.capacity_le)))
        ∙ elim (tail-cases q ms c) [
          | inl (u, e) ↦ ap (λ (n : ℕ). n % q.capacity) (omega (arith, e))
          | inr (u, e) ↦
              sym (add-mod_right (q.tail + pack_space m) q.capacity)
              ∙ ap (λ (n : ℕ). n % q.capacity) (omega (arith, u, e))
        ];
    run =
        Run-append q.capacity q.buf (now q.buf q.tail) q.head c.used (pack_space m) ms (m ∷ [])
          c.head_lt l keeps c.run
          (Run_at q.capacity (now q.buf q.tail) q.tail _ (pack_space m) (pack_space m) (m ∷ [])
            c.tail_is refl
            (inl
              (a, omega arith, written-Packet rest whole m q.seq q.tail q.buf small, omega arith)));
  }
    where
      keeps : Keeps q.capacity q.head c.used q.buf (now q.buf q.tail)
      keeps i hi (inl (low, high)) = elim (tail-cases q ms c) [
        | inl (u, e) ↦
            written_before rest whole m (pack_space m) q.seq q.tail q.buf i (omega (arith, high, e))
        | inr (u, e) ↦
            written_behind rest whole m (pack_space m) q.seq q.tail q.buf i
              (omega (arith, low, b (omega (arith, e, u, c.used_lt, c.head_lt))))
      ]
      keeps i hi (inr u') = elim (tail-cases q ms c) [
        | inl (u, e) ↦ absurd (omega (arith, u, u'))
        | inr (u, e) ↦
            written_before rest whole m (pack_space m) q.seq q.tail q.buf i (omega (arith, u', e))
      ]

  -- A packet at the start, and memory whose end is left out.
  at_start_lem :
      (buf : Memory)
      → q.head ≤ q.tail
      → pack_space m < q.head
      → q.capacity - q.tail < pack_space m
      → LeftOut q.capacity buf q.tail
      → ((i : ℕ) → i < q.tail → buf i ≡ q.buf i)
      → Contains (write_pack rest m 0 (pack_space m) buf q) (ms ++ (m ∷ []))
  unfolding write_pack Run
  at_start_lem buf l a t o k = record {
    used = c.used + extra;
    capacity_le = c.capacity_le;
    head_lt = c.head_lt;
    used_lt = omega (arith, ahead, a, tail_lt q ms c);
    tail_is =
        ap (λ (n : ℕ). n % q.capacity)
          (add32_small 0 (pack_space m) (omega (arith, a, c.head_lt, c.capacity_le)))
        ∙ sym (add-mod_right (0 + pack_space m) q.capacity)
        ∙ ap (λ (n : ℕ). n % q.capacity) (omega (arith, ahead, tail_lt q ms c));
    run =
        Run-append q.capacity q.buf (now buf 0) q.head c.used extra ms (m ∷ []) c.head_lt
          (omega (arith, ahead, a, tail_lt q ms c)) keeps c.run
          (Run_at q.capacity (now buf 0) q.tail _ extra extra (m ∷ []) c.tail_is refl (
            inr (
              left o,
              t,
              omega arith,
              written-Packet rest whole m q.seq 0 buf small,
              omega arith,
            )));
  }
    where
      extra : ℕ
      extra = q.capacity - q.tail + pack_space m

      ahead : q.tail ≡ q.head + c.used
      ahead = elim (tail-cases q ms c) [
        | inl (u, e) ↦ e
        | inr (u, e) ↦ absurd (omega (arith, u, e, l, c.used_lt, c.head_lt))
      ]

      behind : (i : ℕ) → q.head ≤ i → now buf 0 i ≡ buf i
      behind i h = written_behind rest whole m (pack_space m) q.seq 0 buf i (omega (arith, h, a))

      left : LeftOut q.capacity buf q.tail → LeftOut q.capacity (now buf 0) q.tail
      left (inl s) = inl s
      left (inr (s, e)) = inr (
        s,
        u16_same buf (now buf 0) (q.tail + 8) (behind (q.tail + 8) (omega (arith, l)))
              (behind (q.tail + 8 + 1) (omega (arith, l)))
            ∙ e,
      )

      keeps : Keeps q.capacity q.head c.used q.buf (now buf 0)
      keeps i hi (inl (low, high)) = behind i low ∙ k i (omega (arith, high, ahead))
      keeps i hi (inr u') = absurd (omega (arith, u', ahead, tail_lt q ms c))

  -- The place of a packet for which there is room.
  pub placed : c.used + pack_space m < q.capacity → Placed rest m q ms c
  unfolding place
  placed l = elim (Bool-cases (leb q.head q.tail)) [
    | inr e ↦ by_tail (ap (λ b. first b) e) (at_tail_lem l (behind e) (λ h. behind_head e))
    | inl e ↦ elim (Bool-cases (ltb (sub32 q.capacity q.tail) (pack_space m))) [
      | inr f ↦
          by_tail (ap (λ b. first b) e ∙ ap second f)
            (at_tail_lem l (fits f) (λ h. absurd (omega (arith, h, le-leb _ _ e))))
      | inl f ↦ elim (Bool-cases (leb q.head (pack_space m))) [
        | inl g ↦
            nowhere (ap (λ b. first b) e ∙ ap second f ∙ ap third g)
              (tight (le-leb _ _ e) (lt-ltb _ _ f) (le-leb _ _ g))
        | inr g ↦ elim (Bool-cases (ltb (sub32 q.capacity q.tail) 48)) [
          | inl s ↦
              by_start false q.buf
                (ap (λ b. first b) e ∙ ap second f ∙ ap third g ∙ ap (λ b. at_start (not b)) s) refl
                (at_start_lem q.buf (le-leb _ _ e) (gt-leb _ _ g) (too_small f) (inl (short s))
                  (λ i h. refl))
          | inr s ↦
              by_start true (put_head zero_reserve place_hold_head q.tail q.buf)
                (ap (λ b. first b) e ∙ ap second f ∙ ap third g ∙ ap (λ b. at_start (not b)) s) refl
                (at_start_lem (put_head zero_reserve place_hold_head q.tail q.buf) (le-leb _ _ e)
                  (gt-leb _ _ g) (too_small f)
                  (inr (long s, place_holder-cmd zero_reserve refl q.tail q.buf))
                  (λ i h. put_head_before zero_reserve refl place_hold_head q.tail q.buf i h))
        ]
      ]
    ]
  ]
    where
      third : Bool → Place
      third b = if b then full else at_start (not (ltb (sub32 q.capacity q.tail) 48))

      second : Bool → Place
      second b = if b then third (leb q.head (pack_space m)) else at_tail

      first : Bool → Place
      first b = if b then second (ltb (sub32 q.capacity q.tail) (pack_space m)) else at_tail

      rest_free : sub32 q.capacity q.tail ≡ q.capacity - q.tail
      rest_free =
          sub32_small q.capacity q.tail (omega (arith, tail_lt q ms c))
            (omega (arith, c.capacity_le))

      too_small :
          ltb (sub32 q.capacity q.tail) (pack_space m) ≡ true → q.capacity - q.tail < pack_space m
      too_small f = omega (arith, lt-ltb _ _ f, rest_free)

      tight :
          q.head ≤ q.tail
          → sub32 q.capacity q.tail < pack_space m
          → q.head ≤ pack_space m
          → q.capacity < c.used + (pack_space m + pack_space m)
      tight e f g = elim (tail-cases q ms c) [
        | inl (u, d) ↦ omega (arith, e, f, g, d, rest_free)
        | inr (u, d) ↦ absurd (omega (arith, e, d, c.used_lt, u))
      ]

      behind_head : leb q.head q.tail ≡ false → q.tail + pack_space m ≤ q.head
      behind_head e = elim (tail-cases q ms c) [
        | inl (u, d) ↦ absurd (omega (arith, d, gt-leb _ _ e))
        | inr (u, d) ↦ omega (arith, d, l, u)
      ]

      behind : leb q.head q.tail ≡ false → q.tail + pack_space m ≤ q.capacity
      behind e = omega (arith, behind_head e, c.head_lt)

      fits :
          ltb (sub32 q.capacity q.tail) (pack_space m) ≡ false → q.tail + pack_space m ≤ q.capacity
      fits f = omega (arith, ge-ltb _ _ f, rest_free, tail_lt q ms c)

      short : ltb (sub32 q.capacity q.tail) 48 ≡ true → q.capacity - q.tail < 48
      short s = omega (arith, lt-ltb _ _ s, rest_free)

      long : ltb (sub32 q.capacity q.tail) 48 ≡ false → q.tail + 48 ≤ q.capacity
      long s = omega (arith, ge-ltb _ _ s, rest_free, tail_lt q ms c)
