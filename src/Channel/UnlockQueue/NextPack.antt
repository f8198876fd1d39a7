-- ===== src/Channel/UnlockQueue/NextPack.antt =====
-- What `GetNextPack` finds.
use native.Mathlib.Nat.{mod-lt}
use yarf.Common.{
  ℕ, ◌+◌, ◌-◌, ◌%◌, ◌≤◌, ◌<◌, ◌≡◌, refl, ◌∙◌, ap, sym, arith, Bool, true, false, not, inl, inr,
  List, [], ◌∷◌, ◌==◌, ltb, length, if◌then◌else◌,
}
use yarf.Channel.Words.{add32, sub32, add32_small, ltb_lt, ltb_ge}
use yarf.Channel.Memory.{Bytes}
use yarf.Channel.UnlockQueue.{
  k_unexpect, k_chan_empty, k_chan_pack_invalid, UnlockQueue, Next, error, pack, alloc_size,
  align_body_len_at, cmd_at, check_pack, jump, get_next_pack, drop_pack,
}
use yarf.Channel.UnlockQueue.Layout.{pack_space, Packet, LeftOut, Run, Run_at, rest_end, start_end}
use yarf.Channel.UnlockQueue.Contents.{Contains, tail-cases, alloc_head, alloc_start, tail_alloc}

module _ (q : UnlockQueue) (ms : List Bytes) (c : Contains q ms) where
  -- A packet passes the tests, if it lies in the bytes in use.
  check_pack-Packet :
      (at : ℕ) (m : Bytes)
      → Packet q.buf at m
      → pack_space m ≤ alloc_size q at
      → check_pack q at ≡ pack at (pack_space m)
  unfolding check_pack
  check_pack-Packet at m p l =
      ap
        (λ (n : ℕ).
          if not (n == 1) then error k_unexpect else sized (add32 48 (align_body_len_at q at)))
        p.cmd_is
      ∙ ap sized (size p.align_is p.small)
      ∙ ap (λ b. if b then error k_chan_pack_invalid else pack at (pack_space m)) (fits l)
    where
      sized : ℕ → Next
      sized n = if ltb (alloc_size q at) n then error k_chan_pack_invalid else pack at n

      size :
          align_body_len_at q at ≡ pack_space m - 48
          → length m ≤ 65528
          → add32 48 (align_body_len_at q at) ≡ pack_space m
      size e s = omega (arith, e, s)

      fits : pack_space m ≤ alloc_size q at → ltb (alloc_size q at) (pack_space m) ≡ false
      fits h = ltb_ge _ _ h

-- Where the ring has packets, `GetNextPack` gives the first, and to drop it leaves the others.
pub record Front (q : UnlockQueue) (m : Bytes) (ms : List Bytes) : Type 0 where
  pub at : ℕ
  pub finds : get_next_pack q ≡ pack at (pack_space m)
  pub packet : Packet q.buf at m
  pub leaves : Contains (drop_pack at (pack_space m) q) ms

module _ (q : UnlockQueue) (m : Bytes) (ms : List Bytes) (c : Contains q (m ∷ ms)) where
  -- The tail is not the head.
  used_pos : (q.tail == q.head) ≡ false
  unfolding Run
  used_pos = apart (some_used c.run)
    where
      some_used : Run q.capacity q.buf q.head c.used (m ∷ ms) → 0 < c.used
      some_used (inl (a, b, p, r)) = omega (arith, b)
      some_used (inr (l, t, b, p, r)) = omega (arith, b)

      apart : 0 < c.used → (q.tail == q.head) ≡ false
      apart h = elim (tail-cases q (m ∷ ms) c) [
        | inl (l, e) ↦ ground (arith, e, h)
        | inr (l, e) ↦ ground (arith, e, h, c.used_lt, c.head_lt, l)
      ]

  abbrev route : Bool → Bool → Bool → Next
  route b1 b2 b3 =
      if b1
      then error k_chan_empty
      else if b2
      then jump q (sub32 q.capacity q.head)
      else if b3
      then jump q (sub32 q.capacity q.head)
      else check_pack q q.head

  route_lem :
      (b2 b3 : Bool)
      → ltb (sub32 q.capacity q.head) 48 ≡ b2
      → (cmd_at q q.head == 2) ≡ b3
      → get_next_pack q ≡ route false b2 b3
  unfolding get_next_pack
  route_lem b2 b3 e2 e3 =
      ap (λ b. route b (ltb (sub32 q.capacity q.head) 48) (cmd_at q q.head == 2)) used_pos
      ∙ ap (λ b. route false b (cmd_at q q.head == 2)) e2
      ∙ ap (λ b. route false b2 b) e3

  -- Dropping a packet moves the head behind it.
  dropped :
      (at used : ℕ)
      → at + pack_space m ≤ q.capacity
      → used < q.capacity
      → (((at + pack_space m) % q.capacity + used) % q.capacity ≡ q.tail)
      → Run q.capacity q.buf ((at + pack_space m) % q.capacity) used ms
      → Contains (drop_pack at (pack_space m) q) ms
  dropped at used a l e r =
      let same =
        ap (λ (n : ℕ). n % q.capacity)
          (add32_small at (pack_space m) (omega (arith, a, c.capacity_le))) in
      record {
        used = used;
        capacity_le = c.capacity_le;
        head_lt = mod-lt (add32 at (pack_space m)) (omega (arith, l));
        used_lt = l;
        tail_is = sym e ∙ ap (λ (n : ℕ). (n + used) % q.capacity) (sym same);
        run = Run_at q.capacity q.buf _ _ used used ms (sym same) refl r;
      }

  -- The jump to the start, where the end of the ring is left out.
  jump_lem :
      q.capacity - q.head + pack_space m ≤ c.used
      → jump q (sub32 q.capacity q.head) ≡ check_pack q 0
  unfolding jump
  jump_lem a =
      ap (λ b. if b then error k_chan_pack_invalid else check_pack q 0)
        (ap (λ (n : ℕ). ltb n (sub32 q.capacity q.head)) (alloc_head q (m ∷ ms) c)
          ∙ ap (λ (n : ℕ). ltb c.used n) (tail_alloc q (m ∷ ms) c)
          ∙ ltb_ge c.used (q.capacity - q.head) (omega (arith, a)))

  tail_behind : q.capacity - q.head + pack_space m ≤ c.used → pack_space m ≤ q.tail
  tail_behind a = elim (tail-cases q (m ∷ ms) c) [
    | inl (l, e) ↦ absurd (omega (arith, a, l, c.head_lt))
    | inr (l, e) ↦ omega (arith, a, l, e, c.head_lt)
  ]

  left_out : LeftOut q.capacity q.buf q.head → get_next_pack q ≡ jump q (sub32 q.capacity q.head)
  left_out (inl s) =
      route_lem true (cmd_at q q.head == 2)
        (ap (λ (n : ℕ). ltb n 48) (tail_alloc q (m ∷ ms) c) ∙ ltb_lt (q.capacity - q.head) 48 s)
        refl
  left_out (inr (s, e)) =
      route_lem false true
        (ap (λ (n : ℕ). ltb n 48) (tail_alloc q (m ∷ ms) c)
          ∙ ltb_ge (q.capacity - q.head) 48 (omega (arith, s)))
        (ap (λ (n : ℕ). n == 2) e)

  front : Run q.capacity q.buf q.head c.used (m ∷ ms) → Front q m ms
  unfolding Run
  front (inl (a, b, p, r)) = record {
    at = q.head;
    finds =
        route_lem false false
          (ap (λ (n : ℕ). ltb n 48) (tail_alloc q (m ∷ ms) c)
            ∙ ltb_ge (q.capacity - q.head) 48 (omega (arith, a)))
          (ap (λ (n : ℕ). n == 2) p.cmd_is)
        ∙ check_pack-Packet q (m ∷ ms) c q.head m p (omega (arith, b, alloc_head q (m ∷ ms) c));
    packet = p;
    leaves =
        dropped q.head (c.used - pack_space m) a (omega (arith, c.used_lt))
          (rest_end q.capacity q.head c.used (pack_space m) b ∙ sym c.tail_is) r;
  }
  front (inr (l, t, a, p, r)) = record {
    at = 0;
    finds =
        left_out l
        ∙ jump_lem a
        ∙ check_pack-Packet q (m ∷ ms) c 0 m p
            (omega (arith, tail_behind a, alloc_start q (m ∷ ms) c));
    packet = p;
    leaves =
        dropped 0 (c.used - (q.capacity - q.head) - pack_space m) (omega (arith, a, c.used_lt))
          (omega (arith, c.used_lt))
          (ap
              (λ (n : ℕ).
                (n % q.capacity + (c.used - (q.capacity - q.head) - pack_space m)) % q.capacity)
              zero_add
            ∙ start_end q.capacity q.head c.used (pack_space m) c.head_lt a
            ∙ sym c.tail_is)
          (Run_at q.capacity q.buf _ _ _ _ ms (ap (λ (n : ℕ). n % q.capacity) (sym zero_add)) refl
            r);
  }
    where
      zero_add : 0 + pack_space m ≡ pack_space m
      zero_add = omega arith

pub Contains-Front :
    (q : UnlockQueue) (m : Bytes) (ms : List Bytes) → Contains q (m ∷ ms) → Front q m ms
Contains-Front q m ms c = front q m ms c c.run

pub next_empty : (q : UnlockQueue) → Contains q [] → get_next_pack q ≡ error k_chan_empty
unfolding get_next_pack Run
next_empty q c = ap (λ b. if b then error k_chan_empty else otherwise) met
  where
    otherwise : Next
    otherwise =
        if ltb (sub32 q.capacity q.head) 48
        then jump q (sub32 q.capacity q.head)
        else if cmd_at q q.head == 2
        then jump q (sub32 q.capacity q.head)
        else check_pack q q.head

    met : (q.tail == q.head) ≡ true
    met = elim (tail-cases q [] c) [
      | inl (l, e) ↦ ground (arith, e, c.run)
      | inr (l, e) ↦ absurd (omega (arith, l, c.run, c.head_lt))
    ]
