-- ===== src/Channel/UnlockQueue/Write.antt =====
-- The bytes that `Send` writes for a packet.
use yarf.Common.{ℕ, ◌+◌, ◌*◌, ◌/◌, ◌-◌, ◌%◌, ◌^◌, ◌≤◌, ◌<◌, ◌≡◌, refl, ◌∙◌, ap, arith, ◌++◌, length}
use yarf.Channel.Words.{sub32}
use yarf.Channel.Memory.{
  Bytes, Memory, store, u16, nth, store_before, store_behind, store-nth, load-store,
}
use yarf.Channel.UnlockQueue.{ChannelPackHead, head_bytes, put_head, pack_header, place_hold_head}
use yarf.Channel.UnlockQueue.Layout.{pack_space, Packet}

-- The memory with the head and the data of a packet at a place.
abbrev pub written : Bytes → Bytes → ℕ → ℕ → ℕ → Memory → Memory
written rest m align seq at buf = store (at + 48) m (put_head rest (pack_header m align seq) at buf)

module _ (rest : Bytes) (full : length rest ≡ 24) where
  length-head_bytes : (h : ChannelPackHead) → length (head_bytes h ++ rest) ≡ 48
  unfolding head_bytes
  length-head_bytes h = omega (arith, full)

  pub put_head_before :
      (h : ChannelPackHead) (at : ℕ) (buf : Memory) (i : ℕ)
      → i < at
      → put_head rest h at buf i ≡ buf i
  put_head_before h at buf i l = store_before at (head_bytes h ++ rest) buf i l

  pub put_head_behind :
      (h : ChannelPackHead) (at : ℕ) (buf : Memory) (i : ℕ)
      → at + 48 ≤ i
      → put_head rest h at buf i ≡ buf i
  put_head_behind h at buf i l =
      store_behind at (head_bytes h ++ rest) buf i (omega (arith, l, length-head_bytes h))

  pub put_head-nth :
      (h : ChannelPackHead) (at : ℕ) (buf : Memory) (k : ℕ)
      → k < 48
      → put_head rest h at buf (at + k) ≡ nth (head_bytes h ++ rest) k
  put_head-nth h at buf k l =
      store-nth at (head_bytes h ++ rest) buf k (omega (arith, l, length-head_bytes h))

  -- A number of a head.
  u16_put :
      (h : ChannelPackHead) (at : ℕ) (buf : Memory) (k v : ℕ)
      → k < 47
      → v < 65536
      → nth (head_bytes h ++ rest) k ≡ v % 256
      → nth (head_bytes h ++ rest) (k + 1) ≡ v / 256 % 256
      → u16 (put_head rest h at buf) (at + k) ≡ v
  unfolding u16
  u16_put h at buf k v l small low high =
      word (put_head-nth h at buf k (omega (arith, l)) ∙ low)
        (ap (put_head rest h at buf) (omega arith)
          ∙ put_head-nth h at buf (k + 1) (omega (arith, l))
          ∙ high)
        small
    where
      word : {a b : ℕ} → a ≡ v % 256 → b ≡ v / 256 % 256 → v < 65536 → a + 256 * b ≡ v
      word p q l = omega (arith, p, q, l)

  pub place_holder-cmd :
      (at : ℕ) (buf : Memory) → u16 (put_head rest place_hold_head at buf) (at + 8) ≡ 2
  unfolding head_bytes
  place_holder-cmd at buf = u16_put place_hold_head at buf 8 2 (omega arith) (omega arith) refl refl

  module _ (m : Bytes) (align seq at : ℕ) (buf : Memory) where
    abbrev head : ChannelPackHead
    head = pack_header m align seq

    -- A number of the head of a packet.
    u16-written :
        (k v : ℕ)
        → k < 47
        → v < 65536
        → nth (head_bytes head ++ rest) k ≡ v % 256
        → nth (head_bytes head ++ rest) (k + 1) ≡ v / 256 % 256
        → u16 (written rest m align seq at buf) (at + k) ≡ v
    unfolding u16
    u16-written k v l small low high =
        sum (store_before (at + 48) m (put_head rest head at buf) (at + k) (omega (arith, l)))
          (store_before (at + 48) m (put_head rest head at buf) (at + k + 1) (omega (arith, l)))
        ∙ u16_put head at buf k v l small low high
      where
        sum : {a b c d : ℕ} → a ≡ c → b ≡ d → a + 256 * b ≡ c + 256 * d
        sum p q = omega (arith, p, q)

    pub written_before : (i : ℕ) → i < at → written rest m align seq at buf i ≡ buf i
    written_before i l =
        store_before (at + 48) m (put_head rest head at buf) i (omega (arith, l))
        ∙ put_head_before head at buf i l

    pub written_behind :
        (i : ℕ) → at + 48 + length m ≤ i → written rest m align seq at buf i ≡ buf i
    written_behind i l =
        store_behind (at + 48) m (put_head rest head at buf) i l
        ∙ put_head_behind head at buf i (omega (arith, l))

  -- What is written is a packet, if its message fits the numbers of the head.
  pub written-Packet :
      (m : Bytes) (seq at : ℕ) (buf : Memory)
      → length m ≤ 65528
      → Packet (written rest m (pack_space m) seq at buf) at m
  unfolding head_bytes
  written-Packet m seq at buf l = record {
    small = l;
    cmd_is = u16-written m (pack_space m) seq at buf 8 1 (omega arith) (omega arith) refl refl;
    align_is =
        u16-written m (pack_space m) seq at buf 6 (pack_space m - 48) (omega arith)
          (omega (arith, l)) (ap (λ (n : ℕ). n % 256) align) (ap (λ (n : ℕ). n / 256 % 256) align);
    body_is =
        u16-written m (pack_space m) seq at buf 4 (length m) (omega arith) (omega (arith, l))
          (ap (λ (n : ℕ). n % 256) body) (ap (λ (n : ℕ). n / 256 % 256) body);
    holds = load-store (at + 48) m (put_head rest (head m (pack_space m) seq at buf) at buf);
  }
    where
      align : sub32 (pack_space m) 48 % 2 ^ 16 ≡ pack_space m - 48
      align = omega (arith, l)

      body : length m % 2 ^ 16 ≡ length m
      body = omega (arith, l)
