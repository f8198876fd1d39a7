-- ===== src/Channel/UnlockQueue/Limits.antt =====
-- What a queue refuses: messages for which there is no room, and control messages.
use yarf.Common.{
  ℕ, suc, ◌+◌, ◌-◌, ◌≤◌, ◌<◌, ◌≡◌, refl, ◌∙◌, ap, sym, arith, Bool, true, false, not, inl, inr, ◌⊎◌,
  List, [], ◌∷◌, ◌++◌, leb, ltb, length, if◌then◌else◌, Bool-cases, All, map,
}
use yarf.Channel.Words.{sub32, sub32_small, lt-ltb, ge-ltb, ltb_lt, leb_le}
use yarf.Channel.Memory.{Bytes, load, store, load-store}
use yarf.Channel.UnlockQueue.{
  Status, k_ok, k_chan_full, k_chan_empty, k_space_limit, k_unexpect, UnlockQueue, Place, full,
  at_tail, at_start, place, send_at, send, set_ctrl_msg, get_ctrl_msg,
}
use yarf.Channel.UnlockQueue.Layout.{pack_space, Run}
use yarf.Channel.UnlockQueue.Contents.{Contains, tail-cases, tail_lt}
use yarf.Channel.UnlockQueue.Recv.{recv_empty, peek_empty, drop_empty}
use yarf.Channel.UnlockQueue.Send.{accepted, refused, send-Sent, reaches}
use yarf.Channel.UnlockQueue.Fifo.{Op, sends, peeks, receives, drops, Reply, perform, run}

-- A message is accepted, and waits behind the others, wherever the bytes from the head to the tail,
-- with those that are left out at the end of the ring, and twice its own packet are together not more
-- than the capacity. It is not longer than 65528 bytes.
pub send_accepts :
    (rest m : Bytes) (q : UnlockQueue) (ms : List Bytes)
    → length rest ≡ 24
    → length m ≤ 65528
    → (c : Contains q ms) → c.used + (pack_space m + pack_space m) ≤ q.capacity
    → (q' : UnlockQueue) × (send rest m q ≡ (k_ok, q')) × Contains q' (ms ++ (m ∷ []))
send_accepts rest m q ms whole small c room = elim (send-Sent rest whole m small q ms c) [
  | accepted q' e s k ↦ (q', e, k)
  | refused e t ↦ absurd (omega (arith, room, t))
]

-- The reply of a queue that is empty and takes nothing.
abbrev pub no : Op → Reply
no (sends rest m) = (k_chan_full, [])
no peeks = (k_chan_empty, [])
no (receives len) = (k_chan_empty, [])
no drops = (k_chan_empty, [])

-- The calls that send no message but those of the length of `m`.
abbrev pub SendsAs : Bytes → Op → Type 0
SendsAs m (sends rest m') = (length rest ≡ 24) × (length m' ≡ length m)
SendsAs m peeks = Unit
SendsAs m (receives len) = Unit
SendsAs m drops = Unit

module _ (q : UnlockQueue) (c : Contains q []) where
  -- The packet fits neither behind the tail nor before the head.
  full_lem :
      (size : ℕ)
      → q.capacity - q.tail < size
      → q.head ≤ size
      → place q.capacity q.head q.tail size ≡ full
  unfolding place Run
  full_lem size behind before =
      ap
        (λ b.
          if b then (if ltb (sub32 q.capacity q.tail) size then start else at_tail) else at_tail)
        (leb_le _ _ (ahead (tail-cases q [] c)))
      ∙ ap (λ b. if b then start else at_tail) (ltb_lt _ _ (free behind))
      ∙ ap (λ b. if b then full else at_start (not (ltb (sub32 q.capacity q.tail) 48)))
          (leb_le _ _ before)
    where
      start : Place
      start = if leb q.head size then full else at_start (not (ltb (sub32 q.capacity q.tail) 48))

      free : q.capacity - q.tail < size → sub32 q.capacity q.tail < size
      free h = omega (
        arith,
        h,
        sub32_small q.capacity q.tail (omega (arith, tail_lt q [] c))
            (omega (arith, c.capacity_le)),
      )

      ahead :
          ((q.head + c.used < q.capacity) × (q.tail ≡ q.head + c.used))
            ⊎ ((q.capacity ≤ q.head + c.used) × (q.tail ≡ q.head + c.used - q.capacity))
          → q.head ≤ q.tail
      ahead (inl (l, e)) = omega (arith, e)
      ahead (inr (l, e)) = absurd (omega (arith, l, c.run, c.head_lt))

  send_full :
      (rest m : Bytes)
      → length rest ≡ 24
      → length m ≤ 65528
      → q.capacity - q.tail < pack_space m
      → q.head ≤ pack_space m
      → send rest m q ≡ (k_chan_full, q)
  send_full rest m whole small behind before =
      elim (Bool-cases (ltb (q.capacity - 1 - c.used) (pack_space m))) [
        | inl e ↦ reaches rest whole m small q [] c true e
        | inr e ↦
            reaches rest whole m small q [] c false e
            ∙ ap (λ x. send_at rest x m (pack_space m) q) (full_lem (pack_space m) behind before)
      ]

  module _ (m : Bytes) (small : length m ≤ 65528) (behind : q.capacity - q.tail < pack_space m)
      (before : q.head ≤ pack_space m) where
    perform_stuck : (op : Op) → SendsAs m op → perform op q ≡ (no op, q)
    unfolding perform
    perform_stuck (sends rest m') (whole, same) =
        ap (λ x. ((x.0, []), x.1))
          (send_full rest m' whole (omega (arith, small, same)) (omega (arith, behind, same))
            (omega (arith, before, same)))
    perform_stuck peeks s = ap (λ x. (x, q)) (peek_empty q c)
    perform_stuck (receives len) s = ap (λ x. ((x.0, x.1), x.2)) (recv_empty len q c)
    perform_stuck drops s = ap (λ x. ((x.0, []), x.1)) (drop_empty q c)

    -- A queue that is empty, with its head in the middle of the ring, so that a packet fits neither
    -- behind the tail nor before the head, stays as it is for ever: calls that send messages of this
    -- length alone get the answers of a full queue, and calls that receive those of an empty one.
    pub run_stuck : (ops : List Op) → All (SendsAs m) ops → run ops q ≡ (map no ops, q)
    unfolding run
    run_stuck [] h = refl
    run_stuck (op ∷ ops) (h, hs) =
        ap (λ x. (x.0 ∷ (run ops x.1).0, (run ops x.1).1)) (perform_stuck op h)
        ∙ ap (λ x. (no op ∷ x.0, x.1)) (run_stuck ops hs)

module _ (q : UnlockQueue) (len : ℕ) where
  -- The queue with a control message.
  abbrev kept : Bytes → UnlockQueue
  kept m = record q { ctrl_msg = store 0 m q.ctrl_msg; ctrl_msg_len = length m }

  get_kept :
      (m : Bytes)
      → get_ctrl_msg len (kept m) ≡ (if ltb 0 (length m) then (k_space_limit, []) else (k_ok, []))
  unfolding get_ctrl_msg load
  get_kept [] = refl
  get_kept (b ∷ m) =
      ap (λ b. if b then (k_space_limit, []) else otherwise) some_len
      ∙ sym (ap (λ b. if b then (k_space_limit, []) else (k_ok, [])) some_len)
    where
      otherwise : Status × Bytes
      otherwise =
          if ltb 512 (suc (length m))
          then (k_unexpect, [])
          else (k_ok, load 0 (suc (length m)) (store 0 (b ∷ m) q.ctrl_msg))

      some_len : ltb 0 (suc (length m)) ≡ true
      some_len = ltb_lt 0 (suc (length m)) (omega arith)

-- A control message of at most 512 bytes is kept, but GetCtrlMsg does not give it back, whatever space
-- it is told, unless it is empty; a longer one is refused and changes nothing.
pub get_ctrl_msg-set_ctrl_msg :
    (m : Bytes) (q : UnlockQueue) (len : ℕ)
    → (((length m ≤ 512)
        × ((set_ctrl_msg m q).0 ≡ k_ok)
        × (load 0 (length m) (set_ctrl_msg m q).1.ctrl_msg ≡ m)
        × (get_ctrl_msg len (set_ctrl_msg m q).1
            ≡ (if ltb 0 (length m) then (k_space_limit, []) else (k_ok, [])))))
      ⊎ ((512 < length m) × (set_ctrl_msg m q ≡ (k_space_limit, q)))
unfolding set_ctrl_msg
get_ctrl_msg-set_ctrl_msg m q len = elim (Bool-cases (ltb 512 (length m))) [
  | inl e ↦ inr (lt-ltb _ _ e, set e)
  | inr e ↦ inl (
    ge-ltb _ _ e,
    ap (λ x. x.0) (set e),
    ap (λ x. load 0 (length m) x.1.ctrl_msg) (set e) ∙ load-store 0 m q.ctrl_msg,
    ap (λ x. get_ctrl_msg len x.1) (set e) ∙ get_kept q len m,
  )
]
  where
    set :
        {b : Bool}
        → ltb 512 (length m) ≡ b
        → set_ctrl_msg m q ≡ (if b then (k_space_limit, q) else (k_ok, kept q len m))
    set e = ap (λ b. if b then (k_space_limit, q) else (k_ok, kept q len m)) e
