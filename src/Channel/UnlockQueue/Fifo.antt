-- ===== src/Channel/UnlockQueue/Fifo.antt =====
-- A queue of the channel as its users see it: messages in the order in which they were sent.
use mathlib.Core.Path.{subst}
use native.Mathlib.Nat.{zero-mod}
use yarf.Common.{
  ◌+◌, ◌∙◌, ℕ, ◌-◌, ◌^◌, ◌≤◌, ◌<◌, ◌≡◌, refl, ap, sym, arith, Bool, true, false, List, [], ◌∷◌,
  ◌++◌, leb, ltb, length, if◌then◌else◌, All,
}
use yarf.Channel.Words.{sub32, sub32_small, lt-ltb, ge-ltb}
use yarf.Channel.Memory.{Bytes}
use yarf.Channel.UnlockQueue.{
  Status, k_ok, k_arg, k_chan_full, k_chan_empty, k_chan_recv_space_limit, UnlockQueue, send, recv,
  peek, drop, init, create_unlock_queue,
}
use yarf.Channel.UnlockQueue.Layout.{pack_space, space, Run, Run-space}
use yarf.Channel.UnlockQueue.Contents.{Contains}
use yarf.Channel.UnlockQueue.NextPack.{Contains-Front}
use yarf.Channel.UnlockQueue.Recv.{
  peek_empty, peek_front, recv_empty, recv_front, drop_empty, drop_front, tail_of,
}
use yarf.Channel.UnlockQueue.Send.{accepted, refused, send-Sent}

-- The calls of a sender and of a receiver, in any order. A call of `Send` comes with what stands in
-- the `reserve` of its head.
pub data Op : Type 0 where
  sends : Bytes → Bytes → Op
  peeks : Op
  receives : ℕ → Op
  drops : Op

abbrev pub Reply : Type 0
Reply = Status × Bytes

-- One call: its reply, with the bytes that `Recv` or `Peek` hands out, and the queue after it.
unfoldable pub perform : Op → UnlockQueue → Reply × UnlockQueue
perform peeks q = (peek q, q)
perform (sends rest m) q = let (s, q') = send rest m q in ((s, []), q')
perform (receives len) q = let (s, d, q') = recv len q in ((s, d), q')
perform drops q = let (s, q') = drop q in ((s, []), q')

unfoldable pub run : List Op → UnlockQueue → List Reply × UnlockQueue
run [] q = ([], q)
run (op ∷ ops) q = let (r, q') = perform op q in let (rs, q'') = run ops q' in (r ∷ rs, q'')

-- What a call does to the messages that wait. A message is refused only if it and those that wait
-- take more than half of the ring.
pub data FifoStep (capacity : ℕ) : List Bytes → Op → Reply → List Bytes → Type 0 where
  put :
      (ms : List Bytes) (rest m : Bytes)
      → FifoStep capacity ms (sends rest m) (k_ok, []) (ms ++ (m ∷ []))
  put_full :
      (ms : List Bytes) (rest m : Bytes)
      → capacity < (space ms + pack_space m) + (space ms + pack_space m)
      → FifoStep capacity ms (sends rest m) (k_chan_full, []) ms
  look : (m : Bytes) (ms : List Bytes) → FifoStep capacity (m ∷ ms) peeks (k_ok, m) (m ∷ ms)
  look_empty : FifoStep capacity [] peeks (k_chan_empty, []) []
  take :
      (m : Bytes) (ms : List Bytes) (len : ℕ)
      → length m ≤ len
      → FifoStep capacity (m ∷ ms) (receives len) (k_ok, m) ms
  take_short :
      (m : Bytes) (ms : List Bytes) (len : ℕ)
      → len < length m
      → FifoStep capacity (m ∷ ms) (receives len) (k_chan_recv_space_limit, []) (m ∷ ms)
  take_empty : (len : ℕ) → FifoStep capacity [] (receives len) (k_chan_empty, []) []
  remove : (m : Bytes) (ms : List Bytes) → FifoStep capacity (m ∷ ms) drops (k_ok, []) ms
  remove_empty : FifoStep capacity [] drops (k_chan_empty, []) []

pub data FifoRun (capacity : ℕ) : List Bytes → List Op → List Reply → List Bytes → Type 0 where
  stay : (ms : List Bytes) → FifoRun capacity ms [] [] ms
  call :
      {ms ms' ms'' : List Bytes} {op : Op} {r : Reply} {ops : List Op} {rs : List Reply}
      → FifoStep capacity ms op r ms'
      → FifoRun capacity ms' ops rs ms''
      → FifoRun capacity ms (op ∷ ops) (r ∷ rs) ms''

-- What stands in `reserve` is 24 bytes, and the messages sent are not longer than the numbers of a
-- head allow.
abbrev pub IsSmall : Op → Type 0
IsSmall (sends rest m) = (length rest ≡ 24) × (length m ≤ 65528)
IsSmall peeks = Unit
IsSmall (receives len) = Unit
IsSmall drops = Unit

-- The step of a reply, and what the ring holds after it.
abbrev Steps : ℕ → List Bytes → Op → Reply × UnlockQueue → Type 0
Steps capacity ms op (r, q) =
    (ms' : List Bytes) × FifoStep capacity ms op r ms' × Contains q ms' × (q.capacity ≡ capacity)

perform-Steps :
    (op : Op) (q : UnlockQueue) (ms : List Bytes)
    → IsSmall op
    → Contains q ms
    → Steps q.capacity ms op (perform op q)
unfolding perform
perform-Steps (sends rest m) q ms (whole, s) c = elim (send-Sent rest whole m s q ms c) [
  | accepted q' e s k ↦
      subst (λ x. Steps q.capacity ms (sends rest m) ((x.0, []), x.1)) (sym e)
        (ms ++ (m ∷ []), put ms rest m, k, s)
  | refused e t ↦
      subst (λ x. Steps q.capacity ms (sends rest m) ((x.0, []), x.1)) (sym e)
        (
          ms,
          put_full ms rest m (omega (arith, t, Run-space q.capacity q.buf q.head c.used ms c.run)),
          c,
          refl,
        )
]
perform-Steps peeks q [] s c =
    subst (λ x. Steps q.capacity [] peeks (x, q)) (sym (peek_empty q c)) ([], look_empty, c, refl)
perform-Steps peeks q (m ∷ ms) s c =
    subst (λ x. Steps q.capacity (m ∷ ms) peeks (x, q)) (sym (peek_front q m ms c))
      (m ∷ ms, look m ms, c, refl)
perform-Steps (receives len) q [] s c =
    subst (λ x. Steps q.capacity [] (receives len) ((x.0, x.1), x.2)) (sym (recv_empty len q c))
      ([], take_empty len, c, refl)
perform-Steps (receives len) q (m ∷ ms) s c =
    subst (λ x. Steps q.capacity (m ∷ ms) (receives len) ((x.0, x.1), x.2))
      (sym (recv_front q m ms c len)) (by_space (ltb len (length m)) refl)
  where
    given : Bool → Status × Bytes × UnlockQueue
    given b = if b then (k_chan_recv_space_limit, [], q) else (k_ok, m, tail_of q m ms c)

    by_space :
        (b : Bool)
        → ltb len (length m) ≡ b
        → Steps q.capacity (m ∷ ms) (receives len) (((given b).0, (given b).1), (given b).2)
    by_space true e = (m ∷ ms, take_short m ms len (lt-ltb _ _ e), c, refl)
    by_space false e = (ms, take m ms len (ge-ltb _ _ e), (Contains-Front q m ms c).leaves, refl)
perform-Steps drops q [] s c =
    subst (λ x. Steps q.capacity [] drops ((x.0, []), x.1)) (sym (drop_empty q c))
      ([], remove_empty, c, refl)
perform-Steps drops q (m ∷ ms) s c =
    subst (λ x. Steps q.capacity (m ∷ ms) drops ((x.0, []), x.1)) (sym (drop_front q m ms c))
      (ms, remove m ms, (Contains-Front q m ms c).leaves, refl)

-- Calls on a queue that holds messages are steps of the messages that wait.
pub run-FifoRun :
    (ops : List Op) (capacity : ℕ) (q : UnlockQueue) (ms : List Bytes)
    → All IsSmall ops
    → Contains q ms
    → q.capacity ≡ capacity
    → (ms' : List Bytes) × FifoRun capacity ms ops (run ops q).0 ms' × Contains (run ops q).1 ms'
unfolding run
run-FifoRun [] capacity q ms h c e = (ms, stay ms, c)
run-FifoRun (op ∷ ops) capacity q ms (h, hs) c e =
    let (ms', step, c', e') = perform-Steps op q ms h c in
    let (ms'', steps, c'') = run-FifoRun ops capacity (perform op q).1 ms' hs c' (e' ∙ e) in
    (ms'', call (subst (λ (n : ℕ). FifoStep n ms op (perform op q).0 ms') e step) steps, c'')

-- A new queue is empty.
create-Contains :
    (capacity : ℕ) (q : UnlockQueue)
    → 628 < capacity
    → capacity ≤ 2 ^ 31
    → (create_unlock_queue capacity true q).0 ≡ k_ok
      × Contains (create_unlock_queue capacity true q).1 []
      × ((create_unlock_queue capacity true q).1.capacity ≡ capacity - 580)
unfolding create_unlock_queue init Run
create-Contains capacity q l h = (
  ap (λ b. if b then k_arg else k_ok) above,
  record {
    used = 0;
    capacity_le = omega (arith, room, h);
    head_lt = omega (arith, room, l);
    used_lt = omega (arith, room, l);
    tail_is = sym (zero-mod (sub32 capacity 580));
    run = refl;
  },
  room,
)
  where
    above : leb capacity 628 ≡ false
    above = ground (arith, l)

    room : sub32 capacity 580 ≡ capacity - 580
    room = sub32_small capacity 580 (omega (arith, l)) (omega (arith, h))

-- From a new queue on, of more than 628 bytes and at most 2 ^ 31: whatever calls are made, in whatever
-- order, they answer as a queue of messages does that gives them out in the order in which it took
-- them, unchanged and each once, and that refuses a message only if it and those that wait take more
-- than half of the ring; and the ring holds the messages that wait. No message sent is longer than
-- 65528 bytes.
pub create-FifoRun :
    (capacity : ℕ) (q : UnlockQueue) (ops : List Op)
    → 628 < capacity
    → capacity ≤ 2 ^ 31
    → All IsSmall ops
    → ((create_unlock_queue capacity true q).0 ≡ k_ok)
      × ((ms : List Bytes) × FifoRun
            (capacity - 580)
            []
            ops
            (run ops (create_unlock_queue capacity true q).1).0
            ms
          × Contains (run ops (create_unlock_queue capacity true q).1).1 ms)
create-FifoRun capacity q ops l h s =
    let (ok, c, e) = create-Contains capacity q l h in
    (ok, run-FifoRun ops (capacity - 580) _ [] s c e)
