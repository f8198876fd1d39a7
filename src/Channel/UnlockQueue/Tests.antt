-- ===== src/Channel/UnlockQueue/Tests.antt =====
-- A queue in 808 bytes of memory, which leave a ring of 228.
use yarf.Common.{
  true, ◌≡◌, refl, ◌<◌, ◌≤◌, arith, List, [], ◌∷◌, length, replicate, if◌then◌else◌, ltb, ◌⊎◌,
}
use yarf.Channel.Memory.{Bytes, Memory, load}
use yarf.Channel.UnlockQueue.{
  Status, k_ok, k_chan_full, k_chan_empty, k_chan_recv_space_limit, k_space_limit, UnlockQueue,
  send, create_unlock_queue, set_ctrl_msg, get_ctrl_msg,
}
use yarf.Channel.UnlockQueue.Layout.{Run}
use yarf.Channel.UnlockQueue.Contents.{Contains}
use yarf.Channel.UnlockQueue.Fifo.{Op, sends, peeks, receives, drops, FifoRun, run, create-FifoRun}
use yarf.Channel.UnlockQueue.Limits.{send_accepts, run_stuck, get_ctrl_msg-set_ctrl_msg}

abbrev memory : Memory
memory i = 7

abbrev rest : Bytes
rest = replicate 24 9

abbrev hello : Bytes
hello = 104 ∷ 101 ∷ 108 ∷ 108 ∷ 111 ∷ []

-- Its packet takes 72 bytes.
abbrev long : Bytes
long = replicate 20 1

-- Its packet takes 128 bytes, more than half of the ring.
abbrev too_long : Bytes
too_long = replicate 80 1

-- What stood in the memory before.
abbrev before : UnlockQueue
before = record {
  capacity = 7;
  head = 7;
  tail = 7;
  seq = 7;
  ctrl_msg = memory;
  ctrl_msg_len = 7;
  buf = memory;
}

abbrev created : UnlockQueue
created = (create_unlock_queue 808 true before).1

-- The long message goes to the start, behind a place holder.
abbrev calls : List Op
calls =
    sends rest hello
    ∷ sends rest hello
    ∷ sends rest hello
    ∷ receives 4
    ∷ receives 5
    ∷ drops
    ∷ sends rest long
    ∷ sends rest long
    ∷ peeks
    ∷ drops
    ∷ receives 20
    ∷ drops
    ∷ []

-- A call of each kind.
replies :
    (run (sends rest hello ∷ receives 4 ∷ peeks ∷ receives 5 ∷ drops ∷ []) created).0
    ≡ (k_ok, [])
      ∷ (k_chan_recv_space_limit, [])
      ∷ (k_ok, hello)
      ∷ (k_ok, hello)
      ∷ (k_chan_empty, [])
      ∷ []
unfolding run yarf.Channel.UnlockQueue.Fifo.perform send yarf.Channel.UnlockQueue.recv
    yarf.Channel.UnlockQueue.drop yarf.Channel.UnlockQueue.peek
    yarf.Channel.UnlockQueue.get_alignment_size create_unlock_queue yarf.Channel.UnlockQueue.place
    yarf.Channel.UnlockQueue.write_pack yarf.Channel.UnlockQueue.get_next_pack
    yarf.Channel.Memory.u16 yarf.Channel.Memory.store yarf.Channel.UnlockQueue.head_bytes
    yarf.Channel.UnlockQueue.check_pack load
replies = refl

create-FifoRun_example :
    ((create_unlock_queue 808 true before).0 ≡ k_ok)
    × ((ms : List Bytes) × FifoRun 228 [] calls
          (run calls (create_unlock_queue 808 true before).1).0
          ms
        × Contains (run calls (create_unlock_queue 808 true before).1).1 ms)
create-FifoRun_example = create-FifoRun 808 before calls (omega arith) (omega arith) (
  (refl, omega arith),
  (
    (refl, omega arith),
    (
      (refl, omega arith),
      (tt, (tt, (tt, ((refl, omega arith), ((refl, omega arith), (tt, (tt, (tt, (tt, tt))))))))),
    ),
  ),
)

-- The queue behind two messages that were received.
abbrev emptied : UnlockQueue
emptied = record {
  capacity = 228;
  head = 112;
  tail = 112;
  seq = 2;
  ctrl_msg = memory;
  ctrl_msg_len = 0;
  buf = memory;
}

unfoldable emptied_contains : Contains emptied []
unfolding Run
emptied_contains = record {
  used = 0;
  capacity_le = omega arith;
  head_lt = omega arith;
  used_lt = omega arith;
  tail_is = refl;
  run = refl;
}

send_accepts_example :
    (q' : UnlockQueue) × (send rest long emptied ≡ (k_ok, q')) × Contains q' (long ∷ [])
unfolding emptied_contains
send_accepts_example =
    send_accepts rest long emptied [] refl (omega arith) emptied_contains (omega arith)

run_stuck_example :
    run (sends rest too_long ∷ receives 100 ∷ sends rest too_long ∷ []) emptied
    ≡ ((k_chan_full, []) ∷ (k_chan_empty, []) ∷ (k_chan_full, []) ∷ [], emptied)
run_stuck_example =
    run_stuck emptied emptied_contains too_long (omega arith) (omega arith) (omega arith)
      (sends rest too_long ∷ receives 100 ∷ sends rest too_long ∷ [])
      ((refl, refl), (tt, ((refl, refl), tt)))

get_ctrl_msg-set_ctrl_msg_example :
    (((length hello ≤ 512)
      × ((set_ctrl_msg hello created).0 ≡ k_ok)
      × (load 0 (length hello) (set_ctrl_msg hello created).1.ctrl_msg ≡ hello)
      × (get_ctrl_msg 600 (set_ctrl_msg hello created).1
          ≡ (if ltb 0 (length hello) then (k_space_limit, []) else (k_ok, [])))))
    ⊎ ((512 < length hello) × (set_ctrl_msg hello created ≡ (k_space_limit, created)))
get_ctrl_msg-set_ctrl_msg_example = get_ctrl_msg-set_ctrl_msg hello created 600
