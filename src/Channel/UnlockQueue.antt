-- ===== src/Channel/UnlockQueue.antt =====
-- src/yarf/channel/unlock_queue.cc with unlock_queue_impl.h: a queue of packets in shared memory, a
-- ring of bytes with one sender and one receiver.
pub mod Layout
pub mod Contents
pub mod NextPack
pub mod Recv
pub mod Write
pub mod Placing
pub mod Send
pub mod Fifo
pub mod Limits
mod Tests
use yarf.Common.{
  ℕ, ◌+◌, ◌-◌, ◌%◌, ◌^◌, Bool, true, false, not, ◌||◌, List, [], ◌∷◌, ◌++◌, ◌==◌, leb, ltb,
  replicate, if◌then◌else◌, length,
}
use yarf.Channel.Words.{add32, sub32}
use yarf.Channel.Memory.{Bytes, Memory, store, load, le16, le32, u16}

-- The results, by their names in err.h.
pub data Status : Type 0 where
  k_ok k_arg k_unexpect k_space_limit k_chan_full k_chan_empty : Status
  k_chan_recv_space_limit k_chan_pack_invalid : Status

-- ChannelPackHead without the fields that are the same in every head.
pub record ChannelPackHead : Type 0 where
  pub body_len : ℕ
  pub align_body_len : ℕ
  pub cmd : ℕ
  pub seq : ℕ

abbrev pub k_pack_head_size : ℕ
k_pack_head_size = 48

abbrev pub k_channel_cmd_transfer : ℕ
k_channel_cmd_transfer = 1

abbrev pub k_channel_cmd_place_holder : ℕ
k_channel_cmd_place_holder = 2

-- The layout of a head, but for the 24 bytes of `reserve` behind it: version, head_len, body_len,
-- align_body_len, cmd, checksum, seq and time_stamp.
unfoldable pub head_bytes : ChannelPackHead → Bytes
head_bytes h =
    le16 0
    ++ (le16 k_pack_head_size
        ++ (le16 h.body_len
            ++ (le16 h.align_body_len
                ++ (le16 h.cmd ++ (le16 0 ++ (le32 h.seq ++ (le32 0 ++ le32 0)))))))

-- UnlockQueueHead, and the bytes behind it.
pub record UnlockQueue : Type 0 where
  pub capacity : ℕ
  pub head : ℕ
  pub tail : ℕ
  pub seq : ℕ
  pub ctrl_msg : Memory
  pub ctrl_msg_len : ℕ
  pub buf : Memory

-- GetAlignmentSize at the level 8: (size + 7) & ~7
unfoldable pub get_alignment_size : ℕ → ℕ
get_alignment_size size = let s = add32 size 7 in s - s % 8

-- Where `Send` puts a packet: nowhere; at the tail; or at the start, with a place holder at the tail
-- or without one.
pub data Place : Type 0 where
  full : Place
  at_tail : Place
  at_start : Bool → Place

unfoldable pub place : ℕ → ℕ → ℕ → ℕ → Place
place capacity cur_head cur_tail align_pack_size =
    if leb cur_head cur_tail
    then (if ltb (sub32 capacity cur_tail) align_pack_size
        then (if leb cur_head align_pack_size
            then full
            else at_start (not (ltb (sub32 capacity cur_tail) k_pack_head_size)))
        else at_tail)
    else at_tail

abbrev pub place_hold_head : ChannelPackHead
place_hold_head = record {
  body_len = 0;
  align_body_len = 0;
  cmd = k_channel_cmd_place_holder;
  seq = 0;
}

abbrev pub pack_header : Bytes → ℕ → ℕ → ChannelPackHead
pack_header data_ align_pack_size seq = record {
  body_len = length data_ % 2 ^ 16;
  align_body_len = sub32 align_pack_size k_pack_head_size % 2 ^ 16;
  cmd = k_channel_cmd_transfer;
  seq = seq;
}

-- The head with what stands in `reserve`.
abbrev pub put_head : Bytes → ChannelPackHead → ℕ → Memory → Memory
put_head rest h at buf = store at (head_bytes h ++ rest) buf

-- The place holder is a static object, so that its `reserve` is zero.
abbrev pub zero_reserve : Bytes
zero_reserve = replicate 24 0

-- `rest` is what stands in the 24 bytes of `reserve` in the head of the packet, which the constructor
-- does not set.
module _ (rest : Bytes) where
  -- The writes behind the choice of the place.
  unfoldable pub write_pack : Bytes → ℕ → ℕ → Memory → UnlockQueue → UnlockQueue
  write_pack data_ cur_tail align_pack_size buf q = record q {
    buf =
        store (cur_tail + k_pack_head_size) data_
          (put_head rest (pack_header data_ align_pack_size q.seq) cur_tail buf);
    tail = add32 cur_tail align_pack_size % q.capacity;
    seq = add32 q.seq 1;
  }

  abbrev pub send_at : Place → Bytes → ℕ → UnlockQueue → Status × UnlockQueue
  send_at full data_ align_pack_size q = (k_chan_full, q)
  send_at at_tail data_ align_pack_size q = (k_ok, write_pack data_ q.tail align_pack_size q.buf q)
  send_at (at_start false) data_ align_pack_size q =
      (k_ok, write_pack data_ 0 align_pack_size q.buf q)
  send_at (at_start true) data_ align_pack_size q = (
    k_ok,
    write_pack data_ 0 align_pack_size (put_head zero_reserve place_hold_head q.tail q.buf) q,
  )

  -- CSendUnlockQueue::Send
  unfoldable pub send : Bytes → UnlockQueue → Status × UnlockQueue
  send data_ q =
      let pack_size = add32 k_pack_head_size (length data_) in
      let align_pack_size = get_alignment_size pack_size in
      let free_size = add32 (sub32 (sub32 q.capacity q.tail) 1) q.head % q.capacity in
      if not (align_pack_size % 8 == 0) || ltb align_pack_size pack_size
      then (k_unexpect, q)
      else if ltb free_size align_pack_size
      then (k_chan_full, q)
      else send_at (place q.capacity q.head q.tail align_pack_size) data_ align_pack_size q

-- What `GetNextPack` gives: an error, or the place and the size of the next packet.
pub data Next : Type 0 where
  error : Status → Next
  pack : ℕ → ℕ → Next

-- (cur_tail + capacity - cur_head) % capacity
abbrev pub alloc_size : UnlockQueue → ℕ → ℕ
alloc_size q cur_head = sub32 (add32 q.tail q.capacity) cur_head % q.capacity

abbrev pub body_len_at : UnlockQueue → ℕ → ℕ
body_len_at q at = u16 q.buf (at + 4)

abbrev pub align_body_len_at : UnlockQueue → ℕ → ℕ
align_body_len_at q at = u16 q.buf (at + 6)

abbrev pub cmd_at : UnlockQueue → ℕ → ℕ
cmd_at q at = u16 q.buf (at + 8)

-- The tests of the packet at `cur_head`.
unfoldable pub check_pack : UnlockQueue → ℕ → Next
check_pack q cur_head =
    let align_pack_size = add32 k_pack_head_size (align_body_len_at q cur_head) in
    if not (cmd_at q cur_head == k_channel_cmd_transfer)
    then error k_unexpect
    else if ltb (alloc_size q cur_head) align_pack_size
    then error k_chan_pack_invalid
    else pack cur_head align_pack_size

-- The jump to the start: the end of the ring must be in use.
unfoldable pub jump : UnlockQueue → ℕ → Next
jump q tail_alloc_size =
    if ltb (alloc_size q q.head) tail_alloc_size then error k_chan_pack_invalid else check_pack q 0

-- CRecvUnlockQueue::GetNextPack
unfoldable pub get_next_pack : UnlockQueue → Next
get_next_pack q =
    let tail_alloc_size = sub32 q.capacity q.head in
    if q.tail == q.head
    then error k_chan_empty
    else if ltb tail_alloc_size k_pack_head_size
    then jump q tail_alloc_size
    else if cmd_at q q.head == k_channel_cmd_place_holder
    then jump q tail_alloc_size
    else check_pack q q.head

abbrev pub drop_pack : ℕ → ℕ → UnlockQueue → UnlockQueue
drop_pack cur_head align_pack_size q = record q {
  head = add32 cur_head align_pack_size % q.capacity;
}

abbrev pub copy_pack : UnlockQueue → ℕ → Bytes
copy_pack q cur_head = load (cur_head + k_pack_head_size) (body_len_at q cur_head) q.buf

-- CRecvUnlockQueue::Recv, with the space for the data; the bytes are those that it copies.
unfoldable pub recv : ℕ → UnlockQueue → Status × Bytes × UnlockQueue
recv len q = elim (get_next_pack q) [
  | error e ↦ (e, [], q)
  | pack cur_head align_pack_size ↦
      if ltb len (body_len_at q cur_head)
      then (k_chan_recv_space_limit, [], q)
      else (k_ok, copy_pack q cur_head, drop_pack cur_head align_pack_size q)
]

-- CRecvUnlockQueue::Peek
unfoldable pub peek : UnlockQueue → Status × Bytes
peek q = elim (get_next_pack q) [
  | error e ↦ (e, [])
  | pack cur_head align_pack_size ↦ (k_ok, copy_pack q cur_head)
]

-- CRecvUnlockQueue::Drop
unfoldable pub drop : UnlockQueue → Status × UnlockQueue
drop q = elim (get_next_pack q) [
  | error e ↦ (e, q)
  | pack cur_head align_pack_size ↦ (k_ok, drop_pack cur_head align_pack_size q)
]

abbrev pub k_unlock_queue_max_ctrl_msg : ℕ
k_unlock_queue_max_ctrl_msg = 512

-- CSendUnlockQueue::SetCtrlMsg
unfoldable pub set_ctrl_msg : Bytes → UnlockQueue → Status × UnlockQueue
set_ctrl_msg data_ q =
    if ltb k_unlock_queue_max_ctrl_msg (length data_)
    then (k_space_limit, q)
    else (k_ok, record q { ctrl_msg = store 0 data_ q.ctrl_msg; ctrl_msg_len = length data_ })

-- CSendUnlockQueue::GetCtrlMsg: `len` is set to 0 before it is compared, so the space that the caller
-- names is not looked at.
unfoldable pub get_ctrl_msg : ℕ → UnlockQueue → Status × Bytes
get_ctrl_msg len q =
    if ltb 0 q.ctrl_msg_len
    then (k_space_limit, [])
    else if ltb k_unlock_queue_max_ctrl_msg q.ctrl_msg_len
    then (k_unexpect, [])
    else (k_ok, load 0 q.ctrl_msg_len q.ctrl_msg)

-- sizeof(UnlockQueueHead)
abbrev pub unlock_queue_head_size : ℕ
unlock_queue_head_size = 580

-- The two `Init`: memory that holds more than the two heads.
unfoldable pub init : ℕ → Status
init capacity = if leb capacity (unlock_queue_head_size + k_pack_head_size) then k_arg else k_ok

-- CreateUnlockQueue on memory that is not NULL: how it ends, and the state it leaves. With `reset` it
-- clears the head, whatever stood there, and sets its capacity.
unfoldable pub create_unlock_queue : ℕ → Bool → UnlockQueue → Status × UnlockQueue
create_unlock_queue capacity reset q = (
  init capacity,
  if reset
      then record {
        capacity = sub32 capacity unlock_queue_head_size;
        head = 0;
        tail = 0;
        seq = 0;
        ctrl_msg = λ i. 0;
        ctrl_msg_len = 0;
        buf = q.buf;
      }
      else q,
)
