-- ===== src/Channel/UnlockQueue/Recv.antt =====
-- What `Recv`, `Peek` and `Drop` make of what `GetNextPack` finds.
use yarf.Common.{ℕ, ◌+◌, ◌≡◌, ◌∙◌, ap, List, [], ◌∷◌, ltb, length, if◌then◌else◌}
use yarf.Channel.Memory.{Bytes, load}
use yarf.Channel.UnlockQueue.{
  Status, k_ok, k_chan_empty, k_chan_recv_space_limit, UnlockQueue, Next, error, pack, body_len_at,
  drop_pack, copy_pack, recv, peek, drop,
}
use yarf.Channel.UnlockQueue.Layout.{pack_space}
use yarf.Channel.UnlockQueue.Contents.{Contains}
use yarf.Channel.UnlockQueue.NextPack.{Front, Contains-Front, next_empty}

-- `Recv` on an empty queue, and on one with a message at its front.
pub recv_empty : (len : ℕ) (q : UnlockQueue) → Contains q [] → recv len q ≡ (k_chan_empty, [], q)
unfolding recv
recv_empty len q c = ap (λ n. received len q n) (next_empty q c)
  where
    received : ℕ → UnlockQueue → Next → Status × Bytes × UnlockQueue
    received len q (error e) = (e, [], q)
    received len q (pack at size) =
        if ltb len (body_len_at q at)
        then (k_chan_recv_space_limit, [], q)
        else (k_ok, copy_pack q at, drop_pack at size q)

pub drop_empty : (q : UnlockQueue) → Contains q [] → drop q ≡ (k_chan_empty, q)
unfolding drop
drop_empty q c = ap (λ n. dropped_by q n) (next_empty q c)
  where
    dropped_by : UnlockQueue → Next → Status × UnlockQueue
    dropped_by q (error e) = (e, q)
    dropped_by q (pack at size) = (k_ok, drop_pack at size q)

pub peek_empty : (q : UnlockQueue) → Contains q [] → peek q ≡ (k_chan_empty, [])
unfolding peek
peek_empty q c = ap (λ n. seen q n) (next_empty q c)
  where
    seen : UnlockQueue → Next → Status × Bytes
    seen q (error e) = (e, [])
    seen q (pack at size) = (k_ok, copy_pack q at)

module _ (q : UnlockQueue) (m : Bytes) (ms : List Bytes) (c : Contains q (m ∷ ms)) where
  abbrev first : Front q m ms
  first = Contains-Front q m ms c

  -- The queue without its first message.
  abbrev pub tail_of : UnlockQueue
  tail_of = drop_pack first.at (pack_space m) q

  pub recv_front :
      (len : ℕ)
      → recv len q
        ≡ (if ltb len (length m) then (k_chan_recv_space_limit, [], q) else (k_ok, m, tail_of))
  unfolding recv
  recv_front len =
      ap (λ n. received n) first.finds
      ∙ ap
          (λ (n : ℕ).
            if ltb len n
            then (k_chan_recv_space_limit, [], q)
            else (k_ok, load (first.at + 48) n q.buf, tail_of))
          first.packet.body_is
      ∙ ap
          (λ d. if ltb len (length m) then (k_chan_recv_space_limit, [], q) else (k_ok, d, tail_of))
          first.packet.holds
    where
      received : Next → Status × Bytes × UnlockQueue
      received (error e) = (e, [], q)
      received (pack at size) =
          if ltb len (body_len_at q at)
          then (k_chan_recv_space_limit, [], q)
          else (k_ok, copy_pack q at, drop_pack at size q)

  pub drop_front : drop q ≡ (k_ok, tail_of)
  unfolding drop
  drop_front = ap (λ n. dropped_by n) first.finds
    where
      dropped_by : Next → Status × UnlockQueue
      dropped_by (error e) = (e, q)
      dropped_by (pack at size) = (k_ok, drop_pack at size q)

  pub peek_front : peek q ≡ (k_ok, m)
  unfolding peek
  peek_front =
      ap (λ n. seen n) first.finds
      ∙ ap (λ (n : ℕ). (k_ok, load (first.at + 48) n q.buf)) first.packet.body_is
      ∙ ap (λ d. (k_ok, d)) first.packet.holds
    where
      seen : Next → Status × Bytes
      seen (error e) = (e, [])
      seen (pack at size) = (k_ok, copy_pack q at)
