-- ===== src/Reliable/Ack.antt =====
-- How a reliable channel takes an ack (src/channel/reliable.rs).
use yojimbo_rs.Prelude.{
  ℕ, zero, suc, ◌+◌, true, not, Option, none, some, List, [], ◌∷◌, length, take, drop, leb, ◌==◌,
  if◌then◌else◌,
}
use yojimbo_rs.Run.{Run, ok, panic, ◌>>=◌, ◌>>◌, assert, index_out_of_bounds, out_of_fuel}
use yojimbo_rs.Word.{wrapping_add, sequence_greater_than, u16_modulus}
use yojimbo_rs.SequenceBuffer
use yojimbo_rs.SequenceBuffer.{SequenceBuffer, capacity, sequence_pointer}
use yojimbo_rs.Reliable.{Reliable, MessageSendQueueEntry, SentPacketEntry}

-- `&mut ids[first..last]`
abbrev pub slice : List ℕ → ℕ → ℕ → Run (List ℕ)
slice all first count =
    if leb (first + count) (length all)
    then ok (take count (drop first all))
    else panic index_out_of_bounds

module _ {F M : Type 0} where
  -- The loop of `update_oldest_unacked_message_id`, with fuel.
  unfoldable pub advance_oldest : SequenceBuffer (MessageSendQueueEntry F M) → ℕ → ℕ → Run ℕ
  advance_oldest queue zero oldest = panic out_of_fuel
  advance_oldest queue (suc fuel) oldest =
      let rest = advance_oldest queue fuel (wrapping_add oldest 1) in
      if oldest == sequence_pointer queue
      then ok oldest
      else do here ← SequenceBuffer.exists queue oldest; if here then ok oldest else rest

  -- The loop meets the stop after as many steps as there are u16 values at most.
  unfoldable pub update_oldest_unacked_message_id :
      ℕ → SequenceBuffer (MessageSendQueueEntry F M) → Run ℕ
  update_oldest_unacked_message_id oldest queue = do
    oldest' ← advance_oldest queue u16_modulus oldest
    assert (not (sequence_greater_than oldest' (sequence_pointer queue)))
    ok oldest'

  -- The loop of `process_ack` over the ids of the packet: the send queue and the oldest id.
  unfoldable pub ack_all :
      SequenceBuffer (MessageSendQueueEntry F M)
      → ℕ
      → List ℕ
      → Run (SequenceBuffer (MessageSendQueueEntry F M) × ℕ)
  ack_all queue oldest [] = ok (queue, oldest)
  ack_all queue oldest (id ∷ ids) = do
    (e, queue') ← SequenceBuffer.take queue id
    oldest' ← elim e [
      | none ↦ ok oldest
      | some entry ↦ do
        assert (entry.message_id == id)
        update_oldest_unacked_message_id oldest queue'
    ]
    ack_all queue' oldest' ids

  -- The body of `process_ack` past the lookup of the packet that is acked.
  unfoldable pub ack_packet :
      Reliable F M
      → Option (SentPacketEntry F × (SentPacketEntry F → SequenceBuffer (SentPacketEntry F)))
      → Run (Reliable F M)
  ack_packet r none = ok r
  ack_packet r (some (entry, write)) = do
    assert (not entry.acked)
    ids ← slice r.sent_packet_message_ids entry.message_ids.0 entry.message_ids.1
    (queue, oldest) ← ack_all r.message_send_queue r.oldest_unacked_message_id ids
    ok (record r {
      sent_packets = write (record entry { acked = true });
      message_send_queue = queue;
      oldest_unacked_message_id = oldest;
    })

  unfoldable pub process_ack : Reliable F M → ℕ → Run (Reliable F M)
  process_ack r ack = do e ← SequenceBuffer.get_mut r.sent_packets ack; ack_packet r e
