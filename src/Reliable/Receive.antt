-- ===== src/Reliable/Receive.antt =====
-- How a reliable channel takes the messages of a packet (src/channel/reliable.rs).
use yojimbo_rs.Prelude.{ℕ, ◌%◌, List, [], ◌∷◌, if◌then◌else◌}
use yojimbo_rs.Run.{Run, ok, panic, ◌>>=◌, sub_usize, desync_newer, desync_older}
use yojimbo_rs.Word.{wrapping_add, sequence_greater_than, sequence_less_than, u16_modulus}
use yojimbo_rs.SequenceBuffer
use yojimbo_rs.SequenceBuffer.{SequenceBuffer, capacity, sequence_pointer}
use yojimbo_rs.Packet.{ChannelPacketData}
use yojimbo_rs.Reliable.{Reliable, MessageReceiveQueueEntry}

module _ {M : Type 0} where
  -- The insertion of the loop's body.
  unfoldable pub receive_one :
      SequenceBuffer (MessageReceiveQueueEntry M)
      → ℕ
      → M
      → Run (SequenceBuffer (MessageReceiveQueueEntry M))
  receive_one queue id message = do
    (queue', result) ←
        SequenceBuffer.insert_with queue id (ok (record { message_id = id; message = message }))
    if result then ok queue' else panic desync_older

  -- The loop of `process_packet_data`, between the bounds that it computes first.
  unfoldable pub receive_all :
      ℕ
      → ℕ
      → SequenceBuffer (MessageReceiveQueueEntry M)
      → List (ℕ × M)
      → Run (SequenceBuffer (MessageReceiveQueueEntry M))
  receive_all least most queue [] = ok queue
  receive_all least most queue ((id, message) ∷ rest) = do
    queue' ←
        if sequence_less_than id least
        then ok queue
        else if sequence_greater_than id most
        then panic desync_newer
        else receive_one queue id message
    receive_all least most queue' rest

module _ {F M : Type 0} where
  unfoldable pub process_packet_data : Reliable F M → ChannelPacketData M → Run (Reliable F M)
  process_packet_data r packet = do
    last ← sub_usize (capacity r.message_receive_queue) 1
    queue ←
        receive_all r.receive_message_id (wrapping_add r.receive_message_id (last % u16_modulus))
          r.message_receive_queue packet.messages
    ok (record r { message_receive_queue = queue })
