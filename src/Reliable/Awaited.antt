-- ===== src/Reliable/Awaited.antt =====
-- The message that a reliable channel waits for (src/channel/reliable.rs): once a packet brings it,
-- `receive_message` gives it.
use yojimbo_rs.Prelude.{◌<◌, ◌≡◌, refl, ap, ◌∙◌, none, some, ==_refl, if◌then◌else◌, ◌%◌}
use yojimbo_rs.Run.{ok, ◌>>=◌, ◌>>◌, assert}
use yojimbo_rs.Word.{u16_modulus, wrapping_add}
use yojimbo_rs.SequenceBuffer.{SequenceBuffer, capacity, vacate}
use yojimbo_rs.SequenceBuffer.View.{IsValid, entry, holds, take-eq}
use yojimbo_rs.Reliable.{Reliable, MessageReceiveQueueEntry, receive_message, deliver_entry}
use yojimbo_rs.Reliable.Receive.{process_packet_data}
use yojimbo_rs.Reliable.Receiving.{IsReceiving}
use yojimbo_rs.Reliable.InWindow.{AllExpected, brought, entry_of, process_packet_data-Taken}
use yojimbo_rs.Packet.{ChannelPacketData}

module _ {F M : Type 0} where
  -- A channel whose receive queue has the next message.
  receive_message-gives :
      (r : Reliable F M) (m : M)
      → IsValid r.message_receive_queue
      → entry r.message_receive_queue r.receive_message_id ≡ entry_of r.receive_message_id (some m)
      → (r' : Reliable F M) × (receive_message r ≡ ok (r', some (r.receive_message_id, m)))
        × (r'.receive_message_id ≡ wrapping_add r.receive_message_id 1)
  unfolding receive_message deliver_entry
  receive_message-gives r m v has =
      let next = r.receive_message_id in
      let queue = r.message_receive_queue in
      let left : SequenceBuffer (MessageReceiveQueueEntry M) =
        if holds queue next then vacate queue (next % capacity queue) else queue in
      let after : Reliable F M = record r {
        message_receive_queue = left;
        receive_message_id = wrapping_add next 1;
      } in
      (
        after,
        ap (λ t. t >>= (λ x. deliver_entry r x.1 x.0)) (take-eq v next)
            ∙ ap (deliver_entry r left) has
            ∙ ap (λ b. assert b >> ok (after, some (next, m))) (==_refl next),
        refl,
      )

  -- A reliable channel whose receive queue is valid and recent, of less than 32768 slots and at
  -- most one window past the next id to receive, has not got the message that it waits for, and a
  -- packet comes that brings it, whatever else it brings inside the receive window or from before
  -- it. `process_packet_data` of the packet returns, and the next `receive_message` gives the
  -- message under the id that was awaited (the last one, if the packet has several under it) and
  -- waits for the id after it.
  pub awaited_delivers :
      (r : Reliable F M) (packet : ChannelPacketData M) (m : M)
      → r.receive_message_id < u16_modulus
      → IsReceiving r.receive_message_id r.message_receive_queue
      → AllExpected r.receive_message_id (capacity r.message_receive_queue) packet.messages
      → entry r.message_receive_queue r.receive_message_id ≡ none
      → brought r.receive_message_id packet.messages none ≡ some m
      → (r' : Reliable F M) × (r'' : Reliable F M) × (process_packet_data r packet ≡ ok r')
        × (receive_message r' ≡ ok (r'', some (r.receive_message_id, m)))
        × (r''.receive_message_id ≡ wrapping_add r.receive_message_id 1)
  awaited_delivers r packet m next_u16 k all missing brings =
      let (t, processed) = process_packet_data-Taken r packet next_u16 k all in
      let stored = t.awaited none missing ∙ ap (entry_of r.receive_message_id) brings in
      let (last, received, moved) =
        receive_message-gives (record r { message_receive_queue = t.after }) m t.receiving.valid
          stored in
      (record r { message_receive_queue = t.after }, last, processed, received, moved)
