-- ===== src/Reliable/Progress.antt =====
-- A packet of one reliable channel at the other one (src/channel/reliable.rs): `packet_data`,
-- `process_packet_data` and `receive_message` put together.
use yojimbo_rs.Prelude.{
  ℕ, ◌<◌, ◌≤◌, ◌≡◌, refl, sym, ap, subst, ◌∙◌, true, not, none, some, List, [], ◌∷◌, get_elem?,
  ==_refl, if◌then◌else◌, some-injective, if_false, arith,
}
use yojimbo_rs.Run.{ok, ok-injective, >>=-eq-ok, expect_some, unwrap_none}
use yojimbo_rs.Float.{Float}
use yojimbo_rs.Word.{u16_modulus, wrapping_add}
use yojimbo_rs.SequenceBuffer
use yojimbo_rs.SequenceBuffer.{SequenceBuffer, capacity}
use yojimbo_rs.SequenceBuffer.View.{entry}
use yojimbo_rs.Packet.{ChannelPacketData, empty}
use yojimbo_rs.Reliable.{Reliable, MessageSendQueueEntry, has_messages_to_send, receive_message}
use yojimbo_rs.Reliable.Send.{
  budget_bits, get_messages_to_send, copy_messages, get_message_packet_data,
  add_message_packet_entry, packet_of, packet_data,
}
use yojimbo_rs.Reliable.Receive.{process_packet_data}
use yojimbo_rs.Reliable.History.{Tracks, FromHistory, sent_message}
use yojimbo_rs.Reliable.Traffic.{packet_data_keeps}
use yojimbo_rs.Reliable.Receiving.{IsReceiving}
use yojimbo_rs.Reliable.InWindow.{AllExpected, brought}
use yojimbo_rs.Reliable.Packs.{IsPacking, packet_data_returns}
use yojimbo_rs.Reliable.Awaited.{awaited_delivers}
use yojimbo_rs.Reliable.Due.{IsDue, head?, get_messages_to_send-first}
use yojimbo_rs.Reliable.Rising.{
  Rising, get_messages_to_send-Rising, copy_messages-AllExpected, copy_messages-brought,
}

-- The receiver takes the packet, and the next message it gives is the one that was sent under this
-- id.
pub record Arrives {F M : Type 0} (id : ℕ) (q : Reliable F M) (packet : ChannelPacketData M)
    (history : List M) : Type 0 where
  pub message : M
  pub after : Reliable F M
  pub last : Reliable F M
  pub sent : get_elem? history id ≡ some message
  pub processed : process_packet_data q packet ≡ ok after
  pub received : receive_message after ≡ ok (last, some (id, message))
  pub moved : last.receive_message_id ≡ wrapping_add id 1

-- Messages, the first of them under the first id, for a receiver that waits for that id.
record Leads {M : Type 0} (first size : ℕ) (ms : List (ℕ × M)) : Type 0 where
  message : M
  later : List (ℕ × M)
  begins : ms ≡ (first, message) ∷ later
  expected : AllExpected first size ms
  brings : brought first ms none ≡ some message

module _ {F M : Type 0} (first high size : ℕ) (first_u16 : first < u16_modulus)
    (le : high ≤ size) where
  copy_messages-Leads :
      (queue : SequenceBuffer (MessageSendQueueEntry F M)) (ids : List ℕ) (ms : List (ℕ × M))
      → Rising first 0 high (first ∷ ids)
      → copy_messages queue (first ∷ ids) ≡ ok ms
      → Leads first size ms
  unfolding copy_messages
  copy_messages-Leads queue ids ms rising h =
      let (e, _, h1) = >>=-eq-ok (SequenceBuffer.get queue first) _ h in
      let (a, _, h2) = >>=-eq-ok (expect_some unwrap_none e) _ h1 in
      let (rest, copied, h3) = >>=-eq-ok (copy_messages queue ids) _ h2 in
      let all = copy_messages-AllExpected queue first 0 high size (first ∷ ids) ms le rising h in
      record {
        message = a.message;
        later = rest;
        begins = sym (ok-injective h3);
        expected = all;
        brings =
            ap (λ x. brought first x none) (sym (ok-injective h3))
            ∙ ap (λ b. brought first rest (if b then some a.message else none)) (==_refl first)
            ∙ copy_messages-brought queue first _ high ids rest (some a.message) (omega arith)
                first_u16 rising.2 copied;
      }

  packet_of-Leads :
      (r r' : Reliable F M) (channel_index sequence bits bits' : ℕ) (ids : List ℕ)
      (packet : ChannelPacketData M)
      → head? ids ≡ some first
      → Rising first 0 high ids
      → packet_of r channel_index sequence ids bits ≡ ok (r', packet, bits')
      → Leads first size packet.messages
  unfolding packet_of get_message_packet_data
  packet_of-Leads r r' channel_index sequence bits bits' [] packet begins rising h = absurd (cc)
  packet_of-Leads r r' channel_index sequence bits bits' (id ∷ ids) packet begins rising h =
      let (p, e, h1) = >>=-eq-ok (get_message_packet_data r channel_index (id ∷ ids)) _ h in
      let (r1, _, h2) = >>=-eq-ok (add_message_packet_entry r (id ∷ ids) sequence) _ h1 in
      let (ms, copied, h3) = >>=-eq-ok (copy_messages r.message_send_queue (id ∷ ids)) _ e in
      let same : ms ≡ packet.messages =
        ap (λ x. x.messages) (ok-injective h3) ∙ ap (λ x. x.1.messages) (ok-injective h2) in
      let at_first = some-injective begins in
      subst (Leads first size) same (
        copy_messages-Leads r.message_send_queue ids ms
          (subst (λ x. Rising first 0 high (x ∷ ids)) at_first rising)
          (subst (λ x. copy_messages r.message_send_queue (x ∷ ids) ≡ ok ms) at_first copied))

module _ {F M : Type 0} ⦃f : Float F⦄ (r : Reliable F M) where
  packet_data-Leads :
      (r' : Reliable F M) (channel_index sequence available bits size : ℕ)
      (packet : ChannelPacketData M)
      → has_messages_to_send r ≡ true
      → IsDue r (budget_bits r.config.packet_budget available)
      → 0 < capacity r.message_receive_queue
      → capacity r.message_receive_queue ≤ size
      → size < 32768
      → packet_data r channel_index sequence available ≡ ok (r', packet, bits)
      → Leads r.oldest_unacked_message_id size packet.messages
  unfolding packet_data
  packet_data-Leads r' channel_index sequence available bits size packet waiting d open_queue le
        narrow h =
      let ((r1, ids, gathered_bits), e, h1) =
        >>=-eq-ok (get_messages_to_send r available) _
          (if_false (not (has_messages_to_send r)) (ok (r, empty, 0)) _ (ap not waiting) ∙ h) in
      packet_of-Leads r.oldest_unacked_message_id (capacity r.message_receive_queue) size d.oldest
        le r1 r' channel_index sequence gathered_bits bits ids packet
        (get_messages_to_send-first r (budget_bits r.config.packet_budget available) d available
          refl open_queue e)
        (get_messages_to_send-Rising r available d.oldest (omega (arith, le, narrow)) e) h1

  sent_oldest-Arrives :
      (r' q : Reliable F M) (history : List M) (channel_index sequence available bits : ℕ)
      (packet : ChannelPacketData M)
      → Tracks sent_message history r.message_send_queue
      → has_messages_to_send r ≡ true
      → IsDue r (budget_bits r.config.packet_budget available)
      → 0 < capacity r.message_receive_queue
      → packet_data r channel_index sequence available ≡ ok (r', packet, bits)
      → q.receive_message_id ≡ r.oldest_unacked_message_id
      → IsReceiving q.receive_message_id q.message_receive_queue
      → capacity r.message_receive_queue ≤ capacity q.message_receive_queue
      → entry q.message_receive_queue q.receive_message_id ≡ none
      → Arrives r.oldest_unacked_message_id q packet history
  sent_oldest-Arrives r' q history channel_index sequence available bits packet tracks waiting d
        open_queue sends awaits k le missing =
      let oldest = r.oldest_unacked_message_id in
      let leads =
        packet_data-Leads r' channel_index sequence available bits
          (capacity q.message_receive_queue) packet waiting d open_queue le k.narrow sends in
      let from =
        (packet_data_keeps history r r' channel_index sequence available bits packet tracks
          sends).1 in
      let (q', q'', processed, received, moved) =
        awaited_delivers q packet leads.message (subst (λ x. x < u16_modulus) (sym awaits) d.oldest)
          k
          (subst (λ x. AllExpected x (capacity q.message_receive_queue) packet.messages)
            (sym awaits) leads.expected)
          missing
          (subst (λ x. brought x packet.messages none ≡ some leads.message) (sym awaits)
            leads.brings) in
      record {
        message = leads.message;
        after = q';
        last = q'';
        sent = (subst (FromHistory history) leads.begins from).0;
        processed = processed;
        received =
            subst (λ x. receive_message q' ≡ ok (q'', some (x, leads.message))) awaits received;
        moved = subst (λ x. q''.receive_message_id ≡ wrapping_add x 1) awaits moved;
      }

  -- The sender's send queue and sent packets are valid, the sent packets recent, and the vector of
  -- packet ids of its size; the packet buffer has slots and a packet may take at least one
  -- message; the send queue tracks the history, there are messages to send, the sender's receive
  -- queue has slots, and the oldest unacked message is queued and due. The budget is at least 64
  -- bits, for the header and the give-up limit, and holds the header, the message and its id. The
  -- receiver waits for that message and has not got it; its receive queue is valid and recent, has
  -- fewer than 32768 slots, as many as the sender's or more, and is at most one window past the
  -- awaited id. Then `packet_data` under a u16 packet number returns, `process_packet_data` of its
  -- packet returns at the receiver, whatever else the packet holds, and the next `receive_message`
  -- gives the message that was sent under that id and waits for the id after it.
  pub oldest-Arrives :
      (q : Reliable F M) (history : List M) (channel_index sequence available : ℕ)
      → IsPacking r
      → sequence < u16_modulus
      → Tracks sent_message history r.message_send_queue
      → has_messages_to_send r ≡ true
      → IsDue r (budget_bits r.config.packet_budget available)
      → 0 < capacity r.message_receive_queue
      → q.receive_message_id ≡ r.oldest_unacked_message_id
      → IsReceiving q.receive_message_id q.message_receive_queue
      → capacity r.message_receive_queue ≤ capacity q.message_receive_queue
      → entry q.message_receive_queue q.receive_message_id ≡ none
      → (r' : Reliable F M) × (packet : ChannelPacketData M) × (bits : ℕ) × (packet_data r
            channel_index sequence available
          ≡ ok (r', packet, bits))
        × Arrives r.oldest_unacked_message_id q packet history
  oldest-Arrives q history channel_index sequence available packing small tracks waiting d
        open_queue awaits k le missing =
      let (r', packet, bits, sends, _) =
        packet_data_returns r channel_index sequence available packing small
          (omega (arith, d.worth)) in
      (
        r',
        packet,
        bits,
        sends,
        sent_oldest-Arrives r' q history channel_index sequence available bits packet tracks waiting
            d open_queue sends awaits k le missing,
      )
