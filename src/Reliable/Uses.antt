-- ===== src/Reliable/Uses.antt =====
-- A reliable channel from its creation on (src/channel/reliable.rs): however it is used, it goes on
-- making packets.
use yojimbo_rs.Prelude.{ℕ, ◌%◌, ◌<◌, ◌≤◌, ◌≡◌, ap, subst, sym, ◌∙◌, Option, none, some, ◌==◌}
use yojimbo_rs.Run.{ok, ok-injective, >>=-eq-ok, assert, sub_usize}
use yojimbo_rs.Float.{Float}
use yojimbo_rs.Message.{NetworkMessage}
use yojimbo_rs.Config.{ChannelConfig}
use yojimbo_rs.Word.{u16_modulus, wrapping_add}
use yojimbo_rs.SequenceBuffer
use yojimbo_rs.SequenceBuffer.{SequenceBuffer, capacity}
use yojimbo_rs.SequenceBuffer.Sound.{insert_with_sound}
use yojimbo_rs.Packet.{ChannelPacketData}
use yojimbo_rs.Reliable.{
  Reliable, MessageReceiveQueueEntry, new, advance_time, reset, can_send_message, send_entry,
  send_message, deliver_entry, receive_message,
}
use yojimbo_rs.Reliable.Send.{budget_bits, packet_data}
use yojimbo_rs.Reliable.Receive.{process_packet_data, receive_all}
use yojimbo_rs.Reliable.Ack.{process_ack}
use yojimbo_rs.Reliable.Packs.{IsPacking, packet_data_returns}
use yojimbo_rs.Reliable.Ready.{
  IsSized, relabel, new-IsPacking, reset-IsPacking, process_ack-IsPacking,
}

module _ {F M : Type 0} where
  process_packet_data-IsPacking :
      (r r' : Reliable F M) (packet : ChannelPacketData M)
      → IsPacking r
      → process_packet_data r packet ≡ ok r'
      → IsPacking r'
  unfolding process_packet_data
  process_packet_data-IsPacking r r' packet k h =
      let (last, _, h1) = >>=-eq-ok (sub_usize (capacity r.message_receive_queue) 1) _ h in
      let (arrived, _, h2) =
        >>=-eq-ok
          (receive_all r.receive_message_id (wrapping_add r.receive_message_id (last % u16_modulus))
            r.message_receive_queue packet.messages)
          _ h1 in
      subst IsPacking (ok-injective h2) (
        relabel r r.time r.send_message_id r.receive_message_id r.oldest_unacked_message_id
          r.message_send_queue arrived k k.valid)

  deliver_entry-IsPacking :
      (r r' : Reliable F M) (left : SequenceBuffer (MessageReceiveQueueEntry M))
      (e : Option (MessageReceiveQueueEntry M)) (got : Option (ℕ × M))
      → IsPacking r
      → deliver_entry r left e ≡ ok (r', got)
      → IsPacking r'
  unfolding deliver_entry
  deliver_entry-IsPacking r r' left none got k h =
      subst IsPacking (ap (λ x. x.0) (ok-injective h)) (
        relabel r r.time r.send_message_id r.receive_message_id r.oldest_unacked_message_id
          r.message_send_queue left k k.valid)
  deliver_entry-IsPacking r r' left (some e) got k h =
      let (_, _, h1) = >>=-eq-ok (assert (e.message_id == r.receive_message_id)) _ h in
      subst IsPacking (ap (λ x. x.0) (ok-injective h1)) (
        relabel r r.time r.send_message_id (wrapping_add r.receive_message_id 1)
          r.oldest_unacked_message_id r.message_send_queue left k k.valid)

  receive_message-IsPacking :
      (r r' : Reliable F M) (got : Option (ℕ × M))
      → IsPacking r
      → receive_message r ≡ ok (r', got)
      → IsPacking r'
  unfolding receive_message
  receive_message-IsPacking r r' got k h =
      let ((e, left), _, h1) =
        >>=-eq-ok (SequenceBuffer.take r.message_receive_queue r.receive_message_id) _ h in
      deliver_entry-IsPacking r r' left e got k h1

module _ {F M : Type 0} ⦃f : Float F⦄ ⦃w : NetworkMessage M⦄ where
  send_message-IsPacking :
      (r r' : Reliable F M) (m : M) → IsPacking r → send_message r m ≡ ok r' → IsPacking r'
  unfolding send_message
  send_message-IsPacking r r' m k h =
      let (free, _, h1) = >>=-eq-ok (can_send_message r) _ h in
      let (_, _, h2) = >>=-eq-ok (assert free) _ h1 in
      let made = send_entry r.send_message_id m in
      let ((queue, b), e, h3) =
        >>=-eq-ok (SequenceBuffer.insert_with r.message_send_queue r.send_message_id made) _ h2 in
      let (_, _, h4) = >>=-eq-ok (assert b) _ h3 in
      subst IsPacking (ok-injective h4) (
        relabel r r.time (wrapping_add r.send_message_id 1) r.receive_message_id
          r.oldest_unacked_message_id queue r.message_receive_queue k
          (insert_with_sound k.valid r.send_message_id made queue b e).valid)

  -- What a channel comes to by its operations, in any order, as long as none of the others panics.
  -- A packet is asked for under a u16 number, with room for its header.
  pub data Uses (c : ChannelConfig F) : Reliable F M → Type 0 where
    create : (t : F) (r : Reliable F M) → new c t ≡ ok r → Uses c r
    send : (m : M) (r r' : Reliable F M) → Uses c r → send_message r m ≡ ok r' → Uses c r'
    pack :
        (channel sequence available bits : ℕ) (packet : ChannelPacketData M) (r r' : Reliable F M)
        → Uses c r
        → sequence < u16_modulus
        → 32 ≤ budget_bits r.config.packet_budget available
        → packet_data r channel sequence available ≡ ok (r', packet, bits)
        → Uses c r'
    ack :
        (sequence : ℕ) (r r' : Reliable F M) → Uses c r → process_ack r sequence ≡ ok r' → Uses c r'
    arrive :
        (packet : ChannelPacketData M) (r r' : Reliable F M)
        → Uses c r
        → process_packet_data r packet ≡ ok r'
        → Uses c r'
    receive :
        (got : Option (ℕ × M)) (r r' : Reliable F M)
        → Uses c r
        → receive_message r ≡ ok (r', got)
        → Uses c r'
    tick : (t : F) (r : Reliable F M) → Uses c r → Uses c (advance_time r t)
    clear : (r : Reliable F M) → Uses c r → Uses c (reset r)

  Uses-IsPacking : {c : ChannelConfig F} {r : Reliable F M} → IsSized c → Uses c r → IsPacking r
  unfolding advance_time
  Uses-IsPacking {c = c} z (create t r e) = new-IsPacking c t r z e
  Uses-IsPacking z (send m r0 r u e) = send_message-IsPacking r0 r m (Uses-IsPacking z u) e
  Uses-IsPacking z (pack channel sequence available bits packet r0 r u small header e) =
      let (r', p, b, returns, k) =
        packet_data_returns r0 channel sequence available (Uses-IsPacking z u) small header in
      subst IsPacking (ap (λ x. x.0) (ok-injective (sym returns ∙ e))) k
  Uses-IsPacking z (ack sequence r0 r u e) =
      process_ack-IsPacking r0 r sequence (Uses-IsPacking z u) e
  Uses-IsPacking z (arrive packet r0 r u e) =
      process_packet_data-IsPacking r0 r packet (Uses-IsPacking z u) e
  Uses-IsPacking z (receive got r0 r u e) =
      receive_message-IsPacking r0 r got (Uses-IsPacking z u) e
  Uses-IsPacking z (tick t r0 u) =
      relabel r0 t r0.send_message_id r0.receive_message_id r0.oldest_unacked_message_id
        r0.message_send_queue r0.message_receive_queue (Uses-IsPacking z u)
        (Uses-IsPacking z u).valid
  Uses-IsPacking z (clear r0 u) = reset-IsPacking r0 (Uses-IsPacking z u)

  -- Take a reliable channel that `new` made for a packet buffer of more than one slot whose size
  -- divides 65536, a send queue with slots and at least one message per packet, and use it in any
  -- way: sends, acks, packets that arrive, receives, ticks, resets, and packets asked for under
  -- u16 numbers with room for the header. As long as none of these calls has panicked, the next
  -- `packet_data` under a u16 number, with room for the header, returns, and the channel can be
  -- used on.
  pub packs_in_use :
      {c : ChannelConfig F} (r : Reliable F M) (channel_index sequence available : ℕ)
      → IsSized c
      → Uses c r
      → sequence < u16_modulus
      → 32 ≤ budget_bits r.config.packet_budget available
      → (r' : Reliable F M) × (packet : ChannelPacketData M) × (bits : ℕ) × (packet_data r
            channel_index sequence available
          ≡ ok (r', packet, bits))
        × Uses c r'
  packs_in_use r channel_index sequence available z u small header =
      let (r', packet, bits, returns, _) =
        packet_data_returns r channel_index sequence available (Uses-IsPacking z u) small header in
      (
        r',
        packet,
        bits,
        returns,
        Uses.pack channel_index sequence available bits packet r r' u small header returns,
      )
