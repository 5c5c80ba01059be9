-- ===== src/Tests/Sessions.antt =====
-- Two reliable channels of four slots.
use yojimbo_rs.Prelude.{
  ℕ, ◌≤◌, ◌≡◌, refl, inl, inr, max, true, false, none, some, [], ◌∷◌, length, take, arith,
}
use yojimbo_rs.Run.{ok}
use yojimbo_rs.Word.{sequence_greater_than, sequence_less_than}
use yojimbo_rs.Message.{NetworkMessage, measured_bits}
use yojimbo_rs.Message
use yojimbo_rs.Config.{ChannelType}
use yojimbo_rs.Packet.RoundTrip.{SmallIds}
use yojimbo_rs.Packet.{ChannelPacketData}
use yojimbo_rs.SequenceBuffer
use yojimbo_rs.SequenceBuffer.{SequenceBuffer, capacity}
use yojimbo_rs.Reliable.{
  Reliable, new, send_message, send_entry, can_send_message, receive_message, deliver_entry,
  has_messages_to_send,
}
use yojimbo_rs.Reliable.Send.{
  write_ids, check_limit, consider, gather_entry, gather_step, gather, budget_bits,
  get_messages_to_send, copy_messages, get_message_packet_data, add_entry_at,
  add_message_packet_entry, packet_of, packet_data,
}
use yojimbo_rs.Reliable.Receive.{receive_one, receive_all, process_packet_data}
use yojimbo_rs.Reliable.Session.{Session, Step, Reach}
use yojimbo_rs.Reliable.InOrder.{delivers_in_order}
use yojimbo_rs.SequenceBuffer.View.{IsValid}
use yojimbo_rs.Reliable.Ack.{update_oldest_unacked_message_id}
use yojimbo_rs.Reliable.History.{Tracks, FromHistory, sent_message}
use yojimbo_rs.Reliable.Traffic.{KeepsPacking, packet_data_keeps}
use yojimbo_rs.Reliable.Sent.{send_message-Extends}
use yojimbo_rs.Reliable.Accepts.{IsSending, Accepts, send_message-Accepts}
use yojimbo_rs.Reliable.Budget.{packet_data_bounded}
use yojimbo_rs.Reliable.Oldest.{IsFirst, update_oldest_finds}
use yojimbo_rs.Tests.Slots.{slots, slots-holds, slots-IsValid, slots-IsRecent}
use yojimbo_rs.Reliable.{MessageSendQueueEntry}
use yojimbo_rs.Tests.Data.{slot_cases, ticks, byte, small_config}

abbrev pub fresh : Reliable ℕ ℕ
fresh = record {
  time = 9;
  config = small_config ChannelType.reliable_ordered;
  send_message_id = 0;
  receive_message_id = 0;
  oldest_unacked_message_id = 0;
  sent_packet_message_ids = 0 ∷ 0 ∷ 0 ∷ 0 ∷ 0 ∷ 0 ∷ 0 ∷ 0 ∷ [];
  sent_packets = slots;
  message_send_queue = slots;
  message_receive_queue = slots;
}

pub new-fresh : new (small_config ChannelType.reliable_ordered) 9 ≡ ok fresh
unfolding new SequenceBuffer.new
new-fresh = refl

-- `fresh`, after the message 77 was sent.
abbrev pub sent_one : Reliable ℕ ℕ
sent_one = record fresh {
  send_message_id = 1;
  message_send_queue = record {
    sequence = 1;
    entry_sequence = some 0 ∷ none ∷ none ∷ none ∷ [];
    entries =
        some (record { message_id = 0; message = 77; time_last_sent = 0; measured_bits = 8 })
        ∷ none
        ∷ none
        ∷ none
        ∷ [];
  };
}

pub send-sent_one : send_message fresh 77 ≡ ok sent_one
unfolding send_message can_send_message SequenceBuffer.available SequenceBuffer.sequence_index
    SequenceBuffer.insert_with SequenceBuffer.store SequenceBuffer.remove_entries
    sequence_greater_than sequence_less_than send_entry measured_bits Message.write
send-sent_one = refl

-- The packet 3 with the message, and the channel after it.
abbrev pub packet : ChannelPacketData ℕ
packet = record { channel_index = 0; messages = (0, 77) ∷ [] }

abbrev pub packed : Reliable ℕ ℕ
packed = record sent_one {
  sent_packet_message_ids = 0 ∷ 0 ∷ 0 ∷ 0 ∷ 0 ∷ 0 ∷ 0 ∷ 0 ∷ [];
  sent_packets = record {
    sequence = 4;
    entry_sequence = none ∷ none ∷ none ∷ some 3 ∷ [];
    entries =
        none
        ∷ none
        ∷ none
        ∷ some (record { time_sent = 9; message_ids = (6, 1); acked = false })
        ∷ [];
  };
  message_send_queue = record (sent_one.message_send_queue) {
    entries =
        some (record { message_id = 0; message = 77; time_last_sent = 9; measured_bits = 8 })
        ∷ none
        ∷ none
        ∷ none
        ∷ [];
  };
}

pub packet_data-packed : packet_data sent_one 0 3 400 ≡ ok (packed, packet, 56)
unfolding packet_data has_messages_to_send get_messages_to_send gather gather_step gather_entry
    consider check_limit packet_of get_message_packet_data copy_messages add_message_packet_entry
    add_entry_at write_ids SequenceBuffer.get_mut SequenceBuffer.get SequenceBuffer.exists
    SequenceBuffer.sequence_index SequenceBuffer.insert_with SequenceBuffer.store
    SequenceBuffer.remove_entries sequence_greater_than sequence_less_than
packet_data-packed = refl

-- A receiver that the packet has reached, and after the message was received.
abbrev arrived : Reliable ℕ ℕ
arrived = record fresh {
  message_receive_queue = record {
    sequence = 1;
    entry_sequence = some 0 ∷ none ∷ none ∷ none ∷ [];
    entries = some (record { message_id = 0; message = 77 }) ∷ none ∷ none ∷ none ∷ [];
  };
}

process_packet_data-arrived : process_packet_data fresh packet ≡ ok arrived
unfolding process_packet_data receive_all receive_one SequenceBuffer.insert_with
    SequenceBuffer.store SequenceBuffer.sequence_index SequenceBuffer.remove_entries
    sequence_greater_than sequence_less_than
process_packet_data-arrived = refl

abbrev received : Reliable ℕ ℕ
received = record fresh {
  receive_message_id = 1;
  message_receive_queue = record slots { sequence = 1 };
}

receive_message-received : receive_message arrived ≡ ok (received, some (0, 77))
unfolding receive_message deliver_entry SequenceBuffer.take SequenceBuffer.exists
    SequenceBuffer.sequence_index
receive_message-received = refl

abbrev finished : Session ℕ ℕ
finished = record {
  sender = packed;
  receiver = received;
  network = packet ∷ [];
  sent = 77 ∷ [];
  delivered = 77 ∷ [];
}

Reach-finished : Reach finished
Reach-finished =
    Reach.later
      (Reach.later
        (Reach.later
          (Reach.later
            (Reach.start (small_config ChannelType.reliable_ordered)
              (small_config ChannelType.reliable_ordered) 9 9 fresh fresh (omega arith)
              (omega arith) (omega arith) (omega arith) new-fresh new-fresh)
            (Step.send 77 sent_one send-sent_one))
          (Step.transmit 0 3 400 56 packed packet packet_data-packed))
        (Step.arrive 0 packet arrived refl process_packet_data-arrived))
      (Step.receive received (some (0, 77)) receive_message-received)

delivers_in_order_example : finished.delivered ≡ take 1 finished.sent
delivers_in_order_example = delivers_in_order Reach-finished (omega arith)

packet_data_bounded_example :
    (56 ≤ budget_bits none 400) × (length packet.messages ≤ max 1 2) × SmallIds packet.messages
packet_data_bounded_example =
    packet_data_bounded sent_one packed 0 3 400 56 packet packet_data-packed

fresh-IsSending : IsSending fresh
fresh-IsSending = record { valid = slots-IsValid; recent = slots-IsRecent; at_end = refl }

send_message-Accepts_example : Accepts fresh 77
unfolding can_send_message SequenceBuffer.available SequenceBuffer.sequence_index
send_message-Accepts_example = send_message-Accepts fresh 77 (77 ∷ []) fresh-IsSending refl refl

pub sent_one-IsValid : IsValid sent_one.message_send_queue
sent_one-IsValid = record {
  same_length = refl;
  positive = omega arith;
  small = omega arith;
  pointer = omega arith;
  filled = λ s h. elim (slot_cases s) [
    | inl e ↦ rw e
    | inr (inl e) ↦ let at : false ≡ true = rw e at h in absurd (cc)
    | inr (inr (inl e)) ↦ let at : false ≡ true = rw e at h in absurd (cc)
    | inr (inr (inr e)) ↦ let at : false ≡ true = rw e at h in absurd (cc)
  ];
}

update_oldest_finds_example :
    (found : ℕ) × (update_oldest_unacked_message_id 0 sent_one.message_send_queue ≡ ok found)
    × IsFirst sent_one.message_send_queue 0 found
update_oldest_finds_example = update_oldest_finds sent_one-IsValid 0 (omega arith) (omega arith)

pub sent_one-Tracks : Tracks sent_message (77 ∷ []) sent_one.message_send_queue
sent_one-Tracks =
    (send_message-Extends [] 77 fresh sent_one
      (record {
        valid = fresh-IsSending.valid;
        tracks = λ t e h. absurd (cc (slots-holds (MessageSendQueueEntry ℕ ℕ) t));
      })
      refl send-sent_one).kept

packet_data_keeps_example :
    KeepsPacking (77 ∷ []) sent_one packed × FromHistory (77 ∷ []) packet.messages
packet_data_keeps_example =
    packet_data_keeps (77 ∷ []) sent_one packed 0 3 400 56 packet sent_one-Tracks packet_data-packed
