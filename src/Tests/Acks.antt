-- ===== src/Tests/Acks.antt =====
-- An ack of the one packet that was sent.
use yojimbo_rs.Prelude.{ℕ, ◌≡◌, refl, inl, inr, true, false, none, some, [], ◌∷◌, arith}
use yojimbo_rs.Run.{ok}
use yojimbo_rs.Word.{sequence_greater_than}
use yojimbo_rs.SequenceBuffer
use yojimbo_rs.SequenceBuffer.{SequenceBuffer}
use yojimbo_rs.SequenceBuffer.View.{IsValid}
use yojimbo_rs.Reliable.{Reliable, SentPacketEntry}
use yojimbo_rs.Reliable.Ack.{
  ack_all, ack_packet, process_ack, advance_oldest, update_oldest_unacked_message_id,
}
use yojimbo_rs.Reliable.Removes.{Acks, process_ack-Acks}
use yojimbo_rs.Tests.Data.{slot_cases}
use yojimbo_rs.Tests.Slots.{slots}
use yojimbo_rs.Tests.Sessions.{packed}

abbrev packet_entry : SentPacketEntry ℕ
packet_entry = record { time_sent = 9; message_ids = (6, 1); acked = false }

-- `packed` when the packet 3 is acked.
abbrev acked : Reliable ℕ ℕ
acked = record packed {
  oldest_unacked_message_id = 1;
  sent_packets = record (packed.sent_packets) {
    entries = none ∷ none ∷ none ∷ some (record packet_entry { acked = true }) ∷ [];
  };
  message_send_queue = record slots { sequence = 1 };
}

process_ack-acked : process_ack packed 3 ≡ ok acked
unfolding process_ack ack_packet ack_all update_oldest_unacked_message_id advance_oldest
    SequenceBuffer.get SequenceBuffer.get_mut SequenceBuffer.take SequenceBuffer.exists
    SequenceBuffer.sequence_index SequenceBuffer.sequence_pointer sequence_greater_than
process_ack-acked = refl

sent_packets-IsValid : IsValid packed.sent_packets
sent_packets-IsValid = record {
  same_length = refl;
  positive = omega arith;
  small = omega arith;
  pointer = omega arith;
  filled = λ s h. elim (slot_cases s) [
    | inl e ↦ let at : false ≡ true = rw e at h in absurd (cc)
    | inr (inl e) ↦ let at : false ≡ true = rw e at h in absurd (cc)
    | inr (inr (inl e)) ↦ let at : false ≡ true = rw e at h in absurd (cc)
    | inr (inr (inr e)) ↦ rw e
  ];
}

message_send_queue-IsValid : IsValid packed.message_send_queue
message_send_queue-IsValid = record {
  same_length = refl;
  positive = omega arith;
  small = omega arith;
  pointer = omega arith;
  filled = λ s h. elim (slot_cases s) [
    | inl e ↦ rw e
    | inr (inl e) ↦ let at : false ≡ true = rw e at h in absurd (cc)
    | inr (inr (inl e)) ↦ let at : false ≡ true = rw e at h in absurd (cc)
    | inr (inr (inr e)) ↦ let at : false ≡ true = rw e at h in absurd (cc)
  ];
}

process_ack-Acks_example : Acks packed acked 3 packet_entry
process_ack-Acks_example =
    process_ack-Acks packed acked 3 packet_entry sent_packets-IsValid message_send_queue-IsValid
      refl process_ack-acked
