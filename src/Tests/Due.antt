-- ===== src/Tests/Due.antt =====
-- A message that is due, in the first packet that can carry it.
use yojimbo_rs.Prelude.{[], ◌∷◌, ℕ, ◌≡◌, refl, List, arith}
use yojimbo_rs.Reliable.{has_messages_to_send}
use yojimbo_rs.Reliable.Due.{IsDue, packet_data-Oldest}
use yojimbo_rs.Tests.Data.{ticks}
use yojimbo_rs.Tests.Sessions.{
  packet, packed, sent_one, fresh, sent_one-IsValid, sent_one-Tracks, packet_data-packed,
}
use yojimbo_rs.Tests.Windows.{fresh-IsReceiving}
use yojimbo_rs.Run.{ok}
use yojimbo_rs.Reliable.{Reliable}
use yojimbo_rs.Reliable.Send.{packet_data}
use yojimbo_rs.Packet.{ChannelPacketData}
use yojimbo_rs.Reliable.Packs.{IsPacking}
use yojimbo_rs.Reliable.Ready.{IsSized}
use yojimbo_rs.Reliable.Uses.{Uses, packs_in_use}
use yojimbo_rs.Config.{ChannelType}
use yojimbo_rs.Tests.Data.{small_config, byte}
use yojimbo_rs.Tests.Sessions.{new-fresh, send-sent_one}
use yojimbo_rs.Tests.Slots.{slots-IsValid, slots-IsRecent}
use yojimbo_rs.Reliable.Progress.{Arrives, oldest-Arrives}

sent_one-IsDue : IsDue sent_one 400
sent_one-IsDue = record {
  valid = sent_one-IsValid;
  oldest = omega arith;
  due_entry = record { message_id = 0; message = 77; time_last_sent = 0; measured_bits = 8 };
  queued = refl;
  due = refl;
  fits = omega arith;
  worth = omega arith;
}

packet_data-Oldest_example : (m : ℕ) × (rest : List (ℕ × ℕ)) × (packet.messages ≡ (0, m) ∷ rest)
unfolding has_messages_to_send
packet_data-Oldest_example =
    packet_data-Oldest sent_one packed 0 3 400 56 packet refl sent_one-IsDue (omega arith)
      packet_data-packed

sent_one-IsPacking : IsPacking sent_one
sent_one-IsPacking = record {
  valid = sent_one-IsValid;
  sent_valid = slots-IsValid;
  sent_recent = slots-IsRecent;
  some_packets = omega arith;
  some_messages = omega arith;
  room = refl;
}

oldest-Arrives_example :
    (r : Reliable ℕ ℕ) × (p : ChannelPacketData ℕ) × (bits : ℕ) × (packet_data sent_one 0 3 400
      ≡ ok (r, p, bits))
    × Arrives 0 fresh p (77 ∷ [])
unfolding has_messages_to_send
oldest-Arrives_example =
    oldest-Arrives sent_one fresh (77 ∷ []) 0 3 400 sent_one-IsPacking (omega arith) sent_one-Tracks
      refl sent_one-IsDue (omega arith) refl fresh-IsReceiving (omega arith) refl

small-IsSized : IsSized (small_config ChannelType.reliable_ordered)
small-IsSized = record {
  period = 16384;
  divides = refl;
  several = omega arith;
  some_messages = omega arith;
  some_slots = omega arith;
}

packs_in_use_example :
    (r : Reliable ℕ ℕ) × (p : ChannelPacketData ℕ) × (bits : ℕ) × (packet_data sent_one 0 3 400
      ≡ ok (r, p, bits))
    × Uses (small_config ChannelType.reliable_ordered) r
packs_in_use_example =
    packs_in_use sent_one 0 3 400 small-IsSized
      (Uses.send 77 fresh sent_one (Uses.create 9 fresh new-fresh) send-sent_one) (omega arith)
      (omega arith)
