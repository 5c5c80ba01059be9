-- ===== src/Tests/Channels.antt =====
-- Unreliable channels, and a channel that is full.
use yojimbo_rs.Prelude.{ℕ, ◌≤◌, ◌≡◌, refl, none, [], ◌∷◌, length}
use yojimbo_rs.Run.{ok}
use yojimbo_rs.Message
use yojimbo_rs.Message.{measured_bits}
use yojimbo_rs.Config.{ChannelType}
use yojimbo_rs.Packet.{ChannelPacketData}
use yojimbo_rs.ErrorLevel.{ChannelErrorLevel, send_queue_full}
use yojimbo_rs.Unreliable
use yojimbo_rs.Unreliable.{
  Unreliable, consider, fill, budget_bits, packet_of, packet_data, process_packet_data,
}
use yojimbo_rs.Unreliable.Fill.{AllAt, packet_data_fits}
use yojimbo_rs.Unreliable.Taking.{process_packet_data_takes}
use yojimbo_rs.Processor
use yojimbo_rs.Processor.{Processor}
use yojimbo_rs.Channel
use yojimbo_rs.Channel.{Channel, zero_counters, can_send_message, send_message, receive_message}
use yojimbo_rs.Channel.Latch.{Used, Latched, full_queue-Latched}
use yojimbo_rs.Tests.Data.{ticks, byte, small_config}

-- Three messages to send, and room for one that is received.
abbrev busy : Unreliable ℕ
busy = record {
  message_send_queue = record { items = 5 ∷ 6 ∷ 7 ∷ []; capacity = 3 };
  message_receive_queue = record { items = (1, 1) ∷ []; capacity = 2 };
}

abbrev rest : Unreliable ℕ
rest = record busy { message_send_queue = record { items = 7 ∷ []; capacity = 3 } }

abbrev two_messages : ChannelPacketData ℕ
two_messages = record { channel_index = 1; messages = (4, 5) ∷ (4, 6) ∷ [] }

packet_data_fits_example :
    (48 ≤ budget_bits none 100) × (length two_messages.messages ≤ 2) × AllAt 4 two_messages.messages
unfolding packet_data fill consider packet_of measured_bits Message.write
packet_data_fits_example =
    packet_data_fits busy rest (small_config ChannelType.unreliable_unordered) 1 4 100 48
      two_messages refl

process_packet_data_takes_example :
    process_packet_data busy two_messages 9
    ≡ record busy { message_receive_queue = record { items = (1, 1) ∷ (9, 5) ∷ []; capacity = 2 } }
process_packet_data_takes_example = process_packet_data_takes busy two_messages 9

abbrev full : Channel ℕ ℕ
full = record {
  config = small_config ChannelType.unreliable_unordered;
  channel_index = 0;
  error_level = ChannelErrorLevel.none;
  processor = Processor.unreliable busy;
  counters = zero_counters;
}

abbrev stuck : Channel ℕ ℕ
stuck = record full { error_level = send_queue_full }

abbrev emptied : Channel ℕ ℕ
emptied = record stuck { processor = Processor.unreliable rest }

packs :
    Channel.packet_data stuck 4 100 ≡ ok (emptied, record two_messages { channel_index = 0 }, 48)
unfolding Channel.packet_data Processor.packet_data Unreliable.packet_data fill consider packet_of
    measured_bits Message.write
packs = refl

-- One more message and the one that was received before are refused; the queued ones still go out.
stuck-Used : Used stuck [] emptied
unfolding send_message receive_message
stuck-Used =
    Used.pack 4 100 48 (record two_messages { channel_index = 0 })
      (Used.receive none (Used.send 9 Used.start refl) refl) packs

full_queue-Latched_example :
    (send_message full 8 ≡ ok stuck) × Latched send_queue_full full.processor [] emptied
unfolding can_send_message Processor.can_send_message Unreliable.can_send_message
full_queue-Latched_example = full_queue-Latched full emptied 8 [] refl refl stuck-Used
