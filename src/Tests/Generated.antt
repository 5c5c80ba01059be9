-- ===== src/Tests/Generated.antt =====
-- A packet that a connection with one unreliable channel generates.
use yojimbo_rs.Prelude.{ℕ, ◌≡◌, ◌⊎◌, refl, false, List, [], ◌∷◌, arith}
use yojimbo_rs.Run.{ok}
use yojimbo_rs.Message
use yojimbo_rs.Message.{measured_bits}
use yojimbo_rs.Config.{ChannelType, ConnectionConfig}
use yojimbo_rs.ErrorLevel.{ChannelErrorLevel, ConnectionErrorLevel}
use yojimbo_rs.Packet.Serialize.{
  serialize_check, serialize_contents, serialize_ids, serialize_messages, serialize_some, serialize,
  write_message,
}
use yojimbo_rs.ConnectionPacket.{serialize_all, serialize_packet}
use yojimbo_rs.Unreliable
use yojimbo_rs.Unreliable.{Unreliable}
use yojimbo_rs.Processor
use yojimbo_rs.Processor.{Processor}
use yojimbo_rs.Channel
use yojimbo_rs.Channel.{Channel, zero_counters}
use yojimbo_rs.Connection.{Connection, collect, write_packet, generate_packet}
use yojimbo_rs.Connection.Carries.{Carries, generate_packet-Carries}
use yojimbo_rs.Tests.Data.{ticks, byte, byte-IsLawful, small_config}

abbrev one_channel : ConnectionConfig ℕ
one_channel = record {
  max_packet_size = 64;
  channels = small_config ChannelType.unreliable_unordered ∷ [];
}

abbrev connection : List ℕ → Connection ℕ ℕ
connection messages = record {
  config = one_channel;
  channels =
      record {
        config = small_config ChannelType.unreliable_unordered;
        channel_index = 0;
        error_level = ChannelErrorLevel.none;
        processor = Processor.unreliable (record {
          message_send_queue = record { items = messages; capacity = 4 };
          message_receive_queue = record { items = []; capacity = 4 };
        });
        counters = zero_counters;
      }
      ∷ [];
  error_level = ConnectionErrorLevel.none;
}

-- One channel; channel 0, with messages, two.
abbrev bytes : List ℕ
bytes = 1 ∷ 0 ∷ 0 ∷ 0 ∷ 1 ∷ 1 ∷ 5 ∷ 6 ∷ []

generate_packet-bytes :
    generate_packet false (connection (5 ∷ 6 ∷ 7 ∷ [])) 3 30 ≡ ok (connection (7 ∷ []), bytes)
unfolding generate_packet collect write_packet Channel.packet_data Processor.packet_data
    Unreliable.packet_data Unreliable.fill Unreliable.consider Unreliable.packet_of measured_bits
    Message.write serialize_packet serialize_all serialize_check serialize_contents serialize_ids
    serialize_messages serialize_some serialize write_message
generate_packet-bytes = refl

generate_packet-Carries_example :
    (bytes ≡ []) ⊎ Carries false (connection (5 ∷ 6 ∷ 7 ∷ [])) (connection (7 ∷ [])) 3 30 bytes
generate_packet-Carries_example =
    generate_packet-Carries byte-IsLawful false (connection (5 ∷ 6 ∷ 7 ∷ [])) (connection (7 ∷ []))
      3 30 bytes (omega arith) generate_packet-bytes
