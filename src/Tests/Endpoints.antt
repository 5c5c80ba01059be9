-- ===== src/Tests/Endpoints.antt =====
-- A connection with a channel in an error state, and a network simulator with room for two packets.
use yojimbo_rs.Prelude.{some, ℕ, ◌≡◌, refl, true, false, [], ◌∷◌, arith}
use yojimbo_rs.Config.{ChannelType}
use yojimbo_rs.ErrorLevel.{ChannelErrorLevel, ConnectionErrorLevel}
use yojimbo_rs.Processor.{Processor}
use yojimbo_rs.Channel.{Channel, zero_counters}
use yojimbo_rs.Connection.{Connection}
use yojimbo_rs.NetworkSimulator.{NetworkSimulator, PacketEntry, Draws, set_latency, update_active}
use yojimbo_rs.NetworkSimulator.Room.{Sent, send_packet-Sent}
use yojimbo_rs.NetworkSimulator.Quiet.{IsQuiet, Configures, Configures-IsQuiet}
use yojimbo_rs.NetworkSimulator.Delivery.{Delivers, receive_packets-Delivers}
use yojimbo_rs.Tests.Data.{ticks, byte, small_config, two_channels}

abbrev channel_at_level : ChannelErrorLevel → Channel ℕ ℕ
channel_at_level level = record {
  config = small_config ChannelType.unreliable_unordered;
  channel_index = 0;
  error_level = level;
  processor = Processor.unreliable (record {
    message_send_queue = record { items = []; capacity = 3 };
    message_receive_queue = record { items = []; capacity = 2 };
  });
  counters = zero_counters;
}

abbrev connection : ChannelErrorLevel → Connection ℕ ℕ
connection level = record {
  config = two_channels;
  channels = channel_at_level ChannelErrorLevel.none ∷ channel_at_level level ∷ [];
  error_level = ConnectionErrorLevel.none;
}

abbrev entry_at : ℕ → PacketEntry ℕ
entry_at time = record {
  destination_client_index = 1;
  delivery_time = time;
  packet_data = 4 ∷ time ∷ [];
  consumed = false;
}

-- It is full. One packet is due and one is not.
abbrev simulator : NetworkSimulator ℕ ℕ
simulator = record {
  latency = 3;
  jitter = 2;
  packet_loss = 10;
  duplicates = 50;
  active = true;
  time = 20;
  entries = record { items = entry_at 19 ∷ entry_at 20 ∷ []; capacity = 2 };
}

-- The packet is sent twice.
abbrev draws : Draws ℕ ℕ
draws = record { loss = 40; gen_range = λ low high. some high; duplicate = 30; duplicate_delay = 1 }

send_packet-Sent_example : Sent simulator draws 1 (8 ∷ [])
send_packet-Sent_example =
    send_packet-Sent simulator draws 1 (8 ∷ [])
      (record { within = omega arith; positive = omega arith }) refl

receive_packets-Delivers_example : Delivers simulator 21
receive_packets-Delivers_example = receive_packets-Delivers simulator 21 refl (refl, (refl, tt))

-- Only the latency is set.
abbrev late : NetworkSimulator ℕ ℕ
late = record simulator { jitter = 0; packet_loss = 0; duplicates = 0 }

-- Without it the two packets are gone.
set_latency-late : ((set_latency late 0).active ≡ false) × ((set_latency late 0).entries.items ≡ [])
unfolding set_latency update_active
set_latency-late = (refl, refl)

Configures-IsQuiet_example : IsQuiet (set_latency late 0)
Configures-IsQuiet_example =
    Configures-IsQuiet late (set_latency late 0)
      (record { truthful = refl; empty = λ off. absurd (cc off) }) (Configures.latency 0)
