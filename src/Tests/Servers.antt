-- ===== src/Tests/Servers.antt =====
-- A server for two clients, and the theorems at it.
use yojimbo_rs.Prelude.{ℕ, List, if_some, ◌≡◌, refl, true, false, none, some, [], ◌∷◌, arith}
use yojimbo_rs.Run.{ok, ◌>>=◌}
use yojimbo_rs.Config.{new_reliable_config}
use yojimbo_rs.ConnectionPacket.{deserialize_packet, deserialize_all}
use yojimbo_rs.Packet.Serialize.{
  deserialize, deserialize_some, deserialize_messages, deserialize_unordered, deserialize_check,
}
use yojimbo_rs.ErrorLevel.{ConnectionErrorLevel}
use yojimbo_rs.Foreign.{c_string}
use yojimbo_rs.Connection
use yojimbo_rs.Connection.{Connection}
use yojimbo_rs.Channel
use yojimbo_rs.Processor
use yojimbo_rs.Reliable
use yojimbo_rs.SequenceBuffer
use yojimbo_rs.Unreliable
use yojimbo_rs.NetworkSimulator.{PacketEntry}
use yojimbo_rs.Client.Lifecycle.{allocated}
use yojimbo_rs.Server.{Server, ServerRuntime, new, connection_at}
use yojimbo_rs.Server.Start.{
  new_clients, start_netcode, new_runtime, start, stop, handle_connect_disconnect,
}
use yojimbo_rs.Server.Traffic.{
  receive_clients, receive_client, receive_packet, process_handed, process_packet,
}
use yojimbo_rs.Server.Begins.{Started, start-Started}
use yojimbo_rs.Server.Runs.{IsValid}
use yojimbo_rs.Server.Steps.{Step, Becomes, Becomes-IsValid}
use yojimbo_rs.Server.Spares.{Spares}
use yojimbo_rs.Server.Isolation.{receive_client-Spares, Cleared, disconnected-Cleared}
use yojimbo_rs.NetcodeAddress.{Raw, is_ipv4, is_ipv6, ipv4, ipv6, ipv6-misses}
use yojimbo_rs.Tests.Data.{ticks, byte, two_channels, value}
use yojimbo_rs.Tests.Loopback.{Host, Numbered, numbered, numbered-KeepsIndex, hosting, hosting_with}
use yojimbo_rs.Tests.Clients.{config, lossy}

abbrev ServerOf : Type 0
ServerOf = Server Numbered Host ℕ ℕ ℕ

abbrev idle_server : ServerOf
idle_server = record {
  private_key = [];
  address = 49 ∷ [];
  config = config;
  time = 0;
  runtime = none;
}

abbrev serving : ServerOf
serving = value idle_server (start hosting 2 idle_server)

starts : start hosting 2 idle_server ≡ ok serving
unfolding start stop new_runtime new_clients start_netcode c_string allocated Connection.new
    Connection.new_channels Channel.new Processor.new Reliable.new SequenceBuffer.new Unreliable.new
starts = refl

start-Started_example : Started hosting 2 idle_server serving
start-Started_example = start-Started hosting 2 idle_server serving starts

creates : new 1 [] (49 ∷ []) config 0 ≡ ok idle_server
unfolding new
creates = refl

serving-Becomes : Becomes hosting 0 serving
serving-Becomes =
    Becomes.step (Becomes.create 1 [] (49 ∷ []) config 0 creates) (Step.started 2 starts)

Becomes-IsValid_example : IsValid serving × (serving.time ≡ 0)
Becomes-IsValid_example = Becomes-IsValid hosting serving-Becomes

-- Two clients on connections without channels, and a simulator with a packet to each.
abbrev quiet_connection : Connection ℕ ℕ
quiet_connection = record {
  config = two_channels;
  channels = [];
  error_level = ConnectionErrorLevel.channel;
}

abbrev packet_to : ℕ → PacketEntry ℕ
packet_to i = record {
  destination_client_index = i;
  delivery_time = 3;
  packet_data = i ∷ [];
  consumed = false;
}

abbrev pub two_clients : ServerRuntime Numbered Host ℕ ℕ ℕ
two_clients = record {
  max_clients = 2;
  server = some (record { connected = 0 ∷ 1 ∷ []; waiting = (4 ∷ []) ∷ (5 ∷ []) ∷ []; sent = [] });
  bound_port = 50000;
  network_simulator =
      some (record lossy {
        entries = record { items = packet_to 0 ∷ packet_to 1 ∷ []; capacity = 4 };
      });
  client_connection = quiet_connection ∷ quiet_connection ∷ [];
  client_endpoint = record { index = 0; next = 5 } ∷ record { index = 1; next = 6 } ∷ [];
  packet_buffer = [];
}

-- A packet from client 1 with two messages on channel 1.
abbrev from_one : List ℕ
from_one = 1 ∷ 0 ∷ 1 ∷ 0 ∷ 1 ∷ 1 ∷ 5 ∷ 6 ∷ []

abbrev hearing_server : ServerOf
hearing_server = value idle_server (start (hosting_with (from_one ∷ [])) 2 idle_server)

abbrev hearing : ServerRuntime Numbered Host ℕ ℕ ℕ
hearing = if_some hearing_server.runtime (λ r. r) two_clients

abbrev past_zero : ServerRuntime Numbered Host ℕ ℕ ℕ
past_zero = value hearing (receive_clients (hosting_with (from_one ∷ [])) false 3 hearing 0 1)

abbrev heard : ServerRuntime Numbered Host ℕ ℕ ℕ
heard = value past_zero (receive_client (hosting_with (from_one ∷ [])) false 3 past_zero 1)

hears : start (hosting_with (from_one ∷ [])) 2 idle_server ≡ ok hearing_server
unfolding start stop new_runtime new_clients start_netcode c_string allocated Connection.new
    Connection.new_channels Channel.new Processor.new Reliable.new SequenceBuffer.new Unreliable.new
    new_reliable_config
hears = refl

passes_zero : receive_clients (hosting_with (from_one ∷ [])) false 3 hearing 0 1 ≡ ok past_zero
unfolding start stop new_runtime new_clients start_netcode c_string allocated Connection.new
    Connection.new_channels Channel.new Processor.new Reliable.new SequenceBuffer.new Unreliable.new
    new_reliable_config receive_clients receive_client receive_packet process_handed process_packet
    Connection.process_packet Connection.process_entries deserialize_packet deserialize_all
    deserialize deserialize_some deserialize_messages deserialize_unordered deserialize_check
    Channel.process_packet_data Processor.process_packet_data Unreliable.process_packet_data
passes_zero = refl

hears_one : receive_client (hosting_with (from_one ∷ [])) false 3 past_zero 1 ≡ ok heard
unfolding start stop new_runtime new_clients start_netcode c_string allocated Connection.new
    Connection.new_channels Channel.new Processor.new Reliable.new SequenceBuffer.new Unreliable.new
    new_reliable_config receive_clients receive_client receive_packet process_handed process_packet
    Connection.process_packet Connection.process_entries deserialize_packet deserialize_all
    deserialize deserialize_some deserialize_messages deserialize_unordered deserialize_check
    Channel.process_packet_data Processor.process_packet_data Unreliable.process_packet_data
hears_one = refl

-- The connection of client 1 has taken the messages.
heard_first :
    (connection_at heard 1 >>= (λ k. Connection.receive_message k 1 >>= (λ x. ok x.1)))
    ≡ ok (some (0, 5))
unfolding start stop new_runtime new_clients start_netcode c_string allocated Connection.new
    Connection.new_channels Channel.new Processor.new Reliable.new SequenceBuffer.new Unreliable.new
    new_reliable_config receive_clients receive_client receive_packet process_handed process_packet
    Connection.process_packet Connection.process_entries deserialize_packet deserialize_all
    deserialize deserialize_some deserialize_messages deserialize_unordered deserialize_check
    Channel.process_packet_data Processor.process_packet_data Unreliable.process_packet_data
    Connection.receive_message Channel.receive_message Processor.receive_message
    Unreliable.receive_message
heard_first = refl

receive_client-Spares_example : Spares 1 past_zero heard
unfolding start stop new_runtime new_clients start_netcode c_string allocated Connection.new
    Connection.new_channels Channel.new Processor.new Reliable.new SequenceBuffer.new Unreliable.new
    new_reliable_config
receive_client-Spares_example =
    receive_client-Spares (hosting_with (from_one ∷ [])) numbered-KeepsIndex false 3 hearing
      past_zero heard 1
      (Becomes.step (Becomes.create 1 [] (49 ∷ []) config 0 creates) (Step.started 2 hears)) refl
      passes_zero hears_one

abbrev after_disconnect : ServerRuntime Numbered Host ℕ ℕ ℕ
after_disconnect = value two_clients (handle_connect_disconnect two_clients 1 false)

disconnected-Cleared_example : Cleared 1 two_clients after_disconnect
unfolding handle_connect_disconnect
disconnected-Cleared_example = disconnected-Cleared two_clients after_disconnect 1 refl

abbrev six : Raw
six = record { kind = 2; data_ipv4 = []; data_ipv6 = 1 ∷ []; port = 40000 }

ipv6-misses_example :
    (is_ipv6 1 2 six ≡ true → (ipv6 1 2 six ≡ none) × (ipv4 1 2 six ≡ none))
    × (is_ipv4 1 2 six ≡ true → (ipv6 1 2 six ≡ some (1 ∷ [])) × (ipv4 1 2 six ≡ some []))
ipv6-misses_example = ipv6-misses 1 2 (omega arith) six
