-- ===== src/Tests/Clients.antt =====
-- A client that connects, and the theorems at it.
use yojimbo_rs.Prelude.{Bool-cases, ◌==◌, inl, inr, ℕ, ◌≡◌, refl, true, none, some, [], ◌∷◌}
use yojimbo_rs.Run.{ok}
use yojimbo_rs.Int.{negsuc, pos}
use yojimbo_rs.Config.{ClientServerConfig}
use yojimbo_rs.Foreign.{endpoint_info, c_string, c_strings}
use yojimbo_rs.ClientState.{
  ClientState, try_from_netcode_client_state_i32, client_state_from_netcode_state, state_change,
  state_changes,
}
use yojimbo_rs.Client.{
  snapshot_network_info, is_disconnected, Client, new, is_connected, disconnect, destroy_client,
  destroy_internal, create_client, generate_insecure_connect_token,
}
use yojimbo_rs.Client.Lifecycle.{
  allocated, connect_internal, connect_created, connect_with, insecure_connect, advance_time,
  advance_connection, advance_simulator, update_netcode, follow_state, flush_simulator,
}
use yojimbo_rs.Client.Steps.{Parts, connected_goes_on, Step, Reaches, Reaches-IsValid}
use yojimbo_rs.Client.Valid.{idle, new-IsValid, live-IsValid, disconnect_returns, IsValid}
use yojimbo_rs.Connection
use yojimbo_rs.Channel
use yojimbo_rs.Processor
use yojimbo_rs.Reliable
use yojimbo_rs.SequenceBuffer
use yojimbo_rs.Unreliable
use yojimbo_rs.Connection.{Connection}
use yojimbo_rs.ErrorLevel.{ConnectionErrorLevel}
use yojimbo_rs.NetworkSimulator.{NetworkSimulator, Draws}
use yojimbo_rs.ClientState.Known.{IsDocumented, all_states, try_from-client_state_from}
use yojimbo_rs.Client.Traffic.{send_packets, send_connection, receive_packets, receive_loop}
use yojimbo_rs.Client.Connects.Outcome.{Outcome, insecure_connect-Outcome}
use yojimbo_rs.Client.Advance.Time.{at_time, error_disconnects, advance_time-follows}
use yojimbo_rs.Tests.Data.{ticks, byte, two_channels, value}
use yojimbo_rs.Tests.Loopback.{Peer, counting, loopback}

abbrev pub ClientOf : Type 0
ClientOf = Client ℕ Peer ℕ ℕ ℕ

abbrev pub config : ClientServerConfig ℕ ℕ
config = record {
  connection = two_channels;
  protocol_id = 1;
  timeout = pos 5;
  client_memory = 0;
  server_global_memory = 0;
  server_per_client_memory = 0;
  network_simulator = none;
  fragment_packets_above = 1024;
  packet_fragment_size = 1024;
  max_packet_fragments = 1;
  packet_reassembly_buffer_size = 64;
  acked_packets_buffer_size = 256;
  received_packets_buffer_size = 256;
  rtt_smoothing_factor = 0;
}

abbrev pub fresh : ClientOf
fresh = new (49 ∷ []) config 0

abbrev pub connecting : ClientOf
connecting = value fresh (insecure_connect [] 9 ((50 ∷ []) ∷ []) fresh)

abbrev pub online : ClientOf
online = value connecting (advance_time connecting 1)

connects : insecure_connect [] 9 ((50 ∷ []) ∷ []) fresh ≡ ok connecting
unfolding new insecure_connect disconnect destroy_client destroy_internal connect_internal
    create_client connect_created connect_with generate_insecure_connect_token c_string c_strings
    allocated state_changes state_change try_from_netcode_client_state_i32 Connection.new
    Connection.new_channels Channel.new Processor.new Reliable.new SequenceBuffer.new Unreliable.new
connects = refl

advances : advance_time connecting 1 ≡ ok online
unfolding new insecure_connect disconnect destroy_client destroy_internal connect_internal
    create_client connect_created connect_with generate_insecure_connect_token c_string c_strings
    allocated state_changes state_change try_from_netcode_client_state_i32 Connection.new
    Connection.new_channels Channel.new Processor.new Reliable.new SequenceBuffer.new Unreliable.new
    client_state_from_netcode_state advance_time advance_connection advance_simulator update_netcode
    follow_state flush_simulator Connection.advance_time Connection.advance_channels
    Connection.process_acks Channel.advance_time
advances = refl

online_connected : is_connected online ≡ true
unfolding new insecure_connect disconnect destroy_client destroy_internal connect_internal
    create_client connect_created connect_with generate_insecure_connect_token c_string c_strings
    allocated state_changes state_change try_from_netcode_client_state_i32 Connection.new
    Connection.new_channels Channel.new Processor.new Reliable.new SequenceBuffer.new Unreliable.new
    client_state_from_netcode_state advance_time advance_connection advance_simulator update_netcode
    follow_state flush_simulator Connection.advance_time Connection.advance_channels
    Connection.process_acks Channel.advance_time
online_connected = refl

online-Reaches : Reaches online
online-Reaches =
    Reaches.step
      (Reaches.step (Reaches.start (49 ∷ []) config 0)
        (Step.connected [] 9 ((50 ∷ []) ∷ []) connects))
      (Step.advanced 1 advances)

Reaches-IsValid_example : IsValid online
Reaches-IsValid_example = Reaches-IsValid online-Reaches

abbrev pub draws : ℕ → Draws ℕ ℕ
draws i = record { loss = 5; gen_range = λ low high. some 0; duplicate = 5; duplicate_delay = 0 }

connected_goes_on_example :
    (p : Parts online) × (send_packets true draws online
      ≡ send_connection true draws online p.endpoint p.connection)
    × (receive_packets true 3 online ≡ receive_loop true 3 online)
    × (snapshot_network_info online ≡ ok (some (endpoint_info counting p.endpoint)))
connected_goes_on_example = connected_goes_on online true draws 3 online-Reaches online_connected

insecure_connect-Outcome_example : Outcome [] 9 ((50 ∷ []) ∷ []) fresh connecting
insecure_connect-Outcome_example =
    insecure_connect-Outcome [] 9 ((50 ∷ []) ∷ []) fresh connecting (new-IsValid (49 ∷ []) config 0)
      connects

-- The state changes of the loopback client are between documented states.
loopback_update : (p : Peer) (time : ℕ) → all_states (loopback.update p time).1 ≡ true
loopback_update p time = elim (Bool-cases (p.state == 1)) [
  | inl connects_now ↦ rw connects_now
  | inr stays ↦ rw stays
]

loopback-IsDocumented : IsDocumented loopback
loopback-IsDocumented = record {
  disconnected = refl;
  sending_connection_request = refl;
  sending_connection_response = refl;
  connect = λ n token. refl;
  update = loopback_update;
  destroy = λ n. refl;
}

disconnect_returns_example : disconnect online ≡ ok (idle online)
disconnect_returns_example =
    disconnect_returns online loopback-IsDocumented (Reaches-IsValid online-Reaches)

try_from-client_state_from_example :
    try_from_netcode_client_state_i32 (negsuc 3)
    ≡ some (client_state_from_netcode_state loopback (negsuc 3))
try_from-client_state_from_example =
    try_from-client_state_from loopback loopback-IsDocumented (negsuc 3) refl

-- A connection with an error, and a client that has it.
abbrev broken_connection : Connection ℕ ℕ
broken_connection = record {
  config = two_channels;
  channels = [];
  error_level = ConnectionErrorLevel.channel;
}

abbrev pub peer : Peer
peer = record { state = 3; waiting = (4 ∷ []) ∷ (5 ∷ []) ∷ []; sent = [] }

abbrev pub working : ClientOf
working = record fresh {
  endpoint = some 0;
  connection = some (record broken_connection { error_level = ConnectionErrorLevel.none });
  client_state = ClientState.connected;
  client = some peer;
  bound_port = some 40000;
}

abbrev broken : ClientOf
broken = record working { connection = some broken_connection }

error_disconnects_example :
    (advance_time broken 7 ≡ ok (idle (at_time broken 7)))
    × (is_disconnected (idle (at_time broken 7)) ≡ true)
unfolding Connection.advance_time Connection.advance_channels
error_disconnects_example =
    error_disconnects broken 7 broken_connection loopback-IsDocumented
      (live-IsValid broken refl refl refl refl) refl refl

-- Netcode has lost the server.
abbrev lost : ClientOf
lost = record working { client = some (record peer { state = 0 }) }

advance_time-follows_example :
    ((idle (at_time lost 7)).client_state
      ≡ client_state_from_netcode_state loopback
          (loopback.state (loopback.update (record peer { state = 0 }) 7).0))
    × (is_disconnected (idle (at_time lost 7)) ≡ true
        → ((idle (at_time lost 7)).client ≡ none)
          × ((idle (at_time lost 7)).connection ≡ none)
          × ((idle (at_time lost 7)).endpoint ≡ none))
unfolding new insecure_connect disconnect destroy_client destroy_internal connect_internal
    create_client connect_created connect_with generate_insecure_connect_token c_string c_strings
    allocated state_changes state_change try_from_netcode_client_state_i32 Connection.new
    Connection.new_channels Channel.new Processor.new Reliable.new SequenceBuffer.new Unreliable.new
    client_state_from_netcode_state advance_time advance_connection advance_simulator update_netcode
    follow_state flush_simulator Connection.advance_time Connection.advance_channels
    Connection.process_acks Channel.advance_time
advance_time-follows_example =
    advance_time-follows lost (idle (at_time lost 7)) 7
      (record broken_connection { error_level = ConnectionErrorLevel.none })
      (record peer { state = 0 }) (live-IsValid lost refl refl refl refl) refl refl refl refl

-- A simulator that loses packets now and then.
abbrev pub lossy : NetworkSimulator ℕ ℕ
lossy = record {
  latency = 0;
  jitter = 0;
  packet_loss = 1;
  duplicates = 0;
  active = true;
  time = 0;
  entries = record { items = []; capacity = 4 };
}
