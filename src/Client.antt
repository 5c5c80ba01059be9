-- ===== src/Client.antt =====
-- A client (src/client.rs): one connection to a server over netcode.io and reliable.io.
-- `F` stands for f64 and `G` for f32; `E` is an endpoint and `N` a netcode client.
pub mod Traffic
pub mod Lifecycle
pub mod Valid
pub mod Connects
pub mod Keeps
pub mod Advance
pub mod Steps
pub mod Transmits
pub mod Receives
use yojimbo_rs.Prelude.{
  is_some, if_some, ℕ, zero, suc, ◌+◌, ◌-◌, ◌^◌, Bool, true, false, not, Option, none, some, List,
  [], ◌∷◌, ◌++◌, map, length, replicate, drop, leb, if◌then◌else◌,
}
use yojimbo_rs.Run.{
  map_run, Run, ok, panic, ◌>>=◌, ◌>>◌, assert, expect_some, null_pointer, unwrap_none, out_of_fuel,
}
use yojimbo_rs.Float.{Float}
use yojimbo_rs.Message.{NetworkMessage}
use yojimbo_rs.Config.{
  ClientServerConfig, NetworkSimulatorConfig, client_endpoint, new_reliable_config,
}
use yojimbo_rs.ErrorLevel.{is_connection_error}
use yojimbo_rs.Channel.{ChannelCounters}
use yojimbo_rs.Connection
use yojimbo_rs.Connection.{Connection, is_empty}
use yojimbo_rs.NetworkSimulator
use yojimbo_rs.NetworkSimulator.{NetworkSimulator, Draws}
use yojimbo_rs.NetworkInfo.{NetworkInfo}
use yojimbo_rs.Foreign.{ReliableEndpoint, NetcodeClient, c_string, c_strings, endpoint_info}
use yojimbo_rs.ClientState
use yojimbo_rs.ClientState.{ClientState, client_state_from_netcode_state, state_changes}

pub record Client (E N F G M : Type 0) : Type 0 where
  pub config : ClientServerConfig F G
  pub endpoint : Option E
  pub connection : Option (Connection F M)
  pub network_simulator : Option (NetworkSimulator F G)
  pub packet_buffer : List ℕ
  pub client_state : ClientState
  pub client_index : ℕ
  pub time : F
  pub client : Option N
  pub address : List ℕ
  pub bound_port : Option ℕ
  pub client_id : ℕ

-- `.map(|(_id, message)| message)`
abbrev pub without_id : {M : Type 0} → Option (ℕ × M) → Option M
without_id none = none
without_id (some (id, message)) = some message

module _ {E N F G M : Type 0} where
  unfoldable pub new : List ℕ → ClientServerConfig F G → F → Client E N F G M
  new address config time = record {
    config = config;
    endpoint = none;
    connection = none;
    network_simulator = none;
    packet_buffer = replicate config.connection.max_packet_size 0;
    client_state = ClientState.disconnected;
    client_index = 2 ^ 64 - 1;
    time = time;
    client = none;
    address = address;
    bound_port = none;
    client_id = 0;
  }

  abbrev pub is_connected : Client E N F G M → Bool
  is_connected c = ClientState.is_connected c.client_state

  abbrev pub is_disconnected : Client E N F G M → Bool
  is_disconnected c = ClientState.is_disconnected c.client_state

  abbrev pub connection_failed : Client E N F G M → Bool
  connection_failed c = ClientState.is_failed c.client_state

  unfoldable pub can_send_message : Client E N F G M → ℕ → Run Bool
  can_send_message c channel =
      if_some c.connection (λ k. Connection.can_send_message k channel) (ok false)

  unfoldable pub has_messages_to_send : Client E N F G M → ℕ → Run Bool
  has_messages_to_send c channel =
      if_some c.connection (λ k. Connection.has_messages_to_send k channel) (ok false)

  unfoldable pub channel_counters : Client E N F G M → ℕ → Run (Option ChannelCounters)
  channel_counters c channel_index =
      map_run (λ k. Connection.channel_counters k channel_index) c.connection

  unfoldable pub receive_message_with_id :
      Client E N F G M → ℕ → Run (Client E N F G M × Option (ℕ × M))
  receive_message_with_id c channel_index =
      if_some c.connection
        (λ k. do
          (k', message) ← Connection.receive_message k channel_index
          ok (record c { connection = some k' }, message))
        (ok (c, none))

  unfoldable pub receive_message : Client E N F G M → ℕ → Run (Client E N F G M × Option M)
  unfolding receive_message_with_id
  receive_message c channel_index = do
    (c', message) ← receive_message_with_id c channel_index
    ok (c', without_id message)

  -- `network_simulator_mut` and `with_network_simulator`, with what is done to the simulator.
  unfoldable pub with_network_simulator :
      (NetworkSimulator F G → Run (NetworkSimulator F G))
      → Client E N F G M
      → Run (Client E N F G M)
  with_network_simulator f c = do
    network_simulator ← map_run f c.network_simulator
    ok (record c { network_simulator = network_simulator })

  unfoldable pub destroy_internal : Client E N F G M → Client E N F G M
  destroy_internal c = record c {
    endpoint = none;
    network_simulator = none;
    connection = none;
    packet_buffer = map (λ b. 0) c.packet_buffer;
  }

module _ {E N F G M : Type 0} ⦃m : NetworkMessage M⦄ ⦃f : Float F⦄ where
  unfoldable pub send_message : Client E N F G M → ℕ → M → Run (Client E N F G M)
  send_message c channel_index message =
      if_some c.connection
        (λ k. do
          k' ← Connection.send_message k channel_index message
          ok (record c { connection = some k' }))
        (ok c)

module _ {E N F G M : Type 0} ⦃endpoints : ReliableEndpoint E F G⦄ where
  unfoldable pub snapshot_network_info : Client E N F G M → Run (Option (NetworkInfo G))
  unfolding endpoint_info
  snapshot_network_info c = if not (is_connected c) then ok none else do
    assert (is_some c.endpoint)
    endpoint ← expect_some null_pointer c.endpoint
    ok (some (endpoint_info endpoints endpoint))

module _ {E N F G M : Type 0} ⦃netcode : NetcodeClient N F⦄ where
  unfoldable pub destroy_client : Client E N F G M → Run (Client E N F G M)
  unfolding state_changes
  destroy_client c =
      if_some c.client
        (λ n. do
          state_changes (netcode.destroy n)
          ok (record c { bound_port = none; client = none; network_simulator = none }))
        (ok c)

  unfoldable pub disconnect : Client E N F G M → Run (Client E N F G M)
  unfolding destroy_client destroy_internal
  disconnect c = do
    c' ← destroy_client (record c {
      client_state = if connection_failed c then ClientState.error else ClientState.disconnected;
    })
    ok (record (destroy_internal c') { client_id = 0 })

  unfoldable pub create_client : Client E N F G M → Run (Client E N F G M)
  unfolding destroy_client c_string
  create_client c = do
    c' ← destroy_client c
    address ← c_string c'.address
    let client = netcode.create address c'.time
    ok (record c' {
      client = client;
      bound_port = if_some client (λ n. some (netcode.get_port n)) c'.bound_port;
    })

module _ {N F G : Type 0} where
  unfoldable pub generate_insecure_connect_token :
      NetcodeClient N F
      → ClientServerConfig F G
      → List ℕ
      → ℕ
      → List (List ℕ)
      → Run (Option (List ℕ))
  unfolding c_strings
  generate_insecure_connect_token netcode config private_key client_id server_addresses = do
    addresses ← c_strings server_addresses
    ok (
        netcode.generate_connect_token (record {
          public_server_addresses = addresses;
          internal_server_addresses = addresses;
          expire_seconds = config.timeout;
          timeout_seconds = config.timeout;
          client_id = client_id;
          protocol_id = config.protocol_id;
          private_key = private_key;
          user_data = replicate 256 0;
        }))
