-- ===== src/Server.antt =====
-- A server (src/server.rs): one netcode server, and a connection and an endpoint for each client.
-- `F` stands for f64 and `G` for f32; `E` is an endpoint, `S` a netcode server and `A` an address.
pub mod Start
pub mod Traffic
pub mod Advance
pub mod Lines
pub mod Keeps
pub mod Runs
pub mod Begins
pub mod Steps
pub mod Indexed
pub mod Spares
pub mod Isolation
use yojimbo_rs.Prelude.{
  ℕ, Bool, true, false, not, Option, none, some, List, [], ◌∷◌, get_elem?, set, ◌==◌, is_some,
  if_some, if◌then◌else◌,
}
use yojimbo_rs.Run.{
  assertion, Run, ok, panic, ◌>>=◌, ◌>>◌, assert, expect_some, map_run, index_out_of_bounds,
  null_pointer, unwrap_none,
}
use yojimbo_rs.Float.{Float}
use yojimbo_rs.Int.{ℤ, pos, is_negative}
use yojimbo_rs.Message.{NetworkMessage}
use yojimbo_rs.Config.{ClientServerConfig}
use yojimbo_rs.Channel.{ChannelCounters}
use yojimbo_rs.Connection
use yojimbo_rs.Connection.{Connection}
use yojimbo_rs.NetworkSimulator
use yojimbo_rs.NetworkSimulator.{NetworkSimulator}
use yojimbo_rs.NetworkInfo.{NetworkInfo}
use yojimbo_rs.Foreign.{ReliableEndpoint, NetcodeServer, endpoint_info}
use yojimbo_rs.Client.{without_id}

pub record ServerRuntime (E S F G M : Type 0) : Type 0 where
  pub max_clients : ℕ
  pub server : Option S
  pub bound_port : ℕ
  pub network_simulator : Option (NetworkSimulator F G)
  pub client_connection : List (Connection F M)
  pub client_endpoint : List E
  pub packet_buffer : List ℕ

pub record Server (E S F G M : Type 0) : Type 0 where
  pub private_key : List ℕ
  pub address : List ℕ
  pub config : ClientServerConfig F G
  pub time : F
  pub runtime : Option (ServerRuntime E S F G M)

module _ {E S F G M : Type 0} where
  -- `message_size` is `size_of::<M>()`.
  unfoldable pub new : ℕ → List ℕ → List ℕ → ClientServerConfig F G → F → Run (Server E S F G M)
  new message_size private_key address config time = do
    assert (not (message_size == 0))
    ok (record {
      private_key = private_key;
      address = address;
      config = config;
      time = time;
      runtime = none;
    })

  -- `client_connection[client_index]`
  abbrev pub connection_at : ServerRuntime E S F G M → ℕ → Run (Connection F M)
  connection_at r client_index =
      expect_some index_out_of_bounds (get_elem? r.client_connection client_index)

  -- `client_endpoint[client_index]`
  abbrev pub endpoint_at : ServerRuntime E S F G M → ℕ → Run E
  endpoint_at r client_index =
      expect_some index_out_of_bounds (get_elem? r.client_endpoint client_index)

  abbrev pub set_connection : ServerRuntime E S F G M → ℕ → Connection F M → ServerRuntime E S F G M
  set_connection r client_index connection = record r {
    client_connection = set r.client_connection client_index connection;
  }

  abbrev pub set_endpoint : ServerRuntime E S F G M → ℕ → E → ServerRuntime E S F G M
  set_endpoint r client_index endpoint = record r {
    client_endpoint = set r.client_endpoint client_index endpoint;
  }

  unfoldable pub max_clients : Server E S F G M → ℕ
  max_clients s = if_some s.runtime (λ r. r.max_clients) 0

  unfoldable pub running : Server E S F G M → Bool
  running s = is_some s.runtime

  unfoldable pub bound_port : Server E S F G M → Option ℕ
  bound_port s = if_some s.runtime (λ r. some r.bound_port) none

  unfoldable pub can_send_message : Server E S F G M → ℕ → ℕ → Run Bool
  can_send_message s client_index channel_index =
      if_some s.runtime
        (λ r. do
          connection ← connection_at r client_index
          Connection.can_send_message connection channel_index)
        (ok false)

  unfoldable pub has_messages_to_send : Server E S F G M → ℕ → ℕ → Run Bool
  has_messages_to_send s client_index channel_index =
      if_some s.runtime
        (λ r. do
          connection ← connection_at r client_index
          Connection.has_messages_to_send connection channel_index)
        (ok false)

  unfoldable pub channel_counters : Server E S F G M → ℕ → ℕ → Run ChannelCounters
  channel_counters s client_index channel_index = do
    r ← expect_some unwrap_none s.runtime
    connection ← connection_at r client_index
    Connection.channel_counters connection channel_index

  unfoldable pub receive_message_with_id :
      Server E S F G M → ℕ → ℕ → Run (Server E S F G M × Option (ℕ × M))
  receive_message_with_id s client_index channel_index =
      if_some s.runtime
        (λ r. do
          connection ← connection_at r client_index
          (connection', message) ← Connection.receive_message connection channel_index
          ok (record s { runtime = some (set_connection r client_index connection') }, message))
        (ok (s, none))

  unfoldable pub receive_message : Server E S F G M → ℕ → ℕ → Run (Server E S F G M × Option M)
  unfolding receive_message_with_id
  receive_message s client_index channel_index = do
    (s', message) ← receive_message_with_id s client_index channel_index
    ok (s', without_id message)

  -- `network_simulator_mut` and `with_network_simulator`, with what is done to the simulator.
  unfoldable pub with_network_simulator :
      (NetworkSimulator F G → Run (NetworkSimulator F G))
      → Server E S F G M
      → Run (Server E S F G M)
  with_network_simulator f s =
      if_some s.runtime
        (λ r. do
          network_simulator ← map_run f r.network_simulator
          ok (record s { runtime = some (record r { network_simulator = network_simulator }) }))
        (ok s)

module _ {E S F G M : Type 0} ⦃f : Float F⦄ ⦃m : NetworkMessage M⦄ where
  unfoldable pub send_message : Server E S F G M → ℕ → ℕ → M → Run (Server E S F G M)
  send_message s client_index channel_index message =
      if_some s.runtime
        (λ r. do
          connection ← connection_at r client_index
          connection' ← Connection.send_message connection channel_index message
          ok (record s { runtime = some (set_connection r client_index connection') }))
        (ok s)

-- The number of `netcode_server_num_connected_clients`, as usize.
unfoldable pub count_of : ℤ → Run ℕ
count_of (pos n) = ok n
count_of (ℤ.negsuc n) = panic assertion

-- `is_client_connected`
module _ {S F A : Type 0} where
  unfoldable pub client_is_connected : NetcodeServer S F A → S → ℕ → Bool
  client_is_connected netcode server client_index =
      not (netcode.client_connected server client_index == 0)

module _ {E S F G M A : Type 0} (netcode : NetcodeServer S F A) where
  -- `is_client_connected` of the server of a runtime.
  abbrev pub connected_in : ServerRuntime E S F G M → ℕ → Run Bool
  unfolding client_is_connected
  connected_in r client_index = do
    server ← expect_some null_pointer r.server
    ok (client_is_connected netcode server client_index)

  unfoldable pub is_client_connected : Server E S F G M → ℕ → Run Bool
  is_client_connected s client_index =
      if_some s.runtime (λ r. connected_in r client_index) (ok false)

  unfoldable pub client_id : Server E S F G M → ℕ → Run (Option ℕ)
  unfolding client_is_connected
  client_id s client_index =
      if_some s.runtime
        (λ r. do
          server ← expect_some null_pointer r.server
          ok (
              if client_is_connected netcode server client_index
              then some (netcode.client_id server client_index)
              else none))
        (ok none)

  unfoldable pub client_address : Server E S F G M → ℕ → Run (Option A)
  unfolding is_client_connected
  client_address s client_index = do
    is_connected ← is_client_connected s client_index
    if not is_connected
        then ok none
        else if_some s.runtime
            (λ r. do
              server ← expect_some null_pointer r.server
              ok (netcode.client_address server client_index))
            (ok none)

  unfoldable pub connected_client_count : Server E S F G M → Run ℕ
  unfolding count_of
  connected_client_count s =
      if_some s.runtime
        (λ r. do
          server ← expect_some null_pointer r.server
          count_of (netcode.num_connected_clients server))
        (count_of (pos 0))

module _ {E S F G M A : Type 0} ⦃endpoints : ReliableEndpoint E F G⦄
    (netcode : NetcodeServer S F A) where
  -- `ServerRuntime::snapshot_network_info`
  unfoldable pub snapshot : ServerRuntime E S F G M → ℕ → Run (Option (NetworkInfo G))
  unfolding endpoint_info client_is_connected
  snapshot r client_index = do
    assert (is_some r.server)
    is_connected ← connected_in netcode r client_index
    if not is_connected
        then ok none
        else do endpoint ← endpoint_at r client_index; ok (some (endpoint_info endpoints endpoint))

  unfoldable pub snapshot_network_info : Server E S F G M → ℕ → Run (Option (NetworkInfo G))
  unfolding snapshot
  snapshot_network_info s client_index = if_some s.runtime (λ r. snapshot r client_index) (ok none)
