-- ===== src/Server/Start.antt =====
-- How a server starts and stops, and what a connect or disconnect of a client does to it
-- (src/server.rs).
use yojimbo_rs.Prelude.{
  ℕ, zero, suc, ◌+◌, ◌-◌, ◌^◌, Bool, true, false, Option, none, some, List, [], ◌∷◌, set, replicate,
  ltb, ◌==◌, if_some,
}
use yojimbo_rs.Run.{Run, ok, ◌>>=◌, ◌>>◌, assert, expect_some, null_pointer}
use yojimbo_rs.Float.{Float}
use yojimbo_rs.Config.{ClientServerConfig, server_endpoint, new_reliable_config}
use yojimbo_rs.Connection
use yojimbo_rs.Connection.{Connection}
use yojimbo_rs.NetworkSimulator
use yojimbo_rs.NetworkSimulator.{NetworkSimulator}
use yojimbo_rs.Foreign.{ReliableEndpoint, NetcodeServer, NetcodeServerConfig, c_string}
use yojimbo_rs.Client.Lifecycle.{allocated}
use yojimbo_rs.Server.{Server, ServerRuntime, connection_at, endpoint_at}

module _ {F G : Type 0} ⦃f : Float F⦄ ⦃g : Float G⦄ where
  -- The simulator without the packets of a client.
  abbrev pub discard : Option (NetworkSimulator F G) → ℕ → Option (NetworkSimulator F G)
  discard none client_index = none
  discard (some s) client_index = some (NetworkSimulator.discard_client_packets s client_index)

module _ {E F G M : Type 0} ⦃f : Float F⦄ ⦃endpoints : ReliableEndpoint E F G⦄ where
  -- The loop of `ServerRuntime::new`, from a client's index on, for so many clients.
  unfoldable pub new_clients :
      ClientServerConfig F G → F → ℕ → ℕ → Run (List (Connection F M) × List E)
  new_clients config time index zero = ok ([], [])
  new_clients config time index (suc count) = do
    connection ← Connection.new config.connection time
    let reliable_config = new_reliable_config config (server_endpoint index) (some index)
    let endpoint = endpoints.reset (endpoints.create reliable_config time)
    (client_connection, client_endpoint) ← new_clients config time (index + 1) count
    ok (connection ∷ client_connection, endpoint ∷ client_endpoint)

module _ {E S F G M : Type 0} ⦃f : Float F⦄ ⦃g : Float G⦄ ⦃endpoints : ReliableEndpoint E F G⦄ where
  unfoldable pub handle_connect_disconnect :
      ServerRuntime E S F G M → ℕ → Bool → Run (ServerRuntime E S F G M)
  handle_connect_disconnect r client_index true = ok r
  handle_connect_disconnect r client_index false = do
    endpoint ← endpoint_at r client_index
    connection ← connection_at r client_index
    ok (record r {
      client_endpoint = set r.client_endpoint client_index (endpoints.reset endpoint);
      client_connection = set r.client_connection client_index (Connection.reset connection);
      network_simulator = discard r.network_simulator client_index;
    })

  -- The callbacks that a call of the netcode server makes.
  unfoldable pub handle_events :
      ServerRuntime E S F G M → List (ℕ × ℕ) → Run (ServerRuntime E S F G M)
  unfolding handle_connect_disconnect
  handle_events r [] = ok r
  handle_events r ((client_index, connected) ∷ events) = do
    r' ← handle_connect_disconnect r client_index (connected == 1)
    handle_events r' events

module _ {S F G A : Type 0} where
  -- `netcode_server` and what `ServerRuntime::new` does with it.
  unfoldable pub start_netcode :
      NetcodeServer S F A → ClientServerConfig F G → List ℕ → List ℕ → ℕ → F → Run S
  unfolding c_string
  start_netcode netcode config private_key address max_clients time = do
    server_address ← c_string address
    let netcode_config : NetcodeServerConfig = record {
      protocol_id = config.protocol_id;
      private_key = private_key;
    }
    server ← expect_some null_pointer (netcode.create server_address netcode_config time)
    ok (netcode.start server max_clients)

module _ {E S F G M A : Type 0} ⦃f : Float F⦄ ⦃g : Float G⦄ ⦃endpoints : ReliableEndpoint E F G⦄
    (netcode : NetcodeServer S F A) where
  -- `ServerRuntime::new`
  unfoldable pub new_runtime :
      ClientServerConfig F G → List ℕ → List ℕ → ℕ → F → Run (ServerRuntime E S F G M)
  unfolding start_netcode new_clients allocated
  new_runtime config private_key address max_clients time = do
    assert (ltb max_clients (2 ^ 31 - 1))
    (client_connection, client_endpoint) ← new_clients config time 0 max_clients
    server ← start_netcode netcode config private_key address max_clients time
    ok (record {
      max_clients = max_clients;
      server = some server;
      bound_port = netcode.get_port server;
      network_simulator = allocated config.network_simulator time;
      client_connection = client_connection;
      client_endpoint = client_endpoint;
      packet_buffer = replicate config.connection.max_packet_size 0;
    })

  -- `ServerRuntime::drop`: stopping netcode disconnects the clients that are left.
  unfoldable pub drop_runtime : ServerRuntime E S F G M → Run (ServerRuntime E S F G M)
  unfolding handle_events
  drop_runtime r =
      if_some r.server
        (λ server. do
          r' ←
              handle_events (record r { server = some (netcode.stop server).0 })
                (netcode.stop server).1
          ok (record r' { server = none; client_endpoint = [] }))
        (ok (record r { client_endpoint = [] }))

  unfoldable pub stop : Server E S F G M → Run (Server E S F G M)
  unfolding drop_runtime
  stop s =
      if_some s.runtime (λ r. do dropped ← drop_runtime r; ok (record s { runtime = none })) (ok s)

  unfoldable pub start : ℕ → Server E S F G M → Run (Server E S F G M)
  unfolding stop new_runtime
  start max_clients s = do
    s' ← stop s
    runtime ← new_runtime s'.config s'.private_key s'.address max_clients s'.time
    ok (record s' { runtime = some runtime })
