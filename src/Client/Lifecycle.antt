-- ===== src/Client/Lifecycle.antt =====
-- How a client connects and how its time advances (src/client.rs).
use yojimbo_rs.Prelude.{
  if_some, ℕ, not, Option, none, some, List, [], ◌∷◌, length, leb, if◌then◌else◌,
}
use yojimbo_rs.Run.{Run, ok, ◌>>=◌, ◌>>◌, assert, expect_some, null_pointer}
use yojimbo_rs.Float.{Float}
use yojimbo_rs.Config.{NetworkSimulatorConfig, client_endpoint, new_reliable_config}
use yojimbo_rs.ErrorLevel.{is_connection_error}
use yojimbo_rs.Connection
use yojimbo_rs.Connection.{Connection, is_empty}
use yojimbo_rs.NetworkSimulator
use yojimbo_rs.NetworkSimulator.{NetworkSimulator}
use yojimbo_rs.Foreign.{ReliableEndpoint, NetcodeClient}
use yojimbo_rs.ClientState.{ClientState, client_state_from_netcode_state, state_changes}
use yojimbo_rs.Client.{
  Client, is_disconnected, disconnect, create_client, generate_insecure_connect_token,
}

-- The simulator that is allocated for a configuration.
unfoldable pub allocated :
    {F G : Type 0} ⦃f : Float F⦄ ⦃g : Float G⦄
    → Option NetworkSimulatorConfig
    → F
    → Option (NetworkSimulator F G)
allocated none time = none
allocated (some config) time = some (NetworkSimulator.new config.max_simulator_packets time)

module _ {E N F G M : Type 0} ⦃f : Float F⦄ ⦃g : Float G⦄ ⦃endpoints : ReliableEndpoint E F G⦄ where
  unfoldable pub connect_internal : Client E N F G M → Run (Client E N F G M)
  unfolding allocated
  connect_internal c = do
    connection ← Connection.new c.config.connection c.time
    let reliable_config = new_reliable_config c.config client_endpoint none
    ok (record c {
      connection = some connection;
      network_simulator = allocated c.config.network_simulator c.time;
      endpoint = some (endpoints.reset (endpoints.create reliable_config c.time));
    })

module _ {E N F G M : Type 0} ⦃netcode : NetcodeClient N F⦄ where
  -- The end of `insecure_connect`: `none` is a token that could not be generated.
  unfoldable pub connect_with : Client E N F G M → N → Option (List ℕ) → Run (Client E N F G M)
  connect_with c client none = ok (record c { client_state = ClientState.error })
  connect_with c client (some connect_token) = do
    state_changes (netcode.connect client connect_token).1
    ok (record c {
      client = some (netcode.connect client connect_token).0;
      client_state = ClientState.connecting;
    })

  -- `insecure_connect` after `create_client`.
  unfoldable pub connect_created :
      List ℕ → ℕ → List (List ℕ) → Client E N F G M → Run (Client E N F G M)
  unfolding connect_with
  connect_created private_key client_id server_addresses c =
      if_some c.client
        (λ client. do
          connect_token ←
              generate_insecure_connect_token netcode c.config private_key client_id
                server_addresses
          connect_with c client connect_token)
        (disconnect c)

module _ {N F : Type 0} where
  -- The packets whose delivery the simulator deferred.
  unfoldable pub send_deferred : NetcodeClient N F → N → List (ℕ × List ℕ) → N
  send_deferred netcode client [] = client
  send_deferred netcode client ((client_index, packet_data) ∷ packets) =
      send_deferred netcode (netcode.send_packet client packet_data) packets

module _ {E N F G M : Type 0} ⦃f : Float F⦄ ⦃g : Float G⦄ ⦃endpoints : ReliableEndpoint E F G⦄
    ⦃netcode : NetcodeClient N F⦄ where
  unfoldable pub insecure_connect :
      List ℕ → ℕ → List (List ℕ) → Client E N F G M → Run (Client E N F G M)
  unfolding connect_internal connect_created
  insecure_connect private_key client_id server_addresses c = do
    assert (not (is_empty server_addresses))
    assert (leb (length server_addresses) netcode.max_servers_per_connect)
    c1 ← disconnect c
    c2 ← connect_internal c1
    c3 ← create_client (record c2 { client_id = client_id })
    connect_created private_key client_id server_addresses c3

module _ {E N F G M : Type 0} ⦃f : Float F⦄ ⦃netcode : NetcodeClient N F⦄ where
  unfoldable pub flush_active : Client E N F G M → NetworkSimulator F G → Run (Client E N F G M)
  unfolding send_deferred
  flush_active c s = do
    (s', packets) ← NetworkSimulator.receive_packets s
    client ← expect_some null_pointer c.client
    ok (record c {
      network_simulator = some s';
      client = some (send_deferred netcode client packets);
    })

  -- The end of `advance_time`: what an active simulator delivers by now goes out.
  unfoldable pub flush_simulator : Client E N F G M → Run (Client E N F G M)
  unfolding flush_active
  flush_simulator c =
      if_some c.network_simulator (λ s. if s.active then flush_active c s else ok c) (ok c)

  -- `advance_time` once netcode is updated: the client takes over its state.
  unfoldable pub follow_state : Client E N F G M → N → Run (Client E N F G M)
  unfolding flush_simulator
  follow_state c client = do
    let c' : Client E N F G M = record c {
      client = some client;
      client_state = client_state_from_netcode_state netcode (netcode.state client);
    }
    c'' ← if is_disconnected c' then disconnect c' else ok c'
    flush_simulator c''

  unfoldable pub update_netcode : Client E N F G M → Run (Client E N F G M)
  unfolding follow_state
  update_netcode c =
      if_some c.client
        (λ client. do
          state_changes (netcode.update client c.time).1
          follow_state c (netcode.update client c.time).0)
        (ok c)

module _ {E N F G M : Type 0} ⦃f : Float F⦄ ⦃g : Float G⦄ ⦃netcode : NetcodeClient N F⦄ where
  -- `advance_time` from the network simulator on.
  unfoldable pub advance_simulator : Client E N F G M → Run (Client E N F G M)
  unfolding update_netcode
  advance_simulator c = update_netcode (record c {
    network_simulator =
        if_some c.network_simulator (λ s. some (NetworkSimulator.advance_time s c.time)) none;
  })

module _ {E N F G M : Type 0} ⦃f : Float F⦄ ⦃g : Float G⦄ ⦃endpoints : ReliableEndpoint E F G⦄
    ⦃netcode : NetcodeClient N F⦄ where
  -- `advance_time` of a client with an endpoint and a connection, whose time is advanced.
  unfoldable pub advance_connection : Client E N F G M → E → Connection F M → Run (Client E N F G M)
  unfolding advance_simulator
  advance_connection c endpoint connection =
      let connection' = Connection.advance_time connection c.time in
      if is_connection_error connection'.error_level
      then disconnect (record c { connection = some connection' })
      else do
        let endpoint' = endpoints.update endpoint c.time
        connection'' ← Connection.process_acks connection' (endpoints.get_acks endpoint')
        advance_simulator (record c {
          endpoint = some (endpoints.clear_acks endpoint');
          connection = some connection'';
        })

  unfoldable pub advance_time : Client E N F G M → F → Run (Client E N F G M)
  unfolding advance_connection
  advance_time c new_time =
      let c' : Client E N F G M = record c { time = new_time } in
      if_some c.endpoint
        (λ endpoint. if_some c.connection (advance_connection c' endpoint) (advance_simulator c'))
        (advance_simulator c')
