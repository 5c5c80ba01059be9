-- ===== src/Server/Advance.antt =====
-- How the time of a server advances, and how it disconnects a client (src/server.rs).
use yojimbo_rs.Prelude.{ℕ, zero, suc, ◌+◌, none, some, List, [], ◌∷◌, if_some, if◌then◌else◌}
use yojimbo_rs.Run.{assertion, Run, ok, ◌>>=◌, expect_some, null_pointer}
use yojimbo_rs.Float.{Float}
use yojimbo_rs.ErrorLevel.{is_connection_error}
use yojimbo_rs.Connection
use yojimbo_rs.Connection.{Connection}
use yojimbo_rs.NetworkSimulator
use yojimbo_rs.NetworkSimulator.{NetworkSimulator}
use yojimbo_rs.Foreign.{ReliableEndpoint, NetcodeServer}
use yojimbo_rs.Server.{
  Server, ServerRuntime, connection_at, endpoint_at, set_connection, set_endpoint, connected_in,
}
use yojimbo_rs.Server.Start.{handle_events}

module _ {S F A : Type 0} where
  -- The packets whose delivery the simulator deferred.
  unfoldable pub send_deferred : NetcodeServer S F A → S → List (ℕ × List ℕ) → S
  send_deferred netcode server [] = server
  send_deferred netcode server ((client_index, packet_data) ∷ packets) =
      send_deferred netcode (netcode.send_packet server client_index packet_data) packets

module _ {E S F G M A : Type 0} ⦃f : Float F⦄ ⦃g : Float G⦄ ⦃endpoints : ReliableEndpoint E F G⦄
    (netcode : NetcodeServer S F A) where
  -- The function `disconnect_client`; its endpoint is not null.
  unfoldable pub disconnect_index : ServerRuntime E S F G M → ℕ → Run (ServerRuntime E S F G M)
  unfolding handle_events
  disconnect_index r client_index = do
    server ← expect_some assertion r.server
    handle_events (record r { server = some (netcode.disconnect_client server client_index).0 })
        (netcode.disconnect_client server client_index).1

  -- The end of `Server::disconnect_client`, for a client that is connected.
  unfoldable pub disconnect_connected : ServerRuntime E S F G M → ℕ → Run (ServerRuntime E S F G M)
  unfolding disconnect_index
  disconnect_connected r client_index = do
    endpoint ← endpoint_at r client_index
    connection ← connection_at r client_index
    disconnect_index r client_index

  unfoldable pub disconnect_client : Server E S F G M → ℕ → Run (Server E S F G M)
  unfolding disconnect_connected
  disconnect_client s client_index =
      if_some s.runtime
        (λ r. do
          is_connected ← connected_in netcode r client_index
          r' ← if is_connected then disconnect_connected r client_index else ok r
          ok (record s { runtime = some r' }))
        (ok s)

  -- The simulator at its new time.
  abbrev pub advance_simulator : ServerRuntime E S F G M → F → ServerRuntime E S F G M
  advance_simulator r new_time = record r {
    network_simulator =
        if_some r.network_simulator (λ s. some (NetworkSimulator.advance_time s new_time)) none;
  }

  -- The body of the loop of `advance_time` for a client whose connection is in no error.
  unfoldable pub advance_fine :
      ServerRuntime E S F G M → F → ℕ → Connection F M → E → Run (ServerRuntime E S F G M)
  advance_fine r new_time client_index connection endpoint = do
    let endpoint' = endpoints.update endpoint new_time
    connection' ← Connection.process_acks connection (endpoints.get_acks endpoint')
    ok (
        advance_simulator
          (set_endpoint (set_connection r client_index connection') client_index
            (endpoints.clear_acks endpoint'))
          new_time)

  -- The body of the loop of `advance_time`.
  unfoldable pub advance_client : ServerRuntime E S F G M → F → ℕ → Run (ServerRuntime E S F G M)
  unfolding advance_fine disconnect_index
  advance_client r new_time client_index = do
    connection ← connection_at r client_index
    endpoint ← endpoint_at r client_index
    let connection' : Connection F M = Connection.advance_time connection new_time
    if is_connection_error connection'.error_level
        then disconnect_index (set_connection r client_index connection') client_index
        else advance_fine r new_time client_index connection' endpoint

  -- The loop of `advance_time`, from a client's index on, for so many clients.
  unfoldable pub advance_clients :
      ServerRuntime E S F G M → F → ℕ → ℕ → Run (ServerRuntime E S F G M)
  unfolding advance_client
  advance_clients r new_time client_index zero = ok r
  advance_clients r new_time client_index (suc count) = do
    r' ← advance_client r new_time client_index
    advance_clients r' new_time (client_index + 1) count

  unfoldable pub flush_active :
      ServerRuntime E S F G M → NetworkSimulator F G → Run (ServerRuntime E S F G M)
  unfolding send_deferred
  flush_active r s = do
    (s', packets) ← NetworkSimulator.receive_packets s
    server ← expect_some null_pointer r.server
    ok (record r {
      network_simulator = some s';
      server = some (send_deferred netcode server packets);
    })

  -- The end of `advance_time`: what an active simulator delivers by now goes out.
  unfoldable pub flush_simulator : ServerRuntime E S F G M → Run (ServerRuntime E S F G M)
  unfolding flush_active
  flush_simulator r =
      if_some r.network_simulator (λ s. if s.active then flush_active r s else ok r) (ok r)

  -- The function `advance_time` on a runtime.
  unfoldable pub advance_runtime : ServerRuntime E S F G M → F → Run (ServerRuntime E S F G M)
  unfolding handle_events advance_clients flush_simulator
  advance_runtime r new_time = do
    server ← expect_some assertion r.server
    r1 ←
        handle_events (record r { server = some (netcode.update server new_time).0 })
          (netcode.update server new_time).1
    r2 ← advance_clients r1 new_time 0 r1.max_clients
    flush_simulator r2

  unfoldable pub advance_time : Server E S F G M → F → Run (Server E S F G M)
  unfolding advance_runtime
  advance_time s new_time =
      if_some s.runtime
        (λ r. do r' ← advance_runtime r new_time; ok (record s { runtime = some r' })) (ok s)
