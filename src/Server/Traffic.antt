-- ===== src/Server/Traffic.antt =====
-- The packets of a server (src/server.rs): `send_packets`, `receive_packets` and the callbacks that
-- reliable.io makes inside them.
use yojimbo_rs.Prelude.{
  ℕ, zero, suc, ◌+◌, Bool, Option, none, some, List, [], ◌∷◌, ◌++◌, length, drop, leb, ◌==◌,
  is_some, if_some, if◌then◌else◌,
}
use yojimbo_rs.Run.{Run, ok, panic, ◌>>=◌, ◌>>◌, assert, expect_some, null_pointer, out_of_fuel}
use yojimbo_rs.Float.{Float}
use yojimbo_rs.Message.{NetworkMessage}
use yojimbo_rs.Config.{ClientServerConfig}
use yojimbo_rs.Connection
use yojimbo_rs.Connection.{Connection}
use yojimbo_rs.NetworkSimulator
use yojimbo_rs.NetworkSimulator.{NetworkSimulator, Draws}
use yojimbo_rs.Foreign.{ReliableEndpoint, NetcodeServer}
use yojimbo_rs.Server.{
  Server, ServerRuntime, connection_at, endpoint_at, set_connection, set_endpoint, connected_in,
}

module _ {E S F G M A : Type 0} ⦃f : Float F⦄ ⦃g : Float G⦄ (netcode : NetcodeServer S F A) where
  -- The end of `transmit_packet`: the packet goes out now.
  unfoldable pub send_now : ServerRuntime E S F G M → ℕ → List ℕ → Run (ServerRuntime E S F G M)
  send_now r client_index packet_data = do
    server ← expect_some null_pointer r.server
    ok (record r { server = some (netcode.send_packet server client_index packet_data) })

  -- An active simulator takes the packet.
  unfoldable pub intercept :
      Draws F G
      → ServerRuntime E S F G M
      → NetworkSimulator F G
      → ℕ
      → List ℕ
      → Run (ServerRuntime E S F G M)
  intercept draws r s client_index packet_data = do
    s' ← NetworkSimulator.send_packet s draws client_index packet_data
    ok (record r { network_simulator = some s' })

  unfoldable pub transmit_packet :
      Draws F G → ServerRuntime E S F G M → ℕ → List ℕ → Run (ServerRuntime E S F G M)
  unfolding send_now intercept
  transmit_packet draws r client_index packet_data =
      if_some r.network_simulator
        (λ s.
          if s.active
          then intercept draws r s client_index packet_data
          else send_now r client_index packet_data)
        (send_now r client_index packet_data)

  -- `transmit_packet` of each packet in turn, with what is drawn for each.
  unfoldable pub transmit_packets :
      (ℕ → Draws F G) → ServerRuntime E S F G M → ℕ → List (List ℕ) → Run (ServerRuntime E S F G M)
  unfolding transmit_packet
  transmit_packets draws r client_index [] = ok r
  transmit_packets draws r client_index (packet ∷ packets) = do
    r' ← transmit_packet (draws 0) r client_index packet
    transmit_packets (λ i. draws (suc i)) r' client_index packets

module _ {E S F G M A : Type 0} ⦃f : Float F⦄ ⦃g : Float G⦄ ⦃m : NetworkMessage M⦄
    ⦃endpoints : ReliableEndpoint E F G⦄ (netcode : NetcodeServer S F A) where
  -- `reliable_endpoint_send_packet` of bytes that are not empty; the callback takes the client's
  -- index from the endpoint.
  unfoldable pub send_written :
      (ℕ → Draws F G) → ServerRuntime E S F G M → ℕ → E → List ℕ → Run (ServerRuntime E S F G M)
  unfolding transmit_packets
  send_written draws r client_index endpoint [] = ok r
  send_written draws r client_index endpoint (b ∷ bytes) =
      let (endpoint', packets) = endpoints.send_packet endpoint (b ∷ bytes) in
      transmit_packets netcode draws (set_endpoint r client_index endpoint')
        (endpoints.index endpoint) packets

  -- The body of the loop of `send_packets` for a client that is connected.
  unfoldable pub send_connected :
      Bool
      → (ℕ → Draws F G)
      → ClientServerConfig F G
      → ServerRuntime E S F G M
      → ℕ
      → E
      → Run (ServerRuntime E S F G M)
  unfolding send_written
  send_connected check draws config r client_index endpoint = do
    connection ← connection_at r client_index
    assert (length r.packet_buffer == config.connection.max_packet_size)
    (connection', bytes) ←
        Connection.generate_packet check connection (endpoints.next_packet_sequence endpoint)
          (length r.packet_buffer)
    assert (leb (length bytes) config.connection.max_packet_size)
    let r' : ServerRuntime E S F G M = record (set_connection r client_index connection') {
      packet_buffer = bytes ++ drop (length bytes) r.packet_buffer;
    }
    send_written draws r' client_index endpoint bytes

  -- The body of the loop of `send_packets`.
  unfoldable pub send_client :
      Bool
      → (ℕ → Draws F G)
      → ClientServerConfig F G
      → ServerRuntime E S F G M
      → ℕ
      → Run (ServerRuntime E S F G M)
  unfolding send_connected
  send_client check draws config r client_index = do
    endpoint ← endpoint_at r client_index
    is_connected ← connected_in netcode r client_index
    if is_connected then send_connected check draws config r client_index endpoint else ok r

  -- The loop of `send_packets`, from a client's index on, for so many clients. `draws` is what the
  -- simulator draws for the packets of each client.
  unfoldable pub send_clients :
      Bool
      → (ℕ → ℕ → Draws F G)
      → ClientServerConfig F G
      → ServerRuntime E S F G M
      → ℕ
      → ℕ
      → Run (ServerRuntime E S F G M)
  unfolding send_client
  send_clients check draws config r client_index zero = ok r
  send_clients check draws config r client_index (suc count) = do
    r' ← send_client check (draws client_index) config r client_index
    send_clients check draws config r' (client_index + 1) count

  unfoldable pub send_packets :
      Bool → (ℕ → ℕ → Draws F G) → Server E S F G M → Run (Server E S F G M)
  unfolding send_clients
  send_packets check draws s =
      if_some s.runtime
        (λ r. do
          assert (is_some r.server)
          r' ← send_clients check draws s.config r 0 (length r.client_connection)
          ok (record s { runtime = some r' }))
        (ok s)

  -- `process_packet`, with the result as 1 or 0.
  unfoldable pub process_packet :
      Bool → ServerRuntime E S F G M → ℕ → ℕ → List ℕ → Run (ServerRuntime E S F G M × ℕ)
  process_packet check r client_index packet_sequence packet_data = do
    connection ← connection_at r client_index
    (connection', result) ← Connection.process_packet check connection packet_sequence packet_data
    ok (set_connection r client_index connection', if result then 1 else 0)

  -- What `reliable_endpoint_receive_packet` does with what it hands to `process_packet`, with the
  -- client's index from the endpoint.
  unfoldable pub process_handed :
      Bool → ServerRuntime E S F G M → ℕ → E → Option (ℕ × List ℕ) → Run (ServerRuntime E S F G M)
  unfolding process_packet
  process_handed check r client_index endpoint none = ok (set_endpoint r client_index endpoint)
  process_handed check r client_index endpoint (some (packet_sequence, packet_data)) = do
    (r', result) ← process_packet check r (endpoints.index endpoint) packet_sequence packet_data
    ok (set_endpoint r' client_index (endpoints.finish_receive endpoint packet_sequence result))

  -- `reliable_endpoint_receive_packet` of a packet from netcode.
  unfoldable pub receive_packet :
      Bool → ServerRuntime E S F G M → ℕ → List ℕ → Run (ServerRuntime E S F G M)
  unfolding process_handed
  receive_packet check r client_index packet_data = do
    endpoint ← endpoint_at r client_index
    process_handed check r client_index (endpoints.receive_packet endpoint packet_data).0
        (endpoints.receive_packet endpoint packet_data).1

  -- The inner loop of `receive_packets`; netcode has as many packets as the fuel allows at most.
  unfoldable pub receive_client :
      Bool → ℕ → ServerRuntime E S F G M → ℕ → Run (ServerRuntime E S F G M)
  unfolding receive_packet
  receive_client check zero r client_index = panic out_of_fuel
  receive_client check (suc fuel) r client_index = do
    server ← expect_some null_pointer r.server
    let r' : ServerRuntime E S F G M = record r {
      server = some (netcode.receive_packet server client_index).0;
    }
    if_some (netcode.receive_packet server client_index).1
        (λ packet_data. do
          r'' ← receive_packet check r' client_index packet_data
          receive_client check fuel r'' client_index)
        (ok r')

  -- The outer loop, from a client's index on, for so many endpoints.
  unfoldable pub receive_clients :
      Bool → ℕ → ServerRuntime E S F G M → ℕ → ℕ → Run (ServerRuntime E S F G M)
  unfolding receive_client
  receive_clients check fuel r client_index zero = ok r
  receive_clients check fuel r client_index (suc count) = do
    r' ← receive_client check fuel r client_index
    receive_clients check fuel r' (client_index + 1) count

  unfoldable pub receive_packets : Bool → ℕ → Server E S F G M → Run (Server E S F G M)
  unfolding receive_clients
  receive_packets check fuel s =
      if_some s.runtime
        (λ r. do
          assert (is_some r.server)
          r' ← receive_clients check fuel r 0 (length r.client_endpoint)
          ok (record s { runtime = some r' }))
        (ok s)
