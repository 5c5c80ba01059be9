-- ===== src/Client/Traffic.antt =====
-- The packets of a client (src/client.rs): `send_packets`, `receive_packets` and the callbacks that
-- reliable.io makes inside them.
use yojimbo_rs.Prelude.{
  is_some, if_some, ℕ, zero, suc, Bool, not, Option, none, some, List, [], ◌∷◌, ◌++◌, length, drop,
  if◌then◌else◌,
}
use yojimbo_rs.Run.{
  Run, ok, panic, ◌>>=◌, ◌>>◌, assert, expect_some, null_pointer, unwrap_none, out_of_fuel,
}
use yojimbo_rs.Float.{Float}
use yojimbo_rs.Message.{NetworkMessage}
use yojimbo_rs.Connection
use yojimbo_rs.Connection.{Connection, is_empty}
use yojimbo_rs.NetworkSimulator
use yojimbo_rs.NetworkSimulator.{NetworkSimulator, Draws}
use yojimbo_rs.Foreign.{ReliableEndpoint, NetcodeClient}
use yojimbo_rs.Client.{Client, is_connected}

module _ {E N F G M : Type 0} ⦃f : Float F⦄ ⦃g : Float G⦄ ⦃netcode : NetcodeClient N F⦄ where
  -- The end of `transmit_packet`: the packet goes out now.
  unfoldable pub send_now : Client E N F G M → List ℕ → Run (Client E N F G M)
  send_now c packet_data = do
    client ← expect_some null_pointer c.client
    ok (record c { client = some (netcode.send_packet client packet_data) })

  -- An active simulator takes the packet.
  unfoldable pub intercept :
      Draws F G → Client E N F G M → NetworkSimulator F G → List ℕ → Run (Client E N F G M)
  intercept draws c s packet_data = do
    s' ← NetworkSimulator.send_packet s draws 0 packet_data
    ok (record c { network_simulator = some s' })

  -- `draws` is what the simulator draws, if it is active.
  unfoldable pub transmit_packet : Draws F G → Client E N F G M → List ℕ → Run (Client E N F G M)
  unfolding send_now intercept
  transmit_packet draws c packet_data =
      if_some c.network_simulator
        (λ s. if s.active then intercept draws c s packet_data else send_now c packet_data)
        (send_now c packet_data)

  -- `transmit_packet` of each packet in turn, with what is drawn for each.
  unfoldable pub transmit_packets :
      (ℕ → Draws F G) → Client E N F G M → List (List ℕ) → Run (Client E N F G M)
  unfolding transmit_packet
  transmit_packets draws c [] = ok c
  transmit_packets draws c (packet ∷ packets) = do
    c' ← transmit_packet (draws 0) c packet
    transmit_packets (λ i. draws (suc i)) c' packets

module _ {E N F G M : Type 0} ⦃f : Float F⦄ ⦃g : Float G⦄ ⦃m : NetworkMessage M⦄
    ⦃endpoints : ReliableEndpoint E F G⦄ ⦃netcode : NetcodeClient N F⦄ where
  -- `reliable_endpoint_send_packet` of bytes that are not empty.
  unfoldable pub send_written :
      (ℕ → Draws F G) → Client E N F G M → E → List ℕ → Run (Client E N F G M)
  unfolding transmit_packets
  send_written draws c endpoint [] = ok c
  send_written draws c endpoint (b ∷ bytes) =
      let (endpoint', packets) = endpoints.send_packet endpoint (b ∷ bytes) in
      transmit_packets draws (record c { endpoint = some endpoint' }) packets

  -- The body of `send_packets` for a client that has a connection. The bytes are written to the
  -- front of the packet buffer.
  unfoldable pub send_connection :
      Bool → (ℕ → Draws F G) → Client E N F G M → E → Connection F M → Run (Client E N F G M)
  unfolding send_written
  send_connection check draws c endpoint connection = do
    (connection', bytes) ←
        Connection.generate_packet check connection (endpoints.next_packet_sequence endpoint)
          (length c.packet_buffer)
    send_written draws
        (record c {
          connection = some connection';
          packet_buffer = bytes ++ drop (length bytes) c.packet_buffer;
        })
        endpoint bytes

  unfoldable pub send_packets : Bool → (ℕ → Draws F G) → Client E N F G M → Run (Client E N F G M)
  unfolding send_connection
  send_packets check draws c = if not (is_connected c) then ok c else do
    assert (is_some c.client)
    endpoint ← expect_some null_pointer c.endpoint
    if_some c.connection (send_connection check draws c endpoint) (ok c)

  -- The result is 1 for a packet that was taken.
  unfoldable pub process_packet : Bool → Client E N F G M → ℕ → List ℕ → Run (Client E N F G M × ℕ)
  process_packet check c packet_sequence packet_data = do
    connection ← expect_some unwrap_none c.connection
    (connection', result) ← Connection.process_packet check connection packet_sequence packet_data
    ok (record c { connection = some connection' }, if result then 1 else 0)

  -- What `reliable_endpoint_receive_packet` does with what it hands to `process_packet`.
  unfoldable pub process_handed :
      Bool → Client E N F G M → E → Option (ℕ × List ℕ) → Run (Client E N F G M)
  unfolding process_packet
  process_handed check c endpoint none = ok (record c { endpoint = some endpoint })
  process_handed check c endpoint (some (packet_sequence, packet_data)) = do
    (c', result) ← process_packet check c packet_sequence packet_data
    ok (record c' { endpoint = some (endpoints.finish_receive endpoint packet_sequence result) })

  -- `reliable_endpoint_receive_packet` of a packet from netcode.
  unfoldable pub receive_packet : Bool → Client E N F G M → List ℕ → Run (Client E N F G M)
  unfolding process_handed
  receive_packet check c packet_data = do
    endpoint ← expect_some null_pointer c.endpoint
    process_handed check c (endpoints.receive_packet endpoint packet_data).0
        (endpoints.receive_packet endpoint packet_data).1

  -- The loop of `receive_packets`; netcode has as many packets as the fuel allows at most.
  unfoldable pub receive_loop : Bool → ℕ → Client E N F G M → Run (Client E N F G M)
  unfolding receive_packet
  receive_loop check zero c = panic out_of_fuel
  receive_loop check (suc fuel) c = do
    client ← expect_some null_pointer c.client
    let c' : Client E N F G M = record c { client = some (netcode.receive_packet client).0 }
    if_some (netcode.receive_packet client).1
        (λ packet_data. do c'' ← receive_packet check c' packet_data; receive_loop check fuel c'')
        (ok c')

  unfoldable pub receive_packets : Bool → ℕ → Client E N F G M → Run (Client E N F G M)
  unfolding receive_loop
  receive_packets check fuel c =
      if not (is_connected c) then ok c else do assert (is_some c.client); receive_loop check fuel c
