-- ===== src/Foreign.antt =====
-- The calls of the C libraries reliable.io and netcode.io (src/client.rs, src/server.rs), whose code
-- is not in the repository: an endpoint, a client and a server are values of unknown types, and a
-- call is a function to the next value. A callback runs inside a call and touches nothing of the
-- library, so a call gives the arguments of its callbacks and the models run these after it.
pub mod Strings
use yojimbo_rs.Prelude.{ℕ, ◌≡◌, Option, List, [], ◌∷◌, ◌==◌, if◌then◌else◌}
use yojimbo_rs.Run.{Run, ok, panic, unwrap_error, ◌>>=◌}
use yojimbo_rs.Int.{ℤ}
use yojimbo_rs.Config.{ReliableConfig}
use yojimbo_rs.NetworkInfo.{Bandwidth, NetworkInfo}

-- `reliable_endpoint_t`
pub record ReliableEndpoint (E F G : Type 0) : Type 0 where
  pub create : ReliableConfig G → F → E
  -- What both callbacks are given to tell the endpoints apart: the `index` of the configuration, a
  -- non-negative i32.
  pub index : E → ℕ
  pub reset : E → E
  pub update : E → F → E
  pub get_acks : E → List ℕ
  pub clear_acks : E → E
  pub next_packet_sequence : E → ℕ
  -- The packets that it hands to `transmit_packet_function`: one, or the fragments.
  pub send_packet : E → List ℕ → E × List (List ℕ)
  -- The sequence number and the bytes that it hands to `process_packet_function`, if it does.
  pub receive_packet : E → List ℕ → E × Option (ℕ × List ℕ)
  -- The rest of the call, by what `process_packet_function` returned for a sequence number.
  pub finish_receive : E → ℕ → ℕ → E
  pub bandwidth : E → Bandwidth G
  pub rtt : E → G
  pub packet_loss : E → G
  pub num_packets_sent : E → ℕ
  pub num_packets_received : E → ℕ
  pub num_packets_acked : E → ℕ

-- reliable.io keeps the `index` of the configuration as long as the endpoint lives.
pub record KeepsIndex {E F G : Type 0} (endpoints : ReliableEndpoint E F G) : Type 0 where
  pub created :
      (config : ReliableConfig G) (time : F)
      → endpoints.index (endpoints.create config time) ≡ config.index
  pub after_reset : (e : E) → endpoints.index (endpoints.reset e) ≡ endpoints.index e
  pub after_update :
      (e : E) (time : F) → endpoints.index (endpoints.update e time) ≡ endpoints.index e
  pub after_clear_acks : (e : E) → endpoints.index (endpoints.clear_acks e) ≡ endpoints.index e
  pub after_send_packet :
      (e : E) (bytes : List ℕ)
      → endpoints.index (endpoints.send_packet e bytes).0 ≡ endpoints.index e
  pub after_receive_packet :
      (e : E) (bytes : List ℕ)
      → endpoints.index (endpoints.receive_packet e bytes).0 ≡ endpoints.index e
  pub after_finish_receive :
      (e : E) (sequence result : ℕ)
      → endpoints.index (endpoints.finish_receive e sequence result) ≡ endpoints.index e

-- The arguments of `netcode_generate_connect_token` that the code chooses.
pub record ConnectTokenRequest : Type 0 where
  pub public_server_addresses : List (List ℕ)
  pub internal_server_addresses : List (List ℕ)
  pub expire_seconds : ℤ
  pub timeout_seconds : ℤ
  pub client_id : ℕ
  pub protocol_id : ℕ
  pub private_key : List ℕ
  pub user_data : List ℕ

-- `netcode_client_t`. A change of the state is the previous state with the current one.
pub record NetcodeClient (N F : Type 0) : Type 0 where
  -- By the address; `none` is the null pointer.
  pub create : List ℕ → F → Option N
  pub get_port : N → ℕ
  pub connect : N → List ℕ → N × List (ℤ × ℤ)
  pub update : N → F → N × List (ℤ × ℤ)
  pub state : N → ℤ
  pub send_packet : N → List ℕ → N
  pub receive_packet : N → N × Option (List ℕ)
  pub destroy : N → List (ℤ × ℤ)
  -- `none` is a result other than `NETCODE_OK`.
  pub generate_connect_token : ConnectTokenRequest → Option (List ℕ)
  -- `NETCODE_MAX_SERVERS_PER_CONNECT`
  pub max_servers_per_connect : ℕ
  -- `NETCODE_CLIENT_STATE_DISCONNECTED` and so on
  pub state_disconnected : ℤ
  pub state_sending_connection_request : ℤ
  pub state_sending_connection_response : ℤ

-- The fields of `netcode_server_config_t` that the code sets.
pub record NetcodeServerConfig : Type 0 where
  pub protocol_id : ℕ
  pub private_key : List ℕ

-- `netcode_server_t`. A connect or disconnect is the client's index with 1 or 0.
pub record NetcodeServer (S F A : Type 0) : Type 0 where
  -- `none` is the null pointer.
  pub create : List ℕ → NetcodeServerConfig → F → Option S
  pub start : S → ℕ → S
  pub get_port : S → ℕ
  pub update : S → F → S × List (ℕ × ℕ)
  pub disconnect_client : S → ℕ → S × List (ℕ × ℕ)
  -- 0 for a client that is not connected.
  pub client_connected : S → ℕ → ℕ
  pub client_id : S → ℕ → ℕ
  -- `none` is the null pointer.
  pub client_address : S → ℕ → Option A
  pub num_connected_clients : S → ℤ
  pub send_packet : S → ℕ → List ℕ → S
  pub receive_packet : S → ℕ → S × Option (List ℕ)
  pub stop : S → S × List (ℕ × ℕ)

-- `CString::new(...).unwrap()` of the bytes of a text.
unfoldable pub c_string : List ℕ → Run (List ℕ)
c_string [] = ok []
c_string (b ∷ bytes) = do
  rest ← c_string bytes
  if b == 0 then panic unwrap_error else ok (b ∷ rest)

unfoldable pub c_strings : List (List ℕ) → Run (List (List ℕ))
unfolding c_string
c_strings [] = ok []
c_strings (text ∷ texts) = do first ← c_string text; rest ← c_strings texts; ok (first ∷ rest)

-- What both `snapshot_network_info` read from an endpoint.
module _ {E F G : Type 0} where
  unfoldable pub endpoint_info : ReliableEndpoint E F G → E → NetworkInfo G
  endpoint_info endpoints endpoint = record {
    rtt = endpoints.rtt endpoint;
    packet_loss = endpoints.packet_loss endpoint;
    sent_bandwidth = (endpoints.bandwidth endpoint).sent;
    received_bandwidth = (endpoints.bandwidth endpoint).received;
    acked_bandwidth = (endpoints.bandwidth endpoint).acked;
    num_packets_sent = endpoints.num_packets_sent endpoint;
    num_packets_received = endpoints.num_packets_received endpoint;
    num_packets_acked = endpoints.num_packets_acked endpoint;
  }
