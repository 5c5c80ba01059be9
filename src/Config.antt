-- ===== src/Config.antt =====
-- The configuration of channels and connections (src/config.rs).
use yojimbo_rs.Prelude.{ℕ, ◌+◌, ◌-◌, ◌*◌, ◌/◌, ◌%◌, ◌^◌, Option, none, some, List, replicate}
use yojimbo_rs.Int.{ℤ, pos}
use yojimbo_rs.Float.{Float}

pub data ChannelType : Type 0 where
  reliable_ordered unreliable_unordered : ChannelType

pub record ChannelConfig (F : Type 0) : Type 0 where
  pub kind : ChannelType
  pub sent_packet_buffer_size : ℕ
  pub message_send_queue_size : ℕ
  pub message_receive_queue_size : ℕ
  pub max_messages_per_packet : ℕ
  -- In bytes.
  pub packet_budget : Option ℕ
  pub message_resend_time : F
  pub block_fragment_resend_time : F

pub record ConnectionConfig (F : Type 0) : Type 0 where
  pub max_packet_size : ℕ
  pub channels : List (ChannelConfig F)

module _ {F : Type 0} ⦃f : Float F⦄ where
  -- `ChannelConfig::new`
  unfoldable pub channel_config : ChannelType → ChannelConfig F
  channel_config kind = record {
    kind = kind;
    sent_packet_buffer_size = 1024;
    message_send_queue_size = 1024;
    message_receive_queue_size = 1024;
    max_messages_per_packet = 256;
    packet_budget = none;
    message_resend_time = f.decimal 1 1;
    block_fragment_resend_time = f.decimal 25 2;
  }

  -- `ConnectionConfig::new`
  unfoldable pub connection_config : ℕ → ConnectionConfig F
  unfolding channel_config
  connection_config channels = record {
    max_packet_size = 8 * 1024;
    channels = replicate channels (channel_config ChannelType.reliable_ordered);
  }

abbrev pub yojimbo_default_timeout : ℤ
yojimbo_default_timeout = pos 5

-- What src/network_simulator.rs is configured with.
pub record NetworkSimulatorConfig : Type 0 where
  pub max_simulator_packets : ℕ

-- `G` stands for f32.
pub record ClientServerConfig (F G : Type 0) : Type 0 where
  pub connection : ConnectionConfig F
  pub protocol_id : ℕ
  -- In seconds; an i32.
  pub timeout : ℤ
  pub client_memory : ℕ
  pub server_global_memory : ℕ
  pub server_per_client_memory : ℕ
  pub network_simulator : Option NetworkSimulatorConfig
  pub fragment_packets_above : ℕ
  pub packet_fragment_size : ℕ
  pub max_packet_fragments : ℕ
  pub packet_reassembly_buffer_size : ℕ
  pub acked_packets_buffer_size : ℕ
  pub received_packets_buffer_size : ℕ
  pub rtt_smoothing_factor : G

-- `(a as f64 / b as f64).ceil()` of whole numbers that f64 holds exactly, for `b` above 0.
abbrev pub div_ceil : ℕ → ℕ → ℕ
div_ceil a b = (a + (b - 1)) / b

module _ {F G : Type 0} ⦃f : Float F⦄ ⦃g : Float G⦄ where
  -- `ClientServerConfig::new`
  unfoldable pub client_server_config : ℕ → ClientServerConfig F G
  unfolding connection_config
  client_server_config channels =
      let connection = connection_config channels in
      let packet_fragment_size : ℕ = 1024 in
      record {
        connection = connection;
        protocol_id = 0;
        timeout = yojimbo_default_timeout;
        client_memory = 10 * 1024 * 1024;
        server_global_memory = 10 * 1024 * 1024;
        server_per_client_memory = 10 * 1024 * 1024;
        network_simulator = none;
        fragment_packets_above = 1024;
        packet_fragment_size = 1024;
        max_packet_fragments = div_ceil connection.max_packet_size packet_fragment_size;
        packet_reassembly_buffer_size = 64;
        acked_packets_buffer_size = 256;
        received_packets_buffer_size = 256;
        rtt_smoothing_factor = g.decimal 25 4;
      }

-- The name of an endpoint: `"client endpoint"` or `format!("server_endpoint{}", i)`.
pub data EndpointName : Type 0 where
  client_endpoint : EndpointName
  server_endpoint : ℕ → EndpointName

-- The fields of `reliable_config_t` that the code sets, but for the context and the callbacks,
-- which are what the models of the client and the server do with an endpoint's packets.
pub record ReliableConfig (G : Type 0) : Type 0 where
  pub name : EndpointName
  pub index : ℕ
  pub max_packet_size : ℕ
  pub fragment_above : ℕ
  pub max_fragments : ℕ
  pub fragment_size : ℕ
  pub ack_buffer_size : ℕ
  pub received_packets_buffer_size : ℕ
  pub fragment_reassembly_buffer_size : ℕ
  pub rtt_smoothing_factor : G

-- `as i32` of a `usize`: the 32 low bits.
abbrev pub as_i32 : ℕ → ℕ
as_i32 n = n % 2 ^ 32

-- `client_index.unwrap_or(0)`
abbrev pub index_or_zero : Option ℕ → ℕ
index_or_zero none = 0
index_or_zero (some index) = index

module _ {F G : Type 0} where
  unfoldable pub new_reliable_config :
      ClientServerConfig F G → EndpointName → Option ℕ → ReliableConfig G
  new_reliable_config c name client_index = record {
    name = name;
    index = as_i32 (index_or_zero client_index);
    max_packet_size = as_i32 c.connection.max_packet_size;
    fragment_above = as_i32 c.fragment_packets_above;
    max_fragments = as_i32 c.max_packet_fragments;
    fragment_size = as_i32 c.packet_fragment_size;
    ack_buffer_size = as_i32 c.acked_packets_buffer_size;
    received_packets_buffer_size = as_i32 c.received_packets_buffer_size;
    fragment_reassembly_buffer_size = as_i32 c.packet_reassembly_buffer_size;
    rtt_smoothing_factor = c.rtt_smoothing_factor;
  }

-- The conservative sizes of src/channel.rs, in bits.
abbrev pub conservative_message_header_bits : ℕ
conservative_message_header_bits = 32

abbrev pub conservative_channel_header_bits : ℕ
conservative_channel_header_bits = 32

abbrev pub conservative_packet_header_bits : ℕ
conservative_packet_header_bits = 16

-- The number of bits that are left is not worth a message.
abbrev pub give_up_bits : ℕ
give_up_bits = 4 * 8
