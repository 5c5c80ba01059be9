-- ===== src/ErrorLevel.antt =====
-- The error levels of channels (src/channel.rs) and connections (src/connection.rs).
use yojimbo_rs.Prelude.{Bool, true, false}

pub data ChannelErrorLevel : Type 0 where
  none desync send_queue_full blocks_disabled failed_to_serialize out_of_memory : ChannelErrorLevel

-- `level != ChannelErrorLevel::None`
abbrev pub is_error : ChannelErrorLevel → Bool
is_error none = false
is_error desync = true
is_error send_queue_full = true
is_error blocks_disabled = true
is_error failed_to_serialize = true
is_error out_of_memory = true

pub data ConnectionErrorLevel : Type 0 where
  none channel read_packet_failed : ConnectionErrorLevel

-- `level != ConnectionErrorLevel::None`
abbrev pub is_connection_error : ConnectionErrorLevel → Bool
is_connection_error ConnectionErrorLevel.none = false
is_connection_error channel = true
is_connection_error read_packet_failed = true
