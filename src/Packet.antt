-- ===== src/Packet.antt =====
-- `ChannelPacketData` (src/channel/channel_packet_data.rs): the messages of one channel in a packet.
pub mod Serialize
pub mod RoundTrip
pub mod Received
use yojimbo_rs.Prelude.{ℕ, List, [], ◌-◌, ◌^◌}

pub record ChannelPacketData (M : Type 0) : Type 0 where
  pub channel_index : ℕ
  -- Message ids and messages.
  pub messages : List (ℕ × M)

-- `usize::MAX`
abbrev pub usize_max : ℕ
usize_max = 2 ^ 64 - 1

unfoldable pub empty : {M : Type 0} → ChannelPacketData M
empty = record { channel_index = usize_max; messages = [] }
