-- ===== src/Tests/Packets.antt =====
-- Packets with two channels, of one-byte messages.
use yojimbo_rs.Prelude.{ℕ, ◌≡◌, refl, false, List, [], ◌∷◌, ◌++◌, map, arith}
use yojimbo_rs.Wire.{pure, Cursor}
use yojimbo_rs.Packet.{ChannelPacketData}
use yojimbo_rs.Packet.Serialize.{
  serialize_check, serialize_contents, serialize_ids, serialize_messages, serialize_some, serialize,
  deserialize, write_message,
}
use yojimbo_rs.Packet.RoundTrip.{Reads, Wrote}
use yojimbo_rs.Packet.Received.{received, serialize_round_trip}
use yojimbo_rs.ConnectionPacket.{cursor, serialize_all, serialize_packet, deserialize_packet}
use yojimbo_rs.ConnectionPacket.RoundTrip.{packet_round_trip}
use yojimbo_rs.Tests.Data.{ticks, byte, byte-IsLawful, two_channels}

-- Two messages of the reliable channel and one of the other.
abbrev ordered : ChannelPacketData ℕ
ordered = record { channel_index = 0; messages = (7, 70) ∷ (8, 80) ∷ [] }

abbrev unordered : ChannelPacketData ℕ
unordered = record { channel_index = 1; messages = (3, 90) ∷ [] }

-- The number of channels; channel 0, with messages, two, the ids and the messages; channel 1, with
-- messages, one.
abbrev packet_bytes : List ℕ
packet_bytes = 2 ∷ 0 ∷ 0 ∷ 0 ∷ 1 ∷ 1 ∷ 7 ∷ 0 ∷ 8 ∷ 0 ∷ 70 ∷ 80 ∷ 1 ∷ 0 ∷ 1 ∷ 0 ∷ 90 ∷ []

abbrev written : Cursor
written = record { written = 0 ∷ 0 ∷ 1 ∷ 1 ∷ 7 ∷ 0 ∷ 8 ∷ 0 ∷ 70 ∷ 80 ∷ []; room = 10 }

packet_round_trip_example :
    deserialize_packet false two_channels (packet_bytes ++ (9 ∷ []))
    ≡ pure (map (received two_channels) (ordered ∷ unordered ∷ []))
unfolding serialize_packet serialize_all serialize_check serialize_contents serialize_ids
    serialize_messages serialize_some serialize write_message
packet_round_trip_example =
    packet_round_trip false two_channels byte-IsLawful 64 (ordered ∷ unordered ∷ []) packet_bytes
      (9 ∷ []) ((omega arith, (omega arith, tt)), ((omega arith, tt), tt)) refl

serialize_round_trip_example :
    (bytes : List ℕ) × Wrote (cursor 20) written bytes
    × Reads (deserialize false two_channels) bytes (received two_channels ordered)
unfolding serialize_check serialize_contents serialize_ids serialize_messages serialize_some
    serialize write_message
serialize_round_trip_example =
    serialize_round_trip false two_channels byte-IsLawful ordered (cursor 20) written
      (omega arith, (omega arith, tt)) refl
