-- ===== src/ConnectionPacket.antt =====
-- `ConnectionPacket` (src/connection.rs): the channel data of one packet, as bytes.
pub mod RoundTrip
use yojimbo_rs.Prelude.{ℕ, zero, suc, ◌-◌, Bool, List, [], ◌∷◌, length, ltb, ◌%◌}
use yojimbo_rs.Run.{Run, ok, assert}
use yojimbo_rs.Message.{NetworkMessage}
use yojimbo_rs.Config.{ConnectionConfig, conservative_packet_header_bits}
use yojimbo_rs.Packet.{ChannelPacketData}
use yojimbo_rs.Packet.Serialize.{serialize, deserialize}
use yojimbo_rs.Wire.{Io, pure, ◌>>=◌, ◌>>◌, lift, Cursor, write_bytes, u16_bytes, read_u16}

-- `packet_data`, a slice of this length.
abbrev pub cursor : ℕ → Cursor
cursor room = record { written = []; room = room }

module _ (check : Bool) {F M : Type 0} ⦃m : NetworkMessage M⦄ (config : ConnectionConfig F) where
  -- The loop of `serialize`.
  unfoldable pub serialize_all : Cursor → List (ChannelPacketData M) → Io m.Error Cursor
  serialize_all c [] = pure c
  serialize_all c (packet ∷ packets) = do
    c' ← serialize check config packet c
    serialize_all c' packets

  -- The bytes that were written, at a destination with so much room. (Of no channel data the loop
  -- writes nothing either, so the early return is not written out.)
  unfoldable pub serialize_packet : ℕ → List (ChannelPacketData M) → Io m.Error (List ℕ)
  serialize_packet room channel_data = do
    lift (assert (ltb (length channel_data) 65535))
    c ← lift (write_bytes (cursor room) (u16_bytes (length channel_data % 65536)))
    lift (assert (ltb (length c.written) conservative_packet_header_bits))
    c' ← serialize_all c channel_data
    pure c'.written

  -- The loop of `deserialize`.
  unfoldable pub deserialize_all : ℕ → List ℕ → Io m.Error (List (ChannelPacketData M) × List ℕ)
  deserialize_all zero src = pure ([], src)
  deserialize_all (suc count) src = do
    (packet, src') ← deserialize check config src
    (packets, rest) ← deserialize_all count src'
    pure (packet ∷ packets, rest)

  -- Bytes behind the last channel data are left alone.
  unfoldable pub deserialize_packet : List ℕ → Io m.Error (List (ChannelPacketData M))
  deserialize_packet src = do
    (channels, src') ← lift (read_u16 src)
    (packets, rest) ← deserialize_all channels src'
    pure packets
