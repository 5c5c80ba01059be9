-- ===== src/ConnectionPacket/RoundTrip.antt =====
-- A whole packet written and read back (src/connection.rs).
use yojimbo_rs.Prelude.{
  ℕ, ◌+◌, ◌*◌, ◌/◌, ◌%◌, ◌<◌, ◌≡◌, refl, sym, ◌∙◌, Bool, List, [], ◌∷◌, ◌++◌, length, arith,
  append_assoc, map, ltb,
}
use yojimbo_rs.Run.{assert}
use yojimbo_rs.Message.{NetworkMessage}
use yojimbo_rs.Config.{ConnectionConfig, conservative_packet_header_bits}
use yojimbo_rs.Packet.{ChannelPacketData}
use yojimbo_rs.Wire.{
  pure, lift, Cursor, put, write_bytes, u16_bytes, >>=-eq-pure, lift-eq-pure, write_bytes-ok,
}
use yojimbo_rs.Packet.Serialize.{serialize}
use yojimbo_rs.Packet.RoundTrip.{IsLawful, Reads, Wrote, put-put, SmallIds, stayed}
use yojimbo_rs.Packet.Received.{received, serialize_round_trip}
use yojimbo_rs.ConnectionPacket.{
  cursor, serialize_all, serialize_packet, deserialize_all, deserialize_packet,
}

abbrev pub AllSmallIds : {M : Type 0} → List (ChannelPacketData M) → Type 0
AllSmallIds [] = Unit
AllSmallIds (packet ∷ packets) = SmallIds packet.messages × AllSmallIds packets

module _ (check : Bool) {F M : Type 0} ⦃m : NetworkMessage M⦄ (config : ConnectionConfig F)
    (lawful : IsLawful m) where
  serialize_all-ok :
      (packets : List (ChannelPacketData M)) (c c' : Cursor)
      → AllSmallIds packets
      → serialize_all check config c packets ≡ pure c'
      → (bytes : List ℕ) × Wrote c c' bytes
        × Reads
            (deserialize_all check config (length packets))
            bytes
            (map (received config) packets)
  unfolding serialize_all deserialize_all
  serialize_all-ok [] c c' small h = ([], stayed c c' h, λ rest. refl)
  serialize_all-ok (packet ∷ packets) c c' small h =
      let (c1, p, q) = >>=-eq-pure (serialize check config packet c) _ h in
      let (b1, w1, r1) = serialize_round_trip check config lawful packet c c1 small.0 p in
      let (b2, w2, r2) = serialize_all-ok packets c1 c' small.1 q in
      (b1 ++ b2, put-put c c1 c' b1 b2 w1 w2, λ rest. simp (append_assoc, r1, r2))

  serialize_packet-passes :
      (room : ℕ) (packets : List (ChannelPacketData M)) (bytes : List ℕ)
      → serialize_packet check config room packets ≡ pure bytes
      → (length packets < 65535)
        × (c' : Cursor) × (serialize_all check config
              (put (cursor room) (u16_bytes (length packets % 65536)))
              packets
            ≡ pure c')
        × (c'.written ≡ bytes)
  unfolding serialize_packet
  serialize_packet-passes room packets bytes h =
      let (_, p, q) = >>=-eq-pure (lift (assert (ltb (length packets) 65535))) _ h in
      let (c1, p1, q1) =
        >>=-eq-pure (lift (write_bytes (cursor room) (u16_bytes (length packets % 65536)))) _ q in
      let (_, p2, q2) =
        >>=-eq-pure (lift (assert (ltb (length c1.written) conservative_packet_header_bits))) _
          q1 in
      let (c', p3, q3) = >>=-eq-pure (serialize_all check config c1 packets) _ q2 in
      let moved =
        (write_bytes-ok (cursor room) (u16_bytes (length packets % 65536)) (lift-eq-pure _ p1)).0 in
      (ground (arith, p), c', rw (← moved) p3, cc)

  -- The bytes that a connection's packet writes are read back as the channel data that was
  -- written, each as the other side of its channel reads it, whatever bytes stand behind them, if
  -- each message reads back what it writes and the ids are u16.
  pub packet_round_trip :
      (room : ℕ) (packets : List (ChannelPacketData M)) (bytes rest : List ℕ)
      → AllSmallIds packets
      → serialize_packet check config room packets ≡ pure bytes
      → deserialize_packet check config (bytes ++ rest) ≡ pure (map (received config) packets)
  unfolding deserialize_packet
  packet_round_trip room packets bytes rest small h =
      let (few, c', p, same) = serialize_packet-passes room packets bytes h in
      let (b, w, r) = serialize_all-ok packets _ c' small p in
      let exact : bytes ≡ u16_bytes (length packets % 65536) ++ b = sym same ∙ w in
      let count : length packets % 65536 % 256 + 256 * (length packets % 65536 / 256 % 256)
          ≡ length packets =
        omega arith in
      rw (exact, count, r rest)
