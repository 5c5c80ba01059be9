-- ===== src/Connection/Carries.antt =====
-- The other side reads what a connection generates (src/connection.rs).
use yojimbo_rs.Prelude.{
  ℕ, ◌-◌, ◌*◌, ◌<◌, ◌≡◌, ap, ◌∙◌, sym, subst, ◌⊎◌, inl, inr, Bool, true, false, List, [], ◌∷◌, ◌++◌,
  map, ltb, ◌==◌, if◌then◌else◌, arith, Bool-cases,
}
use yojimbo_rs.Run.{Run, ok, ◌>>=◌, >>=-eq-ok, assert, sub_usize}
use yojimbo_rs.Result.{Result}
use yojimbo_rs.Wire.{pure}
use yojimbo_rs.Float.{Float}
use yojimbo_rs.Message.{NetworkMessage, unwrap}
use yojimbo_rs.Config.{
  ChannelConfig, ConnectionConfig, conservative_packet_header_bits,
  conservative_channel_header_bits,
}
use yojimbo_rs.Packet.{ChannelPacketData}
use yojimbo_rs.Packet.RoundTrip.{IsLawful, SmallIds}
use yojimbo_rs.Packet.Received.{received}
use yojimbo_rs.ConnectionPacket.{serialize_packet, deserialize_packet}
use yojimbo_rs.ConnectionPacket.RoundTrip.{AllSmallIds, packet_round_trip}
use yojimbo_rs.Reliable.Send
use yojimbo_rs.Reliable.Budget.{packet_data_bounded}
use yojimbo_rs.Unreliable
use yojimbo_rs.Unreliable.Fill.{AllAt, packet_data_fits}
use yojimbo_rs.Processor
use yojimbo_rs.Processor.{Processor, reliable, unreliable}
use yojimbo_rs.Channel
use yojimbo_rs.Channel.{Channel}
use yojimbo_rs.Connection.{Connection, is_empty, collect, write_packet, generate_packet}

AllAt-SmallIds :
    {M : Type 0} (seq : ℕ) (ms : List (ℕ × M)) → seq < 65536 → AllAt seq ms → SmallIds ms
AllAt-SmallIds seq [] h all = tt
AllAt-SmallIds seq ((n, m) ∷ ms) h (e, all) = (omega (arith, e, h), AllAt-SmallIds seq ms h all)

unwrap-ok : {E A : Type 0} (w : Result E A) {a : A} → unwrap w ≡ ok a → w ≡ Result.ok a
unwrap-ok (Result.ok a) h = cc
unwrap-ok (Result.err e) h = absurd (cc h)

either :
    {M : Type 0} (b : Bool) (packet : ChannelPacketData M) (more : List (ChannelPacketData M))
    → SmallIds packet.messages
    → AllSmallIds more
    → AllSmallIds (if b then more else packet ∷ more)
either true packet more h all = all
either false packet more h all = (h, all)

write_packet-ok :
    {F M : Type 0} ⦃f : Float F⦄ ⦃m : NetworkMessage M⦄ (check : Bool) (config : ConnectionConfig F)
    (room : ℕ) (packets : List (ChannelPacketData M)) (bytes : List ℕ)
    → write_packet check config room packets ≡ ok bytes
    → (bytes ≡ []) ⊎ (serialize_packet check config room packets ≡ pure bytes)
unfolding write_packet
write_packet-ok check config room [] bytes h = inl (cc)
write_packet-ok check config room (packet ∷ packets) bytes h =
    let (w, e, q) = >>=-eq-ok (serialize_packet check config room (packet ∷ packets)) _ h in
    inr (e ∙ ap ok (unwrap-ok w q))

module _ {F M : Type 0} ⦃f : Float F⦄ ⦃m : NetworkMessage M⦄ (seq : ℕ) (small : seq < 65536) where
  processor-SmallIds :
      (p p' : Processor F M) (config : ChannelConfig F) (channel available bits : ℕ)
      (packet : ChannelPacketData M)
      → Processor.packet_data p config channel seq available ≡ ok (p', packet, bits)
      → SmallIds packet.messages
  unfolding Processor.packet_data
  processor-SmallIds (reliable r) p' config channel available bits packet h =
      let ((r', q, b), e, h1) = >>=-eq-ok (Send.packet_data r channel seq available) _ h in
      let same : q ≡ packet = cc in
      subst (λ (x : ChannelPacketData M). SmallIds x.messages) same
        (packet_data_bounded r r' channel seq available b q e).2
  processor-SmallIds (unreliable u) p' config channel available bits packet h =
      let ((u', q, b), e, h1) =
        >>=-eq-ok (Unreliable.packet_data u config channel seq available) _ h in
      let same : q ≡ packet = cc in
      subst (λ (x : ChannelPacketData M). SmallIds x.messages) same
        (AllAt-SmallIds seq q.messages small
          (packet_data_fits u u' config channel seq available b q e).2)

  channel-SmallIds :
      (c c' : Channel F M) (available bits : ℕ) (packet : ChannelPacketData M)
      → Channel.packet_data c seq available ≡ ok (c', packet, bits)
      → SmallIds packet.messages
  unfolding Channel.packet_data
  channel-SmallIds c c' available bits packet h =
      let ((p, q, b), e, h1) =
        >>=-eq-ok (Processor.packet_data c.processor c.config c.channel_index seq available) _ h in
      let same : q ≡ packet = cc in
      subst (λ (x : ChannelPacketData M). SmallIds x.messages) same
        (processor-SmallIds c.processor p c.config c.channel_index available b q e)

  collect-AllSmallIds :
      (cs cs' : List (Channel F M)) (available : ℕ) (data' : List (ChannelPacketData M))
      → collect cs seq available ≡ ok (cs', data')
      → AllSmallIds data'
  unfolding collect
  collect-AllSmallIds [] cs' available data' h =
      let same : [] ≡ data' = cc in subst AllSmallIds same tt
  collect-AllSmallIds (c ∷ cs) cs' available data' h =
      let ((c1, packet, bits), e, h1) = >>=-eq-ok (Channel.packet_data c seq available) _ h in
      let (left, _, h2) =
        >>=-eq-ok
          (if bits == 0 then ok available else do
            less ← sub_usize available conservative_channel_header_bits
            sub_usize less bits)
          _ h1 in
      let ((cs1, more), e3, h3) = >>=-eq-ok (collect cs seq left) _ h2 in
      let same : (if bits == 0 then more else packet ∷ more) ≡ data' = cc in
      let rest = collect-AllSmallIds cs cs1 left more e3 in
      subst AllSmallIds same
        (either (bits == 0) packet more (channel-SmallIds c c1 available bits packet e) rest)

-- The channel data of a packet that `generate_packet` wrote.
pub record Carries {F M : Type 0} ⦃f : Float F⦄ ⦃m : NetworkMessage M⦄ (check : Bool)
    (c c' : Connection F M) (seq room : ℕ) (bytes : List ℕ) : Type 0 where
  pub channel_data : List (ChannelPacketData M)
  pub collected :
      collect c.channels seq (room * 8 - conservative_packet_header_bits)
      ≡ ok (c'.channels, channel_data)
  pub reads :
      (rest : List ℕ)
      → deserialize_packet check c.config (bytes ++ rest)
        ≡ pure (map (received c.config) channel_data)

module _ {F M : Type 0} ⦃f : Float F⦄ ⦃m : NetworkMessage M⦄ (lawful : IsLawful m) (check : Bool)
    (c c' : Connection F M) (seq room : ℕ) (bytes : List ℕ) where
  carried :
      seq < 65536
      → (available : ℕ) (cs : List (Channel F M)) (packets : List (ChannelPacketData M))
        (written : List ℕ)
      → available ≡ room * 8 - conservative_packet_header_bits
      → collect c.channels seq available ≡ ok (cs, packets)
      → write_packet check c.config room packets ≡ ok written
      → ◌≡◌ {A = Run (Connection F M × List ℕ)}
          (ok (record c { channels = cs }, written))
          (ok (c', bytes))
      → (bytes ≡ []) ⊎ Carries check c c' seq room bytes
  carried small available cs packets written bits e wrote h =
      let same_channels : cs ≡ c'.channels = cc in
      let same_bytes : written ≡ bytes = cc in
      elim (write_packet-ok check c.config room packets written wrote) [
        | inl nothing ↦ inl (sym same_bytes ∙ nothing)
        | inr serialized ↦ inr (record {
          channel_data = packets;
          collected =
              subst (λ n. collect c.channels seq n ≡ ok (c'.channels, packets)) bits
                (e ∙ ap (λ x. ok (x, packets)) same_channels);
          reads = λ rest.
              subst
                (λ b.
                  deserialize_packet check c.config (b ++ rest)
                  ≡ pure (map (received c.config) packets))
                same_bytes
                (packet_round_trip check c.config lawful room packets written rest
                  (collect-AllSmallIds seq small c.channels cs available packets e) serialized);
        })
      ]

  -- If `generate_packet` of a u16 packet number returns, it wrote nothing, or the bytes that it
  -- wrote are read by a connection of the same configuration as exactly the data that the channels
  -- gave, each as the other side of its channel reads it, whatever stands behind them in the
  -- buffer. The messages have to read back what they write.
  pub generate_packet-Carries :
      seq < 65536
      → generate_packet check c seq room ≡ ok (c', bytes)
      → (bytes ≡ []) ⊎ Carries check c c' seq room bytes
  unfolding generate_packet
  generate_packet-Carries small h = elim (Bool-cases (is_empty c.channels)) [
    | inl no_channels ↦
        let e : ◌≡◌ {A = Run (Connection F M × List ℕ)} (ok (c, [])) (ok (c', bytes)) =
          rw no_channels at h in
        inl (cc)
    | inr channels ↦
        let (_, _, h1) = >>=-eq-ok (assert (ltb 0 room)) _ (rw channels at h) in
        let (available, e1, h2) =
          >>=-eq-ok (sub_usize (room * 8) conservative_packet_header_bits) _ h1 in
        let ((cs, packets), e2, h3) = >>=-eq-ok (collect c.channels seq available) _ h2 in
        let (written, e3, h4) = >>=-eq-ok (write_packet check c.config room packets) _ h3 in
        carried small available cs packets written (ground arith) e2 e3 h4
  ]
