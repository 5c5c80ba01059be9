-- ===== src/Packet/Received.antt =====
-- A whole `ChannelPacketData`, and a whole `ConnectionPacket`, written and read back
-- (src/channel/channel_packet_data.rs and src/connection.rs).
use yojimbo_rs.Prelude.{
  ℕ, ◌<◌, ◌≡◌, refl, ap, sym, Bool, true, false, Option, none, some, List, [], ◌∷◌, ◌++◌, length,
  get_elem?, if◌then◌else◌, arith, Bool-cases, Option-cases, inl, inr,
}
use yojimbo_rs.Message.{NetworkMessage}
use yojimbo_rs.Config.{ChannelConfig, ConnectionConfig}
use yojimbo_rs.Packet.{ChannelPacketData, empty}
use yojimbo_rs.Wire.{Io, pure, Cursor, put, u8_bytes, u16_bytes}
use yojimbo_rs.Packet.Serialize.{
  serialize_some, serialize, deserialize_some, deserialize, has_messages,
}
use yojimbo_rs.Packet.RoundTrip.{
  IsLawful, Reads, Wrote, put-put, SmallIds, sent, serialize_some-ok, u16_value,
}

-- What the other side reads: the messages, without ids on an unreliable channel, or the empty
-- data where there are none.
abbrev pub received_on :
    {F M : Type 0} → Option (ChannelConfig F) → ChannelPacketData M → ChannelPacketData M
received_on none packet = empty
received_on (some channel) packet =
    if has_messages packet.messages
    then record packet { messages = sent channel.kind packet.messages }
    else empty

abbrev pub received :
    {F M : Type 0} → ConnectionConfig F → ChannelPacketData M → ChannelPacketData M
received config packet = received_on (get_elem? config.channels packet.channel_index) packet

nonempty : {A : Type 0} (xs : List A) → has_messages xs ≡ true → 0 < length xs
nonempty [] h = cc
nonempty (x ∷ xs) h = omega arith

pure-injective : {E A : Type 0} (a b : A) → ◌≡◌ {A = Io E A} (pure a) (pure b) → a ≡ b
pure-injective a b h = cc

module _ (check : Bool) {F M : Type 0} ⦃m : NetworkMessage M⦄ (config : ConnectionConfig F) where
  -- The writer after the channel index and the flag.
  abbrev after_flag : Cursor → ChannelPacketData M → ℕ → Cursor
  after_flag c packet flag = put (put c (u16_bytes packet.channel_index)) (u8_bytes flag)

  serialize-passes :
      (packet : ChannelPacketData M) (c c' : Cursor)
      → serialize check config packet c ≡ pure c'
      → (packet.channel_index < 65536)
        × (channel : ChannelConfig F) × (get_elem? config.channels packet.channel_index
            ≡ some channel)
        × (has_messages packet.messages ≡ true
            → serialize_some check channel packet.messages (after_flag c packet 1) ≡ pure c')
        × (has_messages packet.messages ≡ false
            → pure {E = m.Error} (after_flag c packet 0) ≡ pure c')
  unfolding serialize
  serialize-passes packet c c' h =
      elim (Option-cases (get_elem? config.channels packet.channel_index)) [
        | inl missing ↦ absurd (ground (arith, missing))
        | inr (channel, e) ↦ (
          ground arith,
          channel,
          e,
          λ full. ground (arith, e, full),
          λ bare. ground (arith, e, bare),
        )
      ]

  deserialize-some :
      (packet out : ChannelPacketData M) (channel : ChannelConfig F) (src rest : List ℕ)
      → packet.channel_index < 65536
      → get_elem? config.channels packet.channel_index ≡ some channel
      → deserialize_some check channel packet.channel_index src ≡ pure (out, rest)
      → deserialize check config (u16_bytes packet.channel_index ++ (1 ∷ src)) ≡ pure (out, rest)
  unfolding deserialize
  deserialize-some packet out channel src rest h e r = rw (u16_value packet.channel_index h, e) r

  deserialize-none :
      (packet : ChannelPacketData M) (channel : ChannelConfig F) (rest : List ℕ)
      → packet.channel_index < 65536
      → get_elem? config.channels packet.channel_index ≡ some channel
      → deserialize check {M = M} config (u16_bytes packet.channel_index ++ (0 ∷ rest))
        ≡ pure (empty, rest)
  unfolding deserialize
  deserialize-none packet channel rest h e = rw (u16_value packet.channel_index h, e)

  -- What `serialize` writes for the data of one channel is read back by `deserialize` on the other
  -- side, whatever follows it: the same channel index and messages, with the ids only on a
  -- reliable channel, or the empty data if there are no messages. It holds with and without the
  -- check values, if each message reads back what it writes and the ids are u16.
  pub serialize_round_trip :
      IsLawful m
      → (packet : ChannelPacketData M) (c c' : Cursor) → SmallIds packet.messages
      → serialize check config packet c ≡ pure c'
      → (bytes : List ℕ) × Wrote c c' bytes
        × Reads (deserialize check config) bytes (received config packet)
  serialize_round_trip lawful packet c c' small h =
      let (index, channel, e, p, q) = serialize-passes packet c c' h in
      elim (Bool-cases (has_messages packet.messages)) [
        | inl full ↦
            let (b, w, r) =
              serialize_some-ok check lawful channel packet.channel_index (after_flag c packet 1) c'
                packet.messages small (nonempty packet.messages full) (p full) in
            (
              u16_bytes packet.channel_index ++ (1 ∷ b),
              put-put c (put c (u16_bytes packet.channel_index)) c' (u16_bytes packet.channel_index)
                  (1 ∷ b) refl
                  (put-put (put c (u16_bytes packet.channel_index)) (after_flag c packet 1) c'
                    (1 ∷ []) b refl w),
              λ rest.
                  rw (e, full)
                    (deserialize-some packet _ channel (b ++ rest) rest index e (r rest)),
            )
        | inr bare ↦ (
          u16_bytes packet.channel_index ++ (0 ∷ []),
          put-put c (put c (u16_bytes packet.channel_index)) c' (u16_bytes packet.channel_index)
              (0 ∷ []) refl
              (ap (λ (w : Cursor). w.written)
                (sym (pure-injective (after_flag c packet 0) c' (q bare)))),
          λ rest. rw (e, bare) (deserialize-none packet channel rest index e),
        )
      ]
