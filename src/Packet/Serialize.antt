-- ===== src/Packet/Serialize.antt =====
-- `ChannelPacketData::serialize` and `deserialize` (src/channel/channel_packet_data.rs).
use yojimbo_rs.Prelude.{
  ℕ, zero, suc, ◌+◌, ◌-◌, Bool, true, false, some, List, [], ◌∷◌, length, get_elem?, leb, ◌==◌,
  if◌then◌else◌,
}
use yojimbo_rs.Run.{ok, assert, expect_some, index_out_of_bounds, sub_usize}
use yojimbo_rs.Message.{NetworkMessage}
use yojimbo_rs.Config.{ChannelConfig, ConnectionConfig, ChannelType}
use yojimbo_rs.Packet.{ChannelPacketData, empty}
use yojimbo_rs.Wire.{
  ◌>>=◌, ◌>>◌, Io, pure, lift, Cursor, write_bytes, convert, u8_bytes, u16_bytes, u32_bytes,
  read_u8, read_u16, read_u32,
}

abbrev pub serialize_check_value : ℕ
serialize_check_value = 0x1234_5678

abbrev pub has_messages : {A : Type 0} → List A → Bool
has_messages [] = false
has_messages (x ∷ xs) = true

-- The first loop of `deserialize_ordered`.
unfoldable pub deserialize_ids : {E : Type 0} → ℕ → List ℕ → Io E (List ℕ × List ℕ)
deserialize_ids zero src = pure ([], src)
deserialize_ids (suc count) src = do
  (id, src') ← lift (read_u16 src)
  (ids, rest) ← deserialize_ids count src'
  pure (id ∷ ids, rest)

-- `check` is the Cargo feature `serialize_check`.
module _ (check : Bool) where
  unfoldable pub serialize_check : {E : Type 0} → Cursor → Io E Cursor
  serialize_check c =
      if check then lift (write_bytes c (u32_bytes serialize_check_value)) else pure c

  unfoldable pub deserialize_check : {E : Type 0} → List ℕ → Io E (List ℕ)
  deserialize_check src =
      let checked = do
        (value, rest) ← lift (read_u32 src)
        lift (assert (value == serialize_check_value))
        pure rest
      in if check then checked else pure src

  module _ {M : Type 0} ⦃m : NetworkMessage M⦄ where
    -- `message.serialize(&mut writer)?`
    unfoldable pub write_message : Cursor → M → Io m.Error Cursor
    write_message c message = do
      bytes ← ok (m.serialize message (some c.room))
      lift (write_bytes c bytes)

    -- The second loop of `serialize_ordered`, and the loop of `serialize_unordered`.
    unfoldable pub serialize_contents : Cursor → List (ℕ × M) → Io m.Error Cursor
    unfolding write_message serialize_check
    serialize_contents c [] = pure c
    serialize_contents c ((_, message) ∷ rest) = do
      c' ← write_message c message
      c'' ← serialize_check c'
      serialize_contents c'' rest

    -- The first loop of `serialize_ordered`.
    unfoldable pub serialize_ids : Cursor → List (ℕ × M) → Io m.Error Cursor
    serialize_ids c [] = pure c
    serialize_ids c ((id, _) ∷ rest) = do
      c' ← lift (write_bytes c (u16_bytes id))
      serialize_ids c' rest

    -- `serialize_unordered` and `serialize_ordered`.
    unfoldable pub serialize_messages : ChannelType → Cursor → List (ℕ × M) → Io m.Error Cursor
    unfolding serialize_contents serialize_ids serialize_check
    serialize_messages ChannelType.unreliable_unordered c messages = serialize_contents c messages
    serialize_messages ChannelType.reliable_ordered c messages = do
      c' ← serialize_ids c messages
      c'' ← serialize_check c'
      serialize_contents c'' messages

    unfoldable pub serialize_some :
        {F : Type 0} → ChannelConfig F → List (ℕ × M) → Cursor → Io m.Error Cursor
    unfolding serialize_messages
    serialize_some config messages c = do
      less ← lift (sub_usize config.max_messages_per_packet 1)
      lift (assert (leb less 255))
      lift (assert (leb (length messages) config.max_messages_per_packet))
      count ← lift (convert 256 (length messages - 1))
      c' ← lift (write_bytes c (u8_bytes count))
      serialize_messages config.kind c' messages

    unfoldable pub serialize :
        {F : Type 0} → ConnectionConfig F → ChannelPacketData M → Cursor → Io m.Error Cursor
    serialize config packet c = do
      index ← lift (convert 65536 packet.channel_index)
      c' ← lift (write_bytes c (u16_bytes index))
      channel ←
          lift (expect_some index_out_of_bounds (get_elem? config.channels packet.channel_index))
      c'' ← lift (write_bytes c' (u8_bytes (if has_messages packet.messages then 1 else 0)))
      if has_messages packet.messages then serialize_some channel packet.messages c'' else pure c''

    -- The loop of `deserialize_unordered`.
    unfoldable pub deserialize_unordered : ℕ → List ℕ → Io m.Error (List (ℕ × M) × List ℕ)
    unfolding deserialize_check
    deserialize_unordered zero src = pure ([], src)
    deserialize_unordered (suc count) src = do
      (message, src') ← ok (m.deserialize src)
      src'' ← deserialize_check src'
      (messages, rest) ← deserialize_unordered count src''
      pure ((0, message) ∷ messages, rest)

    -- The second loop of `deserialize_ordered`.
    unfoldable pub deserialize_contents : List ℕ → List ℕ → Io m.Error (List (ℕ × M) × List ℕ)
    unfolding deserialize_check
    deserialize_contents [] src = pure ([], src)
    deserialize_contents (id ∷ ids) src = do
      (message, src') ← ok (m.deserialize src)
      src'' ← deserialize_check src'
      (messages, rest) ← deserialize_contents ids src''
      pure ((id, message) ∷ messages, rest)

    -- The `match` of `deserialize`.
    unfoldable pub deserialize_messages :
        ChannelType → ℕ → List ℕ → Io m.Error (List (ℕ × M) × List ℕ)
    unfolding deserialize_unordered deserialize_ids deserialize_contents deserialize_check
    deserialize_messages ChannelType.unreliable_unordered count src =
        deserialize_unordered count src
    deserialize_messages ChannelType.reliable_ordered count src = do
      (ids, src') ← deserialize_ids count src
      src'' ← deserialize_check src'
      (messages, rest) ← deserialize_contents ids src''
      lift (assert (length messages == length ids))
      pure (messages, rest)

    unfoldable pub deserialize_some :
        {F : Type 0} → ChannelConfig F → ℕ → List ℕ → Io m.Error (ChannelPacketData M × List ℕ)
    unfolding deserialize_messages
    deserialize_some config channel_index src = do
      (less_one, src') ← lift (read_u8 src)
      less ← lift (sub_usize config.max_messages_per_packet 1)
      lift (assert (leb less 255))
      lift (assert (leb (1 + less_one) config.max_messages_per_packet))
      (messages, rest) ← deserialize_messages config.kind (1 + less_one) src'
      pure (record { channel_index = channel_index; messages = messages }, rest)

    unfoldable pub deserialize :
        {F : Type 0} → ConnectionConfig F → List ℕ → Io m.Error (ChannelPacketData M × List ℕ)
    deserialize config src = do
      (channel_index, src') ← lift (read_u16 src)
      channel ← lift (expect_some index_out_of_bounds (get_elem? config.channels channel_index))
      (flag, src'') ← lift (read_u8 src')
      if flag == 1 then deserialize_some channel channel_index src'' else pure (empty, src'')
