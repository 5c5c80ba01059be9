-- ===== src/Connection.antt =====
-- A connection (src/connection.rs): the channels between two endpoints, and the packets that carry
-- their messages.
pub mod Errors
pub mod Carries
use yojimbo_rs.Prelude.{
  ℕ, zero, suc, ◌+◌, ◌*◌, Bool, true, false, not, Option, none, some, List, [], ◌∷◌, ◌++◌, length,
  get_elem?, set, ltb, ◌==◌, if◌then◌else◌,
}
use yojimbo_rs.Run.{
  Run, ok, panic, ◌>>=◌, ◌>>◌, assert, expect_some, index_out_of_bounds, sub_usize,
}
use yojimbo_rs.Float.{Float}
use yojimbo_rs.Message.{NetworkMessage, unwrap}
use yojimbo_rs.Config.{
  ChannelConfig, ConnectionConfig, conservative_channel_header_bits,
  conservative_packet_header_bits,
}
use yojimbo_rs.Packet.{ChannelPacketData}
use yojimbo_rs.ErrorLevel.{ConnectionErrorLevel, is_error, is_connection_error}
use yojimbo_rs.Channel
use yojimbo_rs.Channel.{Channel, ChannelCounters}
use yojimbo_rs.ConnectionPacket.{deserialize_packet, serialize_packet}

pub record Connection (F M : Type 0) : Type 0 where
  pub config : ConnectionConfig F
  pub channels : List (Channel F M)
  pub error_level : ConnectionErrorLevel

-- Test whether a list is empty.
abbrev pub is_empty {ℓ} : {A : Type ℓ} → List A → Bool
is_empty [] = true
is_empty (x ∷ xs) = false

module _ {F M : Type 0} where
  -- The loop of `new`, from the channel index on.
  unfoldable pub new_channels : ℕ → List (ChannelConfig F) → F → Run (List (Channel F M))
  new_channels index [] time = ok []
  new_channels index (config ∷ configs) time = do
    channel ← Channel.new config index time
    rest ← new_channels (index + 1) configs time
    ok (channel ∷ rest)

  unfoldable pub new : ConnectionConfig F → F → Run (Connection F M)
  unfolding new_channels
  new config time = do
    assert (not (is_empty config.channels))
    channels ← new_channels 0 config.channels time
    ok (record { config = config; channels = channels; error_level = ConnectionErrorLevel.none })

  -- The loop of `advance_time`: it returns at the first channel in an error state, and says so.
  unfoldable pub advance_channels : List (Channel F M) → F → List (Channel F M) × Bool
  advance_channels [] new_time = ([], false)
  advance_channels (channel ∷ rest) new_time =
      let channel' = Channel.advance_time channel new_time in
      let (rest', failed) = advance_channels rest new_time in
      if is_error channel'.error_level then (channel' ∷ rest, true) else (channel' ∷ rest', failed)

  unfoldable pub advance_time : Connection F M → F → Connection F M
  unfolding advance_channels
  advance_time c new_time =
      let (channels, failed) = advance_channels c.channels new_time in
      record c {
        channels = channels;
        error_level = if failed then ConnectionErrorLevel.channel else c.error_level;
      }

  -- The inner loop of `process_acks`.
  unfoldable pub ack_channels : List (Channel F M) → ℕ → Run (List (Channel F M))
  ack_channels [] ack = ok []
  ack_channels (channel ∷ rest) ack = do
    channel' ← Channel.process_ack channel ack
    rest' ← ack_channels rest ack
    ok (channel' ∷ rest')

  unfoldable pub process_acks : Connection F M → List ℕ → Run (Connection F M)
  process_acks c [] = ok c
  process_acks c (ack ∷ acks) = do
    channels ← ack_channels c.channels ack
    process_acks (record c { channels = channels }) acks

  -- The loop of `process_packet` over the channel data: `false` at a channel in an error state.
  unfoldable pub process_entries :
      List (Channel F M) → ℕ → List (ChannelPacketData M) → Run (List (Channel F M) × Bool)
  process_entries channels packet_sequence [] = ok (channels, true)
  process_entries channels packet_sequence (entry ∷ rest) =
      let skip = process_entries channels packet_sequence rest in
      let take_it = do
        channel ← expect_some index_out_of_bounds (get_elem? channels entry.channel_index)
        channel' ← Channel.process_packet_data channel entry packet_sequence
        let channels' = set channels entry.channel_index channel'
        let rest' = process_entries channels' packet_sequence rest
        if is_error channel'.error_level then ok (channels', false) else rest'
      in if ltb (length channels) entry.channel_index then skip else take_it

  unfoldable pub reset_channels : List (Channel F M) → List (Channel F M)
  reset_channels [] = []
  reset_channels (channel ∷ rest) = Channel.reset channel ∷ reset_channels rest

  unfoldable pub reset : Connection F M → Connection F M
  unfolding reset_channels
  reset c = record c {
    channels = reset_channels c.channels;
    error_level = ConnectionErrorLevel.none;
  }

  -- `self.channels[channel]`
  abbrev pub channel_at : Connection F M → ℕ → Run (Channel F M)
  channel_at c index = expect_some index_out_of_bounds (get_elem? c.channels index)

  unfoldable pub channel_counters : Connection F M → ℕ → Run ChannelCounters
  channel_counters c index = do channel ← channel_at c index; ok channel.counters

  unfoldable pub can_send_message : Connection F M → ℕ → Run Bool
  can_send_message c index = do channel ← channel_at c index; Channel.can_send_message channel

  unfoldable pub has_messages_to_send : Connection F M → ℕ → Run Bool
  has_messages_to_send c index = do
    channel ← channel_at c index
    ok (Channel.has_messages_to_send channel)

  unfoldable pub receive_message : Connection F M → ℕ → Run (Connection F M × Option (ℕ × M))
  receive_message c index = do
    channel ← channel_at c index
    (channel', result) ← Channel.receive_message channel
    ok (record c { channels = set c.channels index channel' }, result)

module _ {F M : Type 0} ⦃f : Float F⦄ ⦃m : NetworkMessage M⦄ where
  unfoldable pub send_message : Connection F M → ℕ → M → Run (Connection F M)
  send_message c index message = do
    channel ← channel_at c index
    channel' ← Channel.send_message channel message
    ok (record c { channels = set c.channels index channel' })

  -- The loop of `generate_packet`: the channels, and the data of those that have messages to send.
  unfoldable pub collect :
      List (Channel F M) → ℕ → ℕ → Run (List (Channel F M) × List (ChannelPacketData M))
  collect [] packet_sequence available_bits = ok ([], [])
  collect (channel ∷ rest) packet_sequence available_bits = do
    (channel', packet, bits) ← Channel.packet_data channel packet_sequence available_bits
    left ← if bits == 0 then ok available_bits else do
      less ← sub_usize available_bits conservative_channel_header_bits
      sub_usize less bits
    (rest', packets) ← collect rest packet_sequence left
    ok (channel' ∷ rest', if bits == 0 then packets else packet ∷ packets)

  -- The end of `generate_packet`: nothing is written for no channel data.
  unfoldable pub write_packet :
      Bool → ConnectionConfig F → ℕ → List (ChannelPacketData M) → Run (List ℕ)
  write_packet check config room [] = ok []
  write_packet check config room (packet ∷ packets) = do
    written ← serialize_packet check config room (packet ∷ packets)
    unwrap written

  -- The connection, and the bytes that are written to the front of `packet_data`, a slice of the
  -- length `room`. The Cargo feature `soak_debugging_asserts` is off.
  unfoldable pub generate_packet : Bool → Connection F M → ℕ → ℕ → Run (Connection F M × List ℕ)
  unfolding collect
  generate_packet check c packet_sequence room = if is_empty c.channels then ok (c, []) else do
    assert (ltb 0 room)
    available_bits ← sub_usize (room * 8) conservative_packet_header_bits
    (channels, channel_data) ← collect c.channels packet_sequence available_bits
    bytes ← write_packet check c.config room channel_data
    ok (record c { channels = channels }, bytes)

  -- The bytes are those at `packet_data`, a pointer that is not null.
  unfoldable pub process_packet : Bool → Connection F M → ℕ → List ℕ → Run (Connection F M × Bool)
  process_packet check c packet_sequence bytes =
      if is_connection_error c.error_level then ok (c, false) else do
        assert (ltb 0 (length bytes))
        read ← deserialize_packet check c.config bytes
        channel_data ← unwrap read
        (channels, result) ← process_entries c.channels packet_sequence channel_data
        ok (record c { channels = channels }, result)
