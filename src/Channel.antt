-- ===== src/Channel.antt =====
-- A channel (src/channel.rs): a processor with an error level and counters.
pub mod Latch
use yojimbo_rs.Prelude.{ℕ, ◌+◌, Bool, not, Option, none, some, if◌then◌else◌}
use yojimbo_rs.Run.{Run, ok, ◌>>=◌}
use yojimbo_rs.Float.{Float}
use yojimbo_rs.Message.{NetworkMessage}
use yojimbo_rs.Config.{ChannelConfig}
use yojimbo_rs.Packet.{ChannelPacketData}
use yojimbo_rs.ErrorLevel.{ChannelErrorLevel, is_error, send_queue_full}
use yojimbo_rs.Processor
use yojimbo_rs.Processor.{Processor}

pub record ChannelCounters : Type 0 where
  pub sent : ℕ
  pub received : ℕ

-- `ChannelCounters::default` and `ChannelCounters::reset`
abbrev pub zero_counters : ChannelCounters
zero_counters = record { sent = 0; received = 0 }

pub record Channel (F M : Type 0) : Type 0 where
  pub config : ChannelConfig F
  pub channel_index : ℕ
  pub error_level : ChannelErrorLevel
  pub processor : Processor F M
  pub counters : ChannelCounters

module _ {F M : Type 0} where
  unfoldable pub new : ChannelConfig F → ℕ → F → Run (Channel F M)
  new config channel_index time = do
    processor ← Processor.new config time config.kind
    ok (record {
      config = config;
      channel_index = channel_index;
      error_level = ChannelErrorLevel.none;
      processor = processor;
      counters = zero_counters;
    })

  -- Without the log line.
  abbrev pub set_error_level : Channel F M → ChannelErrorLevel → Channel F M
  set_error_level c level = record c { error_level = level }

  unfoldable pub reset_counters : Channel F M → Channel F M
  reset_counters c = record c { counters = zero_counters }

  unfoldable pub reset : Channel F M → Channel F M
  unfolding reset_counters
  reset c = reset_counters (record (set_error_level c ChannelErrorLevel.none) {
    processor = Processor.reset c.processor;
  })

  unfoldable pub advance_time : Channel F M → F → Channel F M
  advance_time c time = record c { processor = Processor.advance_time c.processor time }

  unfoldable pub process_packet_data : Channel F M → ChannelPacketData M → ℕ → Run (Channel F M)
  process_packet_data c packet packet_sequence = if is_error c.error_level then ok c else do
    processor ← Processor.process_packet_data c.processor packet packet_sequence
    ok (record c { processor = processor })

  unfoldable pub process_ack : Channel F M → ℕ → Run (Channel F M)
  process_ack c packet_sequence = do
    processor ← Processor.process_ack c.processor packet_sequence
    ok (record c { processor = processor })

  unfoldable pub can_send_message : Channel F M → Run Bool
  can_send_message c = Processor.can_send_message c.processor

  unfoldable pub has_messages_to_send : Channel F M → Bool
  has_messages_to_send c = Processor.has_messages_to_send c.processor

  unfoldable pub receive_message : Channel F M → Run (Channel F M × Option (ℕ × M))
  receive_message c = if is_error c.error_level then ok (c, none) else do
    (processor, result) ← Processor.receive_message c.processor
    elim result [
      | none ↦ ok (record c { processor = processor }, none)
      | some message ↦ ok (
        record c {
          processor = processor;
          counters = record (c.counters) { received = c.counters.received + 1 };
        },
        some message,
      )
    ]

module _ {F M : Type 0} ⦃f : Float F⦄ ⦃m : NetworkMessage M⦄ where
  unfoldable pub send_message : Channel F M → M → Run (Channel F M)
  send_message c message = if is_error c.error_level then ok c else do
    free ← can_send_message c
    let sending = do
      processor ← Processor.send_message c.processor message
      ok (record c {
        processor = processor;
        counters = record (c.counters) { sent = c.counters.sent + 1 };
      })
    if free then sending else ok (set_error_level c send_queue_full)

  unfoldable pub packet_data : Channel F M → ℕ → ℕ → Run (Channel F M × ChannelPacketData M × ℕ)
  packet_data c packet_sequence available_bits = do
    (processor, packet, bits) ←
        Processor.packet_data c.processor c.config c.channel_index packet_sequence available_bits
    ok (record c { processor = processor }, packet, bits)
