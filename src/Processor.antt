-- ===== src/Processor.antt =====
-- The calls through `Box<dyn Processor<M>>` (src/channel/processor.rs), of the two kinds of
-- channels that implement the trait.
use yojimbo_rs.Prelude.{ℕ, Bool, Option}
use yojimbo_rs.Run.{Run, ok, ◌>>=◌}
use yojimbo_rs.Float.{Float}
use yojimbo_rs.Message.{NetworkMessage}
use yojimbo_rs.Config.{ChannelConfig, ChannelType}
use yojimbo_rs.Packet.{ChannelPacketData}
use yojimbo_rs.Reliable
use yojimbo_rs.Reliable.{Reliable}
use yojimbo_rs.Reliable.Send
use yojimbo_rs.Reliable.Receive
use yojimbo_rs.Reliable.Ack
use yojimbo_rs.Unreliable
use yojimbo_rs.Unreliable.{Unreliable}

pub data Processor (F M : Type 0) : Type 0 where
  reliable : Reliable F M → Processor F M
  unreliable : Unreliable M → Processor F M

module _ {F M : Type 0} where
  -- The `match` of `Channel::new`.
  unfoldable pub new : ChannelConfig F → F → ChannelType → Run (Processor F M)
  new config time ChannelType.reliable_ordered = do r ← Reliable.new config time; ok (reliable r)
  new config time ChannelType.unreliable_unordered = do u ← Unreliable.new config; ok (unreliable u)

  unfoldable pub advance_time : Processor F M → F → Processor F M
  advance_time (reliable r) new_time = reliable (Reliable.advance_time r new_time)
  advance_time (unreliable u) new_time = unreliable u

  unfoldable pub reset : Processor F M → Processor F M
  reset (reliable r) = reliable (Reliable.reset r)
  reset (unreliable u) = unreliable (Unreliable.reset u)

  unfoldable pub can_send_message : Processor F M → Run Bool
  can_send_message (reliable r) = Reliable.can_send_message r
  can_send_message (unreliable u) = Unreliable.can_send_message u

  unfoldable pub has_messages_to_send : Processor F M → Bool
  has_messages_to_send (reliable r) = Reliable.has_messages_to_send r
  has_messages_to_send (unreliable u) = Unreliable.has_messages_to_send u

  unfoldable pub receive_message : Processor F M → Run (Processor F M × Option (ℕ × M))
  receive_message (reliable r) = do (r', e) ← Reliable.receive_message r; ok (reliable r', e)
  receive_message (unreliable u) =
      let (u', e) = Unreliable.receive_message u in ok (unreliable u', e)

  unfoldable pub process_packet_data : Processor F M → ChannelPacketData M → ℕ → Run (Processor F M)
  process_packet_data (reliable r) packet packet_sequence = do
    r' ← Receive.process_packet_data r packet
    ok (reliable r')
  process_packet_data (unreliable u) packet packet_sequence =
      ok (unreliable (Unreliable.process_packet_data u packet packet_sequence))

  unfoldable pub process_ack : Processor F M → ℕ → Run (Processor F M)
  process_ack (reliable r) ack = do r' ← Ack.process_ack r ack; ok (reliable r')
  process_ack (unreliable u) ack = ok (unreliable u)

module _ {F M : Type 0} ⦃f : Float F⦄ ⦃m : NetworkMessage M⦄ where
  unfoldable pub send_message : Processor F M → M → Run (Processor F M)
  send_message (reliable r) message = do r' ← Reliable.send_message r message; ok (reliable r')
  send_message (unreliable u) message = ok (unreliable (Unreliable.send_message u message))

  -- The processor afterwards, the messages and the bits used.
  unfoldable pub packet_data :
      Processor F M → ChannelConfig F → ℕ → ℕ → ℕ → Run (Processor F M × ChannelPacketData M × ℕ)
  packet_data (reliable r) config channel_index packet_sequence available_bits = do
    (r', packet, bits) ← Send.packet_data r channel_index packet_sequence available_bits
    ok (reliable r', packet, bits)
  packet_data (unreliable u) config channel_index packet_sequence available_bits = do
    (u', packet, bits) ←
        Unreliable.packet_data u config channel_index packet_sequence available_bits
    ok (unreliable u', packet, bits)
