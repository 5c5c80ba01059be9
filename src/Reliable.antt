-- ===== src/Reliable.antt =====
-- The reliable, ordered channel (src/channel/reliable.rs).
pub mod Send
pub mod Receive
pub mod Ack
pub mod Oldest
pub mod History
pub mod Traffic
pub mod Acked
pub mod Arrived
pub mod Delivered
pub mod Sent
pub mod Session
pub mod Agreement
pub mod InOrder
pub mod Gathering
pub mod Budget
pub mod Accepts
pub mod Removes
pub mod Receiving
pub mod InWindow
pub mod Awaited
pub mod Loop
pub mod Due
pub mod Rising
pub mod Progress
pub mod Rounds
pub mod Packs
pub mod Ready
pub mod Uses
use yojimbo_rs.Prelude.{
  ℕ, zero, suc, ◌+◌, ◌-◌, ◌*◌, ◌%◌, min, Bool, true, false, not, ◌&&◌, Option, none, some, List, [],
  ◌∷◌, ◌++◌, length, set, take, drop, replicate, ltb, leb, ◌==◌, if◌then◌else◌,
}
use yojimbo_rs.Run.{
  Run, ok, panic, ◌>>=◌, ◌>>◌, assert, expect_some, sub_usize, unwrap_none, index_out_of_bounds,
  remainder_by_zero, desync_newer, desync_older, out_of_fuel,
}
use yojimbo_rs.Float.{Float}
use yojimbo_rs.Message.{NetworkMessage, measured_bits}
use yojimbo_rs.Config.{ChannelConfig, ChannelType, conservative_message_header_bits, give_up_bits}
use yojimbo_rs.Word.{wrapping_add, sequence_greater_than, sequence_less_than, u16_modulus}
use yojimbo_rs.SequenceBuffer
use yojimbo_rs.SequenceBuffer.{SequenceBuffer, capacity, sequence_pointer}
use yojimbo_rs.Packet.{ChannelPacketData, empty}

pub record MessageSendQueueEntry (F M : Type 0) : Type 0 where
  pub message_id : ℕ
  pub message : M
  pub time_last_sent : F
  pub measured_bits : ℕ

pub record MessageReceiveQueueEntry (M : Type 0) : Type 0 where
  pub message_id : ℕ
  pub message : M

pub record SentPacketEntry (F : Type 0) : Type 0 where
  pub time_sent : F
  -- The start and the length of a run of `sent_packet_message_ids`.
  pub message_ids : ℕ × ℕ
  pub acked : Bool

pub record Reliable (F M : Type 0) : Type 0 where
  pub time : F
  pub config : ChannelConfig F
  pub send_message_id : ℕ
  pub receive_message_id : ℕ
  pub oldest_unacked_message_id : ℕ
  pub sent_packet_message_ids : List ℕ
  pub sent_packets : SequenceBuffer (SentPacketEntry F)
  pub message_send_queue : SequenceBuffer (MessageSendQueueEntry F M)
  pub message_receive_queue : SequenceBuffer (MessageReceiveQueueEntry M)

abbrev pub is_reliable : ChannelType → Bool
is_reliable ChannelType.reliable_ordered = true
is_reliable ChannelType.unreliable_unordered = false

module _ {F M : Type 0} where
  unfoldable pub new : ChannelConfig F → F → Run (Reliable F M)
  new config time = do
    assert (is_reliable config.kind)
    sent_packets ← SequenceBuffer.new config.sent_packet_buffer_size
    message_send_queue ← SequenceBuffer.new config.message_send_queue_size
    message_receive_queue ← SequenceBuffer.new config.message_receive_queue_size
    ok (record {
      time = time;
      config = config;
      send_message_id = 0;
      receive_message_id = 0;
      oldest_unacked_message_id = 0;
      sent_packet_message_ids =
          replicate (config.max_messages_per_packet * config.sent_packet_buffer_size) 0;
      sent_packets = sent_packets;
      message_send_queue = message_send_queue;
      message_receive_queue = message_receive_queue;
    })

  unfoldable pub advance_time : Reliable F M → F → Reliable F M
  advance_time r new_time = record r { time = new_time }

  unfoldable pub reset : Reliable F M → Reliable F M
  reset r = record r {
    send_message_id = 0;
    receive_message_id = 0;
    oldest_unacked_message_id = 0;
    sent_packets = SequenceBuffer.reset r.sent_packets;
    message_send_queue = SequenceBuffer.reset r.message_send_queue;
    message_receive_queue = SequenceBuffer.reset r.message_receive_queue;
  }

  unfoldable pub has_messages_to_send : Reliable F M → Bool
  has_messages_to_send r = not (r.oldest_unacked_message_id == r.send_message_id)

  unfoldable pub can_send_message : Reliable F M → Run Bool
  can_send_message r = SequenceBuffer.available r.message_send_queue r.send_message_id

  -- The body of `receive_message` past the lookup, with the queue after it.
  unfoldable pub deliver_entry :
      Reliable F M
      → SequenceBuffer (MessageReceiveQueueEntry M)
      → Option (MessageReceiveQueueEntry M)
      → Run (Reliable F M × Option (ℕ × M))
  deliver_entry r queue none = ok (record r { message_receive_queue = queue }, none)
  deliver_entry r queue (some entry) = do
    assert (entry.message_id == r.receive_message_id)
    ok (
      record r {
        message_receive_queue = queue;
        receive_message_id = wrapping_add r.receive_message_id 1;
      },
      some (entry.message_id, entry.message),
    )

  unfoldable pub receive_message : Reliable F M → Run (Reliable F M × Option (ℕ × M))
  receive_message r = do
    (e, queue) ← SequenceBuffer.take r.message_receive_queue r.receive_message_id
    deliver_entry r queue e

-- `send_message`, with the callback of `insert_with` written out.
module _ {F M : Type 0} ⦃f : Float F⦄ ⦃m : NetworkMessage M⦄ where
  unfoldable pub send_entry : ℕ → M → Run (MessageSendQueueEntry F M)
  send_entry id message = do
    bits ← measured_bits message
    ok (record {
      message_id = id;
      message = message;
      measured_bits = bits;
      time_last_sent = f.neg (f.decimal 10 1);
    })

  unfoldable pub send_message : Reliable F M → M → Run (Reliable F M)
  send_message r message = do
    free ← can_send_message r
    assert free
    (queue, result) ←
        SequenceBuffer.insert_with r.message_send_queue r.send_message_id
          (send_entry r.send_message_id message)
    assert result
    ok (record r { message_send_queue = queue; send_message_id = wrapping_add r.send_message_id 1 })
