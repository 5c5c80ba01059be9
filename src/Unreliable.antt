-- ===== src/Unreliable.antt =====
-- The unreliable, unordered channel (src/channel/unreliable.rs).
pub mod Fill
pub mod Taking
use yojimbo_rs.Prelude.{
  ℕ, ◌+◌, ◌-◌, Bool, true, false, not, ◌||◌, Option, none, some, List, [], ◌∷◌, ◌++◌, length, min,
  ltb, leb, ◌==◌, ◌*◌, if◌then◌else◌,
}
use yojimbo_rs.Run.{Run, ok, ◌>>=◌, ◌>>◌, assert}
use yojimbo_rs.Message.{NetworkMessage, measured_bits}
use yojimbo_rs.Config.{ChannelConfig, ChannelType, conservative_message_header_bits, give_up_bits}
use yojimbo_rs.Deque.{Deque, with_capacity, len, clear, push_back, pop_front}
use yojimbo_rs.Packet.{ChannelPacketData, empty}

pub record Unreliable (M : Type 0) : Type 0 where
  pub message_send_queue : Deque M
  pub message_receive_queue : Deque (ℕ × M)

abbrev is_unreliable : ChannelType → Bool
is_unreliable ChannelType.reliable_ordered = false
is_unreliable ChannelType.unreliable_unordered = true

abbrev pub is_empty {ℓ} : {A : Type ℓ} → List A → Bool
is_empty [] = true
is_empty (x ∷ xs) = false

module _ {M : Type 0} where
  unfoldable pub new : {F : Type 0} → ChannelConfig F → Run (Unreliable M)
  new config = do
    assert (is_unreliable config.kind)
    ok (record {
      message_send_queue = with_capacity config.message_send_queue_size;
      message_receive_queue = with_capacity config.message_receive_queue_size;
    })

  unfoldable pub reset : Unreliable M → Unreliable M
  reset u = record {
    message_send_queue = clear u.message_send_queue;
    message_receive_queue = clear u.message_receive_queue;
  }

  unfoldable pub can_send_message : Unreliable M → Run Bool
  can_send_message u = do
    assert (ltb 0 u.message_send_queue.capacity)
    ok (ltb (len u.message_send_queue) u.message_send_queue.capacity)

  -- It says `is_empty`, not its negation.
  unfoldable pub has_messages_to_send : Unreliable M → Bool
  has_messages_to_send u = is_empty u.message_send_queue.items

  unfoldable pub send_message : Unreliable M → M → Unreliable M
  unfolding push_back
  send_message u message = record u { message_send_queue = push_back u.message_send_queue message }

  unfoldable pub receive_message : Unreliable M → Unreliable M × Option (ℕ × M)
  unfolding pop_front
  receive_message u =
      let (e, queue) = pop_front u.message_receive_queue in
      (record u { message_receive_queue = queue }, e)

  -- The loop of `process_packet_data`.
  unfoldable pub receive_all : ℕ → Deque (ℕ × M) → List (ℕ × M) → Deque (ℕ × M)
  unfolding push_back
  receive_all packet_sequence queue [] = queue
  receive_all packet_sequence queue ((_, message) ∷ rest) =
      receive_all packet_sequence
        (if ltb (len queue) queue.capacity
          then push_back queue (packet_sequence, message)
          else queue)
        rest

  unfoldable pub process_packet_data : Unreliable M → ChannelPacketData M → ℕ → Unreliable M
  unfolding receive_all
  process_packet_data u packet packet_sequence = record u {
    message_receive_queue = receive_all packet_sequence u.message_receive_queue packet.messages;
  }

module _ {M : Type 0} ⦃m : NetworkMessage M⦄ (available limit packet_sequence : ℕ) where
  -- The end of the loop's body, for a message of so many bits: it is dropped if it does not fit.
  unfoldable pub consider : M → ℕ → ℕ × List (ℕ × M) → Run (ℕ × List (ℕ × M))
  consider message bits (used, taken) = if ltb available (used + bits) then ok (used, taken) else do
    assert (leb (used + bits) available)
    ok (used + bits, taken ++ ((packet_sequence, message) ∷ []))

  -- The loop of `packet_data`: the messages left in the queue, the bits used and the messages taken.
  unfoldable pub fill : List M → ℕ × List (ℕ × M) → Run (List M × ℕ × List (ℕ × M))
  unfolding consider
  fill [] (used, taken) = ok ([], used, taken)
  fill (message ∷ rest) (used, taken) =
      let body = do
        bits ← measured_bits message
        state ← consider message bits (used, taken)
        fill rest state
      in if ltb (available - used) give_up_bits || (length taken == limit)
        then ok (message ∷ rest, used, taken)
        else body

abbrev pub budget_bits : Option ℕ → ℕ → ℕ
budget_bits none available = available
budget_bits (some bytes) available = min (bytes * 8) available

-- The end of `packet_data`, from what the loop leaves.
unfoldable pub packet_of :
    {M : Type 0}
    → Unreliable M
    → ℕ
    → List M
    → ℕ
    → List (ℕ × M)
    → Unreliable M × ChannelPacketData M × ℕ
packet_of u channel_index left used [] =
    (record u { message_send_queue = record (u.message_send_queue) { items = left } }, empty, 0)
packet_of u channel_index left used (message ∷ messages) = (
  record u { message_send_queue = record (u.message_send_queue) { items = left } },
  record { channel_index = channel_index; messages = message ∷ messages },
  used,
)

module _ {F M : Type 0} ⦃m : NetworkMessage M⦄ where
  unfoldable pub packet_data :
      Unreliable M → ChannelConfig F → ℕ → ℕ → ℕ → Run (Unreliable M × ChannelPacketData M × ℕ)
  packet_data u config channel_index packet_sequence available_bits =
      if is_empty u.message_send_queue.items then ok (u, empty, 0) else do
        (left, used, messages) ←
            fill (budget_bits config.packet_budget available_bits) config.max_messages_per_packet
              packet_sequence u.message_send_queue.items (conservative_message_header_bits, [])
        ok (packet_of u channel_index left used messages)
