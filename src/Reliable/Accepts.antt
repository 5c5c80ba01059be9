-- ===== src/Reliable/Accepts.antt =====
-- A send on a channel with room succeeds (`send_message` in src/channel/reliable.rs).
use yojimbo_rs.Prelude.{ℕ, ◌+◌, ◌*◌, ◌<◌, ◌≡◌, refl, ap, ◌∙◌, true, none, some, List, length, arith}
use yojimbo_rs.Run.{ok}
use yojimbo_rs.Result.{Result}
use yojimbo_rs.Float.{Float}
use yojimbo_rs.Message
use yojimbo_rs.Message.{NetworkMessage, measured_bits}
use yojimbo_rs.Word.{u16_modulus, wrapping_add, sequence_greater_than}
use yojimbo_rs.SequenceBuffer
use yojimbo_rs.SequenceBuffer.{SequenceBuffer, capacity}
use yojimbo_rs.SequenceBuffer.View.{IsValid, entry}
use yojimbo_rs.SequenceBuffer.Window.{IsRecent}
use yojimbo_rs.SequenceBuffer.Insert.{placed, moved, placed-IsValid, moved-IsValid}
use yojimbo_rs.SequenceBuffer.Ahead.{insert-ahead, entry-ahead, ahead-IsRecent}
use yojimbo_rs.Reliable.{
  Reliable, MessageSendQueueEntry, send_entry, send_message, can_send_message,
}

-- The send queue is valid and recent, and its next number is the id to send next.
pub record IsSending {F M : Type 0} (r : Reliable F M) : Type 0 where
  pub valid : IsValid r.message_send_queue
  pub recent : IsRecent r.message_send_queue
  pub at_end : r.message_send_queue.sequence ≡ r.send_message_id

next_ahead : (s : ℕ) → s < u16_modulus → sequence_greater_than (wrapping_add s 1) s ≡ true
unfolding sequence_greater_than
next_ahead s h = ground arith

module _ {F M : Type 0} ⦃f : Float F⦄ ⦃w : NetworkMessage M⦄ where
  -- What a `send_message` gives.
  pub record Accepts (r : Reliable F M) (message : M) : Type 0 where
    pub after : Reliable F M
    pub returns : send_message r message ≡ ok after
    pub sending : IsSending after
    pub next_id : after.send_message_id ≡ wrapping_add r.send_message_id 1
    pub queued :
        (e : MessageSendQueueEntry F M) × (entry after.message_send_queue r.send_message_id
          ≡ some e)
        × (e.message ≡ message)
        × (e.message_id ≡ r.send_message_id)

  send_entry-ok :
      (id : ℕ) (message : M) (bytes : List ℕ)
      → w.serialize message none ≡ Result.ok bytes
      → send_entry id message
        ≡ ok (record {
          message_id = id;
          message = message;
          measured_bits = 8 * (0 + length bytes);
          time_last_sent = f.neg (f.decimal 10 1);
        })
  unfolding send_entry measured_bits Message.write
  send_entry-ok id message bytes h = rw h

  -- On a channel whose send queue is valid and recent and ends at the next id, if
  -- `can_send_message` says so and the message serializes, `send_message` returns without a panic,
  -- the message is in the send queue under the id, and the next id is one more, where the queue
  -- ends again.
  pub send_message-Accepts :
      (r : Reliable F M) (message : M) (bytes : List ℕ)
      → IsSending r
      → can_send_message r ≡ ok true
      → w.serialize message none ≡ Result.ok bytes
      → Accepts r message
  unfolding send_message
  send_message-Accepts r message bytes k free h = record {
    after = record r {
      message_send_queue = queue;
      send_message_id = wrapping_add r.send_message_id 1;
    };
    returns = rw (free, filled);
    sending = record {
      valid = placed-IsValid (moved-IsValid k.valid id) id made;
      recent = ahead-IsRecent k.valid k.recent id small made ahead;
      at_end = refl;
    };
    next_id = refl;
    queued = (made, entry-ahead k.valid k.recent id small made ahead id ∙ ground arith, refl, refl);
  }
    where
      id : ℕ
      id = r.send_message_id

      small : id < u16_modulus
      small = omega (arith, k.at_end, k.valid.pointer)

      ahead : sequence_greater_than (wrapping_add id 1) r.message_send_queue.sequence ≡ true
      ahead = rw k.at_end (next_ahead id small)

      made : MessageSendQueueEntry F M
      made = record {
        message_id = id;
        message = message;
        measured_bits = 8 * (0 + length bytes);
        time_last_sent = f.neg (f.decimal 10 1);
      }

      queue : SequenceBuffer (MessageSendQueueEntry F M)
      queue = placed (moved r.message_send_queue id) id made

      filled :
          SequenceBuffer.insert_with r.message_send_queue id (send_entry id message)
          ≡ ok (queue, true)
      filled =
          ap (SequenceBuffer.insert_with r.message_send_queue id) (send_entry-ok id message bytes h)
          ∙ insert-ahead k.valid k.recent id small made ahead
