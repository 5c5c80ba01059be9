-- ===== src/Reliable/InWindow.antt =====
-- A message within the receive window is stored (`process_packet_data` in src/channel/reliable.rs).
use yojimbo_rs.Prelude.{
  Option, none, subst, ==→eq, ℕ, ◌-◌, ◌%◌, ◌<◌, ◌≡◌, refl, ◌∙◌, ◌⊎◌, inl, inr, true, false, some,
  List, [], ◌∷◌, leb, ◌==◌, if◌then◌else◌, arith, Bool-cases,
}
use yojimbo_rs.Run.{ok}
use yojimbo_rs.Word.{
  u16_modulus, wrapping_add, wrapping_sub, sequence_greater_than, sequence_less_than,
}
use yojimbo_rs.SequenceBuffer.{SequenceBuffer, capacity}
use yojimbo_rs.SequenceBuffer.View.{entry}
use yojimbo_rs.Reliable.{Reliable, MessageReceiveQueueEntry}
use yojimbo_rs.Reliable.Receive.{receive_all, process_packet_data}
use yojimbo_rs.Packet.{ChannelPacketData}
use yojimbo_rs.Reliable.Receiving.{IsReceiving, receive_one-Stores}

-- The message that a packet brings for an id, the last one if there are several; otherwise the one
-- that was there.
abbrev pub brought : {M : Type 0} → ℕ → List (ℕ × M) → Option M → Option M
brought next [] old = old
brought next ((id, m) ∷ ms) old = brought next ms (if id == next then some m else old)

-- The entry of the receive queue for a message.
abbrev pub entry_of : {M : Type 0} → ℕ → Option M → Option (MessageReceiveQueueEntry M)
entry_of id none = none
entry_of id (some m) = some (record { message_id = id; message = m })

-- Each id is a u16 inside the window of this size, or before the next one.
abbrev pub AllExpected : {M : Type 0} → ℕ → ℕ → List (ℕ × M) → Type 0
AllExpected next size [] = Unit
AllExpected next size ((id, m) ∷ ms) =
    (id < u16_modulus)
    × ((sequence_less_than id next ≡ true) ⊎ (wrapping_sub id next < size))
    × AllExpected next size ms

not_newer :
    (next size id : ℕ)
    → next < u16_modulus
    → id < u16_modulus
    → size < 32768
    → wrapping_sub id next < size
    → sequence_greater_than id (wrapping_add next ((size - 1) % u16_modulus)) ≡ false
unfolding sequence_greater_than
not_newer next size id hn hi narrow inside = ground arith

-- What a packet of such messages does to the receive queue.
pub record Taken {M : Type 0} (next most : ℕ) (queue : SequenceBuffer (MessageReceiveQueueEntry M))
    (ms : List (ℕ × M)) : Type 0 where
  pub after : SequenceBuffer (MessageReceiveQueueEntry M)
  pub returns : receive_all next most queue ms ≡ ok after
  pub receiving : IsReceiving next after
  pub awaited :
      (old : Option M)
      → entry queue next ≡ entry_of next old
      → entry after next ≡ entry_of next (brought next ms old)

older_other : (next id : ℕ) → sequence_less_than id next ≡ true → (id == next) ≡ false
unfolding sequence_less_than sequence_greater_than
older_other next id h = ground arith

module _ {M : Type 0} (next size : ℕ) (next_u16 : next < u16_modulus) where
  receive_all-Taken :
      (queue : SequenceBuffer (MessageReceiveQueueEntry M)) (ms : List (ℕ × M))
      → capacity queue ≡ size
      → IsReceiving next queue
      → AllExpected next size ms
      → Taken next (wrapping_add next ((size - 1) % u16_modulus)) queue ms
  unfolding receive_all
  receive_all-Taken queue [] c k all = record {
    after = queue;
    returns = refl;
    receiving = k;
    awaited = λ old h. h;
  }
  receive_all-Taken queue ((id, m) ∷ ms) c k (id_u16, expected, all) =
      elim (Bool-cases (sequence_less_than id next)) [
        | inl old ↦
            let t = receive_all-Taken queue ms c k all in
            record {
              after = t.after;
              returns = rw old t.returns;
              receiving = t.receiving;
              awaited = λ before h. rw (older_other next id old) (t.awaited before h);
            }
        | inr new ↦
            let inside : wrapping_sub id next < size = elim expected [
              | inl old ↦ absurd (cc old)
              | inr inside ↦ inside
            ] in
            let s =
              receive_one-Stores next queue id m next_u16 id_u16 k (omega (arith, c, inside)) in
            let t = receive_all-Taken s.after ms (s.same_capacity ∙ c) s.receiving all in
            record {
              after = t.after;
              returns =
                  rw
                    (
                      new,
                      not_newer next size id next_u16 id_u16 (omega (arith, c, k.narrow)) inside,
                      s.returns,
                    )
                    t.returns;
              receiving = t.receiving;
              awaited = λ before h. elim (Bool-cases (id == next)) [
                | inl here ↦ rw here (
                    t.awaited (some m) (
                      subst (λ x. entry s.after x ≡ some (record { message_id = x; message = m }))
                        (==→eq id next here) s.stored))
                | inr other ↦ rw other (t.awaited before (s.kept other ∙ h))
              ];
            }
      ]

-- `process_packet_data` of such a packet.
pub process_packet_data-Taken :
    {F M : Type 0} (r : Reliable F M) (packet : ChannelPacketData M)
    → r.receive_message_id < u16_modulus
    → IsReceiving r.receive_message_id r.message_receive_queue
    → AllExpected r.receive_message_id (capacity r.message_receive_queue) packet.messages
    → (t : Taken r.receive_message_id
        (wrapping_add r.receive_message_id ((capacity r.message_receive_queue - 1) % u16_modulus))
        r.message_receive_queue
        packet.messages)
      × (process_packet_data r packet ≡ ok (record r { message_receive_queue = t.after }))
unfolding process_packet_data
process_packet_data-Taken r packet next_u16 k all =
    let t =
      receive_all-Taken r.receive_message_id (capacity r.message_receive_queue) next_u16
        r.message_receive_queue packet.messages refl k all in
    (t, rw (not_empty, t.returns))
  where
    not_empty : leb 1 (capacity r.message_receive_queue) ≡ true
    not_empty = ground (arith, k.valid.positive)

-- With a receive queue that is valid and recent, of less than 32768 slots and at most one window
-- past the next id to receive, `process_packet_data` of a packet whose ids all lie inside the
-- window or before it returns, without either of the desync panics, and leaves the queue so, at
-- the same next id.
pub process_packet_data_returns :
    {F M : Type 0} (r : Reliable F M) (packet : ChannelPacketData M)
    → r.receive_message_id < u16_modulus
    → IsReceiving r.receive_message_id r.message_receive_queue
    → AllExpected r.receive_message_id (capacity r.message_receive_queue) packet.messages
    → (r' : Reliable F M) × (process_packet_data r packet ≡ ok r')
      × (r'.receive_message_id ≡ r.receive_message_id)
      × IsReceiving r.receive_message_id r'.message_receive_queue
process_packet_data_returns r packet next_u16 k all =
    let (t, returns) = process_packet_data-Taken r packet next_u16 k all in
    (record r { message_receive_queue = t.after }, returns, refl, t.receiving)
