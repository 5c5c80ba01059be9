-- ===== src/Reliable/Receiving.antt =====
-- One received message inside the receive window (`process_packet_data` in src/channel/reliable.rs).
use yojimbo_rs.Prelude.{
  ℕ, lt→ltb, ◌<◌, ◌≤◌, ◌≡◌, refl, ap, ◌∙◌, inl, inr, true, false, some, ◌==◌, if◌then◌else◌, arith,
  Bool-cases,
}
use yojimbo_rs.Run.{ok}
use yojimbo_rs.Word.{u16_modulus, wrapping_add, wrapping_sub, sequence_greater_than}
use yojimbo_rs.SequenceBuffer.{SequenceBuffer, capacity}
use yojimbo_rs.SequenceBuffer.View.{IsValid, entry}
use yojimbo_rs.SequenceBuffer.Slots.{age}
use yojimbo_rs.SequenceBuffer.Window.{IsRecent, Window, slide, window}
use yojimbo_rs.SequenceBuffer.Refine.{insert_with-Slides}
use yojimbo_rs.Reliable.{MessageReceiveQueueEntry}
use yojimbo_rs.Reliable.Receive.{receive_one}

-- A receive queue between receives of the ids from `next` on.
pub record IsReceiving {M : Type 0} (next : ℕ) (queue : SequenceBuffer (MessageReceiveQueueEntry M))
    : Type 0 where
  pub valid : IsValid queue
  pub recent : IsRecent queue
  -- With 32768 slots the newest id of the window is as far ahead as behind.
  pub narrow : capacity queue < 32768
  pub within : wrapping_sub queue.sequence next ≤ capacity queue

module _ (next size sequence id : ℕ) (next_u16 : next < u16_modulus) (narrow : size < 32768)
    (pointer : sequence < u16_modulus) (id_u16 : id < u16_modulus)
    (within : wrapping_sub sequence next ≤ size) (inside : wrapping_sub id next < size) where
  young : sequence_greater_than (wrapping_add id 1) sequence ≡ false → age sequence id < size
  unfolding sequence_greater_than
  young behind = ground arith

  pointer_within :
      wrapping_sub
        (if sequence_greater_than (wrapping_add id 1) sequence then wrapping_add id 1 else sequence)
        next
      ≤ size
  unfolding sequence_greater_than
  pointer_within = ground arith

-- Where the window slides to for a number that it accepts.
slide-accepts :
    {A : Type 0} (size : ℕ) (w : Window A) (s : ℕ) (a : A)
    → (sequence_greater_than (wrapping_add s 1) w.next ≡ false → age w.next s < size)
    → ((slide size w s a).1 ≡ true)
      × ((slide size w s a).0.at s ≡ some a)
      × ((slide size w s a).0.next
          ≡ (if sequence_greater_than (wrapping_add s 1) w.next then wrapping_add s 1 else w.next))
slide-accepts size w s a h = elim (Bool-cases (sequence_greater_than (wrapping_add s 1) w.next)) [
  | inl ahead ↦ rw (ahead, self s) (refl, refl, refl)
  | inr behind ↦ rw (behind, lt→ltb (age w.next s) size (h behind), self s) (refl, refl, refl)
]
  where
    self : (s : ℕ) → (s == s) ≡ true
    self s = ground arith

-- An accepted number leaves the others that stay inside the window.
slide-keeps :
    {A : Type 0} (size : ℕ) (w : Window A) (s t : ℕ) (a : A)
    → (s == t) ≡ false
    → (sequence_greater_than (wrapping_add s 1) w.next ≡ false → age w.next s < size)
    → age (wrapping_add s 1) t < size
    → (slide size w s a).0.at t ≡ w.at t
slide-keeps size w s t a other h inside =
    elim (Bool-cases (sequence_greater_than (wrapping_add s 1) w.next)) [
      | inl ahead ↦ rw (ahead, other, lt→ltb (age (wrapping_add s 1) t) size inside)
      | inr behind ↦ rw (behind, lt→ltb (age w.next s) size (h behind), other)
    ]

age_of_next :
    (next size id : ℕ)
    → next < u16_modulus
    → id < u16_modulus
    → wrapping_sub id next < size
    → age (wrapping_add id 1) next < size
age_of_next next size id hn hi inside = ground arith

-- What a call of `receive_one` gives.
pub record Stores {M : Type 0} (next : ℕ) (queue : SequenceBuffer (MessageReceiveQueueEntry M))
    (id : ℕ) (message : M) : Type 0 where
  pub after : SequenceBuffer (MessageReceiveQueueEntry M)
  pub returns : receive_one queue id message ≡ ok after
  pub receiving : IsReceiving next after
  pub same_capacity : capacity after ≡ capacity queue
  pub stored : entry after id ≡ some (record { message_id = id; message = message })
  pub kept : (id == next) ≡ false → entry after next ≡ entry queue next

module _ {M : Type 0} (next : ℕ) (queue : SequenceBuffer (MessageReceiveQueueEntry M)) (id : ℕ)
    (message : M) where
  -- The message is stored under its id, and the queue stays as it has to be: the panic for an id
  -- that is too old does not occur.
  pub receive_one-Stores :
      next < u16_modulus
      → id < u16_modulus
      → IsReceiving next queue
      → wrapping_sub id next < capacity queue
      → Stores next queue id message
  unfolding receive_one
  receive_one-Stores next_u16 id_u16 k inside =
      let s =
        insert_with-Slides id (record { message_id = id; message = message }) k.valid k.recent
          id_u16 in
      let (accepted, at, pointer) =
        slide-accepts (capacity queue) (window queue) id
          (record { message_id = id; message = message })
          (young next (capacity queue) queue.sequence id next_u16 k.narrow k.valid.pointer id_u16
            k.within inside) in
      let yes : s.accepted ≡ true = ap (λ x. x.1) s.slides ∙ accepted in
      let moved_to = ap (λ x. x.0.next) s.slides ∙ pointer in
      let still =
        pointer_within next (capacity queue) queue.sequence id next_u16 k.narrow k.valid.pointer
          id_u16 k.within inside in
      record {
        after = s.after;
        returns = rw (s.returns, yes);
        receiving = record {
          valid = s.valid;
          recent = s.recent;
          narrow = omega (arith, s.same_capacity, k.narrow);
          within = rw (s.same_capacity, moved_to) still;
        };
        same_capacity = s.same_capacity;
        stored = ap (λ x. x.0.at id) s.slides ∙ at;
        kept = λ other.
            ap (λ x. x.0.at next) s.slides
            ∙ slide-keeps (capacity queue) (window queue) id next
                (record { message_id = id; message = message }) other
                (young next (capacity queue) queue.sequence id next_u16 k.narrow k.valid.pointer
                  id_u16 k.within inside)
                (age_of_next next (capacity queue) id next_u16 id_u16 inside);
      }
