-- ===== src/Reliable/Oldest.antt =====
-- The loop of `update_oldest_unacked_message_id` ends, and finds the oldest id that is still in the
-- send queue (src/channel/reliable.rs).
use yojimbo_rs.Prelude.{
  ℕ, zero, suc, ◌+◌, ◌<◌, ◌≤◌, ◌≡◌, ◌⊎◌, inl, inr, true, false, ◌==◌, arith, Bool-cases,
}
use yojimbo_rs.Run.{ok}
use yojimbo_rs.Word.{u16_modulus, wrapping_add, wrapping_sub, sequence_greater_than}
use yojimbo_rs.SequenceBuffer.{SequenceBuffer, sequence_pointer}
use yojimbo_rs.SequenceBuffer.View.{IsValid, holds, exists-eq}
use yojimbo_rs.Reliable.{MessageSendQueueEntry}
use yojimbo_rs.Reliable.Ack.{advance_oldest, update_oldest_unacked_message_id}

-- From `oldest` on, `found` is the first id that is in the queue or is the stop.
pub record IsFirst {A : Type 0} (queue : SequenceBuffer A) (oldest found : ℕ) : Type 0 where
  pub steps : ℕ
  pub ahead : found ≡ wrapping_add oldest steps
  pub before_stop : steps ≤ wrapping_sub queue.sequence oldest
  pub skipped : (k : ℕ) → k < steps → holds queue (wrapping_add oldest k) ≡ false
  pub ends : (found ≡ queue.sequence) ⊎ (holds queue found ≡ true)

module _ {A : Type 0} {queue : SequenceBuffer A} (v : IsValid queue) where
  not_past :
      (oldest found : ℕ)
      → oldest < u16_modulus
      → wrapping_sub queue.sequence oldest < 32768
      → IsFirst queue oldest found
      → sequence_greater_than found queue.sequence ≡ false
  unfolding sequence_greater_than
  not_past oldest found h near first = ground (arith, v.pointer, first.ahead, first.before_stop)

  skip-IsFirst :
      (oldest found : ℕ)
      → oldest < u16_modulus
      → holds queue oldest ≡ false
      → wrapping_sub queue.sequence (wrapping_add oldest 1) + 1 ≡ wrapping_sub queue.sequence oldest
      → IsFirst queue (wrapping_add oldest 1) found
      → IsFirst queue oldest found
  skip-IsFirst oldest found h gone closer first = record {
    steps = first.steps + 1;
    ahead = omega arith;
    before_stop = omega arith;
    skipped = past;
    ends = first.ends;
  }
    where
      past : (k : ℕ) → k < first.steps + 1 → holds queue (wrapping_add oldest k) ≡ false
      past zero less = let here : wrapping_add oldest 0 ≡ oldest = omega arith in rw here gone
      past (suc k) less =
          let shift : wrapping_add oldest (suc k) ≡ wrapping_add (wrapping_add oldest 1) k =
            omega arith in
          rw shift (first.skipped k (omega arith))

module _ {F M : Type 0} {queue : SequenceBuffer (MessageSendQueueEntry F M)}
    (v : IsValid queue) where
  advance_oldest_ends :
      (fuel oldest : ℕ)
      → oldest < u16_modulus
      → wrapping_sub queue.sequence oldest < fuel
      → (found : ℕ) × (advance_oldest queue fuel oldest ≡ ok found) × IsFirst queue oldest found
  unfolding advance_oldest sequence_pointer
  advance_oldest_ends zero oldest h enough = absurd (omega arith)
  advance_oldest_ends (suc fuel) oldest h enough = elim (Bool-cases (oldest == queue.sequence)) [
    | inl stop ↦ (
      oldest,
      rw stop,
      record {
        steps = 0;
        ahead = omega arith;
        before_stop = omega arith;
        skipped = λ k less. absurd (omega arith);
        ends = inl (ground arith);
      },
    )
    | inr go ↦ elim (Bool-cases (holds queue oldest)) [
      | inl here ↦ (
        oldest,
        rw (go, exists-eq v oldest, here),
        record {
          steps = 0;
          ahead = omega arith;
          before_stop = omega arith;
          skipped = λ k less. absurd (omega arith);
          ends = inr here;
        },
      )
      | inr gone ↦
          let closer : wrapping_sub queue.sequence (wrapping_add oldest 1) + 1
              ≡ wrapping_sub queue.sequence oldest =
            ground (arith, v.pointer) in
          let (found, e, first) =
            advance_oldest_ends fuel (wrapping_add oldest 1) (omega arith) (omega arith) in
          (
            found,
            rw (go, exists-eq v oldest, gone) e,
            skip-IsFirst v oldest found h gone closer first,
          )
    ]
  ]

  -- On a valid queue, if the oldest id is a u16 and fewer than 32768 numbers lie between it and
  -- the queue's next id, the search for the oldest unacked id ends without a panic or lack of
  -- fuel, at the first id that is in the queue or at the queue's next id.
  pub update_oldest_finds :
      (oldest : ℕ)
      → oldest < u16_modulus
      → wrapping_sub queue.sequence oldest < 32768
      → (found : ℕ) × (update_oldest_unacked_message_id oldest queue ≡ ok found)
        × IsFirst queue oldest found
  unfolding update_oldest_unacked_message_id sequence_pointer
  update_oldest_finds oldest h near =
      let (found, e, first) = advance_oldest_ends u16_modulus oldest h (omega arith) in
      (found, rw (e, not_past v oldest found h near first), first)
