-- ===== src/SequenceBuffer/Taken.antt =====
-- `take` on the map that a buffer stands for (src/channel/sequence_buffer.rs).
use yojimbo_rs.Prelude.{ℕ, ◌%◌, ◌≡◌, refl, inl, inr, none, ◌==◌, if◌then◌else◌, arith, Bool-cases}
use yojimbo_rs.Run.{ok}
use yojimbo_rs.SequenceBuffer.{SequenceBuffer, capacity, take, vacate}
use yojimbo_rs.SequenceBuffer.View.{holds, entry, IsValid, take-eq, entry-vacate, vacate-IsValid}

-- What a call of `take` gives.
pub record Takes {A : Type 0} (b : SequenceBuffer A) (s : ℕ) : Type 0 where
  pub after : SequenceBuffer A
  pub returns : take b s ≡ ok (entry b s, after)
  pub valid : IsValid after
  pub removed : (t : ℕ) → entry after t ≡ (if s == t then none else entry b t)
  pub same_sequence : after.sequence ≡ b.sequence

-- On a valid buffer `take` returns the entry of the number, and leaves the map without it and
-- otherwise as it was; the buffer stays valid.
pub take-Takes : {A : Type 0} (b : SequenceBuffer A) (s : ℕ) → IsValid b → Takes b s
take-Takes b s v = elim (Bool-cases (holds b s)) [
  | inl held ↦ record {
    after = vacate b (s % capacity b);
    returns = ground (arith, take-eq v s, held);
    valid = vacate-IsValid v s;
    removed = λ t. ground (arith, entry-vacate v s t, held);
    same_sequence = refl;
  }
  | inr free ↦ record {
    after = b;
    returns = ground (arith, take-eq v s, free);
    valid = v;
    removed = λ t. ground (arith, free);
    same_sequence = refl;
  }
]
