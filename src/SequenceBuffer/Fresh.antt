-- ===== src/SequenceBuffer/Fresh.antt =====
-- New and reset buffers (`new` and `reset` in src/channel/sequence_buffer.rs).
use yojimbo_rs.Prelude.{
  ℕ, zero, suc, ◌%◌, ◌<◌, ◌≡◌, refl, ap, subst, false, Option, none, List, [], ◌∷◌, length,
  get_elem?, replicate, leb, arith, length-replicate,
}
use yojimbo_rs.Run.{ok, >>=-eq-ok, assert}
use yojimbo_rs.SequenceBuffer.{SequenceBuffer, clear_all, capacity, new, reset}
use yojimbo_rs.SequenceBuffer.View.{marks, entry, IsValid}

replicate_none : (n i s : ℕ) → marks (get_elem? (replicate n none) i) s ≡ false
replicate_none zero i s = refl
replicate_none (suc n) zero s = refl
replicate_none (suc n) (suc i) s = replicate_none n i s

clear_none : (es : List (Option ℕ)) (i s : ℕ) → marks (get_elem? (clear_all es) i) s ≡ false
clear_none [] i s = refl
clear_none (e ∷ es) zero s = refl
clear_none (e ∷ es) (suc i) s = clear_none es i s

length-clear : (es : List (Option ℕ)) → length (clear_all es) ≡ length es
length-clear [] = refl
length-clear (e ∷ es) = ap suc (length-clear es)

-- A valid buffer that no number is found in, and whose next number is 0.
pub record Fresh {A : Type 0} (b : SequenceBuffer A) : Type 0 where
  pub valid : IsValid b
  pub free : (s : ℕ) → entry b s ≡ none
  pub first : b.sequence ≡ 0

-- A buffer that `new` returns for a size above 0 is valid and empty.
pub new-Fresh :
    {A : Type 0} (size : ℕ) (b : SequenceBuffer A) → 0 < size → new size ≡ ok b → Fresh b
unfolding new
new-Fresh {A = A} size b positive h =
    let (_, e, q) = >>=-eq-ok (assert (leb size 65535)) _ h in
    let same : made ≡ b = cc in
    subst Fresh same (record {
      valid = record {
        same_length = size-eq;
        positive = omega (arith, positive, length-replicate {A = Option A} size none);
        small = ground (arith, e, length-replicate {A = Option A} size none);
        pointer = omega arith;
        filled = λ s held. absurd (cc (replicate_none size (s % capacity made) s));
      };
      free = λ s. rw (replicate_none size (s % capacity made) s);
      first = refl;
    })
  where
    made : SequenceBuffer A
    made = record {
      sequence = 0;
      entry_sequence = replicate size none;
      entries = replicate size none;
    }

    size-eq :
        length (replicate {A = Option ℕ} size none) ≡ length (replicate {A = Option A} size none)
    size-eq =
        rw (length-replicate {A = Option ℕ} size none, length-replicate {A = Option A} size none)

-- `reset` of a valid buffer leaves it valid and empty, with its capacity.
pub reset-Fresh :
    {A : Type 0} (b : SequenceBuffer A)
    → IsValid b
    → Fresh (reset b) × (capacity (reset b) ≡ capacity b)
unfolding reset
reset-Fresh b v = (
  record {
    valid = record {
      same_length = rw (length-clear b.entry_sequence) v.same_length;
      positive = v.positive;
      small = v.small;
      pointer = omega arith;
      filled = λ s held. absurd (cc (clear_none b.entry_sequence (s % capacity b) s));
    };
    free = λ s. rw (clear_none b.entry_sequence (s % capacity b) s);
    first = refl;
  },
  refl,
)
