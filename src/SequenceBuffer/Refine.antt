-- ===== src/SequenceBuffer/Refine.antt =====
-- `insert_with` (src/channel/sequence_buffer.rs) implements the sliding window.
use mathlib.Core.Path.{fun_ext}
use yojimbo_rs.Prelude.{
  ℕ, ◌%◌, ◌<◌, ◌≤◌, ◌≡◌, refl, ◌∙◌, inl, inr, Bool, true, false, some, ltb, ◌==◌, if◌then◌else◌,
  arith, Bool-cases, ltb→lt, ltb→ge, ge→ltb, lt→ltb, not, length-set,
}
use yojimbo_rs.Run.{ok}
use yojimbo_rs.Word.{
  u16_modulus, wrapping_sub, wrapping_add, sequence_greater_than, sequence_less_than,
}
use yojimbo_rs.SequenceBuffer.{SequenceBuffer, capacity, insert_with}
use yojimbo_rs.SequenceBuffer.Slots.{age, slot_injective}
use yojimbo_rs.SequenceBuffer.View.{holds, entry, IsValid}
use yojimbo_rs.SequenceBuffer.Insert.{
  placed, store-eq, entry-placed, holds-placed, moved, capacity-moved,
}
use yojimbo_rs.SequenceBuffer.Window.{IsRecent, half_circle}
use yojimbo_rs.SequenceBuffer.Insert.{moved-IsValid, placed-IsValid}
use yojimbo_rs.SequenceBuffer.Window.{Window, slide, window}
use yojimbo_rs.SequenceBuffer.Ahead.{insert-ahead, entry-ahead, ahead-IsRecent}

module _ {A : Type 0} {b : SequenceBuffer A} (v : IsValid b) (r : IsRecent b) (s : ℕ)
    (hs : s < u16_modulus) (a : A)
    (behind : sequence_greater_than (wrapping_add s 1) b.sequence ≡ false) where
  -- The code's test for a number that is too old is the test of its age.
  too_old :
      sequence_less_than s (wrapping_sub b.sequence (capacity b % u16_modulus))
      ≡ not (ltb (age b.sequence s) (capacity b))
  unfolding sequence_greater_than sequence_less_than
  too_old =
      ground (arith, half_circle (capacity b) r.period r.fits v.small, v.small, r.wide, v.pointer)

  insert-old : capacity b ≤ age b.sequence s → insert_with b s (ok a) ≡ ok (b, false)
  unfolding insert_with
  insert-old h = rw (behind, too_old, ge→ltb (age b.sequence s) (capacity b) h)

  module _ (young : age b.sequence s < capacity b) where
    insert-inside : insert_with b s (ok a) ≡ ok (placed b s a, true)
    unfolding insert_with
    insert-inside =
        rw (behind, too_old, lt→ltb (age b.sequence s) (capacity b) young)
          (store-eq b s a v.positive v.same_length)

    entry-inside : (t : ℕ) → entry (placed b s a) t ≡ (if s == t then some a else entry b t)
    entry-inside t = elim (Bool-cases (holds b t)) [
      | inl held ↦
          let (ht, old) = r.recent t held in
          ground (
            arith,
            entry-placed b s a v.positive v.same_length t,
            slot_injective (capacity b) r.period r.fits b.sequence s t v.pointer hs ht young old,
          )
      | inr free ↦ ground (arith, entry-placed b s a v.positive v.same_length t)
    ]

    inside-IsRecent : IsRecent (placed b s a)
    inside-IsRecent = record {
      period = r.period;
      fits = rw size r.fits;
      wide = rw size r.wide;
      recent =
          λ t h. ground (arith, holds-placed b s a v.positive v.same_length t, r.recent t, size);
    }
      where
        size : capacity (placed b s a) ≡ capacity b
        size = length-set _ _ _

-- What a call of `insert_with` on `b` has to give.
pub record Slides {A : Type 0} (b : SequenceBuffer A) (s : ℕ) (a : A) : Type 0 where
  pub after : SequenceBuffer A
  pub accepted : Bool
  pub returns : insert_with b s (ok a) ≡ ok (after, accepted)
  pub valid : IsValid after
  pub recent : IsRecent after
  pub same_capacity : capacity after ≡ capacity b
  pub slides :
      ◌≡◌ {A = Window A × Bool} (window after, accepted) (slide (capacity b) (window b) s a)

-- On a valid buffer whose capacity is above 1 and divides 65536, and whose entries are all among
-- the newest as many as that, `insert_with` of a u16 number returns without a panic, gives the
-- map, the newest number and the answer of the sliding window, and keeps the buffer so, and of its
-- capacity.
pub insert_with-Slides :
    {A : Type 0} {b : SequenceBuffer A} (s : ℕ) (a : A)
    → IsValid b
    → IsRecent b
    → s < u16_modulus
    → Slides b s a
insert_with-Slides {b = b} s a v r hs =
    elim (Bool-cases (sequence_greater_than (wrapping_add s 1) b.sequence)) [
      | inl ahead ↦ record {
        after = placed (moved b s) s a;
        accepted = true;
        returns = insert-ahead v r s hs a ahead;
        valid = placed-IsValid (moved-IsValid v s) s a;
        recent = ahead-IsRecent v r s hs a ahead;
        same_capacity =
            length-set (moved b s).entries (s % capacity (moved b s)) (some a) ∙ capacity-moved v s;
        slides = rw (ahead, fun_ext (entry-ahead v r s hs a ahead));
      }
      | inr behind ↦ elim (Bool-cases (ltb (age b.sequence s) (capacity b))) [
        | inl young ↦
            let y = ltb→lt _ _ young in
            record {
              after = placed b s a;
              accepted = true;
              returns = insert-inside v r s hs a behind y;
              valid = placed-IsValid v s a;
              recent = inside-IsRecent v r s hs a behind y;
              same_capacity = length-set b.entries (s % capacity b) (some a);
              slides = rw (behind, young, fun_ext (entry-inside v r s hs a behind y));
            }
        | inr old ↦ record {
          after = b;
          accepted = false;
          returns = insert-old v r s hs a behind (ltb→ge _ _ old);
          valid = v;
          recent = r;
          same_capacity = refl;
          slides = rw (behind, old);
        }
      ]
    ]
