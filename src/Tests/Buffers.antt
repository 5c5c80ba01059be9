-- ===== src/Tests/Buffers.antt =====
-- Sequence buffers of four slots.
use yojimbo_rs.Prelude.{
  ℕ, ◌<◌, ◌≡◌, ◌⊎◌, ◌↔◌, refl, inl, inr, true, false, none, some, [], ◌∷◌, ◌==◌, arith,
}
use yojimbo_rs.Run.{ok}
use yojimbo_rs.Word.{wrapping_sub, sequence_greater_than}
use yojimbo_rs.Word.Order.{greater_iff_ahead}
use yojimbo_rs.Tests.Data.{slot_cases}
use yojimbo_rs.SequenceBuffer
use yojimbo_rs.SequenceBuffer.{SequenceBuffer, capacity, insert_with, new}
use yojimbo_rs.SequenceBuffer.View.{holds, IsValid}
use yojimbo_rs.SequenceBuffer.Window.{IsRecent}
use yojimbo_rs.SequenceBuffer.Refine.{Slides, insert_with-Slides}
use yojimbo_rs.SequenceBuffer.Sound.{Inserted, insert_with_sound}
use yojimbo_rs.SequenceBuffer.Taken.{Takes, take-Takes}

greater_iff_ahead_example : (sequence_greater_than 2 65534 ≡ true) ↔ (
    (0 < wrapping_sub 2 65534)
    × ((wrapping_sub 2 65534 < 32768) ⊎ ((wrapping_sub 2 65534 ≡ 32768) × (65534 < 2))))
greater_iff_ahead_example = greater_iff_ahead 2 65534 (omega arith) (omega arith)

-- The numbers 65534, 65535 and 0, the newest, in four slots.
abbrev wrapped : SequenceBuffer ℕ
wrapped = record {
  sequence = 1;
  entry_sequence = some 0 ∷ none ∷ some 65534 ∷ some 65535 ∷ [];
  entries = some 30 ∷ none ∷ some 10 ∷ some 20 ∷ [];
}

-- The numbers that the buffer holds.
wrapped-holds : (s : ℕ) → holds wrapped s ≡ true → (s ≡ 0) ⊎ ((s ≡ 65534) ⊎ (s ≡ 65535))
wrapped-holds s h = elim (slot_cases s) [
  | inl e ↦ let at : (0 == s) ≡ true = rw e at h in ground arith
  | inr (inl e) ↦ let at : false ≡ true = rw e at h in absurd (cc)
  | inr (inr (inl e)) ↦ let at : (65534 == s) ≡ true = rw e at h in ground arith
  | inr (inr (inr e)) ↦ let at : (65535 == s) ≡ true = rw e at h in ground arith
]

wrapped-IsValid : IsValid wrapped
wrapped-IsValid = record {
  same_length = refl;
  positive = omega arith;
  small = omega arith;
  pointer = omega arith;
  filled = λ s h. elim (slot_cases s) [
    | inl e ↦ rw e
    | inr (inl e) ↦ let at : false ≡ true = rw e at h in absurd (cc)
    | inr (inr (inl e)) ↦ rw e
    | inr (inr (inr e)) ↦ rw e
  ];
}

wrapped-IsRecent : IsRecent wrapped
wrapped-IsRecent = record {
  period = 16384;
  fits = refl;
  wide = omega arith;
  recent = λ s h. ground (arith, wrapped-holds s h);
}

insert_with-Slides_example : Slides wrapped 3 40
insert_with-Slides_example = insert_with-Slides 3 40 wrapped-IsValid wrapped-IsRecent (omega arith)

take-Takes_example : Takes wrapped 65535
take-Takes_example = take-Takes wrapped 65535 wrapped-IsValid

-- 5 is newer than 0 by more than the four slots hold: all is forgotten but 65534's slot.
abbrev ahead_by_five : SequenceBuffer ℕ
ahead_by_five = record {
  sequence = 6;
  entry_sequence = none ∷ some 5 ∷ none ∷ none ∷ [];
  entries = some 30 ∷ some 50 ∷ some 10 ∷ some 20 ∷ [];
}

insert_with_sound_example : Inserted wrapped 5 (ok 50) ahead_by_five
unfolding insert_with SequenceBuffer.store SequenceBuffer.remove_entries sequence_greater_than
insert_with_sound_example = insert_with_sound wrapped-IsValid 5 (ok 50) ahead_by_five true refl
