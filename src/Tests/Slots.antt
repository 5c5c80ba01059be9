-- ===== src/Tests/Slots.antt =====
-- An empty buffer of four slots.
use yojimbo_rs.Prelude.{ℕ, ◌≡◌, refl, inl, inr, false, none, [], ◌∷◌, arith}
use yojimbo_rs.SequenceBuffer.{SequenceBuffer}
use yojimbo_rs.SequenceBuffer.View.{IsValid, holds}
use yojimbo_rs.SequenceBuffer.Window.{IsRecent}
use yojimbo_rs.Tests.Data.{slot_cases}

abbrev pub slots : {A : Type 0} → SequenceBuffer A
slots = record {
  sequence = 0;
  entry_sequence = none ∷ none ∷ none ∷ none ∷ [];
  entries = none ∷ none ∷ none ∷ none ∷ [];
}

-- A new channel at time 9.
pub slots-holds : (A : Type 0) (s : ℕ) → holds (slots {A = A}) s ≡ false
slots-holds A s = elim (slot_cases s) [
  | inl e ↦ rw e
  | inr (inl e) ↦ rw e
  | inr (inr (inl e)) ↦ rw e
  | inr (inr (inr e)) ↦ rw e
]

module _ {A : Type 0} where
  pub slots-IsValid : IsValid (slots {A = A})
  slots-IsValid = record {
    same_length = refl;
    positive = omega arith;
    small = omega arith;
    pointer = omega arith;
    filled = λ s h. absurd (cc (slots-holds A s));
  }

  pub slots-IsRecent : IsRecent (slots {A = A})
  slots-IsRecent = record {
    period = 16384;
    fits = refl;
    wide = omega arith;
    recent = λ s h. absurd (cc (slots-holds A s));
  }
