-- ===== src/SequenceBuffer/Window.antt =====
-- The specification of a sequence buffer (src/channel/sequence_buffer.rs): a sliding window over
-- the circle of sequence numbers, a map that keeps the entries for the newest `capacity` numbers.
use yojimbo_rs.Prelude.{
  ℕ, zero, suc, ◌*◌, ◌<◌, ◌≤◌, ◌≡◌, Bool, true, false, Option, none, some, ltb, ◌==◌, if◌then◌else◌,
  arith,
}
use yojimbo_rs.Word.{u16_modulus, wrapping_add, sequence_greater_than}
use yojimbo_rs.SequenceBuffer.{SequenceBuffer, capacity}
use yojimbo_rs.SequenceBuffer.Slots.{age}
use yojimbo_rs.SequenceBuffer.View.{holds, entry}

-- Every entry is among the newest `capacity`, and the capacity divides the number of u16 values.
-- (With a capacity of 1 the comparison takes one number that is too old for a new one.)
pub record IsRecent {A : Type 0} (b : SequenceBuffer A) : Type 0 where
  pub period : ℕ
  pub fits : capacity b * period ≡ u16_modulus
  pub wide : 1 < capacity b
  pub recent : (s : ℕ) → holds b s ≡ true → (s < u16_modulus) × (age b.sequence s < capacity b)

pub half_circle :
    (size period : ℕ) → size * period ≡ u16_modulus → size < u16_modulus → size ≤ 32768
half_circle size zero e h = absurd (omega arith)
half_circle size (suc zero) e h = absurd (omega arith)
half_circle size (suc (suc k)) e h = omega arith

-- The specification: the number after the newest, and a map.
pub record Window (A : Type 0) : Type 0 where
  pub next : ℕ
  pub at : ℕ → Option A

-- A number that is ahead moves the window on, and what falls out of it is forgotten; one that
-- is inside the window is written; an older one is refused.
abbrev pub slide : {A : Type 0} → ℕ → Window A → ℕ → A → Window A × Bool
slide size w s a =
    if sequence_greater_than (wrapping_add s 1) w.next
    then (
      record {
        next = wrapping_add s 1;
        at = λ t.
            if s == t then some a else if ltb (age (wrapping_add s 1) t) size then w.at t else none;
      },
      true,
    )
    else if ltb (age w.next s) size
    then (record w { at = λ t. if s == t then some a else w.at t }, true)
    else (w, false)

abbrev pub window : {A : Type 0} → SequenceBuffer A → Window A
window b = record { next = b.sequence; at = entry b }
