-- ===== src/SequenceBuffer.antt =====
-- `SequenceBuffer` (src/channel/sequence_buffer.rs): a ring of slots, each with the sequence
-- number that it was filled for.
pub mod Fresh
pub mod Taken
pub mod Insert
pub mod Window
pub mod Ahead
pub mod Refine
pub mod Sound
pub mod Removal
pub mod Slots
pub mod View
use yojimbo_rs.Prelude.{
  ℕ, zero, suc, ◌+◌, ◌-◌, ◌%◌, Bool, true, false, Option, none, some, List, map, length, get_elem?,
  set, replicate, ltb, leb, ◌==◌, if◌then◌else◌,
}
use yojimbo_rs.Run.{
  Run, ok, panic, ◌>>=◌, ◌>>◌, assert, expect_some, index_out_of_bounds, remainder_by_zero,
}
use yojimbo_rs.Word.{
  u16_modulus, wrapping_add, wrapping_sub, sequence_greater_than, sequence_less_than,
}

pub record SequenceBuffer (A : Type 0) : Type 0 where
  -- The sequence number after the newest one.
  pub sequence : ℕ
  pub entry_sequence : List (Option ℕ)
  pub entries : List (Option A)

-- `entry_sequence[i] == Some(s)`
abbrev pub is_entry : Option ℕ → ℕ → Bool
is_entry none s = false
is_entry (some q) s = q == s

abbrev pub is_none : {A : Type 0} → Option A → Bool
is_none none = true
is_none (some a) = false

abbrev pub join : {A : Type 0} → Option (Option A) → Option A
join none = none
join (some o) = o

-- The body of the `for` loop of `remove_entries`, `n` times.
unfoldable pub clear_range : List (Option ℕ) → ℕ → ℕ → ℕ → List (Option ℕ)
clear_range es cap start zero = es
clear_range es cap start (suc n) = clear_range (set es (start % cap) none) cap (start + 1) n

abbrev pub clear_all : List (Option ℕ) → List (Option ℕ)
clear_all = map (λ _. none)

module _ {A : Type 0} where
  unfoldable pub new : ℕ → Run (SequenceBuffer A)
  new size = do
    assert (leb size 65535)
    ok (record {
      sequence = 0;
      entry_sequence = replicate size none;
      entries = replicate size none;
    })

  unfoldable pub reset : SequenceBuffer A → SequenceBuffer A
  reset b = record b { sequence = 0; entry_sequence = clear_all b.entry_sequence }

  unfoldable pub sequence_pointer : SequenceBuffer A → ℕ
  sequence_pointer b = b.sequence

  abbrev pub capacity : SequenceBuffer A → ℕ
  capacity b = length b.entries

  unfoldable pub sequence_index : SequenceBuffer A → ℕ → Run ℕ
  sequence_index b s = if capacity b == 0 then panic remainder_by_zero else ok (s % capacity b)

  -- `end_sequence += u16::MAX as usize` adds 65535, not 65536.
  unfoldable pub remove_entries : SequenceBuffer A → ℕ → ℕ → SequenceBuffer A
  unfolding clear_range
  remove_entries b start end =
      let last = if ltb end start then end + 65535 else end in
      if ltb (last - start) (capacity b)
      then record b {
        entry_sequence = clear_range b.entry_sequence (capacity b) start (last - start + 1);
      }
      else record b { entry_sequence = clear_all b.entry_sequence }

  -- The end of `insert_with`: the slot of `s` gets the number and what the callback returns.
  unfoldable pub store : SequenceBuffer A → ℕ → Run A → Run (SequenceBuffer A × Bool)
  unfolding sequence_index
  store b s f = do
    i ← sequence_index b s
    v ← f
    ok (
      record b {
        entry_sequence = set b.entry_sequence i (some s);
        entries = set b.entries i (some v);
      },
      true,
    )

  -- The callback runs only where the entry is written.
  unfoldable pub insert_with : SequenceBuffer A → ℕ → Run A → Run (SequenceBuffer A × Bool)
  insert_with b s f =
      let next = wrapping_add s 1 in
      if sequence_greater_than next b.sequence
      then store (record (remove_entries b b.sequence s) { sequence = next }) s f
      else if sequence_less_than s (wrapping_sub b.sequence (capacity b % u16_modulus))
      then ok (b, false)
      else store b s f

  unfoldable pub available : SequenceBuffer A → ℕ → Run Bool
  unfolding sequence_index
  available b s = do
    i ← sequence_index b s
    e ← expect_some index_out_of_bounds (get_elem? b.entry_sequence i)
    ok (is_none e)

  unfoldable pub exists : SequenceBuffer A → ℕ → Run Bool
  unfolding sequence_index
  exists b s = do
    i ← sequence_index b s
    e ← expect_some index_out_of_bounds (get_elem? b.entry_sequence i)
    ok (is_entry e s)

  unfoldable pub get : SequenceBuffer A → ℕ → Run (Option A)
  unfolding exists
  get b s = do
    here ← exists b s
    i ← sequence_index b s
    if here then expect_some index_out_of_bounds (get_elem? b.entries i) else ok none

  -- The buffer after the entry in slot `i` was assigned through a reference.
  abbrev pub overwrite : SequenceBuffer A → ℕ → A → SequenceBuffer A
  overwrite b i a = record b { entries = set b.entries i (some a) }

  -- The entry behind the reference, and what the buffer becomes when it is written through.
  unfoldable pub get_mut : SequenceBuffer A → ℕ → Run (Option (A × (A → SequenceBuffer A)))
  get_mut b s = do
    i ← sequence_index b s
    e ← get b s
    ok (elim e [ none ↦ none | some a ↦ some (a, λ a'. overwrite b i a') ])

  -- The slot of `s` emptied.
  abbrev pub vacate : SequenceBuffer A → ℕ → SequenceBuffer A
  vacate b i = record b {
    entry_sequence = set b.entry_sequence i none;
    entries = set b.entries i none;
  }

  unfoldable pub take : SequenceBuffer A → ℕ → Run (Option A × SequenceBuffer A)
  unfolding exists
  take b s = do
    here ← exists b s
    i ← sequence_index b s
    e ← expect_some index_out_of_bounds (get_elem? b.entries i)
    if here then ok (e, vacate b i) else ok (none, b)
