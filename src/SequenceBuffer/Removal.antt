-- ===== src/SequenceBuffer/Removal.antt =====
-- What `remove_entries` leaves when the newest sequence number moves from `next - 1` on to `s`
-- (src/channel/sequence_buffer.rs).
use native.Mathlib.Nat.{add-mul-mod_self_left}
use yojimbo_rs.Prelude.{
  ℕ, ◌+◌, ◌-◌, ◌*◌, ◌%◌, ◌<◌, ◌≤◌, ◌≡◌, ap, ◌∙◌, sym, inl, inr, true, leb, some, length, get_elem?,
  ltb, if◌then◌else◌, arith, Bool-cases,
}
use yojimbo_rs.Word.{u16_modulus, wrapping_add, sequence_greater_than}
use yojimbo_rs.SequenceBuffer.{SequenceBuffer, capacity, clear_range, clear_all, remove_entries}
use yojimbo_rs.SequenceBuffer.Slots.{
  age, length-clear_range, length-clear_all, clear_range_marked, clear_all_marked, clear_range_kept,
  clear_range_cleared, slot_of_age, mod-injective,
}

module _ {A : Type 0} (b : SequenceBuffer A) (s : ℕ) where
  pub entries-remove : (remove_entries b b.sequence s).entries ≡ b.entries
  unfolding remove_entries
  entries-remove = ground arith

  pub length-remove :
      length (remove_entries b b.sequence s).entry_sequence ≡ length b.entry_sequence
  unfolding remove_entries
  length-remove = ground (
    arith,
    length-clear_range b.entry_sequence (capacity b) b.sequence (s - b.sequence + 1),
    length-clear_range b.entry_sequence (capacity b) b.sequence (s + 65535 - b.sequence + 1),
    length-clear_all b.entry_sequence,
  )

  -- The number of slots that are cleared.
  abbrev cleared : ℕ
  cleared = if ltb s b.sequence then s + 65535 - b.sequence + 1 else s - b.sequence + 1

  remove_range :
      cleared ≤ capacity b
      → (remove_entries b b.sequence s).entry_sequence
        ≡ clear_range b.entry_sequence (capacity b) b.sequence cleared
  unfolding remove_entries
  remove_range h = ground arith

  remove_all :
      capacity b < cleared
      → (remove_entries b b.sequence s).entry_sequence ≡ clear_all b.entry_sequence
  unfolding remove_entries
  remove_all h = ground arith

  pub remove_marked :
      (j : ℕ) {q : ℕ}
      → 0 < capacity b
      → length b.entry_sequence ≡ capacity b
      → get_elem? (remove_entries b b.sequence s).entry_sequence j ≡ some (some q)
      → get_elem? b.entry_sequence j ≡ some (some q)
  remove_marked j {q} pos l e = elim (Bool-cases (leb cleared (capacity b))) [
    | inl few ↦
        clear_range_marked b.entry_sequence (capacity b) b.sequence cleared j pos l
          (rw (remove_range (ground arith)) at e)
    | inr many ↦ absurd (clear_all_marked b.entry_sequence j (rw (remove_all (ground arith)) at e))
  ]

-- The buffer's size divides the number of u16 values, and `s` lies ahead.
module _ {A : Type 0} (b : SequenceBuffer A) (period s t : ℕ) (pos : 0 < capacity b)
    (l : length b.entry_sequence ≡ capacity b) (fits : capacity b * period ≡ u16_modulus)
    (half : capacity b ≤ 32768) (hn : b.sequence < u16_modulus) (hs : s < u16_modulus)
    (ht : t < u16_modulus) (ahead : sequence_greater_than (wrapping_add s 1) b.sequence ≡ true)
    (held : age b.sequence t < capacity b) where
  -- `t` counted up from the capacity below the newest number.
  abbrev turn : ℕ
  turn = b.sequence + capacity b - 1 - age b.sequence t

  -- While `t` stays among the newest it is not removed.
  pub remove_kept :
      age (wrapping_add s 1) t < capacity b
      → get_elem? (remove_entries b b.sequence s).entry_sequence (t % capacity b)
        ≡ get_elem? b.entry_sequence (t % capacity b)
  unfolding sequence_greater_than
  remove_kept h =
      ap (λ es. get_elem? es (t % capacity b)) (remove_range b s (ground arith))
      ∙ clear_range_kept b.entry_sequence (capacity b) b.sequence (cleared b s) (t % capacity b) pos
          l
          λ q from to e. absurd (
            ground (
              arith,
              mod-injective (capacity b) b.sequence q turn from (ground arith) (omega arith)
                  (omega arith)
                  (e ∙ sym (slot_of_age (capacity b) period fits b.sequence t hn ht held)),
            ))

  -- A number that is no longer among the newest is removed, or shares its slot with `s`.
  pub remove_cleared :
      {q : ℕ}
      → capacity b ≤ age (wrapping_add s 1) t
      → get_elem? (remove_entries b b.sequence s).entry_sequence (t % capacity b) ≡ some (some q)
      → s % capacity b ≡ t % capacity b
  unfolding sequence_greater_than
  remove_cleared {q} h e = elim (Bool-cases (leb (cleared b s) (capacity b))) [
    | inl few ↦ elim (Bool-cases (ltb turn (b.sequence + cleared b s))) [
      | inl inside ↦ absurd (
          clear_range_cleared b.entry_sequence (capacity b) b.sequence (cleared b s) turn {t = q}
            pos l (omega arith) (ground arith)
            (rw (slot_of_age (capacity b) period fits b.sequence t hn ht held)
              (rw (remove_range b s (ground arith)) at e)))
      | inr outside ↦
          sym (add-mul-mod_self_left s (capacity b) period)
          ∙ ap (λ (n : ℕ). n % capacity b) (ground (arith, fits))
          ∙ slot_of_age (capacity b) period fits b.sequence t hn ht held
    ]
    | inr many ↦ absurd (
        clear_all_marked b.entry_sequence (t % capacity b)
          (rw (remove_all b s (ground arith)) at e))
  ]
