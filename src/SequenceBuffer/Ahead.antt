-- ===== src/SequenceBuffer/Ahead.antt =====
-- `insert_with` (src/channel/sequence_buffer.rs) for a sequence number that is ahead of the newest.
use yojimbo_rs.Prelude.{
  ℕ, ◌%◌, ◌<◌, ◌≤◌, ◌≡◌, ◌≢◌, ◌∙◌, ◌⊎◌, inl, inr, true, false, none, some, ltb, ◌==◌, if◌then◌else◌,
  arith, Bool-cases, ltb→lt, ltb→ge, length-set,
}
use yojimbo_rs.Run.{ok}
use yojimbo_rs.Word.{u16_modulus, wrapping_add, sequence_greater_than}
use yojimbo_rs.SequenceBuffer.{SequenceBuffer, capacity, insert_with}
use yojimbo_rs.SequenceBuffer.Slots.{age, slot_injective}
use yojimbo_rs.SequenceBuffer.View.{holds, entry, IsValid}
use yojimbo_rs.SequenceBuffer.Removal.{entries-remove, remove_kept, remove_cleared}
use yojimbo_rs.SequenceBuffer.Insert.{
  placed, store-eq, entry-placed, holds-placed, moved, marks-some, moved_pos, length-moved,
  holds-moved, capacity-moved,
}
use yojimbo_rs.SequenceBuffer.Window.{IsRecent, half_circle}

module _ {A : Type 0} {b : SequenceBuffer A} (v : IsValid b) (r : IsRecent b) (s : ℕ)
    (hs : s < u16_modulus) (a : A)
    (ahead : sequence_greater_than (wrapping_add s 1) b.sequence ≡ true) where
  pub insert-ahead : insert_with b s (ok a) ≡ ok (placed (moved b s) s a, true)
  unfolding insert_with
  insert-ahead = rw ahead (store-eq (moved b s) s a (moved_pos v s) (length-moved v s))

  half : capacity b ≤ 32768
  half = half_circle (capacity b) r.period r.fits v.small

  -- A number inside the new window keeps its entry.
  moved_inside : (t : ℕ) → age (wrapping_add s 1) t < capacity b → entry (moved b s) t ≡ entry b t
  moved_inside t h = elim (Bool-cases (holds b t)) [
    | inl held ↦
        let (ht, old) = r.recent t held in
        ground (
          arith,
          capacity-moved v s,
          entries-remove b s,
          remove_kept b r.period s t v.positive v.same_length r.fits half v.pointer hs ht ahead old
              h,
        )
    | inr free ↦ ground (arith, holds-moved v s t)
  ]

  moved_outside :
      (t : ℕ)
      → capacity b ≤ age (wrapping_add s 1) t
      → (s % capacity b ≡ t % capacity b) ⊎ (holds (moved b s) t ≡ false)
  moved_outside t h = elim (Bool-cases (holds (moved b s) t)) [
    | inl held ↦
        let (ht, old) = r.recent t (holds-moved v s t held) in
        inl (
          remove_cleared b r.period s t v.positive v.same_length r.fits half v.pointer hs ht ahead
            old {q = t} h (marks-some _ t (rw (capacity-moved v s) at held)))
    | inr free ↦ inr free
  ]

  apart :
      (t : ℕ)
      → t < u16_modulus
      → (s == t) ≡ false
      → age (wrapping_add s 1) t < capacity b
      → s % capacity b ≢ t % capacity b
  apart t ht d h e = ground (
    arith,
    slot_injective (capacity b) r.period r.fits (wrapping_add s 1) s t (omega arith) hs ht
        (omega (arith, r.wide)) h e,
  )

  pub entry-ahead :
      (t : ℕ)
      → entry (placed (moved b s) s a) t ≡ (
          if s == t
          then some a
          else if ltb (age (wrapping_add s 1) t) (capacity b)
          then entry b t
          else none)
  entry-ahead t = elim (Bool-cases (s == t)) [
    | inl same ↦ ground (arith, base, capacity-moved v s)
    | inr other ↦ elim (Bool-cases (ltb (age (wrapping_add s 1) t) (capacity b))) [
      | inl inside ↦ elim (Bool-cases (holds b t)) [
        | inl held ↦ ground (
          arith,
          base,
          capacity-moved v s,
          moved_inside t (ground arith),
          apart t (r.recent t held).0 other (ground arith),
        )
        | inr free ↦ ground (arith, base, capacity-moved v s, moved_inside t (ground arith))
      ]
      | inr outside ↦ ground (arith, base, capacity-moved v s, moved_outside t (ground arith))
    ]
  ]
    where
      base : entry (placed (moved b s) s a) t ≡ (
          if s % capacity (moved b s) == t % capacity (moved b s)
          then if s == t then some a else none
          else entry (moved b s) t)
      base = entry-placed (moved b s) s a (moved_pos v s) (length-moved v s) t

  pub ahead-IsRecent : IsRecent (placed (moved b s) s a)
  ahead-IsRecent = record {
    period = r.period;
    fits = rw size r.fits;
    wide = rw size r.wide;
    recent = λ t h. elim (Bool-cases (s == t)) [
      | inl same ↦ (ground arith, ground (arith, size, r.wide))
      | inr other ↦
          let old = still t h other in
          elim (Bool-cases (ltb (age (wrapping_add s 1) t) (capacity b))) [
            | inl inside ↦ ((r.recent t (holds-moved v s t old)).0, rw size (ltb→lt _ _ inside))
            | inr outside ↦ absurd (
                ground (
                  arith,
                  holds-placed (moved b s) s a (moved_pos v s) (length-moved v s) t,
                  capacity-moved v s,
                  moved_outside t (ltb→ge _ _ outside),
                ))
          ]
    ];
  }
    where
      size : capacity (placed (moved b s) s a) ≡ capacity b
      size = length-set _ _ _ ∙ capacity-moved v s

      still :
          (t : ℕ)
          → holds (placed (moved b s) s a) t ≡ true
          → (s == t) ≡ false
          → holds (moved b s) t ≡ true
      still t h other =
          ground (arith, holds-placed (moved b s) s a (moved_pos v s) (length-moved v s) t)
