-- ===== src/SequenceBuffer/Sound.antt =====
-- What holds of every insertion, whatever the capacity: the buffer stays valid, and an entry found
-- afterwards is the one inserted or was there before (src/channel/sequence_buffer.rs).
use yojimbo_rs.Prelude.{ℕ, ◌%◌, ◌≡◌, ap, subst, ◌⊎◌, inl, inr, Bool, false, some, arith, Bool-cases}
use yojimbo_rs.Run.{Panic, Run, ok, panic}
use yojimbo_rs.Word.{
  u16_modulus, wrapping_sub, wrapping_add, sequence_greater_than, sequence_less_than,
}
use yojimbo_rs.SequenceBuffer.{SequenceBuffer, capacity, insert_with, store}
use yojimbo_rs.SequenceBuffer.View.{entry, IsValid}
use yojimbo_rs.SequenceBuffer.Removal.{entries-remove}
use yojimbo_rs.SequenceBuffer.Insert.{
  placed, store-eq, entry-placed, moved, holds-moved, capacity-moved, moved-IsValid, placed-IsValid,
}

-- After an insertion at `s` of what `f` returns.
pub record Inserted {A : Type 0} (b : SequenceBuffer A) (s : ℕ) (f : Run A) (b' : SequenceBuffer A)
    : Type 0 where
  pub valid : IsValid b'
  pub sound : (t : ℕ) (x : A) → entry b' t ≡ some x → ((t ≡ s) × (f ≡ ok x)) ⊎ (entry b t ≡ some x)

module _ {A : Type 0} {b : SequenceBuffer A} (v : IsValid b) (s : ℕ) where
  entry-moved : (t : ℕ) (x : A) → entry (moved b s) t ≡ some x → entry b t ≡ some x
  entry-moved t x h = ground (arith, holds-moved v s t, capacity-moved v s, entries-remove b s)

  placed_sound :
      (a : A) (t : ℕ) (x : A)
      → entry (placed b s a) t ≡ some x
      → ((t ≡ s) × (a ≡ x)) ⊎ (entry b t ≡ some x)
  placed_sound a t x h = ground (arith, entry-placed b s a v.positive v.same_length t)

  store-panic : (p : Panic) → store b s (panic p) ≡ panic p
  unfolding store
  store-panic p = ground (arith, v.positive)

  store-Inserted :
      (f : Run A) (b' : SequenceBuffer A) (r : Bool) → store b s f ≡ ok (b', r) → Inserted b s f b'
  store-Inserted (panic p) b' r h = absurd (cc (store-panic p))
  store-Inserted (ok a) b' r h =
      let same : placed b s a ≡ b' = cc (store-eq b s a v.positive v.same_length) in
      subst (Inserted b s (ok a)) same (record {
        valid = placed-IsValid v s a;
        sound = λ t x e. elim (placed_sound a t x e) [
          | inl (at, is) ↦ inl (at, ap ok is)
          | inr old ↦ inr old
        ];
      })

-- An insertion into a valid buffer that returns leaves it valid, and every entry in it is the one
-- inserted, at its number, or was there before. It needs nothing of the capacity.
pub insert_with_sound :
    {A : Type 0} {b : SequenceBuffer A} (v : IsValid b) (s : ℕ) (f : Run A) (b' : SequenceBuffer A)
    (r : Bool)
    → insert_with b s f ≡ ok (b', r)
    → Inserted b s f b'
unfolding insert_with
insert_with_sound {b = b} v s f b' r h =
    elim (Bool-cases (sequence_greater_than (wrapping_add s 1) b.sequence)) [
      | inl ahead ↦
          let i = store-Inserted (moved-IsValid v s) s f b' r (rw ahead at h) in
          record {
            valid = i.valid;
            sound = λ t x e. elim (i.sound t x e) [
              | inl new ↦ inl new
              | inr old ↦ inr (entry-moved v s t x old)
            ];
          }
      | inr behind ↦
          elim (Bool-cases
            (sequence_less_than s (wrapping_sub b.sequence (capacity b % u16_modulus)))) [
              | inl old ↦
                  let stay : ◌≡◌ {A = Run (SequenceBuffer _ × Bool)} (ok (b, false)) (ok (b', r)) =
                    rw (behind, old) at h in
                  let same : b ≡ b' = cc in
                  subst (Inserted b s f) same (record { valid = v; sound = λ t x e. inr e })
              | inr young ↦ store-Inserted v s f b' r (rw (behind, young) at h)
            ]
    ]
