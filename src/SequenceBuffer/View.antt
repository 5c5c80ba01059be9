-- ===== src/SequenceBuffer/View.antt =====
-- A buffer read as a partial map from sequence numbers, and each operation of
-- src/channel/sequence_buffer.rs that reads or empties one slot, in terms of that map.
use yojimbo_rs.Prelude.{
  ℕ, ◌%◌, ◌<◌, ◌≡◌, refl, inl, inr, Bool, true, false, Option, none, some, length, get_elem?, ◌==◌,
  if◌then◌else◌, arith, length-set, get_elem?-lt-some, get_elem?-set, Bool-cases,
}
use yojimbo_rs.Run.{ok}
use yojimbo_rs.Word.{u16_modulus}
use yojimbo_rs.SequenceBuffer.{
  SequenceBuffer, is_entry, is_none, join, capacity, sequence_index, exists, get, get_mut, take,
  available, vacate, overwrite,
}

-- A slot that was read, checked against a number.
abbrev pub marks : Option (Option ℕ) → ℕ → Bool
marks none s = false
marks (some e) s = is_entry e s

module _ {A : Type 0} where
  abbrev pub slot : SequenceBuffer A → ℕ → Option (Option ℕ)
  slot b s = get_elem? b.entry_sequence (s % capacity b)

  -- The slot of `s` was filled for `s`.
  abbrev pub holds : SequenceBuffer A → ℕ → Bool
  holds b s = marks (slot b s) s

  -- The map that the buffer stands for.
  abbrev pub entry : SequenceBuffer A → ℕ → Option A
  entry b s = if holds b s then join (get_elem? b.entries (s % capacity b)) else none

-- The shape of every buffer that the operations build.
pub record IsValid {A : Type 0} (b : SequenceBuffer A) : Type 0 where
  pub same_length : length b.entry_sequence ≡ length b.entries
  pub positive : 0 < length b.entries
  pub small : length b.entries < u16_modulus
  pub pointer : b.sequence < u16_modulus
  -- A slot that is marked holds an entry.
  pub filled :
      (s : ℕ)
      → holds b s ≡ true
      → is_none (join (get_elem? b.entries (s % length b.entries))) ≡ false

some_of_filled :
    {A : Type 0} (o : Option (Option A)) → is_none (join o) ≡ false → (a : A) × (o ≡ some (some a))
some_of_filled none h = cc
some_of_filled (some none) h = cc
some_of_filled (some (some a)) h = (a, refl)

module _ {A : Type 0} {b : SequenceBuffer A} (v : IsValid b) where
  in_range : (s : ℕ) → s % capacity b < capacity b
  in_range s = let p = v.positive in omega arith

  pub sequence_index-eq : (s : ℕ) → sequence_index b s ≡ ok (s % capacity b)
  unfolding sequence_index
  sequence_index-eq s = let p = v.positive in ground arith

  slot-some : (s : ℕ) → (e : Option ℕ) × (slot b s ≡ some e)
  slot-some s =
      get_elem?-lt-some b.entry_sequence (s % capacity b) (omega (arith, v.same_length, in_range s))

  pub exists-eq : (s : ℕ) → exists b s ≡ ok (holds b s)
  unfolding exists
  exists-eq s = ground (arith, sequence_index-eq s, (slot-some s).1)

  pub available-eq : (s : ℕ) → available b s ≡ ok (is_none (join (slot b s)))
  unfolding available
  available-eq s = ground (arith, sequence_index-eq s, (slot-some s).1)

  entries-filled :
      (s : ℕ) → holds b s ≡ true → (a : A) × (get_elem? b.entries (s % capacity b) ≡ some (some a))
  entries-filled s h = some_of_filled _ (v.filled s h)

  pub entry-some : (s : ℕ) → holds b s ≡ true → (a : A) × (entry b s ≡ some a)
  entry-some s h = let (a, p) = entries-filled s h in (a, rw (h, p))

  pub entry-holds : (s : ℕ) {a : A} → entry b s ≡ some a → holds b s ≡ true
  entry-holds s h = ground arith

  pub get-eq : (s : ℕ) → get b s ≡ ok (entry b s)
  unfolding get
  get-eq s = elim (Bool-cases (holds b s)) [
    | inl h ↦ ground (arith, exists-eq s, sequence_index-eq s, (entries-filled s h).1)
    | inr h ↦ ground (arith, exists-eq s, sequence_index-eq s)
  ]

  entries-some : (s : ℕ) → (o : Option A) × (get_elem? b.entries (s % capacity b) ≡ some o)
  entries-some s = get_elem?-lt-some b.entries (s % capacity b) (in_range s)

  pub take-eq :
      (s : ℕ) → take b s ≡ ok (entry b s, if holds b s then vacate b (s % capacity b) else b)
  unfolding take
  take-eq s = elim (Bool-cases (holds b s)) [
    | inl h ↦ ground (arith, exists-eq s, sequence_index-eq s, (entries-filled s h).1)
    | inr h ↦ ground (arith, exists-eq s, sequence_index-eq s, (entries-some s).1)
  ]

  -- Emptying the slot of `s` takes out the one entry that stands there.
  pub entry-vacate :
      (s t : ℕ)
      → entry (vacate b (s % capacity b)) t
        ≡ (if s % capacity b == t % capacity b then none else entry b t)
  entry-vacate s t = ground (
    arith,
    length-set b.entries (s % capacity b) none,
    get_elem?-set b.entry_sequence (s % capacity b) (t % capacity b) none,
    get_elem?-set b.entries (s % capacity b) (t % capacity b) none,
    in_range s,
    v.same_length,
  )

  pub vacate-IsValid : (s : ℕ) → IsValid (vacate b (s % capacity b))
  vacate-IsValid s = record {
    same_length = ground (
      arith,
      length-set b.entry_sequence (s % capacity b) none,
      length-set b.entries (s % capacity b) none,
      v.same_length,
    );
    positive = omega (arith, length-set b.entries (s % capacity b) none, v.positive);
    small = omega (arith, length-set b.entries (s % capacity b) none, v.small);
    pointer = v.pointer;
    filled = λ t h. ground (
      arith,
      length-set b.entries (s % capacity b) none,
      get_elem?-set b.entry_sequence (s % capacity b) (t % capacity b) none,
      get_elem?-set b.entries (s % capacity b) (t % capacity b) none,
      in_range s,
      v.same_length,
      v.filled t,
    );
  }

  -- Writing through the reference of `get_mut`.
  pub get_mut-eq :
      (s : ℕ)
      → get_mut b s
        ≡ ok (elim (entry b s) [
          | none ↦ none
          | some a ↦ some (a, λ a'. overwrite b (s % capacity b) a')
        ])
  unfolding get_mut
  get_mut-eq s = rw (sequence_index-eq s, get-eq s)

  pub entry-overwrite :
      (s t : ℕ) (a' : A)
      → holds b s ≡ true
      → entry (overwrite b (s % capacity b) a') t ≡ (if s == t then some a' else entry b t)
  entry-overwrite s t a' h = ground (
    arith,
    length-set b.entries (s % capacity b) (some a'),
    get_elem?-set b.entries (s % capacity b) (t % capacity b) (some a'),
    in_range s,
    v.same_length,
  )

  pub overwrite-IsValid : (s : ℕ) (a' : A) → IsValid (overwrite b (s % capacity b) a')
  overwrite-IsValid s a' = record {
    same_length = omega (arith, length-set b.entries (s % capacity b) (some a'), v.same_length);
    positive = omega (arith, length-set b.entries (s % capacity b) (some a'), v.positive);
    small = omega (arith, length-set b.entries (s % capacity b) (some a'), v.small);
    pointer = v.pointer;
    filled = λ t h. ground (
      arith,
      length-set b.entries (s % capacity b) (some a'),
      get_elem?-set b.entries (s % capacity b) (t % capacity b) (some a'),
      in_range s,
      v.filled t,
    );
  }
