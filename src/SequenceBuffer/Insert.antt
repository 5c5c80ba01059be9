-- ===== src/SequenceBuffer/Insert.antt =====
-- The steps of `insert_with` (src/channel/sequence_buffer.rs): moving the newest number on, and
-- filling a slot.
use native.Mathlib.Nat.{mod-lt}
use yojimbo_rs.Prelude.{
  ℕ, ◌%◌, ◌<◌, ◌≡◌, true, Option, none, some, length, ◌==◌, if◌then◌else◌, arith, ==_refl,
  length-set, get_elem?-set, set,
}
use yojimbo_rs.Run.{ok}
use yojimbo_rs.Word.{wrapping_add}
use yojimbo_rs.SequenceBuffer.{SequenceBuffer, capacity, remove_entries, store}
use yojimbo_rs.SequenceBuffer.View.{marks, holds, entry, IsValid}
use yojimbo_rs.SequenceBuffer.Removal.{entries-remove, length-remove, remove_marked}

-- The buffer with the slot of `s` filled for `s`.
abbrev pub placed : {A : Type 0} → SequenceBuffer A → ℕ → A → SequenceBuffer A
placed b s a = record b {
  entry_sequence = set b.entry_sequence (s % capacity b) (some s);
  entries = set b.entries (s % capacity b) (some a);
}

module _ {A : Type 0} (b : SequenceBuffer A) (s : ℕ) (a : A) (pos : 0 < capacity b)
    (l : length b.entry_sequence ≡ capacity b) where
  pub store-eq : store b s (ok a) ≡ ok (placed b s a, true)
  unfolding store
  store-eq = ground arith

  pub entry-placed :
      (t : ℕ)
      → entry (placed b s a) t
        ≡ (if s % capacity b == t % capacity b then if s == t then some a else none else entry b t)
  entry-placed t = ground (
    arith,
    length-set b.entries (s % capacity b) (some a),
    get_elem?-set b.entry_sequence (s % capacity b) (t % capacity b) (some s),
    get_elem?-set b.entries (s % capacity b) (t % capacity b) (some a),
    mod-lt s pos,
  )

  pub holds-placed :
      (t : ℕ)
      → holds (placed b s a) t ≡ (if s % capacity b == t % capacity b then s == t else holds b t)
  holds-placed t = ground (
    arith,
    length-set b.entries (s % capacity b) (some a),
    get_elem?-set b.entry_sequence (s % capacity b) (t % capacity b) (some s),
    mod-lt s pos,
  )

pub marks-some : (o : Option (Option ℕ)) (t : ℕ) → marks o t ≡ true → o ≡ some (some t)
marks-some none t h = cc
marks-some (some none) t h = cc
marks-some (some (some q)) t h = ground arith

-- The buffer that the code builds when `s` is ahead, before it fills the slot.
abbrev pub moved : {A : Type 0} → SequenceBuffer A → ℕ → SequenceBuffer A
moved b s = record (remove_entries b b.sequence s) { sequence = wrapping_add s 1 }

module _ {A : Type 0} {b : SequenceBuffer A} (v : IsValid b) (s : ℕ) where
  pub capacity-moved : capacity (moved b s) ≡ capacity b
  capacity-moved = rw (entries-remove b s)

  pub moved_pos : 0 < capacity (moved b s)
  moved_pos = rw capacity-moved v.positive

  pub length-moved : length (moved b s).entry_sequence ≡ capacity (moved b s)
  length-moved = rw (capacity-moved, length-remove b s) v.same_length

  pub holds-moved : (t : ℕ) → holds (moved b s) t ≡ true → holds b t ≡ true
  holds-moved t h =
      rw
        (remove_marked b s (t % capacity b) v.positive v.same_length
          (marks-some _ t (rw capacity-moved at h)))
        (==_refl t)

module _ {A : Type 0} {b : SequenceBuffer A} (v : IsValid b) (s : ℕ) where
  pub moved-IsValid : IsValid (moved b s)
  moved-IsValid = record {
    same_length = length-moved v s;
    positive = moved_pos v s;
    small = rw (capacity-moved v s) v.small;
    pointer = omega arith;
    filled = λ t h. ground (arith, entries-remove b s, v.filled t (holds-moved v s t h));
  }

  pub placed-IsValid : (a : A) → IsValid (placed b s a)
  placed-IsValid a = record {
    same_length = omega (
      arith,
      length-set b.entry_sequence (s % capacity b) (some s),
      length-set b.entries (s % capacity b) (some a),
      v.same_length,
    );
    positive = omega (arith, length-set b.entries (s % capacity b) (some a), v.positive);
    small = omega (arith, length-set b.entries (s % capacity b) (some a), v.small);
    pointer = v.pointer;
    filled = λ t h. ground (
      arith,
      holds-placed b s a v.positive v.same_length t,
      length-set b.entries (s % capacity b) (some a),
      get_elem?-set b.entries (s % capacity b) (t % capacity b) (some a),
      mod-lt s v.positive,
      v.filled t,
    );
  }
