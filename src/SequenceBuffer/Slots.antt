-- ===== src/SequenceBuffer/Slots.antt =====
-- Which slots `remove_entries` clears, and which sequence numbers share a slot
-- (src/channel/sequence_buffer.rs).
use native.Mathlib.Nat.{add-mul-mod_self_left, mod-lt}
use yojimbo_rs.Prelude.{
  ℕ, zero, suc, ◌+◌, ◌-◌, ◌*◌, ◌%◌, ◌<◌, ◌≤◌, ◌≡◌, ◌≢◌, refl, ap, ◌∙◌, sym, inl, inr, Option, none,
  some, List, [], ◌∷◌, length, get_elem?, set, ltb, leb, ◌==◌, arith, length-set, get_elem?-set_ne,
  get_elem?-set, Bool-cases,
}
use yojimbo_rs.Word.{u16_modulus, wrapping_sub}
use yojimbo_rs.SequenceBuffer.{clear_range, clear_all}

-- How many steps the sequence number `s` lies behind the newest one, which is `next - 1`.
abbrev pub age : ℕ → ℕ → ℕ
age next s = wrapping_sub next (s + 1)

pub length-clear_range :
    (es : List (Option ℕ)) (size start n : ℕ) → length (clear_range es size start n) ≡ length es
unfolding clear_range
length-clear_range es size start zero = refl
length-clear_range es size start (suc n) =
    length-clear_range (set es (start % size) none) size (start + 1) n
    ∙ length-set es (start % size) none

pub length-clear_all : (es : List (Option ℕ)) → length (clear_all es) ≡ length es
length-clear_all [] = refl
length-clear_all (e ∷ es) = ap suc (length-clear_all es)

-- No slot is marked by clearing others.
pub clear_range_marked :
    (es : List (Option ℕ)) (size start n j : ℕ) {q : ℕ}
    → 0 < size
    → length es ≡ size
    → get_elem? (clear_range es size start n) j ≡ some (some q)
    → get_elem? es j ≡ some (some q)
unfolding clear_range
clear_range_marked es size start zero j pos l e = e
clear_range_marked es size start (suc n) j pos l e = ground (
  arith,
  clear_range_marked (set es (start % size) none) size (start + 1) n j pos
      (length-set es (start % size) none ∙ l) e,
  get_elem?-set es (start % size) j none (omega (arith, mod-lt start pos)),
)

pub clear_all_marked :
    (es : List (Option ℕ)) (j : ℕ) {q : ℕ} → get_elem? (clear_all es) j ≢ some (some q)
clear_all_marked [] j = cc
clear_all_marked (e ∷ es) zero = cc
clear_all_marked (e ∷ es) (suc j) = clear_all_marked es j

-- A slot that no number of the range falls into stays.
pub clear_range_kept :
    (es : List (Option ℕ)) (size start n j : ℕ)
    → 0 < size
    → length es ≡ size
    → ((q : ℕ) → start ≤ q → q < start + n → q % size ≢ j)
    → get_elem? (clear_range es size start n) j ≡ get_elem? es j
unfolding clear_range
clear_range_kept es size start zero j pos l h = refl
clear_range_kept es size start (suc n) j pos l h =
    clear_range_kept (set es (start % size) none) size (start + 1) n j pos
      (length-set es (start % size) none ∙ l) (λ q a b. h q (omega arith) (omega arith))
    ∙ get_elem?-set_ne es none (h start (omega arith) (omega arith))

-- A slot that a number of the range falls into is not marked any more.
pub clear_range_cleared :
    (es : List (Option ℕ)) (size start n q : ℕ) {t : ℕ}
    → 0 < size
    → length es ≡ size
    → start ≤ q
    → q < start + n
    → get_elem? (clear_range es size start n) (q % size) ≢ some (some t)
unfolding clear_range
clear_range_cleared es size start zero q pos l a b e = absurd (omega arith)
clear_range_cleared es size start (suc n) q pos l a b e = elim (Bool-cases (start == q)) [
  | inl same ↦ ground (
    arith,
    clear_range_marked (set es (start % size) none) size (start + 1) n (q % size) pos
        (length-set es (start % size) none ∙ l) e,
    get_elem?-set es (start % size) (q % size) none (omega (arith, mod-lt start pos)),
  )
  | inr other ↦
      clear_range_cleared (set es (start % size) none) size (start + 1) n q pos
        (length-set es (start % size) none ∙ l) (ground arith) (omega arith) e
]

mod-injective_le :
    (size start q r : ℕ) → start ≤ q → q ≤ r → r < start + size → q % size ≡ r % size → q ≡ r
mod-injective_le size start q r a b c e = grind arith

-- Numbers less than `size` apart have different remainders.
pub mod-injective :
    (size start q r : ℕ)
    → start ≤ q
    → q < start + size
    → start ≤ r
    → r < start + size
    → q % size ≡ r % size
    → q ≡ r
mod-injective size start q r a b c d e = elim (Bool-cases (leb q r)) [
  | inl le ↦ mod-injective_le size start q r a (ground arith) d e
  | inr gt ↦ sym (mod-injective_le size start r q c (ground arith) b (sym e))
]

fits_less :
    (size period : ℕ) → size * period ≡ u16_modulus → size * (period - 1) + size ≡ u16_modulus
fits_less size zero e = omega arith
fits_less size (suc k) e = let d : suc k - 1 ≡ k = omega arith in rw d (omega arith)

-- A size that divides the number of u16 values.
module _ (size period : ℕ) (fits : size * period ≡ u16_modulus) where
  -- Counted up from `size` below `next`, `t` falls into its own slot.
  pub slot_of_age :
      (next t : ℕ)
      → next < u16_modulus
      → t < u16_modulus
      → age next t < size
      → (next + size - 1 - age next t) % size ≡ t % size
  slot_of_age next t hn ht h = elim (Bool-cases (ltb t next)) [
    | inr above ↦
        sym (add-mul-mod_self_left x size (period - 1))
        ∙ ap (λ (n : ℕ). n % size) (ground (arith, fits_less size period fits))
    | inl below ↦
        sym (add-mul-mod_self_left x size (period - 1))
        ∙ ap (λ (n : ℕ). n % size) (ground (arith, fits_less size period fits, fits))
        ∙ add-mul-mod_self_left t size period
  ]
    where
      x : ℕ
      x = next + size - 1 - age next t

  -- Two numbers among the `size` newest that share a slot are one number.
  pub slot_injective :
      (next s t : ℕ)
      → next < u16_modulus
      → s < u16_modulus
      → t < u16_modulus
      → age next s < size
      → age next t < size
      → s % size ≡ t % size
      → s ≡ t
  slot_injective next s t hn hs ht a b e = omega (
    arith,
    mod-injective size next (next + size - 1 - age next s) (next + size - 1 - age next t)
        (omega arith) (omega arith) (omega arith) (omega arith)
        (slot_of_age next s hn hs a ∙ e ∙ sym (slot_of_age next t hn ht b)),
  )
