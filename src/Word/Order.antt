-- ===== src/Word/Order.antt =====
-- What the comparison of sequence numbers means: the sign of the shorter way round the circle.
use yojimbo_rs.Prelude.{ℕ, ◌+◌, ◌<◌, ◌≡◌, ◌≢◌, ◌⊎◌, ◌↔◌, true, false, not, arith}
use yojimbo_rs.Word.{
  u16_modulus, wrapping_add, wrapping_sub, sequence_greater_than, sequence_less_than,
}

-- For u16 numbers, `s1` is greater than `s2` exactly when `s1` lies 1 to 32767 steps ahead of `s2`
-- on the circle of the u16 values, or 32768 steps ahead and is the larger number.
pub greater_iff_ahead :
    (s1 s2 : ℕ)
    → s1 < u16_modulus
    → s2 < u16_modulus
    → (sequence_greater_than s1 s2 ≡ true) ↔ (
        (0 < wrapping_sub s1 s2)
        × ((wrapping_sub s1 s2 < 32768) ⊎ ((wrapping_sub s1 s2 ≡ 32768) × (s2 < s1))))
unfolding sequence_greater_than
greater_iff_ahead s1 s2 h1 h2 = (λ e. ground arith, λ d. ground arith)

-- Of two different sequence numbers exactly one is greater, and none is greater than itself.
pub greater_total :
    (s1 s2 : ℕ)
    → s1 < u16_modulus
    → s2 < u16_modulus
    → ((s1 ≡ s2) × (sequence_greater_than s1 s2 ≡ false))
      ⊎ ((s1 ≢ s2) × (sequence_less_than s1 s2 ≡ not (sequence_greater_than s1 s2)))
unfolding sequence_greater_than sequence_less_than
greater_total s1 s2 h1 h2 = ground arith

-- Adding the same amount to both sides keeps the order of numbers less than 32768 apart.
pub greater-wrapping_add :
    (s k d : ℕ)
    → s < u16_modulus
    → 0 < d
    → d < 32768
    → sequence_greater_than (wrapping_add (wrapping_add s k) d) (wrapping_add s k) ≡ true
unfolding sequence_greater_than
greater-wrapping_add s k d h p q = ground arith

-- The order of u16 sequence numbers is transitive as long as the three numbers lie within half the
-- circle.
greater_trans :
    (a b c : ℕ)
    → a < u16_modulus
    → b < u16_modulus
    → c < u16_modulus
    → sequence_greater_than a b ≡ true
    → sequence_greater_than b c ≡ true
    → wrapping_sub a b + wrapping_sub b c < 32768
    → sequence_greater_than a c ≡ true
unfolding sequence_greater_than
greater_trans a b c ha hb hc e f h = ground arith
