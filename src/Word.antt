-- ===== src/Word.antt =====
-- u16 arithmetic and the wrapping order of sequence numbers
-- (src/channel/sequence_buffer.rs).
pub mod Order
use yojimbo_rs.Prelude.{ℕ, ◌+◌, ◌-◌, ◌%◌, Bool, ◌&&◌, ◌||◌, ltb, leb}

abbrev pub u16_modulus : ℕ
u16_modulus = 65536

-- `u16::wrapping_add`
abbrev pub wrapping_add : ℕ → ℕ → ℕ
wrapping_add a b = (a + b) % u16_modulus

-- `u16::wrapping_sub`
abbrev pub wrapping_sub : ℕ → ℕ → ℕ
wrapping_sub a b = (a + u16_modulus - b) % u16_modulus

-- The subtractions are read only where they do not stop at 0.
unfoldable pub sequence_greater_than : ℕ → ℕ → Bool
sequence_greater_than s1 s2 =
    (ltb s2 s1 && leb (s1 - s2) 32768) || (ltb s1 s2 && ltb 32768 (s2 - s1))

unfoldable pub sequence_less_than : ℕ → ℕ → Bool
unfolding sequence_greater_than
sequence_less_than s1 s2 = sequence_greater_than s2 s1
