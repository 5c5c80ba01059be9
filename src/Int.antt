-- ===== src/Int.antt =====
-- The i32 values that the C libraries give (their states, counts and results).
use yojimbo_rs.Prelude.{ℕ, Bool, true, false, ltb, ◌==◌}

-- `negsuc n` is `-(n + 1)`.
pub data ℤ : Type 0 where
  pos negsuc : ℕ → ℤ

-- `a < 0`
abbrev pub is_negative : ℤ → Bool
is_negative (pos n) = false
is_negative (negsuc n) = true

-- `a < b` and `a == b`
abbrev pub lt : ℤ → ℤ → Bool
lt (pos a) (pos b) = ltb a b
lt (pos a) (negsuc b) = false
lt (negsuc a) (pos b) = true
lt (negsuc a) (negsuc b) = ltb b a

abbrev pub eq : ℤ → ℤ → Bool
eq (pos a) (pos b) = a == b
eq (pos a) (negsuc b) = false
eq (negsuc a) (pos b) = false
eq (negsuc a) (negsuc b) = a == b
