-- ===== src/Result.antt =====
-- Rust's `Result`, which the user's serialization returns.
pub data Result (E A : Type 0) : Type 0 where
  ok : A → Result E A
  err : E → Result E A
