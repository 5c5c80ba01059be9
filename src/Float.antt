-- ===== src/Float.antt =====
-- What the code uses of `f64` and `f32`: the operations are parameters, since the properties need
-- only how the code combines them.
use yojimbo_rs.Prelude.{ℕ, Bool}

pub record Float (F : Type 0) : Type 0 where
  pub add : F → F → F
  pub div : F → F → F
  pub neg : F → F
  -- `a <= b`, `a < b` and `a == b`
  pub le : F → F → Bool
  pub lt : F → F → Bool
  pub eq : F → F → Bool
  -- The literal with these digits and this many decimal places: 0.25 is `decimal 25 2`.
  pub decimal : ℕ → ℕ → F
