-- ===== src/Float.antt =====
-- The floating-point numbers that the program computes with: a type and its operations, of which
-- only what a theorem names is assumed.
use c_ray.Prelude.{Bool, ℕ}
use c_ray.Prelude.Int.{ℤ}

pub record Float : Type 1 where
  pub Value : Type 0
  -- The literal m / n.
  pub ratio : ℕ → ℕ → Value
  -- float64(n), for an unsigned and for a signed number.
  pub of_uint : ℕ → Value
  pub of_int : ℤ → Value
  pub add : Value → Value → Value
  pub mul : Value → Value → Value
  pub div : Value → Value → Value
  -- a > b and a >= b.
  pub gt : Value → Value → Bool
  pub ge : Value → Value → Bool
