-- ===== src/Common/Float.antt =====
-- Go's `float64`, as a type with the operations that the program uses of it. Nothing is assumed of
-- them here; a theorem that needs a law of IEEE 754 names it as a hypothesis.
use smokeng.Common.Int.{ℤ}
use mathlib.Core.Bool.{Bool}

pub record FloatOps (F : Type 0) : Type 0 where
  -- float64(n)
  pub of_int : ℤ → F
  pub add : F → F → F
  pub sub : F → F → F
  pub mul : F → F → F
  pub div : F → F → F
  pub lt : F → F → Bool
  pub le : F → F → Bool
  -- math.IsNaN, math.IsInf(x, 0)
  pub is_nan : F → Bool
  pub is_inf : F → Bool
  -- int(x)
  pub trunc : F → ℤ
