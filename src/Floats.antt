-- ===== src/Floats.antt =====
-- The float64 operations that table.go uses, on bit patterns. Nothing is assumed of them.
use kadrtt_test_plan.Base.{ℕ, Bool}
use Prim.Native.String.{String}

-- `literal` reads a decimal constant. `of_int` converts an int, and `to_int` converts back; where
-- Go's int(x) is negative (or x is not a number) `to_int` is 0, and each use in table.go raises the
-- result to 1 or 2 at once.
pub record Floats : Type 0 where
  pub literal : String → ℕ
  pub of_int : ℕ → ℕ
  pub to_int : ℕ → ℕ
  pub add : ℕ → ℕ → ℕ
  pub sub : ℕ → ℕ → ℕ
  pub mul : ℕ → ℕ → ℕ
  pub div : ℕ → ℕ → ℕ
  pub lt : ℕ → ℕ → Bool
  pub le : ℕ → ℕ → Bool
  pub eq : ℕ → ℕ → Bool
  pub is_nan : ℕ → Bool
  pub is_inf : ℕ → Bool
  pub maximum : ℕ → ℕ → ℕ
  pub pow : ℕ → ℕ → ℕ
  pub log : ℕ → ℕ
  pub sqrt : ℕ → ℕ
  pub floor : ℕ → ℕ
  pub ceil : ℕ → ℕ
  pub abs : ℕ → ℕ
  pub e : ℕ
  pub sqrt2 : ℕ
  pub inf_minus : ℕ
  pub nan : ℕ
