-- ===== src/Base/Float.antt =====
-- `f64` as a type with the operations that the program calls. The checker has no floating-point
-- numbers: a definition that computes with them takes this record as an argument, and says of their
-- results only what the operations leave open.
use dummy_benchmark.Base.{ℕ, Bool, List}
use dummy_benchmark.Base.Int.{ℤ}

pub record Float : Type 1 where
  pub F : Type 0
  -- the literal `n / d`, as `lit 999 1000` for `0.999`
  pub lit : ℕ → ℕ → F
  pub of_u64 : ℕ → F
  pub of_i64 : ℤ → F
  pub add : F → F → F
  pub sub : F → F → F
  pub mul : F → F → F
  pub div : F → F → F
  pub neg : F → F
  pub abs : F → F
  pub ceil : F → F
  pub max : F → F → F
  pub exp : F → F
  pub ln : F → F
  pub lt : F → F → Bool
  pub le : F → F → Bool
  -- `as u64` and `as i64`, which saturate
  pub to_u64 : F → ℕ
  pub to_i64 : F → ℤ

-- How `f64` prints: `{}` and `{:.2}`, in bytes.
pub record FloatText (F : Type 0) : Type 0 where
  pub display : F → List ℕ
  pub two_digits : F → List ℕ
