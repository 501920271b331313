-- ===== src/Floats.antt =====
-- Python's `float` with the operations that the services use, and the `math` functions. The
-- numbers are a parameter; an operation that may raise returns a `Result`.
use twin_services.Base.{ℕ, Bool, List}
use twin_services.Base.Int.{ℤ}
use twin_services.Base.Result.{Result}

pub record Floats : Type 1 where
  pub F : Type 0
  -- the literal m · 10^-k
  pub literal : ℤ → ℕ → F
  pub add : F → F → F
  pub sub : F → F → F
  pub mul : F → F → F
  pub neg : F → F
  -- ZeroDivisionError at a zero divisor
  pub div : F → F → Result F
  pub rem : F → F → Result F
  -- the builtin `sum` of a list of floats, which compensates for rounding
  pub sum : List F → F
  pub lt : F → F → Bool
  pub le : F → F → Bool
  -- ValueError outside the domain; `cos` and `sin` have no value at an infinity
  pub sqrt : F → Result F
  pub cos : F → Result F
  pub sin : F → Result F
  -- `math.pi / 2`
  pub half_pi : F
  -- `int(x)`: ValueError at a NaN, OverflowError at an infinity
  pub truncate : F → Result ℤ
  pub of_ℕ : ℕ → F
  pub is_finite : F → Bool
