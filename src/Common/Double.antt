-- ===== src/Common/Double.antt =====
-- IEEE doubles and the functions of <cmath>, which the code takes from the language and the C library:
-- a type `F` with the operations that the source calls.
use shared_bike_refactor.Base.{ℕ, Bool}
use shared_bike_refactor.Base.Int.{ℤ}

pub record Double (F : Type 0) : Type 0 where
  -- `lit m e` is the literal m / 10 ^ e.
  pub lit : ℕ → ℕ → F
  pub neg : F → F
  pub add : F → F → F
  pub sub : F → F → F
  pub mul : F → F → F
  pub div : F → F → F
  pub le : F → F → Bool
  pub lt : F → F → Bool
  pub sin : F → F
  pub cos : F → F
  pub sqrt : F → F
  pub atan2 : F → F → F
  -- `static_cast<int>`
  pub trunc : F → ℤ
