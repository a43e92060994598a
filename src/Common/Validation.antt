-- ===== src/Common/Validation.antt =====
-- common/src/validation.cpp: what the handlers accept of a request's fields.
use shared_bike_refactor.Base.{
  ℕ, ◌≤◌, ◌≡◌, Bool, true, not, ◌&&◌, ltb, leb, ◌==◌, if◌then◌else◌, length, arith, ◌↔◌,
}
use shared_bike_refactor.Base.Dict.{Bytes}
use shared_bike_refactor.Base.Int.{ℤ, pos, negsuc, ◌≤ℤ◌}
use shared_bike_refactor.Common.Double.{Double}

unfoldable pub valid_bike_no : Bytes → Bool
valid_bike_no s = not (length s == 0) && leb (length s) 32

-- Option A of the source: 0 is the default, a negative limit is the least.
unfoldable pub clamp_limit : ℤ → ℕ
clamp_limit (pos n) = if n == 0 then 20 else if ltb n 1 then 1 else if ltb 100 n then 100 else n
clamp_limit (negsuc _) = 1

-- A bike number is accepted exactly when it has 1 to 32 bytes.
pub valid_bike_no_iff : (s : Bytes) → (valid_bike_no s ≡ true) ↔ ((1 ≤ length s) × (length s ≤ 32))
unfolding valid_bike_no
valid_bike_no_iff s = (λ h. ground arith, λ h. ground arith)

-- A limit is clamped to 1 to 100, and a limit in that range is kept.
pub clamp_limit_bounds :
    (n : ℤ)
    → (1 ≤ clamp_limit n)
      × (clamp_limit n ≤ 100)
      × (pos 1 ≤ℤ n → n ≤ℤ pos 100 → pos (clamp_limit n) ≡ n)
unfolding clamp_limit
clamp_limit_bounds (pos n) = (ground arith, ground arith, λ lo hi. ground arith)
clamp_limit_bounds (negsuc n) = (omega arith, omega arith, λ lo hi. absurd (omega arith))

module _ {F : Type 0} (fl : Double F) where
  unfoldable pub valid_lat : F → Bool
  valid_lat lat = fl.le (fl.neg (fl.lit 90 0)) lat && fl.le lat (fl.lit 90 0)

  unfoldable pub valid_lng : F → Bool
  valid_lng lng = fl.le (fl.neg (fl.lit 180 0)) lng && fl.le lng (fl.lit 180 0)

  unfoldable pub clamp_radius : F → F
  clamp_radius r =
      if fl.le r (fl.lit 0 0)
      then fl.lit 500 0
      else if fl.lt r (fl.lit 50 0)
      then fl.lit 50 0
      else if fl.lt (fl.lit 2000 0) r
      then fl.lit 2000 0
      else r
