-- ===== src/Common/Pricing.antt =====
-- common/src/pricing.cpp: the fee of a ride, in cents.
use shared_bike_refactor.Base.{
  ℕ, ◌+◌, ◌-◌, ◌*◌, ◌/◌, ◌^◌, ◌≤◌, ◌<◌, ◌≡◌, leb, if◌then◌else◌, arith, ◌⊎◌,
}
use shared_bike_refactor.Base.Int.{ℤ, pos, negsuc}
use shared_bike_refactor.Base.Outcome.{Outcome, ok, throw, invalid_argument}

abbrev pub base_sec : ℕ
base_sec = 15 * 60

abbrev pub step_sec : ℕ
step_sec = 15 * 60

-- The fee for a duration that is not negative. No step of the sum passes the largest `int`:
-- `fee_of-IsInt`.
unfoldable pub fee_of : ℕ → ℕ
fee_of duration_sec =
    if leb duration_sec base_sec
    then 100
    else 100 + (duration_sec - base_sec + step_sec - 1) / step_sec * 50

unfoldable pub compute_fee : ℤ → Outcome ℕ
unfolding fee_of
compute_fee (pos duration_sec) = ok (fee_of duration_sec)
compute_fee (negsuc _) = throw invalid_argument

-- A ride of `d` seconds is charged 100 and 50 for each further quarter of an hour that it began:
-- for the least `k` with `d` within `k + 1` quarters.
compute_fee_quarters :
    (d : ℕ)
    → (k : ℕ) × (compute_fee (pos d) ≡ ok (100 + 50 * k))
      × (d ≤ 900 * (k + 1))
      × ((k ≡ 0) ⊎ (900 * k < d))
unfolding compute_fee
compute_fee_quarters d = ((d - 900 + 899) / 900, ground arith, omega arith, omega arith)

-- A longer ride never costs less.
pub fee_of_mono : (a b : ℕ) → a ≤ b → fee_of a ≤ fee_of b
unfolding fee_of
fee_of_mono a b h = ground arith

-- For every duration that is an `int`, the fee is at least 100 and is an `int`.
pub fee_of-IsInt : (d : ℕ) → d < 2 ^ 31 → (100 ≤ fee_of d) × (fee_of d < 2 ^ 31)
unfolding fee_of
fee_of-IsInt d h = (ground arith, ground arith)
