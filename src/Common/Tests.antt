-- ===== src/Common/Tests.antt =====
-- The fee of a ride of an hour and a second.
use shared_bike_refactor.Common.Pricing.{compute_fee}
use shared_bike_refactor.Base.{◌≡◌, refl}
use shared_bike_refactor.Base.Int.{pos}
use shared_bike_refactor.Base.Outcome.{ok}

fee_after_an_hour : compute_fee (pos 3601) ≡ ok 300
unfolding compute_fee
fee_after_an_hour = refl
