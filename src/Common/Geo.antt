-- ===== src/Common/Geo.antt =====
-- common/src/geo.cpp: the great-circle distance, and the box round mainland China.
use shared_bike_refactor.Base.{Bool, ◌&&◌}
use shared_bike_refactor.Common.Double.{Double}

module _ {F : Type 0} (fl : Double F) where
  -- `kPi`
  pi : F
  pi = fl.lit 314159265358979323846 20

  earth_radius_m : F
  earth_radius_m = fl.lit 6371000 0

  to_rad : F → F
  unfolding pi
  to_rad deg = fl.div (fl.mul deg pi) (fl.lit 180 0)

  unfoldable pub haversine_m : F → F → F → F → F
  unfolding to_rad earth_radius_m
  haversine_m lat1 lng1 lat2 lng2 =
      let la1 = to_rad lat1 in
      let la2 = to_rad lat2 in
      let dla = to_rad (fl.sub lat2 lat1) in
      let dlo = to_rad (fl.sub lng2 lng1) in
      let two = fl.lit 2 0 in
      let a = fl.add (fl.mul (fl.sin (fl.div dla two)) (fl.sin (fl.div dla two))) (
        fl.mul (fl.mul (fl.mul (fl.cos la1) (fl.cos la2)) (fl.sin (fl.div dlo two)))
          (fl.sin (fl.div dlo two))) in
      let c = fl.mul two (fl.atan2 (fl.sqrt a) (fl.sqrt (fl.sub (fl.lit 1 0) a))) in
      fl.mul earth_radius_m c

  unfoldable pub is_in_china : F → F → Bool
  is_in_china lat lng =
      fl.le (fl.lit 18 0) lat
      && fl.le lat (fl.lit 54 0)
      && fl.le (fl.lit 73 0) lng
      && fl.le lng (fl.lit 135 0)
