-- ===== src/Client/TrajectorySim.antt =====
-- client/src/trajectory_sim.cpp: the ride that the client simulates.
use shared_bike_refactor.Base.{ℕ, ◌+◌, ◌%◌, ◌^◌, Bool, true, not, if◌then◌else◌}
use shared_bike_refactor.Common.Double.{Double}
use shared_bike_refactor.Common.Geo.{haversine_m}

-- The functions of <cmath> that only this code calls, and its random draws: `draw seed i lo hi` is the
-- i-th draw of a generator with that seed, a real number from `lo` to `hi`.
pub record Simulation (F : Type 0) : Type 0 where
  pub asin : F → F
  pub fmod : F → F → F
  pub draw : ℕ → ℕ → F → F → F

pub record TrajectorySim (F : Type 0) : Type 0 where
  pub seed : ℕ
  pub speed_mps : F
  pub bearing_deg : F
  pub current : F × F
  pub distance_m : F
  pub seq : ℕ
  pub started : Bool

module _ {F : Type 0} (fl : Double F) (si : Simulation F) where
  -- `M_PI`
  abbrev m_pi : F
  m_pi = fl.lit 314159265358979323846 20

  abbrev radians : F → F
  radians a = fl.div (fl.mul a m_pi) (fl.lit 180 0)

  abbrev degrees : F → F
  degrees a = fl.div (fl.mul a (fl.lit 180 0)) m_pi

  unfoldable pub advance : F → F → F → F → F × F
  advance lat_deg lng_deg bearing dist_m =
      let lat1 = radians lat_deg in
      let lng1 = radians lng_deg in
      let brg = radians bearing in
      let dr = fl.div dist_m (fl.lit 6371000 0) in
      let lat2 = si.asin (
        fl.add (fl.mul (fl.sin lat1) (fl.cos dr))
          (fl.mul (fl.mul (fl.cos lat1) (fl.sin dr)) (fl.cos brg))) in
      let lng2 = fl.add lng1 (
        fl.atan2 (fl.mul (fl.mul (fl.sin brg) (fl.sin dr)) (fl.cos lat1))
          (fl.sub (fl.cos dr) (fl.mul (fl.sin lat1) (fl.sin lat2)))) in
      (degrees lat2, degrees lng2)

  -- The i-th draw of a speed, in metres a second.
  abbrev speed : ℕ → ℕ → F
  speed seed i =
      fl.div (fl.mul (si.draw seed i (fl.lit 8 0) (fl.lit 15 0)) (fl.lit 1000 0)) (fl.lit 3600 0)

  unfoldable pub start : TrajectorySim F → F → F → TrajectorySim F
  start t lat0 lng0 = record {
    seed = t.seed;
    speed_mps = speed t.seed 0;
    bearing_deg = si.draw t.seed 1 (fl.lit 0 0) (fl.lit 360 0);
    current = (lat0, lng0);
    distance_m = fl.lit 0 0;
    seq = 0;
    started = true;
  }

  unfoldable pub step : TrajectorySim F → (F × F) × TrajectorySim F
  step t =
      let seed = (t.seed + t.seq % 2 ^ 32 + 1) % 2 ^ 32 in
      let jitter = si.draw seed 0 (fl.neg (fl.lit 15 0)) (fl.lit 15 0) in
      let bearing = si.fmod (fl.add (fl.add t.bearing_deg jitter) (fl.lit 360 0)) (fl.lit 360 0) in
      let mps = speed seed 1 in
      let point = advance t.current.0 t.current.1 bearing mps in
      let seg = haversine_m fl t.current.0 t.current.1 point.0 point.1 in
      if not t.started then (t.current, t) else (
        point,
        record t {
          bearing_deg = bearing;
          speed_mps = mps;
          current = point;
          distance_m = fl.add t.distance_m seg;
          seq = t.seq + 1;
        },
      )
