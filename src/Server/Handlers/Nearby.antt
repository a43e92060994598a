-- ===== src/Server/Handlers/Nearby.antt =====
-- server/src/handlers/list_nearby_bikes.cpp: the bikes around a place, and new ones where few are.
pub mod Spawn
use shared_bike_refactor.Base.{
  ℕ, zero, suc, ◌+◌, ◌-◌, ◌&&◌, not, Option, none, some, List, [], ◌∷◌, ◌++◌, map, ltb, length,
  if◌then◌else◌, get_or,
}
use shared_bike_refactor.Base.Dict.{Bytes}
use shared_bike_refactor.Common.Double.{Double}
use shared_bike_refactor.Common.Errors.{
  ErrCode, code, success, invalid_msg, unauthorized, invalid_data,
}
use shared_bike_refactor.Common.Geo.{haversine_m}
use shared_bike_refactor.Common.Validation.{valid_lat, valid_lng, clamp_radius}
use shared_bike_refactor.Protocol.{list_nearby_bikes_response}
use shared_bike_refactor.Server.Bikes.{
  Bike, BikeRepo, idle, status_code, insert_bike, list_in_bounds,
}
use shared_bike_refactor.Server.Messages.{
  Codec, ListNearbyBikesRequest, ListNearbyBikesResponse, BikeInfo,
}
use shared_bike_refactor.Server.Router.{Ctx, HandlerFn, require_user, response}

abbrev pub spawn_threshold : ℕ
spawn_threshold = 5

abbrev pub spawn_target : ℕ
spawn_target = 12

abbrev pub max_no_retry : ℕ
max_no_retry = 4

-- "23456789ABCDEFGHJKMNPQRSTUVWXYZ"
abbrev pub alphabet : Bytes
alphabet =
    b'2' ∷ b'3' ∷ b'4' ∷ b'5' ∷ b'6' ∷ b'7' ∷ b'8' ∷ b'9' ∷ b'A' ∷ b'B' ∷ b'C' ∷ b'D' ∷ b'E' ∷ b'F'
    ∷ b'G' ∷ b'H' ∷ b'J' ∷ b'K' ∷ b'M' ∷ b'N' ∷ b'P' ∷ b'Q' ∷ b'R' ∷ b'S' ∷ b'T' ∷ b'U' ∷ b'V'
    ∷ b'W' ∷ b'X' ∷ b'Y' ∷ b'Z' ∷ []

-- `pick i` is the i-th draw of an index.
unfoldable pub make_dyn_bike_no : (ℕ → ℕ) → Bytes
make_dyn_bike_no pick =
    let at = λ (i : ℕ). get_or alphabet (pick i) 0 in
    b'D' ∷ b'Y' ∷ b'-' ∷ at 0 ∷ at 1 ∷ at 2 ∷ at 3 ∷ at 4 ∷ at 5 ∷ []

-- The draws for one bike: two numbers from 0 to 1, and the indices of each attempt at a number.
pub record Draws (F : Type 0) : Type 0 where
  pub u : F
  pub v : F
  pub picks : ℕ → ℕ → ℕ

module _ {F : Type 0} (fl : Double F) where
  -- 3.14159265358979
  abbrev pub pi : F
  pi = fl.lit 314159265358979 14

  unfoldable pub random_offset : F → F → F → Draws F → F × F
  random_offset center_lat center_lng radius_m d =
      let rr = fl.mul (fl.mul radius_m (fl.lit 8 1)) (fl.sqrt d.u) in
      let theta = fl.mul (fl.mul (fl.lit 2 0) pi) d.v in
      let d_east = fl.mul rr (fl.cos theta) in
      let d_north = fl.mul rr (fl.sin theta) in
      let lat = fl.add center_lat (fl.div d_north (fl.lit 111000 0)) in
      let cos_lat = fl.cos (fl.div (fl.mul center_lat pi) (fl.lit 180 0)) in
      let scale = if fl.lt cos_lat (fl.lit 1 2) then fl.lit 1 2 else cos_lat in
      (lat, fl.add center_lng (fl.div d_east (fl.mul (fl.lit 111000 0) scale)))

  -- Up to `tries` attempts at a number that is not taken; `attempt` counts them.
  unfoldable pub insert_retry :
      ℕ → ℕ → F → F → (ℕ → ℕ → ℕ) → BikeRepo F → Option (Bike F) × BikeRepo F
  insert_retry zero attempt plat plng picks r = (none, r)
  insert_retry (suc tries) attempt plat plng picks r =
      let (b, r') = insert_bike r (record {
        id = 0;
        bike_no = make_dyn_bike_no (picks attempt);
        lat = plat;
        lng = plng;
        status = idle;
      }) in
      let again = insert_retry tries (attempt + 1) plat plng picks r' in
      elim b [ none ↦ again | some nb ↦ (some nb, r') ]

  -- The bikes that were stored, in order; `i` counts the rounds.
  unfoldable pub spawn_bikes :
      ℕ → ℕ → F → F → F → (ℕ → Draws F) → BikeRepo F → List (Bike F) × BikeRepo F
  spawn_bikes zero i lat lng r draws repo = ([], repo)
  spawn_bikes (suc need) i lat lng r draws repo =
      let (plat, plng) = random_offset lat lng r (draws i) in
      let (stored, repo') = insert_retry max_no_retry 0 plat plng (draws i).picks repo in
      let (rest, repo'') = spawn_bikes need (i + 1) lat lng r draws repo' in
      (elim stored [ none ↦ rest | some b ↦ b ∷ rest ], repo'')

  unfoldable pub within : F → F → F → List (Bike F) → List (Bike F)
  within lat lng r [] = []
  within lat lng r (b ∷ bikes) =
      let rest = within lat lng r bikes in
      if fl.le (haversine_m fl lat lng b.lat b.lng) r then b ∷ rest else rest

  -- The bikes in the box around the place that are in the circle.
  unfoldable pub near_of : F → F → F → BikeRepo F → List (Bike F)
  near_of lat lng r bikes =
      let dlat = fl.div r (fl.lit 111000 0) in
      let dlng =
        fl.div r (fl.mul (fl.lit 111000 0) (fl.cos (fl.div (fl.mul lat pi) (fl.lit 180 0)))) in
      within lat lng r (
        list_in_bounds fl bikes (fl.sub lat dlat) (fl.add lat dlat) (fl.sub lng dlng)
          (fl.add lng dlng))

  -- The bikes of the answer, and the repository afterwards.
  unfoldable pub near_and_new : F → F → F → (ℕ → Draws F) → BikeRepo F → List (Bike F) × BikeRepo F
  near_and_new lat lng r draws bikes =
      let near = near_of lat lng r bikes in
      let (spawned, bikes') = spawn_bikes (spawn_target - length near) 0 lat lng r draws bikes in
      if ltb (length near) spawn_threshold then (near ++ spawned, bikes') else (near, bikes)

module _ {F : Type 0} where
  abbrev pub nearby_fail : ErrCode → ListNearbyBikesResponse F
  nearby_fail ec = record { code = code ec; bikes = [] }

  abbrev pub bike_info : Bike F → BikeInfo F
  bike_info b = record {
    bike_no = b.bike_no;
    lat = b.lat;
    lng = b.lng;
    status = status_code b.status;
  }

  -- What follows the parse of the request.
  unfoldable pub look_around :
      Double F
      → (ℕ → Draws F)
      → ListNearbyBikesRequest F
      → ℕ
      → Ctx F
      → ListNearbyBikesResponse F × Ctx F
  look_around fl draws req session_now ctx =
      let (uid, ctx') = require_user req.session_token session_now ctx in
      elim uid [
        | none ↦ (nearby_fail unauthorized, ctx')
        | some _ ↦
            let (near, bikes) =
              near_and_new fl req.lat req.lng (clamp_radius fl req.radius_m) draws ctx'.bikes in
            if not (valid_lat fl req.lat && valid_lng fl req.lng)
            then (nearby_fail invalid_data, ctx')
            else (
              record { code = code success; bikes = map bike_info near },
              record ctx' { bikes = bikes },
            )
      ]

  unfoldable pub list_nearby_bikes : Double F → Codec F → (ℕ → Draws F) → ℕ → HandlerFn F
  list_nearby_bikes fl codec draws session_now payload ctx =
      let write = λ (r : ListNearbyBikesResponse F).
        response list_nearby_bikes_response (codec.list_nearby_bikes_response_bytes r) in
      elim (codec.parse_list_nearby_bikes_request payload) [
        | none ↦ (write (nearby_fail invalid_msg), ctx)
        | some req ↦ let (r, ctx') = look_around fl draws req session_now ctx in (write r, ctx')
      ]
