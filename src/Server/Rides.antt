-- ===== src/Server/Rides.antt =====
-- `Ride`, `RidePoint`, `CreateRideInput` and `InMemoryRideRepo`.
pub mod Lookup
use shared_bike_refactor.Base.{
  ℕ, zero, suc, ◌+◌, ◌≤◌, ◌<◌, ◌≡◌, ◌≢◌, refl, Option, none, some, List, [], ◌∷◌, ◌++◌, ◌==◌, leb,
  if◌then◌else◌, length, Bool, true, false, take, arith, ap,
}
use shared_bike_refactor.Base.Dict.{
  Bytes, Dict, lookup, insert, bytes_key, nat_key, lookup-insert_self, lookup-insert_ne,
  lookup-insert, bytes_eq, bytes_eq_iff,
}
use shared_bike_refactor.Base.Int.{ℤ}

module _ (F : Type 0) where
  pub record RidePoint : Type 0 where
    pub seq : ℤ
    pub lat : F
    pub lng : F
    pub elapsed_sec : ℤ

  pub record Ride : Type 0 where
    pub id : ℕ
    pub ride_no : Bytes
    pub user_id : ℕ
    pub bike_id : ℕ
    pub start_ts : ℕ
    pub end_ts : ℕ
    pub start_lat : F
    pub start_lng : F
    pub end_lat : F
    pub end_lng : F
    pub duration_sec : ℕ
    pub distance_m : ℤ
    pub amount_cent : ℕ
    pub status : ℕ

  pub record CreateRideInput : Type 0 where
    pub ride_no : Bytes
    pub user_id : ℕ
    pub bike_id : ℕ
    pub start_ts : ℕ
    pub end_ts : ℕ
    pub start_lat : F
    pub start_lng : F
    pub end_lat : F
    pub end_lng : F
    pub duration_sec : ℕ
    pub distance_m : ℤ
    pub amount_cent : ℕ
    pub points : List RidePoint

  pub record RideRepo : Type 0 where
    pub rides : Dict ℕ Ride
    pub points : Dict ℕ (List RidePoint)
    pub by_no : Dict Bytes ℕ
    pub next_id : ℕ

module _ {F : Type 0} where
  abbrev pub fresh : RideRepo F
  fresh = record { rides = []; points = []; by_no = []; next_id = 1 }

  -- The ride that is stored for an input.
  abbrev pub ride_of : ℕ → CreateRideInput F → Ride F
  ride_of id in' = record {
    id = id;
    ride_no = in'.ride_no;
    user_id = in'.user_id;
    bike_id = in'.bike_id;
    start_ts = in'.start_ts;
    end_ts = in'.end_ts;
    start_lat = in'.start_lat;
    start_lng = in'.start_lng;
    end_lat = in'.end_lat;
    end_lng = in'.end_lng;
    duration_sec = in'.duration_sec;
    distance_m = in'.distance_m;
    amount_cent = in'.amount_cent;
    status = 0;
  }

  unfoldable pub create_with_points : RideRepo F → CreateRideInput F → Ride F × RideRepo F
  create_with_points r in' =
      let ride = ride_of r.next_id in' in
      (
        ride,
        record {
          rides = insert ride.id ride r.rides;
          points = insert ride.id in'.points r.points;
          by_no = insert ride.ride_no ride.id r.by_no;
          next_id = r.next_id + 1;
        },
      )

  -- `rides_[id]` finds its entry: `Lookup.create_with_points-IsValid`. It would make one, where the
  -- answer here is none.
  unfoldable pub find_by_no : RideRepo F → Bytes → Option (Ride F)
  find_by_no r key = elim (lookup key r.by_no) [ none ↦ none | some id ↦ lookup id r.rides ]

  unfoldable pub list_points : RideRepo F → ℕ → List (RidePoint F)
  list_points r ride_id = elim (lookup ride_id r.points) [ none ↦ [] | some ps ↦ ps ]

  -- The loop goes on while fewer than `limit` rides were found.
  unfoldable pub collect : ℕ → ℕ → List (Ride F) → Dict ℕ (Ride F) → List (Ride F)
  collect uid limit out [] = out
  collect uid limit out ((_, r) ∷ m) =
      let out' = if r.user_id == uid then out ++ (r ∷ []) else out in
      let rest = collect uid limit out' m in if leb limit (length out') then out' else rest

  unfoldable pub list_by_user : RideRepo F → ℕ → ℕ → List (Ride F)
  unfolding collect
  list_by_user r uid limit = collect uid limit [] r.rides
