-- ===== src/Server/Bikes.antt =====
-- `Bike` and `InMemoryBikeRepo`. The map is walked in the order of the bike numbers.
pub mod Status
use shared_bike_refactor.Base.{
  ℕ, ◌+◌, Bool, true, false, ◌&&◌, Option, none, some, List, [], ◌∷◌, ◌==◌, if◌then◌else◌,
}
use shared_bike_refactor.Base.Dict.{Bytes, Dict, lookup, insert, contains, bytes_key}
use shared_bike_refactor.Common.Double.{Double}

pub data BikeStatus : Type 0 where
  idle rented damaged : BikeStatus

abbrev pub status_code : BikeStatus → ℕ
status_code BikeStatus.idle = 0
status_code BikeStatus.rented = 1
status_code BikeStatus.damaged = 2

module _ (F : Type 0) where
  pub record Bike : Type 0 where
    pub id : ℕ
    pub bike_no : Bytes
    pub lat : F
    pub lng : F
    pub status : BikeStatus

  pub record BikeRepo : Type 0 where
    pub bikes : Dict Bytes Bike
    pub next_id : ℕ

module _ {F : Type 0} where
  abbrev pub fresh : BikeRepo F
  fresh = record { bikes = []; next_id = 1000000 }

  unfoldable pub get_for_update : BikeRepo F → Bytes → Option (Bike F)
  get_for_update r key = lookup key r.bikes

  -- The loop over the map that changes the first bike with the identifier.
  unfoldable pub change_first :
      ℕ → (Bike F → Bike F) → Dict Bytes (Bike F) → Bool × Dict Bytes (Bike F)
  change_first id f [] = (false, [])
  change_first id f ((key, b) ∷ m) =
      let (found, m') = change_first id f m in
      if b.id == id then (true, (key, f b) ∷ m) else (found, (key, b) ∷ m')

  unfoldable pub update_status : BikeRepo F → ℕ → BikeStatus → Bool × BikeRepo F
  update_status r id s =
      let (found, m) = change_first id (λ b. record b { status = s }) r.bikes in
      (found, record r { bikes = m })

  unfoldable pub update_location : BikeRepo F → ℕ → F → F → Bool × BikeRepo F
  update_location r id lat lng =
      let (found, m) = change_first id (λ b. record b { lat = lat; lng = lng }) r.bikes in
      (found, record r { bikes = m })

  -- A test helper of the source.
  unfoldable pub seed : BikeRepo F → Bike F → BikeRepo F
  seed r b = record r { bikes = insert b.bike_no b r.bikes }

  unfoldable pub insert_bike : BikeRepo F → Bike F → Option (Bike F) × BikeRepo F
  insert_bike r b =
      let nb = record b { id = r.next_id } in
      if contains b.bike_no r.bikes
      then (none, r)
      else (some nb, record { bikes = insert nb.bike_no nb r.bikes; next_id = r.next_id + 1 })

module _ {F : Type 0} (fl : Double F) where
  in_bounds : F → F → F → F → Dict Bytes (Bike F) → List (Bike F)
  in_bounds la_min la_max lo_min lo_max [] = []
  in_bounds la_min la_max lo_min lo_max ((key, b) ∷ m) =
      let rest = in_bounds la_min la_max lo_min lo_max m in
      if fl.le la_min b.lat && fl.le b.lat la_max && fl.le lo_min b.lng && fl.le b.lng lo_max
      then b ∷ rest
      else rest

  unfoldable pub list_in_bounds : BikeRepo F → F → F → F → F → List (Bike F)
  unfolding in_bounds
  list_in_bounds r la_min la_max lo_min lo_max = in_bounds la_min la_max lo_min lo_max r.bikes
