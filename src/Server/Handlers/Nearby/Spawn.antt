-- ===== src/Server/Handlers/Nearby/Spawn.antt =====
-- New bikes never touch the bikes that are there.
use shared_bike_refactor.Base.{
  ℕ, zero, suc, ◌+◌, ◌-◌, ◌≤◌, ◌<◌, ◌≡◌, some, arith, length, length-append, Option-cases, inl, inr,
}
use shared_bike_refactor.Base.Dict.{Bytes, contains, bytes_key, lookup-insert, bytes_eq_iff}
use shared_bike_refactor.Common.Double.{Double}
use shared_bike_refactor.Server.Bikes.{Bike, BikeRepo, idle, insert_bike, get_for_update}
use shared_bike_refactor.Server.Handlers.Nearby.{
  make_dyn_bike_no, random_offset, max_no_retry, Draws, insert_retry, spawn_bikes, near_of,
  near_and_new, spawn_threshold, spawn_target,
}

module _ {F : Type 0} where
  insert_bike_keeps :
      (r : BikeRepo F) (b : Bike F) (key : Bytes) (old : Bike F)
      → get_for_update r key ≡ some old
      → get_for_update (insert_bike r b).1 key ≡ some old
  unfolding insert_bike get_for_update contains
  insert_bike_keeps r b key old e = ground (
    arith,
    lookup-insert b.bike_no key (record b { id = r.next_id }) r.bikes,
    bytes_eq_iff b.bike_no key,
    e,
  )

module _ {F : Type 0} (fl : Double F) where
  insert_retry_keeps :
      (tries attempt : ℕ) (plat plng : F) (picks : ℕ → ℕ → ℕ) (r : BikeRepo F) (key : Bytes)
      (old : Bike F)
      → get_for_update r key ≡ some old
      → get_for_update (insert_retry fl tries attempt plat plng picks r).1 key ≡ some old
  unfolding insert_retry
  insert_retry_keeps zero attempt plat plng picks r key old e = e
  insert_retry_keeps (suc tries) attempt plat plng picks r key old e =
      let b : Bike F = record {
        id = 0;
        bike_no = make_dyn_bike_no (picks attempt);
        lat = plat;
        lng = plng;
        status = idle;
      } in
      let kept = insert_bike_keeps r b key old e in
      elim (Option-cases (insert_bike r b).0) [
        | inl h ↦
            rw (h, insert_retry)
              (insert_retry_keeps tries (attempt + 1) plat plng picks (insert_bike r b).1 key old
                kept)
        | inr (nb, h) ↦ rw (h, insert_retry) kept
      ]

  spawn_bikes_keeps :
      (need i : ℕ) (lat lng radius : F) (draws : ℕ → Draws F) (repo : BikeRepo F) (key : Bytes)
      (old : Bike F)
      → get_for_update repo key ≡ some old
      → get_for_update (spawn_bikes fl need i lat lng radius draws repo).1 key ≡ some old
  unfolding spawn_bikes
  spawn_bikes_keeps zero i lat lng radius draws repo key old e = e
  spawn_bikes_keeps (suc need) i lat lng radius draws repo key old e =
      let place = random_offset fl lat lng radius (draws i) in
      spawn_bikes_keeps need (i + 1) lat lng radius draws
        (insert_retry fl max_no_retry 0 place.0 place.1 (draws i).picks repo).1 key old
        (insert_retry_keeps max_no_retry 0 place.0 place.1 (draws i).picks repo key old e)

  length-spawn_bikes :
      (need i : ℕ) (lat lng radius : F) (draws : ℕ → Draws F) (repo : BikeRepo F)
      → length (spawn_bikes fl need i lat lng radius draws repo).0 ≤ need
  unfolding spawn_bikes
  length-spawn_bikes zero i lat lng radius draws repo = omega arith
  length-spawn_bikes (suc need) i lat lng radius draws repo =
      let place = random_offset fl lat lng radius (draws i) in
      let next = insert_retry fl max_no_retry 0 place.0 place.1 (draws i).picks repo in
      let rest = length-spawn_bikes need (i + 1) lat lng radius draws next.1 in
      elim (Option-cases next.0) [
        | inl h ↦ rw (h, spawn_bikes) (omega (arith, rest))
        | inr (nb, h) ↦ rw (h, spawn_bikes) (omega (arith, rest))
      ]

  -- A request leaves every bike that is there as it was; it adds bikes only where fewer than 5 are near,
  -- and then so many that the answer has at most 12.
  near_and_new_lem :
      (lat lng radius : F) (draws : ℕ → Draws F) (bikes : BikeRepo F)
      → let (near, bikes') = near_and_new fl lat lng radius draws bikes in
        let there = length (near_of fl lat lng radius bikes) in
        ((key : Bytes) (old : Bike F)
          → get_for_update bikes key ≡ some old
          → get_for_update bikes' key ≡ some old)
        × (spawn_threshold ≤ there → bikes' ≡ bikes)
        × (there < spawn_threshold → length near ≤ spawn_target)
  unfolding near_and_new
  near_and_new_lem lat lng radius draws bikes =
      let near = near_of fl lat lng radius bikes in
      let need = spawn_target - length near in
      let spawned = spawn_bikes fl need 0 lat lng radius draws bikes in
      (
        λ key old e.
            ground (arith, e, spawn_bikes_keeps need 0 lat lng radius draws bikes key old e),
        λ h. ground (arith, h),
        λ h. ground (
          arith,
          h,
          length-append near spawned.0,
          length-spawn_bikes need 0 lat lng radius draws bikes,
        ),
      )
