-- ===== src/Server/Bikes/Status.antt =====
-- The bike repository under `update_status` and `update_location`.
use shared_bike_refactor.Base.{
  ℕ, ◌≡◌, refl, true, some, [], ◌∷◌, ◌==◌, if◌then◌else◌, arith, All, Bool-cases, inl, inr,
}
use shared_bike_refactor.Base.Dict.{Bytes, Dict, lookup, bytes_key, bytes_eq, bytes_eq_iff}
use shared_bike_refactor.Server.Bikes.{
  Bike, BikeRepo, BikeStatus, change_first, update_status, update_location, get_for_update,
}

module _ {F : Type 0} where
  -- Only the bike that is stored under `key` has the identifier.
  abbrev pub IsOnly : Bytes → ℕ → Dict Bytes (Bike F) → Type 0
  IsOnly key id m = All (λ (e : Bytes × Bike F). e.1.id ≡ id → e.0 ≡ key) m

  change_first-lookup :
      (id : ℕ) (f : Bike F → Bike F) (m : Dict Bytes (Bike F)) (key other : Bytes) (b : Bike F)
      → lookup key m ≡ some b
      → b.id ≡ id
      → IsOnly key id m
      → ((change_first id f m).0 ≡ true)
        × (lookup other (change_first id f m).1
            ≡ (if bytes_eq key other then some (f b) else lookup other m))
  unfolding change_first lookup
  change_first-lookup id f [] key other b e same only = cc
  change_first-lookup id f ((k, x) ∷ m) key other b e same only = ground (
    arith,
    only.0,
    bytes_eq_iff k key,
    bytes_eq_iff k other,
    bytes_eq_iff key other,
    change_first-lookup id f m key other b,
  )

  -- No two bikes share an identifier.
  unfoldable pub IsValid : BikeRepo F → Type 0
  IsValid r = (key : Bytes) (b : Bike F) → lookup key r.bikes ≡ some b → IsOnly key b.id r.bikes

  -- A new status is set on the one bike with that identifier, and every other bike is left alone.
  pub update_status_lem :
      (r : BikeRepo F) (key : Bytes) (b : Bike F) (s : BikeStatus) (other : Bytes)
      → IsValid r
      → get_for_update r key ≡ some b
      → let (found, r') = update_status r b.id s in
        (found ≡ true)
        × (get_for_update r' other ≡ (
            if bytes_eq key other then some (record b { status = s }) else get_for_update r other))
  unfolding update_status get_for_update IsValid
  update_status_lem r key b s other v e =
      change_first-lookup b.id (λ x. record x { status = s }) r.bikes key other b e refl (v key b e)

  -- A new place is set on the one bike with that identifier, and every other bike is left alone.
  pub update_location_lem :
      (r : BikeRepo F) (key : Bytes) (b : Bike F) (lat lng : F) (other : Bytes)
      → IsValid r
      → get_for_update r key ≡ some b
      → let (found, r') = update_location r b.id lat lng in
        (found ≡ true)
        × (get_for_update r' other ≡ (
            if bytes_eq key other
            then some (record b { lat = lat; lng = lng })
            else get_for_update r other))
  unfolding update_location get_for_update IsValid
  update_location_lem r key b lat lng other v e =
      change_first-lookup b.id (λ x. record x { lat = lat; lng = lng }) r.bikes key other b e refl
        (v key b e)

  change_first-IsOnly :
      (id : ℕ) (f : Bike F → Bike F) (m : Dict Bytes (Bike F)) (key : Bytes) (n : ℕ)
      → ((b : Bike F) → (f b).id ≡ b.id)
      → IsOnly key n m
      → IsOnly key n (change_first id f m).1
  unfolding change_first
  change_first-IsOnly id f [] key n same only = tt
  change_first-IsOnly id f ((k, x) ∷ m) key n same only =
      ground (arith, same x, change_first-IsOnly id f m key n same only.1)

  -- Where a bike is found after a change, one with that identifier was there before.
  change_first-back :
      (id : ℕ) (f : Bike F → Bike F) (m : Dict Bytes (Bike F)) (key : Bytes) (b : Bike F)
      → ((b : Bike F) → (f b).id ≡ b.id)
      → lookup key (change_first id f m).1 ≡ some b
      → (old : Bike F) × (lookup key m ≡ some old) × (old.id ≡ b.id)
  unfolding change_first lookup
  change_first-back id f [] key b same e = cc
  change_first-back id f ((k, x) ∷ m) key b same e = elim (Bool-cases (bytes_eq k key)) [
    | inl here ↦ rw here (x, refl, ground (arith, same x))
    | inr there ↦ elim (Bool-cases (x.id == id)) [
      | inl hit ↦ rw there (b, ground arith, refl)
      | inr miss ↦ rw there (change_first-back id f m key b same (ground arith))
    ]
  ]

  change_first-IsValid :
      (id : ℕ) (f : Bike F → Bike F) (r r' : BikeRepo F)
      → ((b : Bike F) → (f b).id ≡ b.id)
      → r'.bikes ≡ (change_first id f r.bikes).1
      → IsValid r
      → IsValid r'
  unfolding IsValid
  change_first-IsValid id f r r' same at v key b e =
      let (old, found, eq) = change_first-back id f r.bikes key b same (rw at at e) in
      rw (at, ← eq) (change_first-IsOnly id f r.bikes key old.id same (v key old found))

  pub update_status-IsValid :
      (r : BikeRepo F) (id : ℕ) (s : BikeStatus) → IsValid r → IsValid (update_status r id s).1
  unfolding update_status
  update_status-IsValid r id s v =
      change_first-IsValid id (λ x. record x { status = s }) r _ (λ b. refl) refl v

  pub update_location-IsValid :
      (r : BikeRepo F) (id : ℕ) (lat lng : F) → IsValid r → IsValid (update_location r id lat lng).1
  unfolding update_location
  update_location-IsValid r id lat lng v =
      change_first-IsValid id (λ x. record x { lat = lat; lng = lng }) r _ (λ b. refl) refl v
