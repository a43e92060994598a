-- ===== src/Server/Rides/Lookup.antt =====
-- The ride repository: what was stored is found again, and the history of a user.
use shared_bike_refactor.Base.{
  ℕ, ◌+◌, ◌≤◌, ◌<◌, ◌≡◌, ◌≢◌, refl, sym, ◌∙◌, some, List, [], ◌∷◌, ◌++◌, ◌==◌, if◌then◌else◌,
  length, length-append, Bool, true, false, take, arith, append-nil, append_assoc, take-append,
  Option-cases, take_all, inl, inr,
}
use shared_bike_refactor.Base.Dict.{
  Bytes, Dict, lookup, insert, bytes_key, nat_key, lookup-insert_self, lookup-insert_ne,
  lookup-insert, bytes_eq, bytes_eq_iff,
}
use shared_bike_refactor.Server.Rides.{
  RideRepo, Ride, CreateRideInput, create_with_points, find_by_no, list_points, list_by_user,
  collect, ride_of, fresh,
}

module _ {F : Type 0} where
  -- Every number leads to a stored ride of that number, with an identifier given out before.
  pub record IsValid (r : RideRepo F) : Type 0 where
    pub ride_at :
        (key : Bytes) (id : ℕ)
        → lookup key r.by_no ≡ some id
        → (id < r.next_id)
          × (ride : Ride F) × (lookup id r.rides ≡ some ride)
          × (ride.ride_no ≡ key)

  pub fresh-IsValid : IsValid fresh
  unfolding lookup
  fresh-IsValid = record { ride_at = λ key id e. cc }

  -- Storing a ride keeps the repository valid.
  pub create_with_points-IsValid :
      (r : RideRepo F) (in' : CreateRideInput F) → IsValid r → IsValid (create_with_points r in').1
  unfolding create_with_points
  create_with_points-IsValid r in' v = record {
    ride_at = λ key id e. go key id (bytes_eq in'.ride_no key) refl e;
  }
    where
      ride : Ride F
      ride = ride_of r.next_id in'

      go :
          (key : Bytes) (id : ℕ) (same : Bool)
          → bytes_eq in'.ride_no key ≡ same
          → lookup key (insert in'.ride_no r.next_id r.by_no) ≡ some id
          → (id < r.next_id + 1)
            × (found : Ride F) × (lookup id (insert r.next_id ride r.rides) ≡ some found)
            × (found.ride_no ≡ key)
      go key id true s e =
          let at : in'.ride_no ≡ key = (bytes_eq_iff in'.ride_no key).0 s in
          let here : id ≡ r.next_id =
            ground (arith, lookup-insert in'.ride_no key r.next_id r.by_no) in
          (omega arith, ride, rw here (lookup-insert_self r.next_id ride r.rides), at)
      go key id false s e =
          let old : lookup key r.by_no ≡ some id =
            ground (arith, lookup-insert in'.ride_no key r.next_id r.by_no) in
          let (lt, found, at, named) = v.ride_at key id old in
          (
            omega arith,
            found,
            lookup-insert_ne r.next_id id ride r.rides (λ e. absurd (omega arith)) ∙ at,
            named,
          )

  others :
      (r : RideRepo F) (in' : CreateRideInput F)
      → IsValid r
      → (key : Bytes) → in'.ride_no ≢ key
      → find_by_no (create_with_points r in').1 key ≡ find_by_no r key
  unfolding create_with_points find_by_no
  others r in' v key ne = elim (Option-cases (lookup key r.by_no)) [
    | inl e ↦ ground (arith, lookup-insert_ne in'.ride_no key r.next_id r.by_no ne)
    | inr (id, e) ↦ ground (
      arith,
      lookup-insert_ne in'.ride_no key r.next_id r.by_no ne,
      lookup-insert_ne r.next_id id (ride_of r.next_id in') r.rides,
      (v.ride_at key id e).0,
    )
  ]

  -- A stored ride is found by its number, and its points by its identifier; rides of other numbers are
  -- found as before.
  pub find_by_no-create :
      (r : RideRepo F) (in' : CreateRideInput F)
      → IsValid r
      → let (ride, r') = create_with_points r in' in
        (find_by_no r' in'.ride_no ≡ some (ride_of r.next_id in'))
        × (list_points r' r.next_id ≡ in'.points)
        × ((key : Bytes) → in'.ride_no ≢ key → find_by_no r' key ≡ find_by_no r key)
  unfolding create_with_points find_by_no list_points
  find_by_no-create r in' v =
      let ride = ride_of r.next_id in' in
      (
        rw (lookup-insert_self in'.ride_no r.next_id r.by_no, find_by_no)
            (lookup-insert_self r.next_id ride r.rides),
        rw (lookup-insert_self r.next_id in'.points r.points, list_points),
        λ key ne. others r in' v key ne,
      )

  -- The rides of a user, in the order of their identifiers.
  abbrev pub rides_of : ℕ → Dict ℕ (Ride F) → List (Ride F)
  rides_of uid [] = []
  rides_of uid ((_, r) ∷ m) = if r.user_id == uid then r ∷ rides_of uid m else rides_of uid m

  collect-take :
      (uid limit : ℕ) (out : List (Ride F)) (m : Dict ℕ (Ride F))
      → length out < limit
      → collect uid limit out m ≡ take limit (out ++ rides_of uid m)
  unfolding collect
  collect-take uid limit out [] h = rw append-nil (sym (take_all limit out (omega arith)))
  collect-take uid limit out ((_, r) ∷ m) h = ground (
    arith,
    length-append out (r ∷ []),
    append_assoc out (r ∷ []) (rides_of uid m),
    take-append (out ++ (r ∷ [])) (rides_of uid m),
    collect-take uid limit (out ++ (r ∷ [])) m,
    collect-take uid limit out m,
  )

  -- For a limit of at least 1 the history is the user's first `limit` rides, oldest first.
  list_by_user-take :
      (r : RideRepo F) (uid limit : ℕ)
      → 1 ≤ limit
      → list_by_user r uid limit ≡ take limit (rides_of uid r.rides)
  unfolding list_by_user
  list_by_user-take r uid limit h = collect-take uid limit [] r.rides h
