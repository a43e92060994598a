-- ===== src/Server/RideSessions.antt =====
-- server/include/server/ride_session_store.hpp: the rides that are under way.
pub mod Track
use shared_bike_refactor.Base.{
  ℕ, zero, suc, ◌+◌, ◌≤◌, ◌<◌, ◌≡◌, ◌≢◌, refl, Option, none, some, List, [], ◌∷◌, ◌++◌, ltb,
  if◌then◌else◌, length, Bool, true, false, not, ◌&&◌, ◌||◌, arith, ap, drop,
}
use shared_bike_refactor.Base.Dict.{
  Bytes, Dict, lookup, insert, erase, contains, bytes_key, lookup-insert_self, lookup-insert_ne,
  lookup-erase_self, lookup-erase_ne,
}
use shared_bike_refactor.Base.Int.{ℤ, pos, leb_ℤ, ◌≤ℤ◌, ltb_ℤ, pos_part, neg_part}
use shared_bike_refactor.Server.Rides.{RidePoint}

module _ (F : Type 0) where
  pub record RideSession : Type 0 where
    pub ride_no : Bytes
    pub user_id : ℕ
    pub bike_id : ℕ
    pub start_lat : F
    pub start_lng : F
    pub start_ts : ℕ
    pub last_lat : F
    pub last_lng : F
    pub last_seq : ℤ
    pub points : List (RidePoint F)

  pub record RideSessionStore : Type 0 where
    pub sessions : Dict Bytes RideSession

abbrev pub max_points : ℕ
max_points = 3600

module _ {F : Type 0} where
  abbrev pub empty : RideSessionStore F
  empty = record { sessions = [] }

  unfoldable pub create : RideSessionStore F → RideSession F → RideSessionStore F
  create st s = record { sessions = insert s.ride_no s st.sessions }

  unfoldable pub find : RideSessionStore F → Bytes → Option (RideSession F)
  find st ride_no = lookup ride_no st.sessions

  abbrev pub has_points : List (RidePoint F) → Bool
  has_points [] = false
  has_points (_ ∷ _) = true

  -- A sequence number that is not above the last one is ignored, unless none was accepted before.
  unfoldable pub ignores : RideSession F → ℤ → Bool
  ignores s seq =
      (not (leb_ℤ s.last_seq (pos 0) && leb_ℤ (pos 0) s.last_seq) || has_points s.points)
      && leb_ℤ seq s.last_seq

  -- The oldest point goes where there are too many.
  unfoldable pub trim : List (RidePoint F) → List (RidePoint F)
  trim points = if ltb max_points (length points) then drop 1 points else points

  -- What a report does to its session.
  unfoldable pub report : RideSession F → F → F → ℤ → ℤ → RideSession F
  report s lat lng seq elapsed_sec = if ignores s seq then s else record s {
    last_lat = lat;
    last_lng = lng;
    last_seq = seq;
    points =
        trim (
          s.points ++ (record { seq = seq; lat = lat; lng = lng; elapsed_sec = elapsed_sec } ∷ []));
  }

  unfoldable pub update_pos : RideSessionStore F → Bytes → F → F → ℤ → ℤ → Bool × RideSessionStore F
  unfolding report
  update_pos st ride_no lat lng seq elapsed_sec = elim (lookup ride_no st.sessions) [
    | none ↦ (false, st)
    | some s ↦
        (true, record { sessions = insert ride_no (report s lat lng seq elapsed_sec) st.sessions })
  ]

  unfoldable pub remove : RideSessionStore F → Bytes → Bool × RideSessionStore F
  remove st ride_no =
      (contains ride_no st.sessions, record { sessions = erase ride_no st.sessions })
