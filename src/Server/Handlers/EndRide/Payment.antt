-- ===== src/Server/Handlers/EndRide/Payment.antt =====
-- The payment of a ride: who pays, how much, and when nothing is taken.
use shared_bike_refactor.Base.{
  ℕ, ◌^◌, ◌<◌, ◌≡◌, refl, sym, ◌∙◌, ap, true, false, ◌&&◌, none, some, List, arith, inl,
  if◌then◌else◌, ◌==◌,
}
use shared_bike_refactor.Base.Dict.{Bytes, bytes_eq, bytes_eq_iff, lookup-erase_self, bytes_key}
use shared_bike_refactor.Base.Int.{
  ℤ, pos, negsuc, ◌+ℤ◌, ◌-ℤ◌, ◌≤ℤ◌, ltb_ℤ, IsInt, to_int-IsInt, int_laws,
}
use shared_bike_refactor.Base.Outcome.{ok}
use shared_bike_refactor.Common.Double.{Double}
use shared_bike_refactor.Common.Errors.{process_failed}
use shared_bike_refactor.Common.Pricing.{compute_fee, fee_of, fee_of-IsInt}
use shared_bike_refactor.Common.Validation.{valid_lat, valid_lng}
use shared_bike_refactor.Server.Accounts.{AccountRepo, consume, get_balance, add_balance}
use shared_bike_refactor.Server.Accounts.Ledger.{add_balance_refused, add_balance_lem}
use shared_bike_refactor.Server.Bikes.{
  Bike, BikeRepo, idle, get_for_update, update_status, update_location,
}
use shared_bike_refactor.Server.Bikes.Status.{
  IsValid as BikesAreValid, update_status_lem, update_location_lem, update_location-IsValid,
}
use shared_bike_refactor.Server.Messages.{EndRideRequest}
use shared_bike_refactor.Server.Rides.{RidePoint, Ride, find_by_no, ride_of}
use shared_bike_refactor.Server.Rides.Lookup.{IsValid as RidesAreValid, find_by_no-create}
use shared_bike_refactor.Server.RideSessions.{RideSession, RideSessionStore, find, remove}
use shared_bike_refactor.Server.Router.{Ctx, IsKept, require_user, require_user-IsKept}
use shared_bike_refactor.Server.Handlers.EndRide.{
  Readings, duration, end_session, find_ride, finish, pay, stored, ended, fail_with, distance_of,
  input_of, answer_ended,
}

-- The duration is an `int` that is not negative.
duration_lt : (start_ts end_ts : ℕ) → duration start_ts end_ts < 2 ^ 31
unfolding duration
duration_lt start_ts end_ts =
    let (above, below) = to_int-IsInt (pos end_ts -ℤ pos start_ts) in ground arith

nonneg-ltb : (z : ℤ) → pos 0 ≤ℤ z → ltb_ℤ z (pos 0) ≡ false
nonneg-ltb z h = ground arith

eq_self : (n : ℕ) → (n == n) ≡ true
eq_self n = ground arith

-- What is left of a balance after a fee is an `int`.
charge-IsInt :
    (bal : ℤ) (fee : ℕ)
    → pos 0 ≤ℤ bal
    → IsInt bal
    → fee < 2 ^ 31
    → IsInt (bal +ℤ (pos 0 -ℤ pos fee))
unfolding ◌+ℤ◌ ◌-ℤ◌
charge-IsInt (pos b) fee nonneg fits small = (ground arith, ground arith)
charge-IsInt (negsuc b) fee nonneg fits small = absurd (omega arith)

module _ {F : Type 0} (fl : Double F) (sort : List (RidePoint F) → List (RidePoint F))
    (now : Readings) (req : EndRideRequest F) where
  -- Who asks, and what the repositories hold, when a ride can be ended: a user, his session, and a
  -- balance in range.
  pub record CanEnd (ctx : Ctx F) (uid : ℕ) (s : RideSession F) : Type 0 where
    pub known : (require_user req.session_token now.session_now ctx).0 ≡ some uid
    pub fields : (valid_lat fl req.end_lat && valid_lng fl req.end_lng) ≡ true
    pub found : find ctx.ride_sessions req.ride_no ≡ some s
    pub keyed : s.ride_no ≡ req.ride_no
    pub owner : (s.user_id == uid) ≡ true
    pub nonneg : pos 0 ≤ℤ get_balance ctx.accounts uid
    pub fits : IsInt (get_balance ctx.accounts uid)

  -- The fee of a session at the end.
  abbrev pub fee : RideSession F → ℕ
  fee s = fee_of (duration s.start_ts now.end_now)

  fee_lt : (s : RideSession F) → fee s < 2 ^ 31
  fee_lt s = (fee_of-IsInt (duration s.start_ts now.end_now) (duration_lt s.start_ts now.end_now)).1

  find_ride-pay :
      (uid : ℕ) (ctx : Ctx F) (s : RideSession F)
      → (valid_lat fl req.end_lat && valid_lng fl req.end_lng) ≡ true
      → find ctx.ride_sessions req.ride_no ≡ some s
      → (s.user_id == uid) ≡ true
      → find_ride fl sort now req uid ctx
        ≡ pay fl sort now req s uid (duration s.start_ts now.end_now) (fee s) ctx
  unfolding find_ride finish compute_fee
  find_ride-pay uid ctx s fields found owner = ground (arith, fields, found, owner)

  pay_unpaid :
      (uid : ℕ) (ctx : Ctx F) (s : RideSession F) (dur amount : ℕ)
      → pos 0 ≤ℤ get_balance ctx.accounts uid
      → IsInt (get_balance ctx.accounts uid)
      → get_balance ctx.accounts uid +ℤ pos 1 ≤ℤ pos amount
      → amount < 2 ^ 31
      → pay fl sort now req s uid dur amount ctx ≡ (ok (fail_with process_failed "余额不足"), ctx)
  unfolding pay
  pay_unpaid uid ctx s dur amount nonneg fits low small =
      rw
        (
          add_balance_refused ctx.accounts uid consume (pos 0 -ℤ pos amount) now.account_now
              (charge-IsInt (get_balance ctx.accounts uid) amount nonneg fits small)
              (omega int_laws) (omega int_laws),
          pay,
        )
        refl

  -- A ride that the balance does not cover is not ended: the answer says so, and no account, bike, ride
  -- or ride session changes.
  pub end_unpaid :
      (ctx : Ctx F) (uid : ℕ) (s : RideSession F)
      → CanEnd ctx uid s
      → get_balance ctx.accounts uid +ℤ pos 1 ≤ℤ pos (fee s)
      → let (out, ctx') = end_session fl sort now req ctx in
        (out ≡ ok (fail_with process_failed "余额不足")) × IsKept ctx ctx'
  unfolding end_session
  end_unpaid ctx uid s v low =
      let kept = require_user-IsKept req.session_token now.session_now ctx in
      let c = (require_user req.session_token now.session_now ctx).1 in
      let low' : get_balance c.accounts uid +ℤ pos 1 ≤ℤ pos (fee s) = rw kept.accounts_kept low in
      rw
        (
          v.known,
          end_session,
          find_ride-pay uid c s v.fields
              (ap (λ r. find r req.ride_no) kept.ride_sessions_kept ∙ v.found) v.owner,
          pay_unpaid uid c s (duration s.start_ts now.end_now) (fee s)
              (rw kept.accounts_kept v.nonneg) (rw kept.accounts_kept v.fits) low' (fee_lt s),
        )
        (refl, kept)

  find-remove : (st : RideSessionStore F) (key : Bytes) → find (remove st key).1 key ≡ none
  unfolding find remove
  find-remove st key = lookup-erase_self key st.sessions

  -- The account after the fee.
  abbrev charged : ℕ → ℕ → Ctx F → ℤ × AccountRepo
  charged uid amount ctx =
      add_balance ctx.accounts uid consume (pos 0 -ℤ pos amount) now.account_now

  pay_paid :
      (uid : ℕ) (ctx : Ctx F) (s : RideSession F) (dur amount : ℕ)
      → pos 0 ≤ℤ get_balance ctx.accounts uid
      → IsInt (get_balance ctx.accounts uid)
      → pos amount ≤ℤ get_balance ctx.accounts uid
      → amount < 2 ^ 31
      → let (b, accounts) = charged uid amount ctx in
        (pay fl sort now req s uid dur amount ctx ≡ (
          ok (ended dur (distance_of fl sort now req s dur) amount b),
          stored fl sort now req s uid dur amount (record ctx { accounts = accounts }),
        ))
        × (b ≡ get_balance ctx.accounts uid +ℤ (pos 0 -ℤ pos amount))
        × (get_balance accounts uid ≡ b)
  unfolding pay
  pay_paid uid ctx s dur amount nonneg fits enough small =
      let (eb, balance, _, _) =
        add_balance_lem ctx.accounts uid consume (pos 0 -ℤ pos amount) now.account_now
          (charge-IsInt (get_balance ctx.accounts uid) amount nonneg fits small)
          (inl (omega int_laws)) in
      let above : ltb_ℤ (charged uid amount ctx).0 (pos 0) ≡ false =
        rw eb
          (nonneg-ltb (get_balance ctx.accounts uid +ℤ (pos 0 -ℤ pos amount)) (omega int_laws)) in
      (rw (above, pay) refl, eb, balance)

  -- A ride that the balance covers is ended: the user pays the fee of its duration once, the ride is
  -- found under its number with its track, and its session is gone.
  pub end_paid :
      (ctx : Ctx F) (uid : ℕ) (s : RideSession F)
      → CanEnd ctx uid s
      → RidesAreValid ctx.rides
      → pos (fee s) ≤ℤ get_balance ctx.accounts uid
      → let (out, ctx') = end_session fl sort now req ctx in
        let dur = duration s.start_ts now.end_now in
        (out
          ≡ ok (
              ended dur
                (distance_of fl sort now req s dur)
                (fee s)
                (get_balance ctx'.accounts uid)))
        × (get_balance ctx'.accounts uid ≡ get_balance ctx.accounts uid +ℤ (pos 0 -ℤ pos (fee s)))
        × (find_by_no ctx'.rides req.ride_no
            ≡ some (ride_of ctx.rides.next_id (input_of fl sort now req s uid dur (fee s))))
        × (find ctx'.ride_sessions req.ride_no ≡ none)
  unfolding end_session
  end_paid ctx uid s v rides enough =
      let kept = require_user-IsKept req.session_token now.session_now ctx in
      let c = (require_user req.session_token now.session_now ctx).1 in
      let dur = duration s.start_ts now.end_now in
      let (paid, eb, balance) =
        pay_paid uid c s dur (fee s) (rw kept.accounts_kept v.nonneg) (rw kept.accounts_kept v.fits)
          (rw kept.accounts_kept enough) (fee_lt s) in
      rw
        (
          v.known,
          end_session,
          find_ride-pay uid c s v.fields
              (ap (λ r. find r req.ride_no) kept.ride_sessions_kept ∙ v.found) v.owner,
          paid,
        )
        (
          rw balance refl,
          balance ∙ eb ∙ ap (λ r. get_balance r uid +ℤ (pos 0 -ℤ pos (fee s))) kept.accounts_kept,
          ap (find_by_no _) (sym v.keyed)
              ∙ (find_by_no-create c.rides (input_of fl sort now req s uid dur (fee s))
                  (rw kept.rides_kept rides)).0
              ∙ ap (λ r. some (ride_of r.next_id (input_of fl sort now req s uid dur (fee s))))
                  kept.rides_kept,
          ap (find _) (sym v.keyed) ∙ find-remove c.ride_sessions s.ride_no,
        )

  end_paid_bikes :
      (ctx : Ctx F) (uid : ℕ) (s : RideSession F)
      → CanEnd ctx uid s
      → pos (fee s) ≤ℤ get_balance ctx.accounts uid
      → (other : Bytes)
      → get_for_update (end_session fl sort now req ctx).1.bikes other
        ≡ get_for_update
            (update_status
              (update_location ctx.bikes s.bike_id req.end_lat req.end_lng).1
              s.bike_id
              idle).1
            other
  unfolding end_session
  end_paid_bikes ctx uid s v enough other =
      let kept = require_user-IsKept req.session_token now.session_now ctx in
      let c = (require_user req.session_token now.session_now ctx).1 in
      let (paid, _, _) =
        pay_paid uid c s (duration s.start_ts now.end_now) (fee s) (rw kept.accounts_kept v.nonneg)
          (rw kept.accounts_kept v.fits) (rw kept.accounts_kept enough) (fee_lt s) in
      rw
        (
          v.known,
          end_session,
          find_ride-pay uid c s v.fields
              (ap (λ r. find r req.ride_no) kept.ride_sessions_kept ∙ v.found) v.owner,
          paid,
        )
        (ap
          (λ (r : BikeRepo F).
            get_for_update
              (update_status (update_location r s.bike_id req.end_lat req.end_lng).1 s.bike_id
                idle).1
              other)
          kept.bikes_kept)

  answer_ended_lem :
      (uid : ℕ) (ctx : Ctx F) (row : Ride F)
      → (valid_lat fl req.end_lat && valid_lng fl req.end_lng) ≡ true
      → find ctx.ride_sessions req.ride_no ≡ none
      → find_by_no ctx.rides req.ride_no ≡ some row
      → (row.user_id == uid) ≡ true
      → find_ride fl sort now req uid ctx ≡ (
        ok (ended row.duration_sec row.distance_m row.amount_cent (get_balance ctx.accounts uid)),
        ctx,
      )
  unfolding find_ride answer_ended
  answer_ended_lem uid ctx row fields gone found owner = ground (arith, fields, gone, found, owner)

  -- A request for a ride of the user that is over is answered from the rides that are stored.
  end_session_over :
      (uid : ℕ) (ctx : Ctx F) (row : Ride F)
      → (require_user req.session_token now.session_now ctx).0 ≡ some uid
      → (valid_lat fl req.end_lat && valid_lng fl req.end_lng) ≡ true
      → find ctx.ride_sessions req.ride_no ≡ none
      → find_by_no ctx.rides req.ride_no ≡ some row
      → (row.user_id == uid) ≡ true
      → ((end_session fl sort now req ctx).0
          ≡ ok (
              ended row.duration_sec row.distance_m row.amount_cent (get_balance ctx.accounts uid)))
        × IsKept ctx (end_session fl sort now req ctx).1
  unfolding end_session
  end_session_over uid ctx row known fields gone found owner =
      let kept = require_user-IsKept req.session_token now.session_now ctx in
      let c = (require_user req.session_token now.session_now ctx).1 in
      rw
        (
          known,
          end_session,
          answer_ended_lem uid c row fields
              (ap (λ r. find r req.ride_no) kept.ride_sessions_kept ∙ gone)
              (ap (λ r. find_by_no r req.ride_no) kept.rides_kept ∙ found) owner,
        )
        (
          ap (λ r. ok (ended row.duration_sec row.distance_m row.amount_cent (get_balance r uid)))
              kept.accounts_kept,
          kept,
        )

-- Ending a ride that has been ended and paid answers the same duration, distance, fee and balance
-- again, and takes nothing: no account, bike, ride or ride session changes.
pub end_again :
    {F : Type 0} (fl : Double F) (sort : List (RidePoint F) → List (RidePoint F))
    (now now' : Readings) (req : EndRideRequest F) (ctx : Ctx F) (uid : ℕ) (s : RideSession F)
    → CanEnd fl sort now req ctx uid s
    → RidesAreValid ctx.rides
    → pos (fee fl sort now req s) ≤ℤ get_balance ctx.accounts uid
    → let (out, ctx') = end_session fl sort now req ctx in
      (require_user req.session_token now'.session_now ctx').0 ≡ some uid
      → ((end_session fl sort now' req ctx').0 ≡ out)
        × IsKept ctx' (end_session fl sort now' req ctx').1
end_again fl sort now now' req ctx uid s v rides enough known =
    let (same, balance, stored_at, gone) = end_paid fl sort now req ctx uid s v rides enough in
    let (again, kept) =
      end_session_over fl sort now' req uid (end_session fl sort now req ctx).1 _ known v.fields
        gone stored_at (eq_self uid) in
    (again ∙ sym same, kept)

placed_bike :
    {F : Type 0} (bikes : BikeRepo F) (key : Bytes) (b : Bike F) (lat lng : F) (other : Bytes)
    → BikesAreValid bikes
    → get_for_update bikes key ≡ some b
    → get_for_update (update_status (update_location bikes b.id lat lng).1 b.id idle).1 other ≡ (
        if bytes_eq key other
        then some (record b { lat = lat; lng = lng; status = idle })
        else get_for_update bikes other)
placed_bike bikes key b lat lng other v found =
    let moved = (update_location bikes b.id lat lng).1 in
    let b' = record b { lat = lat; lng = lng } in
    let there : get_for_update moved key ≡ some b' =
      (update_location_lem bikes key b lat lng key v found).1
      ∙ rw ((bytes_eq_iff key key).1 refl) refl in
    let left = (update_location_lem bikes key b lat lng other v found).1 in
    (update_status_lem moved key b' idle other (update_location-IsValid bikes b.id lat lng v)
      there).1
    ∙ ground (arith, left)

-- A ride that is ended and paid leaves its bike idle, whatever its status was, at the place of the
-- request, and every other bike as it was.
pub end_frees_bike :
    {F : Type 0} (fl : Double F) (sort : List (RidePoint F) → List (RidePoint F)) (now : Readings)
    (req : EndRideRequest F) (ctx : Ctx F) (uid : ℕ) (s : RideSession F) (key : Bytes) (b : Bike F)
    (other : Bytes)
    → CanEnd fl sort now req ctx uid s
    → pos (fee fl sort now req s) ≤ℤ get_balance ctx.accounts uid
    → BikesAreValid ctx.bikes
    → get_for_update ctx.bikes key ≡ some b
    → b.id ≡ s.bike_id
    → get_for_update (end_session fl sort now req ctx).1.bikes other ≡ (
        if bytes_eq key other
        then some (record b { lat = req.end_lat; lng = req.end_lng; status = idle })
        else get_for_update ctx.bikes other)
end_frees_bike fl sort now req ctx uid s key b other v enough bikes found same =
    end_paid_bikes fl sort now req ctx uid s v enough other
    ∙ rw (← same) (placed_bike ctx.bikes key b req.end_lat req.end_lng other bikes found)
