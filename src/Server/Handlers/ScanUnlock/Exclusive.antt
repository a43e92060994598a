-- ===== src/Server/Handlers/ScanUnlock/Exclusive.antt =====
-- What a scan of a bike does, handled with no other handler between its calls; Races has two at once.
use shared_bike_refactor.Base.{
  ℕ, ◌+◌, ◌%◌, ◌^◌, ◌<◌, ◌≡◌, ◌≢◌, refl, ◌∙◌, ap, true, ◌&&◌, some, ◌∷◌, arith, Option-cases, inl,
  inr, if◌then◌else◌,
}
use shared_bike_refactor.Base.Dict.{Bytes, bytes_eq, bytes_eq_iff, lookup-insert_self, bytes_key}
use shared_bike_refactor.Base.Int.{pos, ◌≤ℤ◌}
use shared_bike_refactor.Base.Outcome.{ok}
use shared_bike_refactor.Common.Double.{Double}
use shared_bike_refactor.Common.Errors.{code, to_string, success}
use shared_bike_refactor.Common.RideNo.{make_ride_no_lem}
use shared_bike_refactor.Common.Validation.{valid_bike_no, valid_lat, valid_lng}
use shared_bike_refactor.Server.Accounts.{get_balance}
use shared_bike_refactor.Server.Bikes.{Bike, idle, rented, get_for_update}
use shared_bike_refactor.Server.Bikes.Status.{IsValid, update_status_lem}
use shared_bike_refactor.Server.Messages.{ScanUnlockRequest}
use shared_bike_refactor.Server.RideSessions.{create, find}
use shared_bike_refactor.Server.Router.{Ctx, IsKept, require_user, require_user-IsKept}
use shared_bike_refactor.Server.Handlers.ScanUnlock.{
  Readings, unlock, find_bike, unlock_bike, take_bike, started, session_of,
}

module _ {F : Type 0} (fl : Double F) (now : Readings) (req : ScanUnlockRequest F) where
  find_bike_busy :
      (uid : ℕ) (ctx : Ctx F) (bike : Bike F)
      → get_for_update ctx.bikes req.bike_no ≡ some bike
      → bike.status ≢ idle
      → (find_bike now req fl uid ctx).1 ≡ ctx
  unfolding find_bike unlock_bike
  find_bike_busy uid ctx bike e busy = ground (arith, e)

  -- A request for a bike that is rented or damaged changes no account, bike, ride or ride session.
  pub unlock_busy :
      (ctx : Ctx F) (bike : Bike F)
      → get_for_update ctx.bikes req.bike_no ≡ some bike
      → bike.status ≢ idle
      → IsKept ctx (unlock now req fl ctx).1
  unfolding unlock
  unlock_busy ctx bike e busy =
      let kept = require_user-IsKept req.session_token now.session_now ctx in
      elim (Option-cases (require_user req.session_token now.session_now ctx).0) [
        | inl h ↦ rw (h, unlock) kept
        | inr (uid, h) ↦
            rw
              (
                h,
                unlock,
                find_bike_busy uid (require_user req.session_token now.session_now ctx).1 bike
                    (ap (λ r. get_for_update r req.bike_no) kept.bikes_kept ∙ e) busy,
              )
              kept
      ]

  -- Who asks, and what the repositories hold, when a bike can be taken.
  pub record CanUnlock (ctx : Ctx F) (uid : ℕ) (bike : Bike F) : Type 0 where
    pub known : (require_user req.session_token now.session_now ctx).0 ≡ some uid
    pub fields : (valid_bike_no req.bike_no && valid_lat fl req.lat && valid_lng fl req.lng) ≡ true
    pub found : get_for_update ctx.bikes req.bike_no ≡ some bike
    pub free : bike.status ≡ idle
    pub covered : pos 100 ≤ℤ get_balance ctx.accounts uid
    pub date : now.today < 10 ^ 8
    pub distinct : IsValid ctx.bikes

  pub take_bike_free :
      (uid : ℕ) (bike : Bike F) (ctx : Ctx F)
      → pos 100 ≤ℤ get_balance ctx.accounts uid
      → now.today < 10 ^ 8
      → (ride_no : Bytes) × (take_bike now req uid bike ctx ≡ (
        ok (record {
          code = code success;
          desc = to_string success;
          ride_no = ride_no;
          start_ts = now.start_now;
        }),
        started now req ride_no uid bike ctx,
      ))
  unfolding take_bike
  take_bike_free uid bike ctx covered date =
      let (ds, e, _, _) =
        make_ride_no_lem now.today (now.number_now % 999999 + 1) date (omega arith) (omega arith) in
      (b'R' ∷ ds, ground (arith, e))

  find_bike_free :
      (uid : ℕ) (bike : Bike F) (ctx : Ctx F)
      → (valid_bike_no req.bike_no && valid_lat fl req.lat && valid_lng fl req.lng) ≡ true
      → get_for_update ctx.bikes req.bike_no ≡ some bike
      → bike.status ≡ idle
      → find_bike now req fl uid ctx ≡ take_bike now req uid bike ctx
  unfolding find_bike unlock_bike
  find_bike_free uid bike ctx fields found free = ground (arith, fields, found, free)

  -- A user with a balance of 100 or more who asks for a bike that is free gets it: a session of the ride
  -- is there under the number that is answered, the bike is rented, and every other bike, the accounts
  -- and the rides are as before.
  pub unlock_free :
      (ctx : Ctx F) (uid : ℕ) (bike : Bike F)
      → CanUnlock ctx uid bike
      → let (out, ctx') = unlock now req fl ctx in
        (ride_no : Bytes) × (out
          ≡ ok (record {
            code = code success;
            desc = to_string success;
            ride_no = ride_no;
            start_ts = now.start_now;
          }))
        × (find ctx'.ride_sessions ride_no ≡ some (session_of now req ride_no uid bike))
        × ((other : Bytes)
            → get_for_update ctx'.bikes other ≡ (
                if bytes_eq req.bike_no other
                then some (record bike { status = rented })
                else get_for_update ctx.bikes other))
        × (ctx'.accounts ≡ ctx.accounts)
        × (ctx'.rides ≡ ctx.rides)
  unfolding unlock create find
  unlock_free ctx uid bike v =
      let kept = require_user-IsKept req.session_token now.session_now ctx in
      let c = (require_user req.session_token now.session_now ctx).1 in
      let found : get_for_update c.bikes req.bike_no ≡ some bike =
        ap (λ r. get_for_update r req.bike_no) kept.bikes_kept ∙ v.found in
      let covered : pos 100 ≤ℤ get_balance c.accounts uid = rw kept.accounts_kept v.covered in
      let (ride_no, e) = take_bike_free uid bike c covered v.date in
      let s = session_of now req ride_no uid bike in
      rw (v.known, unlock, find_bike_free uid bike c v.fields found v.free, e)
        (
          ride_no,
          refl,
          lookup-insert_self ride_no s c.ride_sessions.sessions,
          λ other.
              (update_status_lem c.bikes req.bike_no bike rented other
                (rw kept.bikes_kept v.distinct) found).1
              ∙ ap
                  (λ r.
                    if bytes_eq req.bike_no other
                    then some (record bike { status = rented })
                    else get_for_update r other)
                  kept.bikes_kept,
          kept.accounts_kept,
          kept.rides_kept,
        )

-- While a bike is rented nobody else gets it: when a request has been granted, the next request for
-- that bike, by whomever, changes no account, bike, ride or ride session.
pub unlock_taken :
    {F : Type 0} (fl : Double F) (now now' : Readings) (req req' : ScanUnlockRequest F)
    (ctx : Ctx F) (uid : ℕ) (bike : Bike F)
    → CanUnlock fl now req ctx uid bike
    → req'.bike_no ≡ req.bike_no
    → IsKept (unlock now req fl ctx).1 (unlock now' req' fl (unlock now req fl ctx).1).1
unlock_taken fl now now' req req' ctx uid bike v same =
    let (_, _, _, bikes, _, _) = unlock_free fl now req ctx uid bike v in
    unlock_busy fl now' req' (unlock now req fl ctx).1 (record bike { status = rented })
      (ap (λ key. get_for_update (unlock now req fl ctx).1.bikes key) same
        ∙ bikes req.bike_no
        ∙ rw ((bytes_eq_iff req.bike_no req.bike_no).1 refl) refl)
      (λ e. cc)
