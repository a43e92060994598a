-- ===== src/Server/Handlers/ScanUnlock/Races.antt =====
-- Two scans of one bike: handlers run in a pool of threads, and nothing is held between the look at the
-- bike, `get_for_update`, and its `update_status` (server/src/handlers/scan_unlock.cpp).
use shared_bike_refactor.Base.{
  ℕ, ◌^◌, ◌<◌, ◌≡◌, refl, ◌∙◌, ap, true, not, ◌&&◌, Option, none, some, arith, Option-cases, inl,
  inr, if◌then◌else◌,
}
use shared_bike_refactor.Base.Dict.{Bytes, bytes_key, lookup-insert_self}
use shared_bike_refactor.Base.Int.{pos, ◌≤ℤ◌}
use shared_bike_refactor.Base.Outcome.{Outcome, ok}
use shared_bike_refactor.Common.Double.{Double}
use shared_bike_refactor.Common.Errors.{code, to_string, success, invalid_data, unauthorized}
use shared_bike_refactor.Common.Validation.{valid_bike_no, valid_lat, valid_lng}
use shared_bike_refactor.Server.Accounts.{get_balance}
use shared_bike_refactor.Server.Bikes.{Bike, idle, get_for_update}
use shared_bike_refactor.Server.Messages.{ScanUnlockRequest, ScanUnlockResponse}
use shared_bike_refactor.Server.RideSessions.{create, find}
use shared_bike_refactor.Server.Router.{Ctx, IsKept, require_user, require_user-IsKept}
use shared_bike_refactor.Server.Handlers.ScanUnlock.{
  Readings, unlock, find_bike, unlock_bike, session_of, fail, fail_with,
}
use shared_bike_refactor.Server.Handlers.ScanUnlock.Exclusive.{
  CanUnlock, take_bike_free, unlock_taken,
}

-- What a thread holds between the two: an answer, or the user and its copy of the bike.
pub data Looked (F : Type 0) : Type 0 where
  refused : ScanUnlockResponse → Looked F
  has_seen : ℕ → Bike F → Looked F

module _ {F : Type 0} (now : Readings) (req : ScanUnlockRequest F) where
  -- Up to `get_for_update`.
  unfoldable pub look_at : Double F → Option ℕ → Ctx F → Looked F
  look_at fl none ctx = refused (fail unauthorized)
  look_at fl (some uid) ctx =
      if not (valid_bike_no req.bike_no && valid_lat fl req.lat && valid_lng fl req.lng)
      then refused (fail invalid_data)
      else elim (get_for_update ctx.bikes req.bike_no) [
        | none ↦ refused (fail_with invalid_data "车辆不存在")
        | some bike ↦ has_seen uid bike
      ]

  unfoldable pub look : Double F → Ctx F → Looked F × Ctx F
  unfolding look_at
  look fl ctx =
      let (uid, ctx') = require_user req.session_token now.session_now ctx in
      (look_at fl uid ctx', ctx')

  -- From the test of the status on, with the copy of the bike.
  unfoldable pub finish : Looked F → Ctx F → Outcome ScanUnlockResponse × Ctx F
  unfolding unlock_bike
  finish (refused rsp) ctx = (ok rsp, ctx)
  finish (has_seen uid bike) ctx = unlock_bike now req uid bike ctx

  finish-look_at :
      (fl : Double F) (uid : ℕ) (ctx : Ctx F)
      → finish (look_at fl (some uid) ctx) ctx ≡ find_bike now req fl uid ctx
  unfolding finish look_at find_bike
  finish-look_at fl uid ctx = elim (Option-cases (get_for_update ctx.bikes req.bike_no)) [
    | inl e ↦ ground (arith, e)
    | inr (bike, e) ↦ ground (arith, e)
  ]

  -- A scan with nothing between its two parts is the handler.
  finish-look :
      (fl : Double F) (ctx : Ctx F) → finish (look fl ctx).0 (look fl ctx).1 ≡ unlock now req fl ctx
  unfolding finish look look_at unlock
  finish-look fl ctx =
      let c = (require_user req.session_token now.session_now ctx).1 in
      elim (Option-cases (require_user req.session_token now.session_now ctx).0) [
        | inl e ↦ rw (e, unlock, look) refl
        | inr (uid, e) ↦ rw (e, unlock, look) (finish-look_at fl uid c)
      ]

  look-IsKept : (fl : Double F) (ctx : Ctx F) → IsKept ctx (look fl ctx).1
  unfolding look
  look-IsKept fl ctx = require_user-IsKept req.session_token now.session_now ctx

  seen_free :
      (fl : Double F) (uid : ℕ) (bike : Bike F) (ctx : Ctx F)
      → (valid_bike_no req.bike_no && valid_lat fl req.lat && valid_lng fl req.lng) ≡ true
      → get_for_update ctx.bikes req.bike_no ≡ some bike
      → look_at fl (some uid) ctx ≡ has_seen uid bike
  unfolding look_at
  seen_free fl uid bike ctx fields found = ground (arith, fields, found)

  look_free :
      (fl : Double F) (ctx : Ctx F) (uid : ℕ) (bike : Bike F)
      → CanUnlock fl now req ctx uid bike
      → (look fl ctx).0 ≡ has_seen uid bike
  unfolding look
  look_free fl ctx uid bike v =
      let kept = require_user-IsKept req.session_token now.session_now ctx in
      let c = (require_user req.session_token now.session_now ctx).1 in
      let found : get_for_update c.bikes req.bike_no ≡ some bike =
        ap (λ r. get_for_update r req.bike_no) kept.bikes_kept ∙ v.found in
      rw (v.known, look) (seen_free fl uid bike c v.fields found)

  finish_free :
      (fl : Double F) (ctx : Ctx F) (uid : ℕ) (bike : Bike F)
      → bike.status ≡ idle
      → pos 100 ≤ℤ get_balance ctx.accounts uid
      → now.today < 10 ^ 8
      → (ride_no : Bytes) × ((finish (has_seen uid bike) ctx).0
          ≡ ok (record {
            code = code success;
            desc = to_string success;
            ride_no = ride_no;
            start_ts = now.start_now;
          }))
        × (find (finish (has_seen uid bike) ctx).1.ride_sessions ride_no
            ≡ some (session_of now req ride_no uid bike))
        × ((finish (has_seen uid bike) ctx).1.accounts ≡ ctx.accounts)
  unfolding finish unlock_bike create find
  finish_free fl ctx uid bike free covered date =
      let (ride_no, e) = take_bike_free fl now req uid bike ctx covered date in
      let s = session_of now req ride_no uid bike in
      rw (free, finish, unlock_bike, e)
        (ride_no, refl, lookup-insert_self ride_no s ctx.ride_sessions.sessions, refl)

-- Two scans of one free bike, by users who can both take it. When the second is handled after the first,
-- it changes no account, bike, ride or ride session. When both threads have looked at the bike before
-- either of them marks it as rented, both scans are granted, and each stores a ride session on that bike.
pub unlock_race :
    {F : Type 0} (fl : Double F) (now now' : Readings) (req req' : ScanUnlockRequest F)
    (ctx : Ctx F) (uid uid' : ℕ) (bike : Bike F)
    → CanUnlock fl now req ctx uid bike
    → CanUnlock fl now' req' (look now req fl ctx).1 uid' bike
    → req'.bike_no ≡ req.bike_no
    → IsKept (unlock now req fl ctx).1 (unlock now' req' fl (unlock now req fl ctx).1).1
      × (let (a, c1) = look now req fl ctx in
          let (b, c2) = look now' req' fl c1 in
          let (out, c3) = finish now req a c2 in
          let (out', c4) = finish now' req' b c3 in
          (ride_no : Bytes) × (ride_no' : Bytes) × (out
            ≡ ok (record {
              code = code success;
              desc = to_string success;
              ride_no = ride_no;
              start_ts = now.start_now;
            }))
          × (out'
              ≡ ok (record {
                code = code success;
                desc = to_string success;
                ride_no = ride_no';
                start_ts = now'.start_now;
              }))
          × (find c3.ride_sessions ride_no ≡ some (session_of now req ride_no uid bike))
          × (find c4.ride_sessions ride_no' ≡ some (session_of now' req' ride_no' uid' bike)))
unlock_race fl now now' req req' ctx uid uid' bike v v' same_no =
    let c1 = (look now req fl ctx).1 in
    let c2 = (look now' req' fl c1).1 in
    let first = look-IsKept now req fl ctx in
    let second = look-IsKept now' req' fl c1 in
    let (ride_no, granted, there, same) =
      finish_free now req fl c2 uid bike v.free
        (rw (second.accounts_kept, first.accounts_kept) v.covered) v.date in
    let c3 = (finish now req (has_seen uid bike) c2).1 in
    let (ride_no', granted', there', _) =
      finish_free now' req' fl c3 uid' bike v'.free (rw (same, second.accounts_kept) v'.covered)
        v'.date in
    (
      unlock_taken fl now now' req req' ctx uid bike v same_no,
      rw (look_free now req fl ctx uid bike v, look_free now' req' fl c1 uid' bike v')
          (ride_no, ride_no', granted, granted', there, there'),
    )
