-- ===== src/Server/Handlers/ScanUnlock.antt =====
-- server/src/handlers/scan_unlock.cpp: a user takes a bike.
pub mod Exclusive
pub mod Races
use shared_bike_refactor.Base.{ℕ, ◌+◌, ◌%◌, ◌&&◌, not, none, some, [], if◌then◌else◌}
use shared_bike_refactor.Base.Dict.{Bytes}
use shared_bike_refactor.Base.Int.{pos, ltb_ℤ}
use shared_bike_refactor.Base.Outcome.{Outcome, ok, throw, ◌>>=◌}
use shared_bike_refactor.Common.Double.{Double}
use shared_bike_refactor.Common.Errors.{
  ErrCode, code, to_string, success, invalid_msg, unauthorized, invalid_data, process_failed,
  bike_is_running, bike_is_damaged,
}
use shared_bike_refactor.Common.RideNo.{make_ride_no}
use shared_bike_refactor.Common.Validation.{valid_bike_no, valid_lat, valid_lng}
use shared_bike_refactor.Protocol.{scan_unlock_response}
use shared_bike_refactor.Server.Accounts.{get_balance}
use shared_bike_refactor.Server.Bikes.{Bike, idle, rented, damaged, get_for_update, update_status}
use shared_bike_refactor.Server.Messages.{Codec, ScanUnlockRequest, ScanUnlockResponse}
use shared_bike_refactor.Server.RideSessions.{RideSession, create}
use shared_bike_refactor.Server.Router.{Ctx, HandlerFn, require_user, response}
use Prim.Native.String.{String}

-- What a call reads: the clock of the sessions, `now_unix()` for the number and for the start, and
-- `today_yyyymmdd()`.
pub record Readings : Type 0 where
  pub session_now : ℕ
  pub number_now : ℕ
  pub today : ℕ
  pub start_now : ℕ

-- `desc` in place of the code's own text.
abbrev pub fail_with : ErrCode → String → ScanUnlockResponse
fail_with ec desc = record { code = code ec; desc = desc; ride_no = []; start_ts = 0 }

abbrev pub fail : ErrCode → ScanUnlockResponse
fail ec = fail_with ec (to_string ec)

module _ {F : Type 0} (now : Readings) (req : ScanUnlockRequest F) where
  abbrev pub session_of : Bytes → ℕ → Bike F → RideSession F
  session_of ride_no uid bike = record {
    ride_no = ride_no;
    user_id = uid;
    bike_id = bike.id;
    start_lat = req.lat;
    start_lng = req.lng;
    start_ts = now.start_now;
    last_lat = req.lat;
    last_lng = req.lng;
    last_seq = pos 0;
    points = [];
  }

  -- The session and the bike of a ride that starts.
  abbrev pub started : Bytes → ℕ → Bike F → Ctx F → Ctx F
  started ride_no uid bike ctx = record ctx {
    ride_sessions = create ctx.ride_sessions (session_of ride_no uid bike);
    bikes = (update_status ctx.bikes bike.id rented).1;
  }

  -- From the test of the balance on.
  unfoldable pub take_bike : ℕ → Bike F → Ctx F → Outcome ScanUnlockResponse × Ctx F
  take_bike uid bike ctx =
      if ltb_ℤ (get_balance ctx.accounts uid) (pos 100)
      then (ok (fail_with process_failed "余额不足"), ctx)
      else elim (make_ride_no now.today (pos (now.number_now % 999999 + 1))) [
        | throw e ↦ (throw e, ctx)
        | ok ride_no ↦ (
          ok (record {
            code = code success;
            desc = to_string success;
            ride_no = ride_no;
            start_ts = now.start_now;
          }),
          started ride_no uid bike ctx,
        )
      ]

  -- From the test of the status on.
  unfoldable pub unlock_bike : ℕ → Bike F → Ctx F → Outcome ScanUnlockResponse × Ctx F
  unlock_bike uid bike ctx = elim bike.status [
    | damaged ↦ (ok (fail bike_is_damaged), ctx)
    | rented ↦ (ok (fail bike_is_running), ctx)
    | idle ↦ take_bike uid bike ctx
  ]

  -- From the test of the request's fields on.
  unfoldable pub find_bike : Double F → ℕ → Ctx F → Outcome ScanUnlockResponse × Ctx F
  find_bike fl uid ctx =
      if not (valid_bike_no req.bike_no && valid_lat fl req.lat && valid_lng fl req.lng)
      then (ok (fail invalid_data), ctx)
      else elim (get_for_update ctx.bikes req.bike_no) [
        | none ↦ (ok (fail_with invalid_data "车辆不存在"), ctx)
        | some bike ↦ unlock_bike uid bike ctx
      ]

  -- What follows the parse of the request.
  unfoldable pub unlock : Double F → Ctx F → Outcome ScanUnlockResponse × Ctx F
  unlock fl ctx =
      let (uid, ctx') = require_user req.session_token now.session_now ctx in
      elim uid [ none ↦ (ok (fail unauthorized), ctx') | some u ↦ find_bike fl u ctx' ]

module _ {F : Type 0} where
  unfoldable pub scan_unlock : Double F → Codec F → Readings → HandlerFn F
  scan_unlock fl codec now payload ctx =
      let write = λ (r : ScanUnlockResponse).
        response scan_unlock_response (codec.scan_unlock_response_bytes r) in
      elim (codec.parse_scan_unlock_request payload) [
        | none ↦ (write (fail invalid_msg), ctx)
        | some req ↦ let (out, ctx') = unlock now req fl ctx in (out >>= write, ctx')
      ]
