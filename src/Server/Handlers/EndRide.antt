-- ===== src/Server/Handlers/EndRide.antt =====
-- server/src/handlers/end_ride.cpp: a ride ends and is paid.
pub mod Payment
use shared_bike_refactor.Base.{ℕ, ◌&&◌, not, none, some, List, [], ◌∷◌, ◌++◌, if◌then◌else◌, ◌==◌}
use shared_bike_refactor.Base.Int.{ℤ, pos, ◌+ℤ◌, ◌-ℤ◌, ltb_ℤ, pos_part, to_int}
use shared_bike_refactor.Base.Outcome.{Outcome, ok, throw, ◌>>=◌}
use shared_bike_refactor.Common.Double.{Double}
use shared_bike_refactor.Common.Errors.{
  ErrCode, code, to_string, success, invalid_msg, unauthorized, invalid_data, process_failed,
}
use shared_bike_refactor.Common.Geo.{haversine_m}
use shared_bike_refactor.Common.Pricing.{compute_fee}
use shared_bike_refactor.Common.Validation.{valid_lat, valid_lng}
use shared_bike_refactor.Protocol.{end_ride_response}
use shared_bike_refactor.Server.Accounts.{consume, get_balance, add_balance}
use shared_bike_refactor.Server.Bikes.{idle, update_status, update_location}
use shared_bike_refactor.Server.Messages.{Codec, EndRideRequest, EndRideResponse}
use shared_bike_refactor.Server.Rides.{RidePoint, CreateRideInput, create_with_points, find_by_no}
use shared_bike_refactor.Server.RideSessions.{RideSession, find, remove}
use shared_bike_refactor.Server.Router.{Ctx, HandlerFn, require_user, response}
use Prim.Native.String.{String}

-- What a call reads: the clock of the sessions, `now_unix()`, and the clock of the account.
pub record Readings : Type 0 where
  pub session_now : ℕ
  pub end_now : ℕ
  pub account_now : ℕ

abbrev pub fail_with : ErrCode → String → EndRideResponse
fail_with ec desc = record {
  code = code ec;
  desc = desc;
  duration_sec = 0;
  distance_m = pos 0;
  amount_cent = 0;
  balance_after = pos 0;
}

abbrev pub fail : ErrCode → EndRideResponse
fail ec = fail_with ec (to_string ec)

abbrev pub ended : ℕ → ℤ → ℕ → ℤ → EndRideResponse
ended duration_sec distance_m amount balance = record {
  code = code success;
  desc = to_string success;
  duration_sec = duration_sec;
  distance_m = distance_m;
  amount_cent = amount;
  balance_after = balance;
}

-- `static_cast<int>(end_ts - start_ts)`, and 0 where that is negative.
unfoldable pub duration : ℕ → ℕ → ℕ
duration start_ts end_ts =
    let d = to_int (pos end_ts -ℤ pos start_ts) in if ltb_ℤ d (pos 0) then 0 else pos_part d

module _ {F : Type 0} (fl : Double F) where
  -- The sum of the distances from each point to the next.
  unfoldable pub track_length : F → List (RidePoint F) → F
  track_length acc [] = acc
  track_length acc (p ∷ []) = acc
  track_length acc (p ∷ q ∷ ps) =
      track_length (fl.add acc (haversine_m fl p.lat p.lng q.lat q.lng)) (q ∷ ps)

-- `sort` is the call of `std::sort` by the elapsed time.
module _ {F : Type 0} (fl : Double F) (sort : List (RidePoint F) → List (RidePoint F))
    (now : Readings) (req : EndRideRequest F) where
  abbrev pub track_of : RideSession F → ℕ → List (RidePoint F)
  track_of s dur = sort (
      (record { seq = pos 0; lat = s.start_lat; lng = s.start_lng; elapsed_sec = pos 0 } ∷ s.points)
      ++ (record {
        seq = to_int (s.last_seq +ℤ pos 1);
        lat = req.end_lat;
        lng = req.end_lng;
        elapsed_sec = pos dur;
      }
          ∷ []))

  abbrev pub distance_of : RideSession F → ℕ → ℤ
  distance_of s dur = fl.trunc (track_length fl (fl.lit 0 0) (track_of s dur))

  abbrev pub input_of : RideSession F → ℕ → ℕ → ℕ → CreateRideInput F
  input_of s uid dur amount = record {
    ride_no = s.ride_no;
    user_id = uid;
    bike_id = s.bike_id;
    start_ts = s.start_ts;
    end_ts = now.end_now;
    start_lat = s.start_lat;
    start_lng = s.start_lng;
    end_lat = req.end_lat;
    end_lng = req.end_lng;
    duration_sec = dur;
    distance_m = distance_of s dur;
    amount_cent = amount;
    points = track_of s dur;
  }

  -- What is written once the ride is paid.
  abbrev pub stored : RideSession F → ℕ → ℕ → ℕ → Ctx F → Ctx F
  stored s uid dur amount ctx =
      let placed = (update_location ctx.bikes s.bike_id req.end_lat req.end_lng).1 in
      record ctx {
        rides = (create_with_points ctx.rides (input_of s uid dur amount)).1;
        bikes = (update_status placed s.bike_id idle).1;
        ride_sessions = (remove ctx.ride_sessions s.ride_no).1;
      }

  -- The payment of a fee, and what follows.
  unfoldable pub pay : RideSession F → ℕ → ℕ → ℕ → Ctx F → Outcome EndRideResponse × Ctx F
  pay s uid dur amount ctx =
      let (new_bal, accounts) =
        add_balance ctx.accounts uid consume (pos 0 -ℤ pos amount) now.account_now in
      let ctx' = record ctx { accounts = accounts } in
      if ltb_ℤ new_bal (pos 0)
      then (ok (fail_with process_failed "余额不足"), ctx')
      else (ok (ended dur (distance_of s dur) amount new_bal), stored s uid dur amount ctx')

  -- A session was found.
  unfoldable pub finish : RideSession F → ℕ → Ctx F → Outcome EndRideResponse × Ctx F
  finish s uid ctx =
      let dur = duration s.start_ts now.end_now in
      if not (s.user_id == uid)
      then (ok (fail unauthorized), ctx)
      else elim (compute_fee (pos dur)) [
        | throw e ↦ (throw e, ctx)
        | ok amount ↦ pay s uid dur amount ctx
      ]

  -- No session was found: the ride may have been ended before.
  unfoldable pub answer_ended : ℕ → Ctx F → Outcome EndRideResponse × Ctx F
  answer_ended uid ctx = elim (find_by_no ctx.rides req.ride_no) [
    | none ↦ (ok (fail_with invalid_data "订单不存在"), ctx)
    | some row ↦ if not (row.user_id == uid) then (ok (fail unauthorized), ctx) else (
      ok (ended row.duration_sec row.distance_m row.amount_cent (get_balance ctx.accounts uid)),
      ctx,
    )
  ]

  -- From the test of the request's fields on.
  unfoldable pub find_ride : ℕ → Ctx F → Outcome EndRideResponse × Ctx F
  find_ride uid ctx =
      if not (valid_lat fl req.end_lat && valid_lng fl req.end_lng)
      then (ok (fail invalid_data), ctx)
      else elim (find ctx.ride_sessions req.ride_no) [
        | none ↦ answer_ended uid ctx
        | some s ↦ finish s uid ctx
      ]

  -- What follows the parse of the request.
  unfoldable pub end_session : Ctx F → Outcome EndRideResponse × Ctx F
  end_session ctx =
      let (uid, ctx') = require_user req.session_token now.session_now ctx in
      elim uid [ none ↦ (ok (fail unauthorized), ctx') | some u ↦ find_ride u ctx' ]

module _ {F : Type 0} where
  unfoldable pub end_ride :
      Double F → (List (RidePoint F) → List (RidePoint F)) → Codec F → Readings → HandlerFn F
  end_ride fl sort codec now payload ctx =
      let write =
        λ (r : EndRideResponse). response end_ride_response (codec.end_ride_response_bytes r) in
      elim (codec.parse_end_ride_request payload) [
        | none ↦ (write (fail invalid_msg), ctx)
        | some req ↦ let (out, ctx') = end_session fl sort now req ctx in (out >>= write, ctx')
      ]
