-- ===== src/Server/Handlers/Trips.antt =====
-- The handlers of rides under way and past, and of damage: position_report.cpp, report_damage.cpp,
-- get_ride_detail.cpp and list_rides.cpp of server/src/handlers.
pub mod Damage
use shared_bike_refactor.Base.{ℕ, ◌==◌, not, none, some, List, [], map, if◌then◌else◌}
use shared_bike_refactor.Base.Int.{pos}
use shared_bike_refactor.Base.Outcome.{ok}
use shared_bike_refactor.Common.Errors.{
  ErrCode, code, to_string, success, invalid_msg, unauthorized, invalid_data,
}
use shared_bike_refactor.Common.Validation.{valid_bike_no, clamp_limit}
use shared_bike_refactor.Protocol.{
  report_damage_response, get_ride_detail_response, list_rides_response,
}
use shared_bike_refactor.Server.Bikes.{damaged, get_for_update, update_status}
use shared_bike_refactor.Server.Messages.{
  Codec, ReportDamageRequest, ReportDamageResponse, GetRideDetailRequest, GetRideDetailResponse,
  RidePointMessage, ListRidesRequest, ListRidesResponse, RideSummary,
}
use shared_bike_refactor.Server.Rides.{Ride, RidePoint, find_by_no, list_points, list_by_user}
use shared_bike_refactor.Server.RideSessions.{update_pos}
use shared_bike_refactor.Server.Router.{Ctx, HandlerFn, require_user, response}
use Prim.Native.String.{String}

abbrev pub damage_answer : ErrCode → String → ReportDamageResponse
damage_answer ec desc = record { code = code ec; desc = desc }

module _ {F : Type 0} where
  -- No answer is sent.
  unfoldable pub position_report : Codec F → HandlerFn F
  position_report codec payload ctx = elim (codec.parse_ride_position_report payload) [
    | none ↦ (ok [], ctx)
    | some req ↦
        let (_, store) =
          update_pos ctx.ride_sessions req.ride_no req.lat req.lng req.seq req.elapsed_sec in
        (ok [], record ctx { ride_sessions = store })
  ]

  -- From the test of the bike number on.
  unfoldable pub mark_damaged : ReportDamageRequest → Ctx F → ReportDamageResponse × Ctx F
  mark_damaged req ctx =
      if not (valid_bike_no req.bike_no)
      then (damage_answer invalid_data (to_string invalid_data), ctx)
      else elim (get_for_update ctx.bikes req.bike_no) [
        | none ↦ (damage_answer invalid_data "车辆不存在", ctx)
        | some bike ↦ (
          damage_answer success (to_string success),
          record ctx { bikes = (update_status ctx.bikes bike.id damaged).1 },
        )
      ]

  -- What follows the parse of the request.
  unfoldable pub take_damage : ReportDamageRequest → ℕ → Ctx F → ReportDamageResponse × Ctx F
  take_damage req session_now ctx =
      let (uid, ctx') = require_user req.session_token session_now ctx in
      elim uid [
        | none ↦ (damage_answer unauthorized (to_string unauthorized), ctx')
        | some _ ↦ mark_damaged req ctx'
      ]

  unfoldable pub report_damage : Codec F → ℕ → HandlerFn F
  report_damage codec session_now payload ctx =
      let write = λ (r : ReportDamageResponse).
        response report_damage_response (codec.report_damage_response_bytes r) in
      elim (codec.parse_report_damage_request payload) [
        | none ↦ (write (damage_answer invalid_msg (to_string invalid_msg)), ctx)
        | some req ↦ let (r, ctx') = take_damage req session_now ctx in (write r, ctx')
      ]

  abbrev pub detail_fail : ErrCode → GetRideDetailResponse F
  detail_fail ec = record {
    code = code ec;
    ride_no = [];
    duration_sec = 0;
    distance_m = pos 0;
    amount_cent = 0;
    start_tm = "";
    end_tm = "";
    points = [];
  }

  abbrev pub point_message : RidePoint F → RidePointMessage F
  point_message p = record { lat = p.lat; lng = p.lng; elapsed_sec = p.elapsed_sec }

  -- `fmt_iso` is a parameter: it calls the C library.
  abbrev pub detail_of : (ℕ → String) → Ride F → List (RidePoint F) → GetRideDetailResponse F
  detail_of fmt_iso ride points = record {
    code = code success;
    ride_no = ride.ride_no;
    duration_sec = ride.duration_sec;
    distance_m = ride.distance_m;
    amount_cent = ride.amount_cent;
    start_tm = fmt_iso ride.start_ts;
    end_tm = fmt_iso ride.end_ts;
    points = map point_message points;
  }

  unfoldable pub read_detail :
      (ℕ → String) → GetRideDetailRequest → ℕ → Ctx F → GetRideDetailResponse F × Ctx F
  read_detail fmt_iso req session_now ctx =
      let (uid, ctx') = require_user req.session_token session_now ctx in
      elim uid [
        | none ↦ (detail_fail unauthorized, ctx')
        | some u ↦ elim (find_by_no ctx'.rides req.ride_no) [
          | none ↦ (detail_fail invalid_data, ctx')
          | some ride ↦
              if not (ride.user_id == u)
              then (detail_fail unauthorized, ctx')
              else (detail_of fmt_iso ride (list_points ctx'.rides ride.id), ctx')
        ]
      ]

  unfoldable pub get_ride_detail : (ℕ → String) → Codec F → ℕ → HandlerFn F
  get_ride_detail fmt_iso codec session_now payload ctx =
      let write = λ (r : GetRideDetailResponse F).
        response get_ride_detail_response (codec.get_ride_detail_response_bytes r) in
      elim (codec.parse_get_ride_detail_request payload) [
        | none ↦ (write (detail_fail invalid_msg), ctx)
        | some req ↦ let (r, ctx') = read_detail fmt_iso req session_now ctx in (write r, ctx')
      ]

  abbrev pub summary_of : (ℕ → String) → Ride F → RideSummary
  summary_of fmt_iso r = record {
    ride_no = r.ride_no;
    start_tm = fmt_iso r.start_ts;
    duration_sec = r.duration_sec;
    distance_m = r.distance_m;
    amount_cent = r.amount_cent;
  }

  unfoldable pub read_rides :
      (ℕ → String) → ListRidesRequest → ℕ → Ctx F → ListRidesResponse × Ctx F
  read_rides fmt_iso req session_now ctx =
      let (uid, ctx') = require_user req.session_token session_now ctx in
      elim uid [
        | none ↦ (record { code = code unauthorized; rides = [] }, ctx')
        | some u ↦ (
          record {
            code = code success;
            rides = map (summary_of fmt_iso) (list_by_user ctx'.rides u (clamp_limit req.limit));
          },
          ctx',
        )
      ]

  unfoldable pub list_rides : (ℕ → String) → Codec F → ℕ → HandlerFn F
  list_rides fmt_iso codec session_now payload ctx =
      let write = λ (r : ListRidesResponse).
        response list_rides_response (codec.list_rides_response_bytes r) in
      elim (codec.parse_list_rides_request payload) [
        | none ↦ (write (record { code = code invalid_msg; rides = [] }), ctx)
        | some req ↦ let (r, ctx') = read_rides fmt_iso req session_now ctx in (write r, ctx')
      ]
