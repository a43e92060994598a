-- ===== src/Client/ApiBridge/Responses.antt =====
-- `handleFrame`: what a response does to the bridge. Each `take_…` is one case of its switch, at what the
-- payload was parsed to.
use shared_bike_refactor.Base.{
  ℕ, true, false, not, ◌&&◌, Option, none, some, [], ◌∷◌, ◌++◌, length, ◌==◌, if◌then◌else◌,
}
use shared_bike_refactor.Base.Dict.{Bytes}
use shared_bike_refactor.Base.Int.{pos}
use shared_bike_refactor.Server.Messages.{
  MobileResponse, LoginResponse, RechargeResponse, AccountBalanceResponse,
  ListAccountRecordsResponse, ListNearbyBikesResponse, ScanUnlockResponse, EndRideResponse,
  ReportDamageResponse, GetRideDetailResponse, ListRidesResponse,
}
use shared_bike_refactor.Client.ApiBridge.Values.{
  ApiBridge, ClientCodec, RideDetail, BridgeSignal, session_changed, mobile_code_result,
  login_result, balance_ready, records_ready, nearby_bikes_ready, unlock_result, ride_ended,
  damage_result, ride_detail_ready, rides_ready,
}
use Prim.Native.String.{String}

abbrev pub unreadable : String
unreadable = "响应解析失败"

module _ {F : Type 0} where
  abbrev pub emit : BridgeSignal F → ApiBridge F → ApiBridge F
  emit s b = record b { emitted = b.emitted ++ (s ∷ []) }

  unfoldable pub take_mobile : Option MobileResponse → ApiBridge F → ApiBridge F
  take_mobile none b = emit (mobile_code_result false 0 unreadable) b
  take_mobile (some rsp) b = emit (mobile_code_result true rsp.icode rsp.text) b

  unfoldable pub take_login : Option LoginResponse → ApiBridge F → ApiBridge F
  take_login none b = emit (login_result false unreadable) b
  take_login (some rsp) b =
      let success = (rsp.code == 200) && not (length rsp.session_token == 0) in
      emit (login_result success rsp.desc) (
        if success
        then emit session_changed (record b {
          token = rsp.session_token;
          mobile = b.pending_mobile;
          active_ride = b.saved_ride;
        })
        else b)

  unfoldable pub take_recharge : Option RechargeResponse → ApiBridge F → ApiBridge F
  take_recharge none b = emit (balance_ready false (pos 0) unreadable) b
  take_recharge (some rsp) b =
      emit
        (balance_ready (rsp.code == 200) rsp.balance (if rsp.code == 200 then "充值成功" else rsp.desc))
        b

  unfoldable pub take_balance : Option AccountBalanceResponse → ApiBridge F → ApiBridge F
  take_balance none b = emit (balance_ready false (pos 0) unreadable) b
  take_balance (some rsp) b = emit (balance_ready (rsp.code == 200) rsp.balance "") b

  unfoldable pub take_records : Option ListAccountRecordsResponse → ApiBridge F → ApiBridge F
  take_records none b = emit (records_ready false [] unreadable) b
  take_records (some rsp) b = emit (records_ready (rsp.code == 200) rsp.records "") b

  unfoldable pub take_nearby : Option (ListNearbyBikesResponse F) → ApiBridge F → ApiBridge F
  take_nearby none b = emit (nearby_bikes_ready false [] unreadable) b
  take_nearby (some rsp) b = emit (nearby_bikes_ready (rsp.code == 200) rsp.bikes "") b

  unfoldable pub take_unlock : Option ScanUnlockResponse → ApiBridge F → ApiBridge F
  take_unlock none b = emit (unlock_result false [] unreadable) b
  take_unlock (some rsp) b =
      if rsp.code == 200
      then emit (unlock_result true rsp.ride_no rsp.desc)
          (emit session_changed (record b { active_ride = rsp.ride_no; saved_ride = rsp.ride_no }))
      else emit (unlock_result false [] rsp.desc) b

  unfoldable pub take_ended : Option EndRideResponse → ApiBridge F → ApiBridge F
  take_ended none b = emit (ride_ended false 0 (pos 0) unreadable) b
  take_ended (some rsp) b =
      emit (ride_ended (rsp.code == 200) rsp.amount_cent rsp.balance_after rsp.desc) (
        if rsp.code == 200
        then emit session_changed (record b { active_ride = []; saved_ride = [] })
        else b)

  unfoldable pub take_damage : Option ReportDamageResponse → ApiBridge F → ApiBridge F
  take_damage none b = emit (damage_result false unreadable) b
  take_damage (some rsp) b = emit (damage_result (rsp.code == 200) rsp.desc) b

  -- The map of a ride, as the response has it.
  abbrev pub detail_of : GetRideDetailResponse F → RideDetail F
  detail_of rsp = record {
    ride_no = rsp.ride_no;
    duration_sec = rsp.duration_sec;
    distance_m = rsp.distance_m;
    amount_cent = rsp.amount_cent;
    start_tm = rsp.start_tm;
    end_tm = rsp.end_tm;
    points = rsp.points;
  }

  unfoldable pub take_detail : Option (GetRideDetailResponse F) → ApiBridge F → ApiBridge F
  take_detail none b = emit (ride_detail_ready false none unreadable) b
  take_detail (some rsp) b = emit (ride_detail_ready (rsp.code == 200) (some (detail_of rsp)) "") b

  unfoldable pub take_rides : Option ListRidesResponse → ApiBridge F → ApiBridge F
  take_rides none b = emit (rides_ready false [] unreadable) b
  take_rides (some rsp) b = emit (rides_ready (rsp.code == 200) rsp.rides "") b

  unfoldable pub handle_frame : ClientCodec F → ℕ → Bytes → ApiBridge F → ApiBridge F
  handle_frame codec rsp_eid payload b =
      if rsp_eid == 0x02
      then take_mobile (codec.parse_mobile_response payload) b
      else if rsp_eid == 0x04
      then take_login (codec.parse_login_response payload) b
      else if rsp_eid == 0x06
      then take_recharge (codec.parse_recharge_response payload) b
      else if rsp_eid == 0x08
      then take_balance (codec.parse_account_balance_response payload) b
      else if rsp_eid == 0x10
      then take_records (codec.parse_list_account_records_response payload) b
      else if rsp_eid == 0x12
      then take_nearby (codec.parse_list_nearby_bikes_response payload) b
      else if rsp_eid == 0x14
      then take_unlock (codec.parse_scan_unlock_response payload) b
      else if rsp_eid == 0x18
      then take_ended (codec.parse_end_ride_response payload) b
      else if rsp_eid == 0x1a
      then take_damage (codec.parse_report_damage_response payload) b
      else if rsp_eid == 0x1c
      then take_detail (codec.parse_get_ride_detail_response payload) b
      else if rsp_eid == 0x1e
      then take_rides (codec.parse_list_rides_response payload) b
      else b
