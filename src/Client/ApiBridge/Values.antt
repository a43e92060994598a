-- ===== src/Client/ApiBridge/Values.antt =====
-- What the bridge of the client keeps, asks for and emits.
use shared_bike_refactor.Base.{ℕ, Bool, Option, List}
use shared_bike_refactor.Base.Dict.{Bytes, Dict}
use shared_bike_refactor.Base.Int.{ℤ}
use shared_bike_refactor.Server.Messages.{
  MobileRequest, MobileResponse, LoginRequest, LoginResponse, RechargeRequest, RechargeResponse,
  TokenRequest, AccountBalanceResponse, AccountRecordMessage, ListAccountRecordsResponse,
  ListNearbyBikesRequest, BikeInfo, ListNearbyBikesResponse, ScanUnlockRequest, ScanUnlockResponse,
  RidePositionReport, EndRideRequest, EndRideResponse, ReportDamageRequest, ReportDamageResponse,
  GetRideDetailRequest, RidePointMessage, GetRideDetailResponse, ListRidesRequest, RideSummary,
  ListRidesResponse,
}
use Prim.Native.String.{String}

module _ (F : Type 0) where
  -- `SerializeAsString` of each request, and `ParseFromArray` of each response.
  pub record ClientCodec : Type 0 where
    pub mobile_request_bytes : MobileRequest → Bytes
    pub parse_mobile_response : Bytes → Option MobileResponse
    pub login_request_bytes : LoginRequest → Bytes
    pub parse_login_response : Bytes → Option LoginResponse
    pub recharge_request_bytes : RechargeRequest → Bytes
    pub parse_recharge_response : Bytes → Option RechargeResponse
    pub account_balance_request_bytes : TokenRequest → Bytes
    pub parse_account_balance_response : Bytes → Option AccountBalanceResponse
    pub list_account_records_request_bytes : TokenRequest → Bytes
    pub parse_list_account_records_response : Bytes → Option ListAccountRecordsResponse
    pub list_nearby_bikes_request_bytes : ListNearbyBikesRequest F → Bytes
    pub parse_list_nearby_bikes_response : Bytes → Option (ListNearbyBikesResponse F)
    pub scan_unlock_request_bytes : ScanUnlockRequest F → Bytes
    pub parse_scan_unlock_response : Bytes → Option ScanUnlockResponse
    pub ride_position_report_bytes : RidePositionReport F → Bytes
    pub end_ride_request_bytes : EndRideRequest F → Bytes
    pub parse_end_ride_response : Bytes → Option EndRideResponse
    pub report_damage_request_bytes : ReportDamageRequest → Bytes
    pub parse_report_damage_response : Bytes → Option ReportDamageResponse
    pub get_ride_detail_request_bytes : GetRideDetailRequest → Bytes
    pub parse_get_ride_detail_response : Bytes → Option (GetRideDetailResponse F)
    pub list_rides_request_bytes : ListRidesRequest → Bytes
    pub parse_list_rides_response : Bytes → Option ListRidesResponse

  -- The map that `rideDetailReady` hands over.
  pub record RideDetail : Type 0 where
    pub ride_no : Bytes
    pub duration_sec : ℕ
    pub distance_m : ℤ
    pub amount_cent : ℕ
    pub start_tm : String
    pub end_tm : String
    pub points : List (RidePointMessage F)

  -- The signals; an empty map of a ride is `none`.
  pub data BridgeSignal : Type 0 where
    session_changed link_state_changed : BridgeSignal
    request_send : ℕ → ℕ → Bytes → BridgeSignal
    mobile_code_result : Bool → ℕ → String → BridgeSignal
    login_result : Bool → String → BridgeSignal
    balance_ready : Bool → ℤ → String → BridgeSignal
    records_ready : Bool → List AccountRecordMessage → String → BridgeSignal
    nearby_bikes_ready : Bool → List (BikeInfo F) → String → BridgeSignal
    unlock_result : Bool → Bytes → String → BridgeSignal
    ride_ended : Bool → ℕ → ℤ → String → BridgeSignal
    damage_result : Bool → String → BridgeSignal
    ride_detail_ready : Bool → Option RideDetail → String → BridgeSignal
    rides_ready : Bool → List RideSummary → String → BridgeSignal

  -- `saved_ride` is the value of "active_ride" in QSettings, empty if there is none.
  pub record ApiBridge : Type 0 where
    pub token : Bytes
    pub mobile : Bytes
    pub pending_mobile : Bytes
    pub active_ride : Bytes
    pub saved_ride : Bytes
    pub link_up : Bool
    pub seq_counter : ℕ
    pub in_flight : Dict ℕ ℕ
    pub emitted : List BridgeSignal
