-- ===== src/Server/Messages.antt =====
-- proto/bike.proto: the messages of the handlers. Their binary form is written and read by code that
-- protobuf generates, which is the parameter `Codec`. A field that is not set has its default.
use shared_bike_refactor.Base.{ℕ, Option, List}
use shared_bike_refactor.Base.Dict.{Bytes}
use shared_bike_refactor.Base.Int.{ℤ}
use Prim.Native.String.{String}

pub record MobileRequest : Type 0 where
  pub mobile : Bytes

pub record MobileResponse : Type 0 where
  pub code : ℕ
  pub icode : ℕ
  pub text : String

pub record LoginRequest : Type 0 where
  pub mobile : Bytes
  pub icode : ℤ

pub record LoginResponse : Type 0 where
  pub code : ℕ
  pub desc : String
  pub session_token : Bytes

pub record RechargeRequest : Type 0 where
  pub session_token : Bytes
  pub amount : ℤ

pub record RechargeResponse : Type 0 where
  pub code : ℕ
  pub balance : ℤ
  pub desc : String

-- `account_balance_request` and `list_account_records_request`
pub record TokenRequest : Type 0 where
  pub session_token : Bytes

pub record AccountBalanceResponse : Type 0 where
  pub code : ℕ
  pub balance : ℤ

pub record AccountRecordMessage : Type 0 where
  pub type : ℕ
  pub amount : ℤ
  pub timestamp : ℕ

pub record ListAccountRecordsResponse : Type 0 where
  pub code : ℕ
  pub records : List AccountRecordMessage

pub record ScanUnlockResponse : Type 0 where
  pub code : ℕ
  pub desc : String
  pub ride_no : Bytes
  pub start_ts : ℕ

pub record EndRideResponse : Type 0 where
  pub code : ℕ
  pub desc : String
  pub duration_sec : ℕ
  pub distance_m : ℤ
  pub amount_cent : ℕ
  pub balance_after : ℤ

pub record ReportDamageRequest : Type 0 where
  pub session_token : Bytes
  pub bike_no : Bytes
  pub note : Bytes

pub record ReportDamageResponse : Type 0 where
  pub code : ℕ
  pub desc : String

pub record GetRideDetailRequest : Type 0 where
  pub session_token : Bytes
  pub ride_no : Bytes

pub record ListRidesRequest : Type 0 where
  pub session_token : Bytes
  pub limit : ℤ

pub record RideSummary : Type 0 where
  pub ride_no : Bytes
  pub start_tm : String
  pub duration_sec : ℕ
  pub distance_m : ℤ
  pub amount_cent : ℕ

pub record ListRidesResponse : Type 0 where
  pub code : ℕ
  pub rides : List RideSummary

module _ (F : Type 0) where
  pub record ScanUnlockRequest : Type 0 where
    pub session_token : Bytes
    pub bike_no : Bytes
    pub lat : F
    pub lng : F

  pub record RidePositionReport : Type 0 where
    pub ride_no : Bytes
    pub seq : ℤ
    pub lat : F
    pub lng : F
    pub elapsed_sec : ℤ

  pub record EndRideRequest : Type 0 where
    pub session_token : Bytes
    pub ride_no : Bytes
    pub end_lat : F
    pub end_lng : F

  pub record RidePointMessage : Type 0 where
    pub lat : F
    pub lng : F
    pub elapsed_sec : ℤ

  pub record GetRideDetailResponse : Type 0 where
    pub code : ℕ
    pub ride_no : Bytes
    pub duration_sec : ℕ
    pub distance_m : ℤ
    pub amount_cent : ℕ
    pub start_tm : String
    pub end_tm : String
    pub points : List RidePointMessage

  pub record ListNearbyBikesRequest : Type 0 where
    pub session_token : Bytes
    pub lat : F
    pub lng : F
    pub radius_m : F

  pub record BikeInfo : Type 0 where
    pub bike_no : Bytes
    pub lat : F
    pub lng : F
    pub status : ℕ

  pub record ListNearbyBikesResponse : Type 0 where
    pub code : ℕ
    pub bikes : List BikeInfo

  -- `ParseFromArray` of each request, and `SerializeAsString` of each response.
  pub record Codec : Type 0 where
    pub parse_mobile_request : Bytes → Option MobileRequest
    pub mobile_response_bytes : MobileResponse → Bytes
    pub parse_login_request : Bytes → Option LoginRequest
    pub login_response_bytes : LoginResponse → Bytes
    pub parse_recharge_request : Bytes → Option RechargeRequest
    pub recharge_response_bytes : RechargeResponse → Bytes
    pub parse_account_balance_request : Bytes → Option TokenRequest
    pub account_balance_response_bytes : AccountBalanceResponse → Bytes
    pub parse_list_account_records_request : Bytes → Option TokenRequest
    pub list_account_records_response_bytes : ListAccountRecordsResponse → Bytes
    pub parse_list_nearby_bikes_request : Bytes → Option ListNearbyBikesRequest
    pub list_nearby_bikes_response_bytes : ListNearbyBikesResponse → Bytes
    pub parse_scan_unlock_request : Bytes → Option ScanUnlockRequest
    pub scan_unlock_response_bytes : ScanUnlockResponse → Bytes
    pub parse_ride_position_report : Bytes → Option RidePositionReport
    pub parse_end_ride_request : Bytes → Option EndRideRequest
    pub end_ride_response_bytes : EndRideResponse → Bytes
    pub parse_report_damage_request : Bytes → Option ReportDamageRequest
    pub report_damage_response_bytes : ReportDamageResponse → Bytes
    pub parse_get_ride_detail_request : Bytes → Option GetRideDetailRequest
    pub get_ride_detail_response_bytes : GetRideDetailResponse → Bytes
    pub parse_list_rides_request : Bytes → Option ListRidesRequest
    pub list_rides_response_bytes : ListRidesResponse → Bytes
