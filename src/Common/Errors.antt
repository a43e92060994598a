-- ===== src/Common/Errors.antt =====
-- common/include/bike/errors.hpp: the codes of the responses.
use shared_bike_refactor.Base.{ℕ}
use Prim.Native.String.{String}

pub data ErrCode : Type 0 where
  success invalid_msg unauthorized invalid_data method_not_allowed : ErrCode
  process_failed bike_is_took bike_is_running bike_is_damaged unknown : ErrCode

abbrev pub code : ErrCode → ℕ
code ErrCode.success = 200
code ErrCode.invalid_msg = 400
code ErrCode.unauthorized = 401
code ErrCode.invalid_data = 404
code ErrCode.method_not_allowed = 405
code ErrCode.process_failed = 406
code ErrCode.bike_is_took = 407
code ErrCode.bike_is_running = 408
code ErrCode.bike_is_damaged = 409
code ErrCode.unknown = 0xff

abbrev pub to_string : ErrCode → String
to_string ErrCode.success = "ok"
to_string ErrCode.invalid_msg = "invalid message"
to_string ErrCode.unauthorized = "unauthorized (session expired)"
to_string ErrCode.invalid_data = "invalid data"
to_string ErrCode.method_not_allowed = "method not allowed"
to_string ErrCode.process_failed = "process failed"
to_string ErrCode.bike_is_took = "bike is took"
to_string ErrCode.bike_is_running = "bike is running"
to_string ErrCode.bike_is_damaged = "bike is damaged"
to_string ErrCode.unknown = "unknown"
