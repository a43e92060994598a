-- ===== src/Legacy/Events.antt =====
-- legacy/events_def.h and eventtype.cpp: the events and their texts. Sequence numbers are left out. The
-- messages are those of proto/bike.proto; the first server leaves a session token empty.
use shared_bike_refactor.Base.{ℕ, List, [], ◌∷◌, ◌==◌, if◌then◌else◌}
use shared_bike_refactor.Server.Messages.{
  MobileRequest, MobileResponse, LoginRequest, LoginResponse,
}
use Prim.Native.String.{String}

pub data RequestEvent : Type 0 where
  mobile_code_req : MobileRequest → RequestEvent
  login_req : LoginRequest → RequestEvent

pub data ResponseEvent : Type 0 where
  mobile_code_rsp : MobileResponse → ResponseEvent
  login_rsp : LoginResponse → ResponseEvent
  exit_rsp : ResponseEvent

abbrev pub errc_success : ℕ
errc_success = 200

abbrev pub errc_invalid_data : ℕ
errc_invalid_data = 404

abbrev pub erro_proccess_failed : ℕ
erro_proccess_failed = 406

-- The table `EER`, which ends with the code 0.
abbrev error_reasons : List (ℕ × String)
error_reasons =
    (200, "ok.")
    ∷ (400, "Invalid message.")
    ∷ (404, "Invalid data.")
    ∷ (405, "Method not allowed.")
    ∷ (406, "Proccess failed.")
    ∷ (407, "Bike is took.")
    ∷ (408, "Bike is running.")
    ∷ (409, "Bike is damaged.")
    ∷ (0, "Undefined.")
    ∷ []

reason_in : List (ℕ × String) → ℕ → String
reason_in [] c = ""
reason_in ((k, reason) ∷ table) c =
    if k == 0 then reason else if k == c then reason else reason_in table c

unfoldable pub get_reason_by_error_code : ℕ → String
unfolding reason_in
get_reason_by_error_code c = reason_in error_reasons c

abbrev pub get_eid : RequestEvent → ℕ
get_eid (mobile_code_req _) = 0x01
get_eid (login_req _) = 0x03

-- The constructors of the responses.
unfoldable pub make_mobile_code_rsp : ℕ → ℕ → ResponseEvent
make_mobile_code_rsp icode code =
    mobile_code_rsp (record { code = code; icode = icode; text = get_reason_by_error_code icode })

unfoldable pub make_login_rsp : ℕ → ResponseEvent
make_login_rsp code =
    login_rsp (record { code = code; desc = get_reason_by_error_code code; session_token = [] })
