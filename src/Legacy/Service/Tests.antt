-- ===== src/Legacy/Service/Tests.antt =====
-- One user, and a connection that asks for a code.
use shared_bike_refactor.Base.{ℕ, ◌≡◌, refl, true, false, Option, none, some, List, [], ◌∷◌, arith}
use shared_bike_refactor.Base.Dict.{Bytes, lookup, nat_key}
use shared_bike_refactor.Server.Messages.{MobileRequest}
use shared_bike_refactor.Legacy.Events.{
  RequestEvent, mobile_code_req, ResponseEvent, make_mobile_code_rsp,
}
use shared_bike_refactor.Legacy.UserHandler.{
  MysqlConnection, UserHandler, code_gen, handle_mobile_code_req, handle_login_req, enter_user,
}
use shared_bike_refactor.Legacy.NetworkInterface.{
  ConnectSession, session_init, session_reset, assemble_hb,
}
use shared_bike_refactor.Legacy.Service.{
  LegacyCodec, Service, Subscribers, process, handle_all, run_task, on_readable, handle_error,
  handle_all_response_event, parse_event, response_bytes,
}
use shared_bike_refactor.Legacy.Service.Lifetime.{
  handle_error-handle_all_response_event, on_readable-handle_all_response_event,
}

abbrev codec : LegacyCodec
codec = record {
  parse_mobile_request = λ bs. some (record { mobile = bs });
  parse_login_request = λ bs. none;
  mobile_response_bytes = λ rsp. 8 ∷ rsp.code ∷ [];
  login_response_bytes = λ rsp. 8 ∷ rsp.code ∷ [];
}

abbrev known_users : MysqlConnection (List Bytes)
known_users = record {
  init = λ w. (true, w);
  execute_rows = λ query w. (some 0, w);
  execute = λ insertion w. (true, w);
}

abbrev user_handler : UserHandler (List Bytes)
user_handler = record { m2c = []; db = [] }

abbrev run_handler :
    ℕ → RequestEvent → UserHandler (List Bytes) → Option ResponseEvent × UserHandler (List Bytes)
run_handler h ev u =
    let (rsp, u') = shared_bike_refactor.Legacy.UserHandler.handle known_users 7 ev u in
    (some rsp, u')

abbrev subscribers : Subscribers
subscribers = (1, 500 ∷ []) ∷ []

-- Nothing is on its way.
abbrev resting : Service (UserHandler (List Bytes))
resting = record {
  subscribers = subscribers;
  svr_exit = false;
  users = user_handler;
  sessions = (3, (session_init, [])) ∷ [];
  tasks = [];
  responses = [];
  written = [];
  faulted = false;
}

abbrev ask : MobileRequest
ask = record { mobile = b'1' ∷ [] }

handle_error-handle_all_response_event_example :
    (handle_all_response_event codec (
      run_task run_handler
        (handle_error codec 3 (record resting { tasks = (3, mobile_code_req ask) ∷ [] })))).faulted
    ≡ true
handle_error-handle_all_response_event_example =
    handle_error-handle_all_response_event codec run_handler
      (record resting { tasks = (3, mobile_code_req ask) ∷ [] }) 3 (mobile_code_req ask) [] refl
      refl

on_readable-handle_all_response_event_example :
    let t =
      handle_all_response_event codec
        (run_task run_handler (on_readable codec 3 (assemble_hb 1 (b'1' ∷ [])) resting)) in
    (t.written ≡ (3, assemble_hb 2 (8 ∷ 100007 ∷ [])) ∷ [])
    × (t.faulted ≡ false)
    × ((session' : ConnectSession RequestEvent) × (lookup 3 t.sessions
          ≡ some (session_reset session', [])))
unfolding parse_event process handle_all lookup session_init response_bytes
    shared_bike_refactor.Legacy.UserHandler.handle handle_mobile_code_req code_gen
    make_mobile_code_rsp
on_readable-handle_all_response_event_example =
    on_readable-handle_all_response_event codec run_handler resting 3 1 (b'1' ∷ [])
      (assemble_hb 2 (8 ∷ 100007 ∷ [])) session_init (mobile_code_req ask)
      (make_mobile_code_rsp 200 100007) (omega arith) (omega arith) (omega arith) refl refl refl
      refl refl refl refl refl refl refl
