-- ===== src/Client/ApiBridge/Tests.antt =====
-- A user who logs in, asks twice for the balance, and loses the connection.
use shared_bike_refactor.Base.{
  ℕ, ◌+◌, ◌-◌, ◌*◌, ◌≡◌, refl, none, some, List, [], ◌∷◌, arith, leb, ltb,
}
use shared_bike_refactor.Base.Dict.{lookup, insert, erase, contains}
use shared_bike_refactor.Base.Int.{pos}
use shared_bike_refactor.Common.Double.{Double}
use shared_bike_refactor.Client.ApiBridge.Values.{ClientCodec}
use shared_bike_refactor.Client.ApiBridge.Responses.{take_login, handle_frame}
use shared_bike_refactor.Client.ApiBridge.{
  make_bridge, on_worker_connected, on_worker_disconnected, on_frame_ready, is_known_response,
  send_request, ask, login, refresh_balance, begin_request, fail_in_flight, rsp_to_req, next_seq,
}
use shared_bike_refactor.Client.ApiBridge.Steps.{
  BridgeEvent, login_asked, balance_asked, frame_came, worker_connected, step, run, results, flying,
  calls,
}
use shared_bike_refactor.Client.ApiBridge.Ledger.{results-run, results-on_worker}

abbrev numbers : Double ℕ
numbers = record {
  lit = λ m e. m;
  neg = λ a. a;
  add = ◌+◌;
  sub = ◌-◌;
  mul = ◌*◌;
  div = λ a b. a;
  le = leb;
  lt = ltb;
  sin = λ a. a;
  cos = λ a. a;
  sqrt = λ a. a;
  atan2 = λ a b. a;
  trunc = λ a. pos a;
}

-- Every response can be read, and is a success.
abbrev codec : ClientCodec ℕ
codec = record {
  mobile_request_bytes = λ m. m.mobile;
  parse_mobile_response = λ p. none;
  login_request_bytes = λ m. m.mobile;
  parse_login_response = λ p. some (record { code = 200; desc = "ok"; session_token = p });
  recharge_request_bytes = λ m. m.session_token;
  parse_recharge_response = λ p. none;
  account_balance_request_bytes = λ m. m.session_token;
  parse_account_balance_response = λ p. none;
  list_account_records_request_bytes = λ m. m.session_token;
  parse_list_account_records_response = λ p. none;
  list_nearby_bikes_request_bytes = λ m. m.session_token;
  parse_list_nearby_bikes_response = λ p. none;
  scan_unlock_request_bytes = λ m. m.session_token;
  parse_scan_unlock_response = λ p. none;
  ride_position_report_bytes = λ m. m.ride_no;
  end_ride_request_bytes = λ m. m.session_token;
  parse_end_ride_response = λ p. none;
  report_damage_request_bytes = λ m. m.session_token;
  parse_report_damage_response = λ p. none;
  get_ride_detail_request_bytes = λ m. m.session_token;
  parse_get_ride_detail_response = λ p. none;
  list_rides_request_bytes = λ m. m.session_token;
  parse_list_rides_response = λ p. none;
}

abbrev day : List (BridgeEvent ℕ)
day =
    worker_connected
    ∷ login_asked (b'1' ∷ []) (pos 7)
    ∷ frame_came 0x04 1 (b't' ∷ [])
    ∷ balance_asked
    ∷ balance_asked
    ∷ frame_came 0x08 9 []
    ∷ []

-- The second call for the balance is refused, and the response with a wrong number is passed over.
day_balance :
    (results 0x05 (run numbers codec (make_bridge []) day).emitted ≡ 1)
    × ((run numbers codec (make_bridge []) day).token ≡ b't' ∷ [])
unfolding results run step make_bridge on_worker_connected login send_request insert on_frame_ready
    is_known_response lookup erase handle_frame take_login refresh_balance ask begin_request
    contains fail_in_flight rsp_to_req next_seq
day_balance = (refl, refl)

results-run_example :
    let b = run numbers codec (make_bridge []) day in
    results 0x05 b.emitted + flying 0x05 b.in_flight ≡ calls 0x05 day
results-run_example = results-run numbers codec 0x05 (omega arith) [] day

results-on_worker_example :
    let b = run numbers codec (make_bridge []) day in
    (results 0x05 (on_worker_connected b).emitted ≡ calls 0x05 day)
    × (results 0x05 (on_worker_disconnected "连接中断: " b).emitted ≡ calls 0x05 day)
results-on_worker_example = results-on_worker numbers codec 0x05 (omega arith) [] day "连接中断: "
