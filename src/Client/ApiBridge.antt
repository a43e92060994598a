-- ===== src/Client/ApiBridge.antt =====
-- client/src/net/api_bridge.cpp and api_bridge.hpp: the calls of the user interface, the requests in
-- flight, and the responses. The threads are Qt's: `request_send` goes to `send_frame` of the worker, and
-- what the worker emits comes back as events. QString and std::string are the same bytes here.
pub mod Values
pub mod Responses
pub mod Steps
pub mod Ledger
mod Tests
use shared_bike_refactor.Base.{
  ℕ, zero, suc, ◌+◌, ◌-◌, ◌%◌, ◌^◌, Bool, true, false, not, ◌&&◌, ◌||◌, Option, none, some, List,
  [], ◌∷◌, ◌++◌, length, ◌==◌, if◌then◌else◌,
}
use shared_bike_refactor.Base.Dict.{Bytes, Dict, nat_key, lookup, contains, insert, erase}
use shared_bike_refactor.Base.Int.{ℤ, pos}
use shared_bike_refactor.Common.Double.{Double}
use shared_bike_refactor.Protocol.{Event, event_id}
use Prim.Native.String.{String}
use Values.{
  ApiBridge, ClientCodec, BridgeSignal, session_changed, link_state_changed, request_send,
  mobile_code_result, login_result, balance_ready, records_ready, nearby_bikes_ready, unlock_result,
  ride_ended, damage_result, ride_detail_ready, rides_ready,
}
use Responses.{emit, handle_frame}

abbrev pub one_of : List ℕ → ℕ → Bool
one_of [] e = false
one_of (n ∷ ns) e = if e == n then true else one_of ns e

-- `case 0x02: case 0x04: …`
abbrev pub known_responses : List ℕ
known_responses = 0x02 ∷ 0x04 ∷ 0x06 ∷ 0x08 ∷ 0x10 ∷ 0x12 ∷ 0x14 ∷ 0x18 ∷ 0x1a ∷ 0x1c ∷ 0x1e ∷ []

unfoldable pub is_known_response : ℕ → Bool
is_known_response = one_of known_responses

unfoldable pub rsp_to_req : ℕ → ℕ
rsp_to_req rsp =
    if rsp == event_id Event.list_account_records_response
    then event_id Event.list_account_records_request
    else (rsp + 2 ^ 16 - 1) % 2 ^ 16

abbrev pub still_handled : String
still_handled = "上一个请求仍在处理"

-- The sequence number, which is the new counter too.
unfoldable pub next_seq : ℕ → ℕ
next_seq counter = let s = (counter + 1) % 2 ^ 32 in if s == 0 then (s + 1) % 2 ^ 32 else s

module _ {F : Type 0} where
  unfoldable pub make_bridge : Bytes → ApiBridge F
  make_bridge saved = record {
    token = [];
    mobile = [];
    pending_mobile = [];
    active_ride = [];
    saved_ride = saved;
    link_up = false;
    seq_counter = 0;
    in_flight = [];
    emitted = [];
  }

  unfoldable pub begin_request : ℕ → ApiBridge F → Bool
  begin_request req_eid b = not (contains req_eid b.in_flight)

  unfoldable pub send_request : ℕ → Bytes → ApiBridge F → ApiBridge F
  send_request req_eid payload b =
      let seq = next_seq b.seq_counter in
      emit (request_send req_eid seq payload)
        (record b { seq_counter = seq; in_flight = insert req_eid seq b.in_flight })

  unfoldable pub clear_active_ride : ApiBridge F → ApiBridge F
  clear_active_ride b = emit session_changed (record b { active_ride = []; saved_ride = [] })

  -- The failure that a request in flight is answered with.
  unfoldable pub fail_one : ℕ → String → ApiBridge F → ApiBridge F
  fail_one req_eid msg b =
      if req_eid == 0x01
      then emit (mobile_code_result false 0 msg) b
      else if req_eid == 0x03
      then emit (login_result false msg) b
      else if (req_eid == 0x05) || (req_eid == 0x07)
      then emit (balance_ready false (pos 0) msg) b
      else if req_eid == 0x09
      then emit (records_ready false [] msg) b
      else if req_eid == 0x11
      then emit (nearby_bikes_ready false [] msg) b
      else if req_eid == 0x13
      then emit (unlock_result false [] msg) b
      else if req_eid == 0x17
      then emit (ride_ended false 0 (pos 0) msg) b
      else if req_eid == 0x19
      then emit (damage_result false msg) b
      else if req_eid == 0x1b
      then emit (ride_detail_ready false none msg) b
      else if req_eid == 0x1d
      then emit (rides_ready false [] msg) b
      else b

  unfoldable pub fail_each : Dict ℕ ℕ → String → ApiBridge F → ApiBridge F
  fail_each [] msg b = b
  fail_each ((req_eid, seq) ∷ rest) msg b = fail_each rest msg (fail_one req_eid msg b)

  unfoldable pub fail_in_flight : String → ApiBridge F → ApiBridge F
  unfolding fail_each
  fail_in_flight msg b = record (fail_each b.in_flight msg b) { in_flight = [] }

  unfoldable pub on_worker_connected : ApiBridge F → ApiBridge F
  on_worker_connected b =
      emit link_state_changed
        (record (fail_in_flight "连接已重建, 请重试" (record b { seq_counter = 0 })) { link_up = true })

  -- `msg` is "连接中断: " and the reason.
  unfoldable pub on_worker_disconnected : String → ApiBridge F → ApiBridge F
  on_worker_disconnected msg b =
      emit link_state_changed (record (fail_in_flight msg b) { link_up = false })

  -- A call: it is refused while the previous one of its kind is in flight.
  unfoldable pub ask : ℕ → BridgeSignal F → Bytes → ApiBridge F → ApiBridge F
  ask req_eid refusal payload b =
      if not (begin_request req_eid b) then emit refusal b else send_request req_eid payload b

module _ {F : Type 0} (codec : ClientCodec F) where
  unfoldable pub send_mobile_code : Bytes → ApiBridge F → ApiBridge F
  send_mobile_code mobile =
      ask (event_id Event.mobile_request) (mobile_code_result false 0 still_handled)
        (codec.mobile_request_bytes (record { mobile = mobile }))

  unfoldable pub login : Bytes → ℤ → ApiBridge F → ApiBridge F
  login mobile icode b =
      if not (begin_request (event_id Event.login_request) b)
      then emit (login_result false still_handled) b
      else send_request (event_id Event.login_request)
          (codec.login_request_bytes (record { mobile = mobile; icode = icode }))
          (record b { pending_mobile = mobile })

  unfoldable pub recharge : ℤ → ApiBridge F → ApiBridge F
  recharge amount_cent b =
      ask (event_id Event.recharge_request) (balance_ready false (pos 0) still_handled)
        (codec.recharge_request_bytes (record { session_token = b.token; amount = amount_cent })) b

  unfoldable pub refresh_balance : ApiBridge F → ApiBridge F
  refresh_balance b =
      ask (event_id Event.account_balance_request) (balance_ready false (pos 0) still_handled)
        (codec.account_balance_request_bytes (record { session_token = b.token })) b

  unfoldable pub list_records : ApiBridge F → ApiBridge F
  list_records b =
      ask (event_id Event.list_account_records_request) (records_ready false [] still_handled)
        (codec.list_account_records_request_bytes (record { session_token = b.token })) b

  unfoldable pub refresh_nearby_bikes : Double F → F → F → ApiBridge F → ApiBridge F
  refresh_nearby_bikes fl lat lng b =
      ask (event_id Event.list_nearby_bikes_request) (nearby_bikes_ready false [] still_handled)
        (codec.list_nearby_bikes_request_bytes
          (record { session_token = b.token; lat = lat; lng = lng; radius_m = fl.lit 1000 0 }))
        b

  unfoldable pub scan_unlock : Bytes → F → F → ApiBridge F → ApiBridge F
  scan_unlock bike_no lat lng b =
      ask (event_id Event.scan_unlock_request) (unlock_result false [] still_handled)
        (codec.scan_unlock_request_bytes
          (record { session_token = b.token; bike_no = bike_no; lat = lat; lng = lng }))
        b

  -- No response is waited for.
  unfoldable pub report_position : Bytes → ℤ → F → F → ℤ → ApiBridge F → ApiBridge F
  report_position ride_no seq_i lat lng elapsed_sec b =
      let payload = codec.ride_position_report_bytes (record {
        ride_no = ride_no;
        seq = seq_i;
        lat = lat;
        lng = lng;
        elapsed_sec = elapsed_sec;
      }) in
      let seq = next_seq b.seq_counter in
      emit (request_send (event_id Event.ride_position_report) seq payload)
        (record b { seq_counter = seq })

  unfoldable pub end_ride : F → F → ApiBridge F → ApiBridge F
  end_ride lat lng b =
      if length b.active_ride == 0
      then emit (ride_ended false 0 (pos 0) "当前没有进行中的订单") b
      else ask (event_id Event.end_ride_request) (ride_ended false 0 (pos 0) still_handled)
          (codec.end_ride_request_bytes (record {
            session_token = b.token;
            ride_no = b.active_ride;
            end_lat = lat;
            end_lng = lng;
          }))
          b

  unfoldable pub report_damage : Bytes → Bytes → ApiBridge F → ApiBridge F
  report_damage bike_no note b =
      ask (event_id Event.report_damage_request) (damage_result false still_handled)
        (codec.report_damage_request_bytes
          (record { session_token = b.token; bike_no = bike_no; note = note }))
        b

  unfoldable pub ride_detail : Bytes → ApiBridge F → ApiBridge F
  ride_detail ride_no b =
      ask (event_id Event.get_ride_detail_request) (ride_detail_ready false none still_handled)
        (codec.get_ride_detail_request_bytes
          (record { session_token = b.token; ride_no = ride_no }))
        b

  unfoldable pub list_rides : ℤ → ApiBridge F → ApiBridge F
  list_rides limit b =
      ask (event_id Event.list_rides_request) (rides_ready false [] still_handled)
        (codec.list_rides_request_bytes (record { session_token = b.token; limit = limit })) b

  unfoldable pub on_frame_ready : ℕ → ℕ → Bytes → ApiBridge F → ApiBridge F
  on_frame_ready rsp_eid seq payload b =
      if not (is_known_response rsp_eid)
      then b
      else elim (lookup (rsp_to_req rsp_eid) b.in_flight) [
        | none ↦ b
        | some expected ↦
            if not (expected == seq)
            then b
            else handle_frame codec rsp_eid payload
                (record b { in_flight = erase (rsp_to_req rsp_eid) b.in_flight })
      ]
