-- ===== src/Client/ApiBridge/Ledger.antt =====
-- Every call of the user interface is answered once.
mod Requests
mod Results
use shared_bike_refactor.Base.{
  ℕ, zero, suc, ◌+◌, ◌<◌, ◌≡◌, refl, sym, ap, ◌∙◌, subst, Bool, true, false, not, Option, none,
  some, List, [], ◌∷◌, ◌++◌, length, ◌==◌, ==_iff, if◌then◌else◌, if_rule, arith, inl, inr,
  Bool-cases, Option-cases,
}
use shared_bike_refactor.Base.Dict.{Bytes, Dict, lookup, contains, insert, erase, nat_key}
use shared_bike_refactor.Base.Int.{ℤ, pos}
use shared_bike_refactor.Common.Double.{Double}
use Prim.Native.String.{String}
use shared_bike_refactor.Client.ApiBridge.Values.{
  ApiBridge, ClientCodec, BridgeSignal, request_send, session_changed, link_state_changed,
  login_result, ride_ended,
}
use shared_bike_refactor.Client.ApiBridge.Responses.{emit, handle_frame}
use shared_bike_refactor.Client.ApiBridge.{
  make_bridge, next_seq, begin_request, send_request, ask, send_mobile_code, login, recharge,
  refresh_balance, list_records, refresh_nearby_bikes, scan_unlock, report_position, end_ride,
  report_damage, ride_detail, list_rides, clear_active_ride, on_frame_ready, fail_in_flight,
  on_worker_connected, on_worker_disconnected, is_known_response, known_responses, rsp_to_req,
  one_of, still_handled,
}
use shared_bike_refactor.Client.ApiBridge.Steps.{
  BridgeEvent, code_asked, login_asked, recharge_asked, balance_asked, records_asked, nearby_asked,
  unlock_asked, position_reported, end_asked, damage_reported, detail_asked, rides_asked,
  ride_cleared, frame_came, worker_connected, worker_disconnected, step, run, kind_of_request,
  kind_of_signal, kind_of_call, hit, results, calls, flying,
}
use Requests.{requests, IsOrderly, insert-IsOrderly, flying-insert, erase-IsOrderly, flying-erase}
use Results.{Answers, results-append, emit-Answers, handle_frame-Answers, results-fail_each}

known_of : (e : ℕ) → not (is_known_response e) ≡ false → one_of known_responses e ≡ true
unfolding is_known_response
known_of e h = ground arith

module _ (k : ℕ) (known : 0 < k) where
  hit_none : hit k 0 ≡ 0
  hit_none = ground arith

module _ {F : Type 0} (k : ℕ) (known : 0 < k) where
  -- The results that were emitted and the requests that are in flight.
  abbrev total : ApiBridge F → ℕ
  total b = results k b.emitted + flying k b.in_flight

  -- The requests in flight stay in order, and the total grows by the calls of the kind.
  record Counts (kind : ℕ) (b b' : ApiBridge F) : Type 0 where
    orderly : IsOrderly b'.in_flight
    counted : total b' ≡ total b + hit k kind

  answered :
      (kind : ℕ) (b b' : ApiBridge F)
      → IsOrderly b.in_flight
      → Answers k kind b b'
      → Counts kind b b'
  answered kind b b' o a = record {
    orderly = subst IsOrderly (sym a.same_flight) o;
    counted = omega (arith, a.one_more, ap (flying k) a.same_flight);
  }

  emitted_lem :
      (s : BridgeSignal F) (b : ApiBridge F)
      → IsOrderly b.in_flight
      → Counts (kind_of_signal s) b (emit s b)
  emitted_lem s b o = answered (kind_of_signal s) b (emit s b) o (emit-Answers k s b)

  begin_request_free :
      (e : ℕ) (b : ApiBridge F) → not (begin_request e b) ≡ false → lookup e b.in_flight ≡ none
  unfolding begin_request contains
  begin_request_free e b h = ground arith

  send_request_lem :
      (e : ℕ) (payload : Bytes) (b : ApiBridge F)
      → one_of requests e ≡ true
      → lookup e b.in_flight ≡ none
      → IsOrderly b.in_flight
      → Counts (kind_of_request e) b (send_request e payload b)
  unfolding send_request results
  send_request_lem e payload b r free o =
      let seq = next_seq b.seq_counter in
      record {
        orderly = insert-IsOrderly e seq b.in_flight r free o;
        counted = omega (
          arith,
          flying-insert k e seq b.in_flight free,
          results-append k b.emitted (request_send e seq payload ∷ []),
          hit_none k known,
        );
      }

  ask_lem :
      (e : ℕ) (refusal : BridgeSignal F) (payload : Bytes) (b : ApiBridge F)
      → one_of requests e ≡ true
      → kind_of_signal refusal ≡ kind_of_request e
      → IsOrderly b.in_flight
      → Counts (kind_of_request e) b (ask e refusal payload b)
  unfolding ask
  ask_lem e refusal payload b r same o =
      if_rule (Counts (kind_of_request e) b) (not (begin_request e b)) _ _
        (λ _. subst (λ n. Counts n b (emit refusal b)) same (emitted_lem refusal b o))
        (λ free. send_request_lem e payload b r (begin_request_free e b free) o)

  fail_in_flight_lem :
      (msg : String) (b : ApiBridge F)
      → IsOrderly b.in_flight
      → (results k (fail_in_flight msg b).emitted ≡ total b)
        × ((fail_in_flight msg b).in_flight ≡ [])
  unfolding fail_in_flight
  fail_in_flight_lem msg b o = (results-fail_each k b.in_flight msg b o, refl)

  link_lem :
      (up : Bool) (b c : ApiBridge F)
      → (results k c.emitted ≡ total b) × (c.in_flight ≡ [])
      → Counts 0 b (emit link_state_changed (record c { link_up = up }))
  unfolding results flying
  link_lem up b c h = record {
    orderly = rw (h.1) tt;
    counted = omega (
      arith,
      h.0,
      ap (flying k) h.1,
      results-append k c.emitted (link_state_changed ∷ []),
      hit_none k known,
    );
  }

  response_lem :
      (codec : ClientCodec F) (e : ℕ) (payload : Bytes) (b : ApiBridge F) (seq : ℕ)
      → one_of known_responses e ≡ true
      → lookup (rsp_to_req e) b.in_flight ≡ some seq
      → IsOrderly b.in_flight
      → Counts 0 b
          (handle_frame codec e payload (record b { in_flight = erase (rsp_to_req e) b.in_flight }))
  response_lem codec e payload b seq heard found o =
      let b1 = record b { in_flight = erase (rsp_to_req e) b.in_flight } in
      let a = handle_frame-Answers k known codec e payload b1 heard in
      record {
        orderly =
            subst IsOrderly (sym a.same_flight) (erase-IsOrderly (rsp_to_req e) b.in_flight o);
        counted = omega (
          arith,
          a.one_more,
          ap (flying k) a.same_flight,
          flying-erase k (rsp_to_req e) seq b.in_flight o found,
          hit_none k known,
        );
      }

  on_frame_ready_lem :
      (codec : ClientCodec F) (e seq : ℕ) (payload : Bytes) (b : ApiBridge F)
      → IsOrderly b.in_flight
      → Counts 0 b (on_frame_ready codec e seq payload b)
  unfolding on_frame_ready
  on_frame_ready_lem codec e seq payload b o =
      let req_eid = rsp_to_req e in
      let kept : Counts 0 b b = record { orderly = o; counted = omega (arith, hit_none k known) } in
      let b1 = record b { in_flight = erase req_eid b.in_flight } in
      if_rule (Counts 0 b) (not (is_known_response e)) b _ (λ _. kept)
        λ heard. elim (Option-cases (lookup req_eid b.in_flight)) [
          | inl missing ↦ rw missing kept
          | inr (expected, found) ↦ rw found (
              if_rule (Counts 0 b) (not (expected == seq)) b _ (λ _. kept)
                λ _. response_lem codec e payload b expected (known_of e heard) found o)
        ]

  silent :
      (s : BridgeSignal F) (b c : ApiBridge F)
      → kind_of_signal s ≡ 0
      → c.emitted ≡ b.emitted
      → c.in_flight ≡ b.in_flight
      → IsOrderly b.in_flight
      → Counts 0 b (emit s c)
  unfolding results
  silent s b c z e f o = record {
    orderly = subst IsOrderly (sym f) o;
    counted = omega (
      arith,
      results-append k c.emitted (s ∷ []),
      ap (results k) e,
      ap (flying k) f,
      ap (hit k) z,
      hit_none k known,
    );
  }

module _ {F : Type 0} (fl : Double F) (codec : ClientCodec F) (k : ℕ) (known : 0 < k) where
  login_lem :
      (mobile : Bytes) (icode : ℤ) (b : ApiBridge F)
      → IsOrderly b.in_flight
      → Counts k known 0x03 b (login codec mobile icode b)
  unfolding login begin_request
  login_lem mobile icode b o =
      if_rule (Counts k known 0x03 b) (not (begin_request 0x03 b)) _ _
        (λ _. emitted_lem k known _ b o)
        λ free.
          let sent =
            send_request_lem k known 0x03 _ (record b { pending_mobile = mobile }) refl
              (begin_request_free k known 0x03 b free) o in
          record { orderly = sent.orderly; counted = sent.counted }

  end_ride_lem :
      (lat lng : F) (b : ApiBridge F)
      → IsOrderly b.in_flight
      → Counts k known 0x17 b (end_ride codec lat lng b)
  unfolding end_ride
  end_ride_lem lat lng b o =
      if_rule (Counts k known 0x17 b) (length b.active_ride == 0) _ _
        (λ _. emitted_lem k known _ b o) (λ _. ask_lem k known 0x17 _ _ b refl refl o)

  step_lem :
      (b : ApiBridge F) (e : BridgeEvent F)
      → IsOrderly b.in_flight
      → Counts k known (kind_of_call e) b (step fl codec b e)
  unfolding step send_mobile_code recharge refresh_balance list_records refresh_nearby_bikes
      scan_unlock report_position report_damage ride_detail list_rides clear_active_ride
      on_worker_connected on_worker_disconnected
  step_lem b (code_asked mobile) o = ask_lem k known 0x01 _ _ b refl refl o
  step_lem b (login_asked mobile icode) o = login_lem mobile icode b o
  step_lem b (recharge_asked amount) o = ask_lem k known 0x05 _ _ b refl refl o
  step_lem b balance_asked o = ask_lem k known 0x07 _ _ b refl refl o
  step_lem b records_asked o = ask_lem k known 0x09 _ _ b refl refl o
  step_lem b (nearby_asked lat lng) o = ask_lem k known 0x11 _ _ b refl refl o
  step_lem b (unlock_asked bike_no lat lng) o = ask_lem k known 0x13 _ _ b refl refl o
  step_lem b (position_reported ride_no seq lat lng sec) o = silent k known _ b _ refl refl refl o
  step_lem b (end_asked lat lng) o = end_ride_lem lat lng b o
  step_lem b (damage_reported bike_no note) o = ask_lem k known 0x19 _ _ b refl refl o
  step_lem b (detail_asked ride_no) o = ask_lem k known 0x1b _ _ b refl refl o
  step_lem b (rides_asked limit) o = ask_lem k known 0x1d _ _ b refl refl o
  step_lem b ride_cleared o = silent k known session_changed b _ refl refl refl o
  step_lem b (frame_came e seq payload) o = on_frame_ready_lem k known codec e seq payload b o
  step_lem b worker_connected o =
      let b1 = record b { seq_counter = 0 } in
      link_lem k known true b (fail_in_flight _ b1) (fail_in_flight_lem k known _ b1 o)
  step_lem b (worker_disconnected msg) o =
      link_lem k known false b (fail_in_flight msg b) (fail_in_flight_lem k known msg b o)

  run_lem :
      (es : List (BridgeEvent F)) (b : ApiBridge F)
      → IsOrderly b.in_flight
      → IsOrderly (run fl codec b es).in_flight
        × (total k known (run fl codec b es) ≡ total k known b + calls k es)
  unfolding run calls
  run_lem [] b o = (o, omega arith)
  run_lem (e ∷ es) b o =
      let first = step_lem b e o in
      let rest = run_lem es (step fl codec b e) first.orderly in
      (rest.0, omega (arith, first.counted, rest.1))

  -- Whatever the order of calls, responses, wrong, late and doubled ones among them, and breaks of the
  -- connection: of each kind of call, every call was answered with one result, or its request is in
  -- flight.
  pub results-run :
      (saved : Bytes) (es : List (BridgeEvent F))
      → let b = run fl codec (make_bridge saved) es in
        results k b.emitted + flying k b.in_flight ≡ calls k es
  unfolding make_bridge results flying
  results-run saved es = omega (arith, (run_lem es (make_bridge saved) tt).1)

  -- When the connection breaks or is made again, every call that was made has been answered with one
  -- result.
  pub results-on_worker :
      (saved : Bytes) (es : List (BridgeEvent F)) (msg : String)
      → let b = run fl codec (make_bridge saved) es in
        (results k (on_worker_connected b).emitted ≡ calls k es)
        × (results k (on_worker_disconnected msg b).emitted ≡ calls k es)
  results-on_worker saved es msg =
      let b = run fl codec (make_bridge saved) es in
      let o : IsOrderly b.in_flight = unfold make_bridge in (run_lem es (make_bridge saved) tt).0 in
      let up = step_lem b worker_connected o in
      let down = step_lem b (worker_disconnected msg) o in
      let before = results-run saved es in
      (
        unfold step on_worker_connected flying fail_in_flight in
            omega (arith, up.counted, before, hit_none k known),
        unfold step on_worker_disconnected flying fail_in_flight in
            omega (arith, down.counted, before, hit_none k known),
      )
