-- ===== src/Client/ApiBridge/Ledger/Results.antt =====
-- One result for each response that is handled and for each request that fails.
use shared_bike_refactor.Base.{
  ℕ, ◌+◌, ◌<◌, ◌≡◌, refl, ap, true, Option, none, some, List, [], ◌∷◌, ◌++◌, ◌==◌, if_rule, arith,
  ◌&&◌, not, length,
}
use shared_bike_refactor.Base.Dict.{Bytes, Dict}
use shared_bike_refactor.Server.Messages.{
  MobileResponse, LoginResponse, RechargeResponse, AccountBalanceResponse,
  ListAccountRecordsResponse, ListNearbyBikesResponse, ScanUnlockResponse, EndRideResponse,
  ReportDamageResponse, GetRideDetailResponse, ListRidesResponse,
}
use shared_bike_refactor.Client.ApiBridge.Values.{
  ApiBridge, ClientCodec, BridgeSignal, session_changed, login_result, ride_ended,
}
use shared_bike_refactor.Client.ApiBridge.Responses.{
  emit, take_mobile, take_login, take_recharge, take_balance, take_records, take_nearby,
  take_unlock, take_ended, take_damage, take_detail, take_rides, handle_frame,
}
use shared_bike_refactor.Client.ApiBridge.{fail_one, fail_each, one_of, known_responses, rsp_to_req}
use shared_bike_refactor.Client.ApiBridge.Steps.{
  kind_of_signal, kind_of_request, hit, results, flying,
}
use shared_bike_refactor.Client.ApiBridge.Ledger.Requests.{one_of-All, requests, IsOrderly}
use Prim.Native.String.{String}

module _ {F : Type 0} (k : ℕ) where
  pub results-append :
      (xs ys : List (BridgeSignal F)) → results k (xs ++ ys) ≡ results k xs + results k ys
  unfolding results
  results-append [] ys = omega arith
  results-append (x ∷ xs) ys = omega (arith, results-append xs ys)

  -- The bridge has emitted one result of this kind, and the requests in flight are the same.
  pub record Answers (kind : ℕ) (b b' : ApiBridge F) : Type 0 where
    pub one_more : results k b'.emitted ≡ results k b.emitted + hit k kind
    pub same_flight : b'.in_flight ≡ b.in_flight

  pub emit-Answers :
      (s : BridgeSignal F) (b : ApiBridge F) → Answers (kind_of_signal s) b (emit s b)
  unfolding results
  emit-Answers s b = record {
    one_more = omega (arith, results-append b.emitted (s ∷ []));
    same_flight = refl;
  }

  take_mobile-Answers :
      (o : Option MobileResponse) (b : ApiBridge F) → Answers 0x01 b (take_mobile o b)
  unfolding take_mobile
  take_mobile-Answers none b = emit-Answers _ b
  take_mobile-Answers (some rsp) b = emit-Answers _ b

  take_recharge-Answers :
      (o : Option RechargeResponse) (b : ApiBridge F) → Answers 0x05 b (take_recharge o b)
  unfolding take_recharge
  take_recharge-Answers none b = emit-Answers _ b
  take_recharge-Answers (some rsp) b = emit-Answers _ b

  take_balance-Answers :
      (o : Option AccountBalanceResponse) (b : ApiBridge F) → Answers 0x05 b (take_balance o b)
  unfolding take_balance
  take_balance-Answers none b = emit-Answers _ b
  take_balance-Answers (some rsp) b = emit-Answers _ b

  take_records-Answers :
      (o : Option ListAccountRecordsResponse) (b : ApiBridge F) → Answers 0x09 b (take_records o b)
  unfolding take_records
  take_records-Answers none b = emit-Answers _ b
  take_records-Answers (some rsp) b = emit-Answers _ b

  take_nearby-Answers :
      (o : Option (ListNearbyBikesResponse F)) (b : ApiBridge F) → Answers 0x11 b (take_nearby o b)
  unfolding take_nearby
  take_nearby-Answers none b = emit-Answers _ b
  take_nearby-Answers (some rsp) b = emit-Answers _ b

  take_damage-Answers :
      (o : Option ReportDamageResponse) (b : ApiBridge F) → Answers 0x19 b (take_damage o b)
  unfolding take_damage
  take_damage-Answers none b = emit-Answers _ b
  take_damage-Answers (some rsp) b = emit-Answers _ b

  take_detail-Answers :
      (o : Option (GetRideDetailResponse F)) (b : ApiBridge F) → Answers 0x1b b (take_detail o b)
  unfolding take_detail
  take_detail-Answers none b = emit-Answers _ b
  take_detail-Answers (some rsp) b = emit-Answers _ b

  take_rides-Answers :
      (o : Option ListRidesResponse) (b : ApiBridge F) → Answers 0x1d b (take_rides o b)
  unfolding take_rides
  take_rides-Answers none b = emit-Answers _ b
  take_rides-Answers (some rsp) b = emit-Answers _ b

  module _ (known : 0 < k) where
    emit_changed :
        (s : BridgeSignal F) (b b1 : ApiBridge F)
        → b1.emitted ≡ b.emitted ++ (session_changed ∷ [])
        → b1.in_flight ≡ b.in_flight
        → Answers (kind_of_signal s) b (emit s b1)
    unfolding results
    emit_changed s b b1 e f = record {
      one_more = omega (
        arith,
        results-append b1.emitted (s ∷ []),
        ap (results k) e,
        results-append b.emitted (session_changed ∷ []),
        no_hit,
      );
      same_flight = f;
    }
      where
        no_hit : hit k 0 ≡ 0
        no_hit = ground arith

    take_login-Answers :
        (o : Option LoginResponse) (b : ApiBridge F) → Answers 0x03 b (take_login o b)
    unfolding take_login
    take_login-Answers none b = emit-Answers _ b
    take_login-Answers (some rsp) b =
        let success = (rsp.code == 200) && not (length rsp.session_token == 0) in
        let s = login_result success rsp.desc in
        if_rule (λ c. Answers 0x03 b (emit s c)) success _ b (λ _. emit_changed s b _ refl refl)
          (λ _. emit-Answers s b)

    take_unlock-Answers :
        (o : Option ScanUnlockResponse) (b : ApiBridge F) → Answers 0x13 b (take_unlock o b)
    unfolding take_unlock
    take_unlock-Answers none b = emit-Answers _ b
    take_unlock-Answers (some rsp) b =
        if_rule (Answers 0x13 b) (rsp.code == 200) _ _ (λ _. emit_changed _ b _ refl refl)
          (λ _. emit-Answers _ b)

    take_ended-Answers :
        (o : Option EndRideResponse) (b : ApiBridge F) → Answers 0x17 b (take_ended o b)
    unfolding take_ended
    take_ended-Answers none b = emit-Answers _ b
    take_ended-Answers (some rsp) b =
        let s = ride_ended (rsp.code == 200) rsp.amount_cent rsp.balance_after rsp.desc in
        if_rule (λ c. Answers 0x17 b (emit s c)) (rsp.code == 200) _ b
          (λ _. emit_changed s b _ refl refl) (λ _. emit-Answers s b)

    -- A response that is handled is answered with one result of its request's kind.
    pub handle_frame-Answers :
        (codec : ClientCodec F) (e : ℕ) (payload : Bytes) (b : ApiBridge F)
        → one_of known_responses e ≡ true
        → Answers (kind_of_request (rsp_to_req e)) b (handle_frame codec e payload b)
    unfolding handle_frame rsp_to_req
    handle_frame-Answers codec e payload b =
        one_of-All
          (λ e. Answers (kind_of_request (rsp_to_req e)) b (handle_frame codec e payload b))
          known_responses e
          (
            take_mobile-Answers _ b,
            (
              take_login-Answers _ b,
              (
                take_recharge-Answers _ b,
                (
                  take_balance-Answers _ b,
                  (
                    take_records-Answers _ b,
                    (
                      take_nearby-Answers _ b,
                      (
                        take_unlock-Answers _ b,
                        (
                          take_ended-Answers _ b,
                          (
                            take_damage-Answers _ b,
                            (take_detail-Answers _ b, (take_rides-Answers _ b, tt)),
                          ),
                        ),
                      ),
                    ),
                  ),
                ),
              ),
            ),
          )

  fail_one-Answers :
      (e : ℕ) (msg : String) (b : ApiBridge F)
      → one_of requests e ≡ true
      → Answers (kind_of_request e) b (fail_one e msg b)
  unfolding fail_one
  fail_one-Answers e msg b =
      one_of-All (λ e. Answers (kind_of_request e) b (fail_one e msg b)) requests e
        (
          emit-Answers _ b,
          (
            emit-Answers _ b,
            (
              emit-Answers _ b,
              (
                emit-Answers _ b,
                (
                  emit-Answers _ b,
                  (
                    emit-Answers _ b,
                    (
                      emit-Answers _ b,
                      (
                        emit-Answers _ b,
                        (emit-Answers _ b, (emit-Answers _ b, (emit-Answers _ b, tt))),
                      ),
                    ),
                  ),
                ),
              ),
            ),
          ),
        )

  -- Each request in flight is answered once.
  pub results-fail_each :
      (m : Dict ℕ ℕ) (msg : String) (b : ApiBridge F)
      → IsOrderly m
      → results k (fail_each m msg b).emitted ≡ results k b.emitted + flying k m
  unfolding fail_each flying
  results-fail_each [] msg b o = omega arith
  results-fail_each ((e, seq) ∷ m) msg b o = omega (
    arith,
    results-fail_each m msg (fail_one e msg b) o.2,
    (fail_one-Answers e msg b o.0).one_more,
  )
