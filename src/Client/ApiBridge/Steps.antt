-- ===== src/Client/ApiBridge/Steps.antt =====
-- What happens to the bridge, in any order: calls of the user interface and events of the worker.
use shared_bike_refactor.Base.{ℕ, ◌+◌, List, [], ◌∷◌, ◌==◌, if◌then◌else◌}
use shared_bike_refactor.Base.Dict.{Bytes, Dict}
use shared_bike_refactor.Base.Int.{ℤ}
use shared_bike_refactor.Common.Double.{Double}
use shared_bike_refactor.Client.ApiBridge.Values.{
  ApiBridge, ClientCodec, BridgeSignal, mobile_code_result, login_result, balance_ready,
  records_ready, nearby_bikes_ready, unlock_result, ride_ended, damage_result, ride_detail_ready,
  rides_ready,
}
use shared_bike_refactor.Client.ApiBridge.{
  send_mobile_code, login, recharge, refresh_balance, list_records, refresh_nearby_bikes,
  scan_unlock, report_position, end_ride, report_damage, ride_detail, list_rides, clear_active_ride,
  on_frame_ready, on_worker_connected, on_worker_disconnected,
}
use Prim.Native.String.{String}

pub data BridgeEvent (F : Type 0) : Type 0 where
  code_asked : Bytes → BridgeEvent F
  login_asked : Bytes → ℤ → BridgeEvent F
  recharge_asked : ℤ → BridgeEvent F
  balance_asked records_asked : BridgeEvent F
  nearby_asked : F → F → BridgeEvent F
  unlock_asked : Bytes → F → F → BridgeEvent F
  position_reported : Bytes → ℤ → F → F → ℤ → BridgeEvent F
  end_asked : F → F → BridgeEvent F
  damage_reported : Bytes → Bytes → BridgeEvent F
  detail_asked : Bytes → BridgeEvent F
  rides_asked : ℤ → BridgeEvent F
  ride_cleared : BridgeEvent F
  frame_came : ℕ → ℕ → Bytes → BridgeEvent F
  worker_connected : BridgeEvent F
  worker_disconnected : String → BridgeEvent F

module _ {F : Type 0} (fl : Double F) (codec : ClientCodec F) where
  unfoldable pub step : ApiBridge F → BridgeEvent F → ApiBridge F
  step b (code_asked mobile) = send_mobile_code codec mobile b
  step b (login_asked mobile icode) = login codec mobile icode b
  step b (recharge_asked amount) = recharge codec amount b
  step b balance_asked = refresh_balance codec b
  step b records_asked = list_records codec b
  step b (nearby_asked lat lng) = refresh_nearby_bikes codec fl lat lng b
  step b (unlock_asked bike_no lat lng) = scan_unlock codec bike_no lat lng b
  step b (position_reported ride_no seq lat lng sec) =
      report_position codec ride_no seq lat lng sec b
  step b (end_asked lat lng) = end_ride codec lat lng b
  step b (damage_reported bike_no note) = report_damage codec bike_no note b
  step b (detail_asked ride_no) = ride_detail codec ride_no b
  step b (rides_asked limit) = list_rides codec limit b
  step b ride_cleared = clear_active_ride b
  step b (frame_came rsp_eid seq payload) = on_frame_ready codec rsp_eid seq payload b
  step b worker_connected = on_worker_connected b
  step b (worker_disconnected msg) = on_worker_disconnected msg b

  unfoldable pub run : ApiBridge F → List (BridgeEvent F) → ApiBridge F
  run b [] = b
  run b (e ∷ es) = run (step b e) es

-- A kind of call is the number of its request; recharge and balance are one kind, as they have one
-- signal. What belongs to no kind has the number 0.
abbrev pub kind_of_request : ℕ → ℕ
kind_of_request req_eid = if req_eid == 0x07 then 0x05 else req_eid

module _ {F : Type 0} where
  abbrev pub kind_of_signal : BridgeSignal F → ℕ
  kind_of_signal (mobile_code_result _ _ _) = 0x01
  kind_of_signal (login_result _ _) = 0x03
  kind_of_signal (balance_ready _ _ _) = 0x05
  kind_of_signal (records_ready _ _ _) = 0x09
  kind_of_signal (nearby_bikes_ready _ _ _) = 0x11
  kind_of_signal (unlock_result _ _ _) = 0x13
  kind_of_signal (ride_ended _ _ _ _) = 0x17
  kind_of_signal (damage_result _ _) = 0x19
  kind_of_signal (ride_detail_ready _ _ _) = 0x1b
  kind_of_signal (rides_ready _ _ _) = 0x1d
  kind_of_signal _ = 0

  abbrev pub kind_of_call : BridgeEvent F → ℕ
  kind_of_call (code_asked _) = 0x01
  kind_of_call (login_asked _ _) = 0x03
  kind_of_call (recharge_asked _) = 0x05
  kind_of_call balance_asked = 0x05
  kind_of_call records_asked = 0x09
  kind_of_call (nearby_asked _ _) = 0x11
  kind_of_call (unlock_asked _ _ _) = 0x13
  kind_of_call (end_asked _ _) = 0x17
  kind_of_call (damage_reported _ _) = 0x19
  kind_of_call (detail_asked _) = 0x1b
  kind_of_call (rides_asked _) = 0x1d
  kind_of_call _ = 0

abbrev pub hit : ℕ → ℕ → ℕ
hit k n = if n == k then 1 else 0

module _ {F : Type 0} where
  -- How many results of a kind were emitted, and how many calls of it were made.
  unfoldable pub results : ℕ → List (BridgeSignal F) → ℕ
  results k [] = 0
  results k (s ∷ ss) = hit k (kind_of_signal s) + results k ss

  unfoldable pub calls : ℕ → List (BridgeEvent F) → ℕ
  calls k [] = 0
  calls k (e ∷ es) = hit k (kind_of_call e) + calls k es

-- How many requests of a kind are in flight.
unfoldable pub flying : ℕ → Dict ℕ ℕ → ℕ
flying k [] = 0
flying k ((req_eid, seq) ∷ rest) = hit k (kind_of_request req_eid) + flying k rest
