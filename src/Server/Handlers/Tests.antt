-- ===== src/Server/Handlers/Tests.antt =====
-- One user with 500 cents and two bikes; coordinates are integers, and every distance is what the
-- integer operations make of it.
use shared_bike_refactor.Base.{
  ℕ, zero, suc, ◌+◌, ◌<◌, ◌≡◌, refl, true, none, some, List, [], ◌∷◌, arith, if◌then◌else◌,
}
use shared_bike_refactor.Base.Dict.{Bytes, bytes_eq, bytes_eq_iff, lookup, insert}
use shared_bike_refactor.Base.Int.{ℤ, pos, negsuc, ◌+ℤ◌, ◌-ℤ◌, ◌≤ℤ◌, leb_ℤ, ltb_ℤ, to_int}
use shared_bike_refactor.Base.Outcome.{ok}
use shared_bike_refactor.Common.Double.{Double}
use shared_bike_refactor.Common.Errors.{code, success, to_string, process_failed}
use shared_bike_refactor.Common.Pricing.{fee_of, compute_fee}
use shared_bike_refactor.Common.Validation.{valid_bike_no, valid_lat, valid_lng}
use shared_bike_refactor.Server.Accounts.{get_balance, add_balance, records_of}
use shared_bike_refactor.Server.Bikes.{Bike, idle, rented, get_for_update}
use shared_bike_refactor.Server.Messages.{
  ScanUnlockRequest, EndRideRequest, LoginRequest, ReportDamageRequest,
}
use shared_bike_refactor.Server.Rides.{RidePoint, find_by_no, ride_of}
use shared_bike_refactor.Server.RideSessions.{RideSession, find}
use shared_bike_refactor.Server.Router.{Ctx, IsKept, require_user, mobile_of, user_of}
use shared_bike_refactor.Server.Sessions.{get_code}
use shared_bike_refactor.Server.Users.{find_or_create}
use shared_bike_refactor.Server.Handlers.ScanUnlock.{unlock, session_of}
use shared_bike_refactor.Server.Handlers.ScanUnlock.Exclusive.{CanUnlock, unlock_free}
use shared_bike_refactor.Server.Handlers.ScanUnlock.Races.{look, unlock_race}
use shared_bike_refactor.Server.Handlers.EndRide.{
  find_ride, finish, pay, end_session, duration, ended, distance_of, input_of, fail_with,
}
use shared_bike_refactor.Server.Handlers.EndRide.Payment.{
  CanEnd, fee, end_unpaid, end_paid, end_again, end_frees_bike,
}
use shared_bike_refactor.Server.Handlers.Trips.{take_damage}
use shared_bike_refactor.Server.Handlers.Trips.Damage.{damaged_not_unlocked}
use shared_bike_refactor.Server.Handlers.Nearby.{Draws}

abbrev minus : ℤ → ℤ
minus (pos zero) = pos 0
minus (pos (suc n)) = negsuc n
minus (negsuc n) = pos (n + 1)

abbrev ints : Double ℤ
ints = record {
  lit = λ m e. pos m;
  neg = minus;
  add = ◌+ℤ◌;
  sub = ◌-ℤ◌;
  mul = λ a b. a;
  div = λ a b. a;
  le = leb_ℤ;
  lt = ltb_ℤ;
  sin = λ a. a;
  cos = λ a. a;
  sqrt = λ a. a;
  atan2 = λ a b. a;
  trunc = λ a. a;
}

abbrev mobile : Bytes
mobile = b'1' ∷ b'3' ∷ []

abbrev token : Bytes
token = b'a' ∷ []

abbrev bike_no : Bytes
bike_no = b'A' ∷ []

abbrev ride_no : Bytes
ride_no = b'R' ∷ b'1' ∷ []

abbrev bike : Bike ℤ
bike = record { id = 1; bike_no = bike_no; lat = pos 1; lng = pos 2; status = idle }

abbrev session : RideSession ℤ
session = record {
  ride_no = ride_no;
  user_id = 1;
  bike_id = 1;
  start_lat = pos 1;
  start_lng = pos 2;
  start_ts = 100;
  last_lat = pos 1;
  last_lng = pos 2;
  last_seq = pos 0;
  points = [];
}

-- `balance` cents, and the rides that are under way.
abbrev ctx_of : ℕ → List (Bytes × RideSession ℤ) → Ctx ℤ
ctx_of balance sessions = record {
  users = record { by_mobile = (mobile, record { id = 1; mobile = mobile }) ∷ []; next_id = 2 };
  accounts = record { bal = (1, pos balance) ∷ []; records = [] };
  sessions = record {
    codes = (mobile, record { code = 123456; expiry = 1000 }) ∷ [];
    sessions = (token, record { mobile = mobile; expiry = 1000 }) ∷ [];
  };
  bikes = record { bikes = (bike_no, bike) ∷ []; next_id = 2 };
  rides = shared_bike_refactor.Server.Rides.fresh;
  ride_sessions = record { sessions = sessions };
}

known :
    (balance : ℕ) (sessions : List (Bytes × RideSession ℤ))
    → (require_user token 10 (ctx_of balance sessions)).0 ≡ some 1
unfolding require_user mobile_of user_of shared_bike_refactor.Server.Sessions.lookup_session lookup
    bytes_eq find_or_create
known balance sessions = refl

bikes-IsValid : shared_bike_refactor.Server.Bikes.Status.IsValid (ctx_of 0 []).bikes
unfolding shared_bike_refactor.Server.Bikes.Status.IsValid lookup bytes_eq
bikes-IsValid key b e = ground (arith, bytes_eq_iff bike_no key)

abbrev ask : ScanUnlockRequest ℤ
ask = record { session_token = token; bike_no = bike_no; lat = pos 1; lng = pos 2 }

abbrev at_ten : shared_bike_refactor.Server.Handlers.ScanUnlock.Readings
at_ten = record { session_now = 10; number_now = 10; today = 20250102; start_now = 10 }

can_unlock : CanUnlock ints at_ten ask (ctx_of 500 []) 1 bike
unfolding get_for_update get_balance lookup bytes_eq valid_bike_no valid_lat valid_lng
can_unlock = record {
  known = known 500 [];
  fields = refl;
  found = refl;
  free = refl;
  covered = omega arith;
  date = omega arith;
  distinct = bikes-IsValid;
}

unlock_free_example :
    let (out, ctx') = unlock at_ten ask ints (ctx_of 500 []) in
    (n : Bytes) × (out
      ≡ ok (record { code = code success; desc = to_string success; ride_no = n; start_ts = 10 }))
    × (find ctx'.ride_sessions n ≡ some (session_of at_ten ask n 1 bike))
    × ((other : Bytes)
        → get_for_update ctx'.bikes other ≡ (
            if bytes_eq bike_no other
            then some (record bike { status = rented })
            else get_for_update (ctx_of 500 []).bikes other))
    × (ctx'.accounts ≡ (ctx_of 500 []).accounts)
    × (ctx'.rides ≡ (ctx_of 500 []).rides)
unlock_free_example = unlock_free ints at_ten ask (ctx_of 500 []) 1 bike can_unlock

abbrev at_eleven : shared_bike_refactor.Server.Handlers.ScanUnlock.Readings
at_eleven = record { session_now = 11; number_now = 11; today = 20250102; start_now = 11 }

-- The first scan has looked at the bike.
abbrev after_look : Ctx ℤ
after_look = (look at_ten ask ints (ctx_of 500 [])).1

still_free : CanUnlock ints at_eleven ask after_look 1 bike
unfolding look require_user mobile_of user_of find_or_create get_for_update get_balance lookup
    bytes_eq valid_bike_no valid_lat valid_lng shared_bike_refactor.Server.Sessions.lookup_session
still_free = record {
  known = refl;
  fields = refl;
  found = refl;
  free = refl;
  covered = omega arith;
  date = omega arith;
  distinct = bikes-IsValid;
}

unlock_race_example :
    IsKept
      (unlock at_ten ask ints (ctx_of 500 [])).1
      (unlock at_eleven ask ints (unlock at_ten ask ints (ctx_of 500 [])).1).1
    × (let (a, c1) = look at_ten ask ints (ctx_of 500 []) in
        let (b, c2) = look at_eleven ask ints c1 in
        let (out, c3) =
          shared_bike_refactor.Server.Handlers.ScanUnlock.Races.finish at_ten ask a c2 in
        let (out', c4) =
          shared_bike_refactor.Server.Handlers.ScanUnlock.Races.finish at_eleven ask b c3 in
        (n : Bytes) × (n' : Bytes) × (out
          ≡ ok (record {
            code = code success;
            desc = to_string success;
            ride_no = n;
            start_ts = 10;
          }))
        × (out'
            ≡ ok (record {
              code = code success;
              desc = to_string success;
              ride_no = n';
              start_ts = 11;
            }))
        × (find c3.ride_sessions n ≡ some (session_of at_ten ask n 1 bike))
        × (find c4.ride_sessions n' ≡ some (session_of at_eleven ask n' 1 bike)))
unlock_race_example =
    unlock_race ints at_ten at_eleven ask ask (ctx_of 500 []) 1 1 bike can_unlock still_free refl

abbrev finish_request : EndRideRequest ℤ
finish_request = record {
  session_token = token;
  ride_no = ride_no;
  end_lat = pos 3;
  end_lng = pos 4;
}

abbrev at_end : shared_bike_refactor.Server.Handlers.EndRide.Readings
at_end = record { session_now = 10; end_now = 160; account_now = 160 }

abbrev unsorted : List (RidePoint ℤ) → List (RidePoint ℤ)
unsorted ps = ps

abbrev riding : ℕ → Ctx ℤ
riding balance = ctx_of balance ((ride_no, session) ∷ [])

balance_of : (balance : ℕ) → get_balance (riding balance).accounts 1 ≡ pos balance
unfolding get_balance lookup
balance_of balance = refl

can_end :
    (balance : ℕ)
    → balance < 1000
    → CanEnd ints unsorted at_end finish_request (riding balance) 1 session
unfolding find lookup bytes_eq valid_lat valid_lng
can_end balance h = record {
  known = known balance ((ride_no, session) ∷ []);
  fields = refl;
  found = refl;
  keyed = refl;
  owner = refl;
  nonneg = rw (balance_of balance) (omega arith);
  fits = rw (balance_of balance) (omega arith, omega arith);
}

fee_100 : fee ints unsorted at_end finish_request session ≡ 100
unfolding duration fee_of ◌-ℤ◌ to_int
fee_100 = refl

uncovered :
    get_balance (riding 50).accounts 1 +ℤ pos 1
    ≤ℤ pos (fee ints unsorted at_end finish_request session)
unfolding duration fee_of ◌-ℤ◌ to_int ◌+ℤ◌ get_balance lookup
uncovered = omega arith

covered :
    pos (fee ints unsorted at_end finish_request session) ≤ℤ get_balance (riding 500).accounts 1
unfolding duration fee_of ◌-ℤ◌ to_int get_balance lookup
covered = omega arith

end_unpaid_example :
    let (out, ctx') = end_session ints unsorted at_end finish_request (riding 50) in
    (out ≡ ok (fail_with process_failed "余额不足")) × IsKept (riding 50) ctx'
end_unpaid_example =
    end_unpaid ints unsorted at_end finish_request (riding 50) 1 session (can_end 50 (omega arith))
      uncovered

end_paid_example :
    let (out, ctx') = end_session ints unsorted at_end finish_request (riding 500) in
    let dur = duration 100 160 in
    (out
      ≡ ok (
          ended dur
            (distance_of ints unsorted at_end finish_request session dur)
            (fee ints unsorted at_end finish_request session)
            (get_balance ctx'.accounts 1)))
    × (get_balance ctx'.accounts 1
        ≡ get_balance (riding 500).accounts 1
          +ℤ (pos 0 -ℤ pos (fee ints unsorted at_end finish_request session)))
    × (find_by_no ctx'.rides ride_no
        ≡ some (
            ride_of 1 (
              input_of ints unsorted at_end finish_request session 1 dur
                (fee ints unsorted at_end finish_request session))))
    × (find ctx'.ride_sessions ride_no ≡ none)
end_paid_example =
    end_paid ints unsorted at_end finish_request (riding 500) 1 session (can_end 500 (omega arith))
      shared_bike_refactor.Server.Rides.Lookup.fresh-IsValid covered

abbrev after_end : Ctx ℤ
after_end = (end_session ints unsorted at_end finish_request (riding 500)).1

known_after : (require_user token 10 after_end).0 ≡ some 1
unfolding end_session require_user mobile_of user_of
    shared_bike_refactor.Server.Sessions.lookup_session lookup bytes_eq find_or_create find_ride
    finish pay find valid_lat valid_lng compute_fee fee_of add_balance get_balance records_of insert
    duration to_int ◌+ℤ◌ ◌-ℤ◌
known_after = refl

end_again_example :
    ((end_session ints unsorted at_end finish_request after_end).0
      ≡ (end_session ints unsorted at_end finish_request (riding 500)).0)
    × IsKept after_end (end_session ints unsorted at_end finish_request after_end).1
end_again_example =
    end_again ints unsorted at_end at_end finish_request (riding 500) 1 session
      (can_end 500 (omega arith)) shared_bike_refactor.Server.Rides.Lookup.fresh-IsValid covered
      known_after

bike_found : get_for_update (riding 500).bikes bike_no ≡ some bike
unfolding get_for_update lookup bytes_eq
bike_found = refl

end_frees_bike_example : get_for_update after_end.bikes bike_no ≡ (
    if bytes_eq bike_no bike_no
    then some (record bike { lat = pos 3; lng = pos 4; status = idle })
    else get_for_update (riding 500).bikes bike_no)
end_frees_bike_example =
    end_frees_bike ints unsorted at_end finish_request (riding 500) 1 session bike_no bike bike_no
      (can_end 500 (omega arith)) covered bikes-IsValid bike_found refl

abbrev login_request : LoginRequest
login_request = record { mobile = mobile; icode = pos 123456 }

code_there : get_code (ctx_of 0 []).sessions mobile 10 ≡ (some 123456, (ctx_of 0 []).sessions)
unfolding get_code lookup bytes_eq
code_there = refl

abbrev broken : ReportDamageRequest
broken = record { session_token = token; bike_no = bike_no; note = [] }

bike_no_valid : valid_bike_no bike_no ≡ true
unfolding valid_bike_no
bike_no_valid = refl

damaged_not_unlocked_example :
    let ctx' = (take_damage broken 10 (ctx_of 500 [])).1 in
    IsKept ctx' (unlock at_ten ask ints ctx').1
damaged_not_unlocked_example =
    damaged_not_unlocked ints at_ten ask broken 10 1 (ctx_of 500 []) bike (known 500 [])
      bike_no_valid bikes-IsValid bike_found refl

abbrev draws : ℕ → Draws ℤ
draws i = record { u = pos 1; v = pos 2; picks = λ attempt k. i + k }
