-- ===== src/Server/Tests.antt =====
-- The repositories on small contents: one account, one session, one ride.
use shared_bike_refactor.Base.{ℕ, ◌+◌, ◌-◌, ◌^◌, ◌≡◌, ◌≢◌, refl, inr, [], ◌∷◌, ◌++◌, arith}
use shared_bike_refactor.Base.Dict.{Bytes, lookup, insert}
use shared_bike_refactor.Base.Int.{ℤ, pos, negsuc, ◌+ℤ◌, to_int}
use shared_bike_refactor.Server.Users.{UserRepo, find_by_mobile, find_or_create, fresh-IsValid}
use shared_bike_refactor.Server.Accounts.{
  AccountRepo, recharge, consume, get_balance, records_of, add_balance,
}
use shared_bike_refactor.Server.Accounts.Ledger.{
  add_balance_lem, recharge_overflow, IsLedger, add_balance-IsLedger, entry, fresh-IsLedger,
}
use shared_bike_refactor.Server.Sessions.{
  SessionStore, set_code, get_code, delete_code, create_session, lookup_session, destroy_session,
  code_ttl, session_ttl,
}
use shared_bike_refactor.Server.RideSessions.{RideSession}
use shared_bike_refactor.Server.RideSessions.Track.{IsTrack}

abbrev mobile : Bytes
mobile = b'1' ∷ b'3' ∷ []

abbrev users : UserRepo
users = (find_or_create shared_bike_refactor.Server.Users.fresh mobile).1

-- User 7 has 500 cents.
abbrev accounts : AccountRepo
accounts = (add_balance shared_bike_refactor.Server.Accounts.fresh 7 recharge (pos 500) 1).1

accounts_balance : get_balance accounts 7 ≡ pos 500
unfolding get_balance add_balance lookup ◌+ℤ◌ to_int records_of insert
accounts_balance = refl

deposited : get_balance accounts 7 +ℤ pos 100 ≡ pos 600
unfolding ◌+ℤ◌
deposited = rw accounts_balance refl

first_deposit : get_balance shared_bike_refactor.Server.Accounts.fresh 7 +ℤ pos 500 ≡ pos 500
unfolding get_balance lookup ◌+ℤ◌
first_deposit = refl

add_balance_lem_example :
    let (b, r') = add_balance accounts 7 recharge (pos 100) 2 in
    (b ≡ get_balance accounts 7 +ℤ pos 100)
    × (get_balance r' 7 ≡ b)
    × (records_of r' 7 ≡ records_of accounts 7 ++ (entry recharge (pos 100) b 2 ∷ []))
    × ((other : ℕ)
        → 7 ≢ other
        → (get_balance r' other ≡ get_balance accounts other)
          × (records_of r' other ≡ records_of accounts other))
add_balance_lem_example =
    add_balance_lem accounts 7 recharge (pos 100) 2 (rw deposited (omega arith, omega arith))
      (inr (omega arith))

recharge_overflow_example :
    let (b, r') = add_balance accounts 7 recharge (pos 2147483647) 2 in
    (b ≡ negsuc (2 ^ 32 - (500 + 2147483647) - 1)) × (get_balance r' 7 ≡ b)
recharge_overflow_example =
    recharge_overflow accounts 7 500 2147483647 2 accounts_balance (omega arith) (omega arith)

add_balance-IsLedger_example : IsLedger accounts
add_balance-IsLedger_example =
    add_balance-IsLedger shared_bike_refactor.Server.Accounts.fresh 7 recharge (pos 500) 1
      (rw first_deposit (omega arith, omega arith)) fresh-IsLedger

-- A session made at 20 s.
abbrev store : SessionStore
store = shared_bike_refactor.Server.Sessions.empty

-- A session of a ride, with coordinates that are integers.
abbrev ride_session : RideSession ℤ
ride_session = record {
  ride_no = b'R' ∷ b'1' ∷ [];
  user_id = 7;
  bike_id = 1;
  start_lat = pos 1;
  start_lng = pos 2;
  start_ts = 100;
  last_lat = pos 1;
  last_lng = pos 2;
  last_seq = pos 0;
  points = [];
}

ride_session-IsTrack : IsTrack ride_session
ride_session-IsTrack = record { ascending = tt; below = tt; bounded = omega arith }
