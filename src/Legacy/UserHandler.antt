-- ===== src/Legacy/UserHandler.antt =====
-- legacy/user_event_handler.cpp and user_service.cpp: the handler of the two requests. The connection
-- to the database and the random draw of `code_gen` are arguments.
use shared_bike_refactor.Base.{
  ℕ, ◌+◌, ◌%◌, ◌≤◌, ◌<◌, ◌≡◌, ◌≢◌, Bool, false, not, Option, none, some, [], ◌∷◌, ◌==◌,
  if◌then◌else◌, arith,
}
use shared_bike_refactor.Base.Dict.{Bytes, Dict, lookup, insert, bytes_key, lookup-insert_self}
use shared_bike_refactor.Base.Int.{ℤ, pos, negsuc}
use shared_bike_refactor.Server.Messages.{MobileRequest, LoginRequest}
use shared_bike_refactor.Legacy.Events.{
  RequestEvent, mobile_code_req, login_req, ResponseEvent, errc_success, errc_invalid_data,
  erro_proccess_failed, make_mobile_code_rsp, make_login_rsp,
}

-- The statements of user_service.cpp, with the text that `sprintf` puts into them.
pub data UserStatement : Type 0 where
  select_user insert_user : Bytes → UserStatement

-- sqlConnection.cpp on the state `W` of the database: `init`, and `Execute` without and with a result,
-- whose rows are counted.
pub record MysqlConnection (W : Type 0) : Type 0 where
  pub init : W → Bool × W
  pub execute : UserStatement → W → Bool × W
  pub execute_rows : UserStatement → W → Option ℕ × W

-- The bytes before the first 0.
unfoldable pub c_str : Bytes → Bytes
c_str [] = []
c_str (b ∷ bs) = if b == 0 then [] else b ∷ c_str bs

pub record UserHandler (W : Type 0) : Type 0 where
  pub m2c : Dict Bytes ℕ
  pub db : W

-- `rand() % (999999 - 100000) + 100000`
unfoldable pub code_gen : ℕ → ℕ
code_gen draw = draw % 899999 + 100000

-- Every code has six digits.
code_gen_bounds : (draw : ℕ) → (100000 ≤ code_gen draw) × (code_gen draw < 999999)
unfolding code_gen
code_gen_bounds draw = omega arith

abbrev is_code : ℤ → ℕ → Bool
is_code (pos n) c = n == c
is_code (negsuc n) c = false

module _ {W : Type 0} (conn : MysqlConnection W) where
  -- A failed query counts as no user.
  unfoldable pub exist : Bytes → W → Bool × W
  exist mobile w =
      let (rows, w') = conn.execute_rows (select_user (c_str mobile)) w in
      (elim rows [ none ↦ false | some n ↦ not (n == 0) ], w')

  unfoldable pub insert_mobile : Bytes → W → Bool × W
  insert_mobile mobile w = conn.execute (insert_user (c_str mobile)) w

  unfoldable pub handle_mobile_code_req :
      MobileRequest → ℕ → UserHandler W → ResponseEvent × UserHandler W
  handle_mobile_code_req req draw h =
      let icode = code_gen draw in
      (make_mobile_code_rsp errc_success icode, record h { m2c = insert req.mobile icode h.m2c })

  -- The number has been verified: a new user is added.
  unfoldable pub enter_user : Bytes → W → ℕ × W
  unfolding exist insert_mobile
  enter_user mobile w =
      let (up, w1) = conn.init w in
      let (known, w2) = exist mobile w1 in
      let (added, w3) = insert_mobile mobile w2 in
      if not up
      then (erro_proccess_failed, w1)
      else if known
      then (errc_success, w2)
      else if not added
      then (erro_proccess_failed, w3)
      else (errc_success, w3)

  unfoldable pub handle_login_req : LoginRequest → UserHandler W → ResponseEvent × UserHandler W
  unfolding enter_user
  handle_login_req req h = elim (lookup req.mobile h.m2c) [
    | none ↦ (make_login_rsp errc_invalid_data, h)
    | some c ↦
        if not (is_code req.icode c)
        then (make_login_rsp errc_invalid_data, h)
        else let (result, db) = enter_user req.mobile h.db in
          (make_login_rsp result, record h { db = db })
  ]

  unfoldable pub handle : ℕ → RequestEvent → UserHandler W → ResponseEvent × UserHandler W
  handle draw (mobile_code_req req) h = handle_mobile_code_req req draw h
  handle draw (login_req req) h = handle_login_req req h

  -- After a request for a code, that code logs its number in while the database answers, any other is
  -- refused and leaves the database alone; the code stays good.
  handle_login_req-handle_mobile_code_req :
      (req : MobileRequest) (draw : ℕ) (h : UserHandler W) (icode : ℤ)
      → let h1 = (handle_mobile_code_req req draw h).1 in
        let ask : LoginRequest = record { mobile = req.mobile; icode = icode } in
        (icode ≡ pos (code_gen draw)
          → (handle_login_req ask h1).0 ≡ make_login_rsp (enter_user req.mobile h.db).0)
        × (icode ≢ pos (code_gen draw)
            → handle_login_req ask h1 ≡ (make_login_rsp errc_invalid_data, h1))
        × ((handle_login_req ask h1).1.m2c ≡ h1.m2c)
  unfolding handle_login_req handle_mobile_code_req
  handle_login_req-handle_mobile_code_req req draw h icode =
      let stored = lookup-insert_self req.mobile (code_gen draw) h.m2c in
      (λ e. ground (arith, stored), λ e. ground (arith, stored), ground (arith, stored))
