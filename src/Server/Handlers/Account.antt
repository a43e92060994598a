-- ===== src/Server/Handlers/Account.antt =====
-- The handlers of accounts and of logging in: mobile_code.cpp, login.cpp, recharge.cpp,
-- account_balance.cpp and list_records.cpp of server/src/handlers.
pub mod Login
use shared_bike_refactor.Base.{ℕ, Bool, false, ◌==◌, not, none, some, [], map, if◌then◌else◌}
use shared_bike_refactor.Base.Int.{ℤ, pos, negsuc, leb_ℤ}
use shared_bike_refactor.Common.Errors.{
  ErrCode, code, to_string, success, invalid_msg, unauthorized, invalid_data,
}
use shared_bike_refactor.Protocol.{
  mobile_response, login_response, recharge_response, account_balance_response,
  list_account_records_response,
}
use shared_bike_refactor.Server.Accounts.{
  AccountRecord, recharge, get_balance, add_balance, list_records,
}
use shared_bike_refactor.Server.Messages.{
  Codec, MobileResponse, LoginRequest, LoginResponse, RechargeRequest, RechargeResponse,
  TokenRequest, AccountBalanceResponse, AccountRecordMessage, ListAccountRecordsResponse,
}
use shared_bike_refactor.Server.Sessions.{set_code, get_code, delete_code, create_session}
use shared_bike_refactor.Server.Router.{Ctx, HandlerFn, mobile_of, user_of, response}

abbrev pub login_fail : ErrCode → LoginResponse
login_fail ec = record { code = code ec; desc = to_string ec; session_token = [] }

abbrev pub recharge_fail : ErrCode → RechargeResponse
recharge_fail ec = record { code = code ec; balance = pos 0; desc = to_string ec }

abbrev pub balance_fail : ErrCode → AccountBalanceResponse
balance_fail ec = record { code = code ec; balance = pos 0 }

abbrev pub records_fail : ErrCode → ListAccountRecordsResponse
records_fail ec = record { code = code ec; records = [] }

abbrev pub finish_code : ErrCode → ℕ → MobileResponse
finish_code ec icode = record { code = code ec; icode = icode; text = to_string ec }

abbrev pub record_message : AccountRecord → AccountRecordMessage
record_message r = record { type = r.type; amount = r.amount; timestamp = r.timestamp }

-- `*stored != req.icode()`, the code being an `int`.
abbrev pub is_code : ℕ → ℤ → Bool
is_code c (pos n) = c == n
is_code c (negsuc _) = false

module _ {F : Type 0} where
  -- `draw` is the random code.
  unfoldable pub mobile_code : Codec F → ℕ → ℕ → HandlerFn F
  mobile_code codec draw now payload ctx =
      let write =
        λ (r : MobileResponse). response mobile_response (codec.mobile_response_bytes r) in
      elim (codec.parse_mobile_request payload) [
        | none ↦ (write (finish_code invalid_msg 0), ctx)
        | some req ↦
            let (icode, sessions) = set_code ctx.sessions req.mobile draw now in
            (write (finish_code success icode), record ctx { sessions = sessions })
      ]

  -- What follows the test of the code.
  unfoldable pub admit : LoginRequest → ℕ → ℕ → ℕ → Ctx F → LoginResponse × Ctx F
  admit req a b now ctx =
      let (uid, ctx') =
        user_of req.mobile (record ctx { sessions = delete_code ctx.sessions req.mobile }) in
      let (token, sessions) = create_session ctx'.sessions req.mobile a b now in
      (
        record { code = code success; desc = to_string success; session_token = token },
        record ctx' { sessions = sessions },
      )

  -- What follows the parse of the request. `a` and `b` are the draws of the token, `read_now` and `now`
  -- the clock at the reading of the code and at the making of the session.
  unfoldable pub check_code : LoginRequest → ℕ → ℕ → ℕ → ℕ → Ctx F → LoginResponse × Ctx F
  check_code req a b read_now now ctx =
      let (stored, sessions) = get_code ctx.sessions req.mobile read_now in
      let ctx' = record ctx { sessions = sessions } in
      elim stored [
        | none ↦ (login_fail invalid_data, ctx')
        | some c ↦
            if not (is_code c req.icode)
            then (login_fail invalid_data, ctx')
            else admit req a b now ctx'
      ]

  unfoldable pub login : Codec F → ℕ → ℕ → ℕ → ℕ → HandlerFn F
  login codec a b read_now now payload ctx =
      let write = λ (r : LoginResponse). response login_response (codec.login_response_bytes r) in
      elim (codec.parse_login_request payload) [
        | none ↦ (write (login_fail invalid_msg), ctx)
        | some req ↦ let (r, ctx') = check_code req a b read_now now ctx in (write r, ctx')
      ]

  -- What follows the parse of the request.
  unfoldable pub deposit : RechargeRequest → ℕ → ℕ → Ctx F → RechargeResponse × Ctx F
  deposit req session_now account_now ctx =
      let (mobile, ctx') = mobile_of req.session_token session_now ctx in
      if leb_ℤ req.amount (pos 0) then (recharge_fail invalid_data, ctx) else elim mobile [
        | none ↦ (recharge_fail unauthorized, ctx')
        | some m ↦
            let (uid, ctx'') = user_of m ctx' in
            let (new_bal, accounts) =
              add_balance ctx''.accounts uid recharge req.amount account_now in
            (
              record { code = code success; balance = new_bal; desc = to_string success },
              record ctx'' { accounts = accounts },
            )
      ]

  unfoldable pub recharge_account : Codec F → ℕ → ℕ → HandlerFn F
  recharge_account codec session_now account_now payload ctx =
      let write =
        λ (r : RechargeResponse). response recharge_response (codec.recharge_response_bytes r) in
      elim (codec.parse_recharge_request payload) [
        | none ↦ (write (recharge_fail invalid_msg), ctx)
        | some req ↦ let (r, ctx') = deposit req session_now account_now ctx in (write r, ctx')
      ]

  unfoldable pub read_balance : TokenRequest → ℕ → Ctx F → AccountBalanceResponse × Ctx F
  read_balance req session_now ctx =
      let (mobile, ctx') = mobile_of req.session_token session_now ctx in
      elim mobile [
        | none ↦ (balance_fail unauthorized, ctx')
        | some m ↦
            let (uid, ctx'') = user_of m ctx' in
            (record { code = code success; balance = get_balance ctx''.accounts uid }, ctx'')
      ]

  unfoldable pub account_balance : Codec F → ℕ → HandlerFn F
  account_balance codec session_now payload ctx =
      let write = λ (r : AccountBalanceResponse).
        response account_balance_response (codec.account_balance_response_bytes r) in
      elim (codec.parse_account_balance_request payload) [
        | none ↦ (write (balance_fail invalid_msg), ctx)
        | some req ↦ let (r, ctx') = read_balance req session_now ctx in (write r, ctx')
      ]

  unfoldable pub read_records : TokenRequest → ℕ → Ctx F → ListAccountRecordsResponse × Ctx F
  read_records req session_now ctx =
      let (mobile, ctx') = mobile_of req.session_token session_now ctx in
      elim mobile [
        | none ↦ (records_fail unauthorized, ctx')
        | some m ↦
            let (uid, ctx'') = user_of m ctx' in
            (
              record {
                code = code success;
                records = map record_message (list_records ctx''.accounts uid 100);
              },
              ctx'',
            )
      ]

  unfoldable pub list_account_records : Codec F → ℕ → HandlerFn F
  list_account_records codec session_now payload ctx =
      let write = λ (r : ListAccountRecordsResponse).
        response list_account_records_response (codec.list_account_records_response_bytes r) in
      elim (codec.parse_list_account_records_request payload) [
        | none ↦ (write (records_fail invalid_msg), ctx)
        | some req ↦ let (r, ctx') = read_records req session_now ctx in (write r, ctx')
      ]
