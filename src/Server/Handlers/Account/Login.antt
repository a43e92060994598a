-- ===== src/Server/Handlers/Account/Login.antt =====
-- From a code to a session, and from a session to an account.
use shared_bike_refactor.Base.{ℕ, ◌+◌, ◌≤◌, ◌≡◌, refl, ap, ◌∙◌, none, some, arith}
use shared_bike_refactor.Base.Dict.{Bytes, bytes_key, lookup-erase_self}
use shared_bike_refactor.Base.Int.{pos}
use shared_bike_refactor.Common.Errors.{code, success, invalid_data}
use shared_bike_refactor.Server.Messages.{LoginRequest}
use shared_bike_refactor.Server.Sessions.{
  SessionStore, get_code, delete_code, create_session, lookup_session, session_ttl,
  session_lifetime,
}
use shared_bike_refactor.Server.Router.{Ctx, mobile_of, user_of}
use shared_bike_refactor.Server.Handlers.Account.{check_code, admit, login_fail}

code_gone :
    (s : SessionStore) (m : Bytes) (a b now later : ℕ)
    → (get_code (create_session (delete_code s m) m a b now).1 m later).0 ≡ none
unfolding get_code create_session delete_code
code_gone s m a b now later = rw (lookup-erase_self m s.codes, get_code) refl

module _ {F : Type 0} where
  check_code_refused :
      (req : LoginRequest) (a b read_now now : ℕ) (ctx : Ctx F)
      → (get_code ctx.sessions req.mobile read_now).0 ≡ none
      → (check_code req a b read_now now ctx).0 ≡ login_fail invalid_data
  unfolding check_code
  check_code_refused req a b read_now now ctx e = rw (e, check_code) refl

  admit_sessions :
      (req : LoginRequest) (a b now : ℕ) (ctx : Ctx F)
      → (admit req a b now ctx).1.sessions
        ≡ (create_session (delete_code ctx.sessions req.mobile) req.mobile a b now).1
  unfolding admit user_of
  admit_sessions req a b now ctx = refl

  check_code_admits :
      (req : LoginRequest) (a b read_now now c : ℕ) (ctx : Ctx F)
      → get_code ctx.sessions req.mobile read_now ≡ (some c, ctx.sessions)
      → req.icode ≡ pos c
      → check_code req a b read_now now ctx ≡ admit req a b now ctx
  unfolding check_code
  check_code_admits req a b read_now now c ctx e same = ground (arith, e, same)

  -- Who sends the code that is stored gets a session: its token names his number for seven days. The
  -- code is used up: a second login with it is refused at every time.
  login_once :
      (req : LoginRequest) (a b read_now now c soon a' b' later now' : ℕ) (ctx : Ctx F)
      → get_code ctx.sessions req.mobile read_now ≡ (some c, ctx.sessions)
      → req.icode ≡ pos c
      → soon ≤ now + session_ttl
      → let (r, ctx') = check_code req a b read_now now ctx in
        (r.code ≡ code success)
        × ((mobile_of r.session_token soon ctx').0 ≡ some req.mobile)
        × ((check_code req a' b' later now' ctx').0 ≡ login_fail invalid_data)
  unfolding mobile_of admit user_of
  login_once req a b read_now now c soon a' b' later now' ctx e same early =
      let next = delete_code ctx.sessions req.mobile in
      rw (check_code_admits req a b read_now now c ctx e same) (
        refl,
        ap (λ s. (lookup_session s (create_session next req.mobile a b now).0 soon).0)
              (admit_sessions req a b now ctx)
            ∙ ap (λ p. p.0) ((session_lifetime next req.mobile a b now soon soon).0 early),
        check_code_refused req a' b' later now' (admit req a b now ctx).1
            (code_gone ctx.sessions req.mobile a b now later),
      )
