-- ===== src/Server/Router.antt =====
-- server/include/server/router.hpp, server/src/router.cpp and server/src/auth.cpp: the context that the
-- handlers share, the table of handlers, and the user of a session token.
use shared_bike_refactor.Base.{ℕ, ◌≡◌, refl, Option, none, some, [], Option-cases, inl, inr}
use shared_bike_refactor.Base.Dict.{Bytes, Dict, lookup, insert, nat_key}
use shared_bike_refactor.Base.Outcome.{Outcome, ok}
use shared_bike_refactor.Protocol.{Event, event_id, encode}
use shared_bike_refactor.Server.Users.{UserRepo, find_or_create}
use shared_bike_refactor.Server.Accounts.{AccountRepo}
use shared_bike_refactor.Server.Sessions.{SessionStore, lookup_session}
use shared_bike_refactor.Server.Bikes.{BikeRepo}
use shared_bike_refactor.Server.Rides.{RideRepo}
use shared_bike_refactor.Server.RideSessions.{RideSessionStore}

module _ (F : Type 0) where
  pub record Ctx : Type 0 where
    pub users : UserRepo
    pub accounts : AccountRepo
    pub sessions : SessionStore
    pub bikes : BikeRepo F
    pub rides : RideRepo F
    pub ride_sessions : RideSessionStore F

  -- A handler returns the bytes of its response, or throws; the context is left as it is then.
  abbrev pub HandlerFn : Type 0
  HandlerFn = Bytes → Ctx → Outcome Bytes × Ctx

  pub record Router : Type 0 where
    pub handlers : Dict ℕ HandlerFn

module _ {F : Type 0} where
  unfoldable pub register_handler : Router F → ℕ → HandlerFn F → Router F
  register_handler r eid fn = record { handlers = insert eid fn r.handlers }

  unfoldable pub dispatch : Router F → ℕ → HandlerFn F
  dispatch r eid payload ctx = elim (lookup eid r.handlers) [
    | none ↦ (ok [], ctx)
    | some fn ↦ fn payload ctx
  ]

  -- The number that a session token names, at the time `now`.
  unfoldable pub mobile_of : Bytes → ℕ → Ctx F → Option Bytes × Ctx F
  mobile_of token now ctx =
      let (mobile, sessions) = lookup_session ctx.sessions token now in
      (mobile, record ctx { sessions = sessions })

  -- The identifier of the user with a number.
  unfoldable pub user_of : Bytes → Ctx F → ℕ × Ctx F
  user_of mobile ctx =
      let (u, users) = find_or_create ctx.users mobile in (u.id, record ctx { users = users })

  unfoldable pub require_user : Bytes → ℕ → Ctx F → Option ℕ × Ctx F
  unfolding mobile_of user_of
  require_user token now ctx =
      let (mobile, ctx') = mobile_of token now ctx in
      elim mobile [
        | none ↦ (none, ctx')
        | some m ↦ let (uid, ctx'') = user_of m ctx' in (some uid, ctx'')
      ]

  -- Everything but the users and the sessions.
  pub record IsKept (ctx ctx' : Ctx F) : Type 0 where
    pub accounts_kept : ctx'.accounts ≡ ctx.accounts
    pub bikes_kept : ctx'.bikes ≡ ctx.bikes
    pub rides_kept : ctx'.rides ≡ ctx.rides
    pub ride_sessions_kept : ctx'.ride_sessions ≡ ctx.ride_sessions

  pub require_user-IsKept :
      (token : Bytes) (now : ℕ) (ctx : Ctx F) → IsKept ctx (require_user token now ctx).1
  unfolding require_user mobile_of user_of
  require_user-IsKept token now ctx =
      elim (Option-cases (lookup_session ctx.sessions token now).0) [
        | inl e ↦
            rw (e, require_user)
              (record {
                accounts_kept = refl;
                bikes_kept = refl;
                rides_kept = refl;
                ride_sessions_kept = refl;
              })
        | inr (m, e) ↦
            rw (e, require_user)
              (record {
                accounts_kept = refl;
                bikes_kept = refl;
                rides_kept = refl;
                ride_sessions_kept = refl;
              })
      ]

-- `Frame f{...}; return encode(f);`
abbrev pub response : Event → Bytes → Outcome Bytes
response e payload = encode (record { event_id = event_id e; seq = 0; payload = payload })
