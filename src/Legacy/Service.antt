-- ===== src/Legacy/Service.antt =====
-- legacy/DispatchMsgService.cpp, with the loop of legacy/main.cpp: events are handed to subscribed
-- handlers by the thread pool, and their responses go back to the sessions. A session is known by a
-- number, its address; what uses the address of a session that was freed, or a buffer that is null, is
-- recorded as a fault.
pub mod Lifetime
mod Subscribed
mod Tests
use shared_bike_refactor.Base.{
  ℕ, zero, suc, ◌+◌, Bool, true, false, not, Option, none, some, List, [], ◌∷◌, ◌++◌, ◌==◌,
  if◌then◌else◌, length,
}
use shared_bike_refactor.Base.Dict.{Bytes, Dict, lookup, insert, erase, nat_key}
use shared_bike_refactor.Server.Messages.{
  MobileRequest, MobileResponse, LoginRequest, LoginResponse,
}
use shared_bike_refactor.Legacy.Events.{
  RequestEvent, mobile_code_req, login_req, ResponseEvent, mobile_code_rsp, login_rsp, exit_rsp,
  get_eid,
}
use shared_bike_refactor.Legacy.NetworkInterface.{
  ConnectSession, Handled, kept, closed, enqueued, session_init, session_reset, handle_request,
  assemble_hb,
}

-- The code that protobuf generates.
pub record LegacyCodec : Type 0 where
  pub parse_mobile_request : Bytes → Option MobileRequest
  pub parse_login_request : Bytes → Option LoginRequest
  pub mobile_response_bytes : MobileResponse → Bytes
  pub login_response_bytes : LoginResponse → Bytes

module _ (codec : LegacyCodec) where
  unfoldable pub parse_event : Bytes → ℕ → Option RequestEvent
  parse_event message eid =
      if eid == 0x01
      then elim (codec.parse_mobile_request message) [
        | none ↦ none
        | some req ↦ some (mobile_code_req req)
      ]
      else if eid == 0x03
      then elim (codec.parse_login_request message) [
        | none ↦ none
        | some req ↦ some (login_req req)
      ]
      else none

  -- The bytes of a response, by `AssembleHB`; an exit has none.
  unfoldable pub response_bytes : ResponseEvent → Option Bytes
  response_bytes (mobile_code_rsp rsp) = some (assemble_hb 0x02 (codec.mobile_response_bytes rsp))
  response_bytes (login_rsp rsp) = some (assemble_hb 0x04 (codec.login_response_bytes rsp))
  response_bytes exit_rsp = none

abbrev pub Subscribers : Type 0
Subscribers = Dict ℕ (List ℕ)

-- `std::find` of a handler's address.
unfoldable pub has_handler : ℕ → List ℕ → Bool
has_handler h [] = false
has_handler h (k ∷ ks) = if k == h then true else has_handler h ks

unfoldable pub remove_handler : ℕ → List ℕ → List ℕ
remove_handler h [] = []
remove_handler h (k ∷ ks) = if k == h then ks else k ∷ remove_handler h ks

unfoldable pub subscribe : ℕ → ℕ → Subscribers → Subscribers
subscribe eid h subs = elim (lookup eid subs) [
  | none ↦ insert eid (h ∷ []) subs
  | some hs ↦ if has_handler h hs then subs else insert eid (hs ++ (h ∷ [])) subs
]

unfoldable pub unsubscribe : ℕ → ℕ → Subscribers → Subscribers
unsubscribe eid h subs = elim (lookup eid subs) [
  | none ↦ subs
  | some hs ↦ insert eid (remove_handler h hs) subs
]

-- `U` is the state of the handlers; `handle` runs the handler at an address.
pub record Service (U : Type 0) : Type 0 where
  pub subscribers : Subscribers
  pub svr_exit : Bool
  pub users : U
  pub sessions : Dict ℕ (ConnectSession RequestEvent × Bytes)
  pub tasks : List (ℕ × RequestEvent)
  pub responses : List (ℕ × ResponseEvent)
  pub written : List (ℕ × Bytes)
  pub faulted : Bool

-- A task without a response gives the event that ends the server.
abbrev pub or_exit : Option ResponseEvent → ResponseEvent
or_exit none = exit_rsp
or_exit (some rsp) = rsp

module _ {U : Type 0} (handle : ℕ → RequestEvent → U → Option ResponseEvent × U) where
  -- Every handler runs, and the last one's response counts.
  unfoldable pub handle_all :
      List ℕ → RequestEvent → Option ResponseEvent → U → Option ResponseEvent × U
  handle_all [] ev rsp users = (rsp, users)
  handle_all (h ∷ hs) ev rsp users =
      let (next, users') = handle h ev users in handle_all hs ev next users'

  unfoldable pub process : RequestEvent → Subscribers → U → Option ResponseEvent × U
  process ev subs users =
      if get_eid ev == 0xff then (none, users) else elim (lookup (get_eid ev) subs) [
        | none ↦ (none, users)
        | some hs ↦ handle_all hs ev none users
      ]

  -- A thread of the pool takes the first task.
  unfoldable pub svc : ℕ → RequestEvent → Service U → Service U
  unfolding process
  svc cs ev s =
      let (rsp, users) = process ev s.subscribers s.users in
      if s.svr_exit
      then s
      else record s { users = users; responses = s.responses ++ ((cs, or_exit rsp) ∷ []) }

  unfoldable pub run_task : Service U → Service U
  run_task s = elim s.tasks [ [] ↦ s | (cs, ev) ∷ tasks ↦ svc cs ev (record s { tasks = tasks }) ]

module _ {U : Type 0} (codec : LegacyCodec) where
  unfoldable pub on_accept : ℕ → Service U → Service U
  on_accept cs s = record s { sessions = insert cs (session_init, []) s.sessions }

  unfoldable pub on_handled : ℕ → Handled RequestEvent → Service U → Service U
  on_handled cs (kept session rest) s = record s { sessions = insert cs (session, rest) s.sessions }
  on_handled cs closed s = record s { sessions = erase cs s.sessions }
  on_handled cs (enqueued session rest ev) s = record s {
    sessions = insert cs (session, rest) s.sessions;
    tasks = s.tasks ++ ((cs, ev) ∷ []);
  }

  unfoldable pub on_readable : ℕ → Bytes → Service U → Service U
  on_readable cs bytes s = elim (lookup cs s.sessions) [
    | none ↦ s
    | some (session, input) ↦
        on_handled cs (handle_request (parse_event codec) session (input ++ bytes)) s
  ]

  -- `handle_error`: the session is freed, whatever uses its address.
  unfoldable pub handle_error : ℕ → Service U → Service U
  handle_error cs s = record s { sessions = erase cs s.sessions }

  -- `AssembleHB` and `send_response_message` of one response. An exit is given as `cs->response`, so
  -- that `send_response_message` writes from a `write_buf` that is null.
  unfoldable pub send_response : ℕ × ResponseEvent → Service U → Service U
  send_response (cs, rsp) s = elim (lookup cs s.sessions) [
    | none ↦ record s { faulted = true }
    | some (session, input) ↦ elim (response_bytes codec rsp) [
      | none ↦ record s { faulted = true }
      | some bytes ↦ record s {
        written = s.written ++ ((cs, bytes) ∷ []);
        sessions = insert cs (session_reset session, input) s.sessions;
      }
    ]
  ]

  unfoldable pub send_all : List (ℕ × ResponseEvent) → Service U → Service U
  send_all [] s = s
  send_all (r ∷ rs) s = send_all rs (send_response r s)

  unfoldable pub handle_all_response_event : Service U → Service U
  unfolding send_all
  handle_all_response_event s = send_all s.responses (record s { responses = [] })
