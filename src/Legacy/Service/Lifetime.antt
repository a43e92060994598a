-- ===== src/Legacy/Service/Lifetime.antt =====
-- A session against the responses that are on their way to it.
use shared_bike_refactor.Base.{
  ℕ, ◌^◌, ◌≤◌, ◌<◌, ◌≡◌, refl, ap, ap₂, ◌∙◌, true, false, Option, none, some, List, [], ◌∷◌, ◌++◌,
  length, arith, inl, inr, Option-cases,
}
use shared_bike_refactor.Base.Dict.{
  Bytes, lookup, insert, nat_key, lookup-insert, lookup-insert_self, lookup-erase_self,
}
use shared_bike_refactor.Protocol.{max_message_len}
use shared_bike_refactor.Legacy.Events.{RequestEvent, ResponseEvent}
use shared_bike_refactor.Legacy.NetworkInterface.{
  ConnectSession, enqueued, session_reset, handle_request, assemble_hb, ss_request, ms_read_header,
}
use shared_bike_refactor.Legacy.NetworkInterface.Stages.{in_header}
use shared_bike_refactor.Legacy.NetworkInterface.Reading.{handle_end}
use shared_bike_refactor.Legacy.Service.{
  LegacyCodec, Service, parse_event, response_bytes, process, or_exit, svc, run_task, on_handled,
  on_readable, handle_error, send_response, send_all, handle_all_response_event,
}

module _ {U : Type 0} (codec : LegacyCodec) where
  -- No response makes a session that is not there.
  gone_stays :
      (cs : ℕ) (r : ℕ × ResponseEvent) (s : Service U)
      → lookup cs s.sessions ≡ none
      → lookup cs (send_response codec r s).sessions ≡ none
  unfolding send_response
  gone_stays cs (k, rsp) s gone = elim (Option-cases (lookup k s.sessions)) [
    | inl e ↦ rw (e, send_response) gone
    | inr ((session, input), e) ↦ elim (Option-cases (response_bytes codec rsp)) [
      | inl f ↦ rw (e, f, send_response) gone
      | inr (bytes, f) ↦
          rw (e, f, send_response)
            (ground (
              arith,
              lookup-insert k cs (session_reset session, input) s.sessions,
              nat_key.beq_iff k cs,
            ))
    ]
  ]

  fault_stays :
      (r : ℕ × ResponseEvent) (s : Service U)
      → s.faulted ≡ true
      → (send_response codec r s).faulted ≡ true
  unfolding send_response
  fault_stays (k, rsp) s bad = ground arith

  send_all_faulted :
      (rs : List (ℕ × ResponseEvent)) (s : Service U)
      → s.faulted ≡ true
      → (send_all codec rs s).faulted ≡ true
  unfolding send_all
  send_all_faulted [] s bad = bad
  send_all_faulted (r ∷ rs) s bad =
      send_all_faulted rs (send_response codec r s) (fault_stays r s bad)

  send_to_gone :
      (cs : ℕ) (rsp : ResponseEvent) (s : Service U)
      → lookup cs s.sessions ≡ none
      → (send_response codec (cs, rsp) s).faulted ≡ true
  unfolding send_response
  send_to_gone cs rsp s gone = rw (gone, send_response)

  gone_faults :
      (rs : List (ℕ × ResponseEvent)) (cs : ℕ) (rsp : ResponseEvent) (s : Service U)
      → lookup cs s.sessions ≡ none
      → (send_all codec (rs ++ ((cs, rsp) ∷ [])) s).faulted ≡ true
  unfolding send_all
  gone_faults [] cs rsp s gone = send_to_gone cs rsp s gone
  gone_faults (r ∷ rs) cs rsp s gone =
      gone_faults rs cs rsp (send_response codec r s) (gone_stays cs r s gone)

  send_response_lem :
      (cs : ℕ) (rsp : ResponseEvent) (s : Service U) (session : ConnectSession RequestEvent)
      (input bytes : Bytes)
      → lookup cs s.sessions ≡ some (session, input)
      → response_bytes codec rsp ≡ some bytes
      → send_response codec (cs, rsp) s ≡ record s {
        written = s.written ++ ((cs, bytes) ∷ []);
        sessions = insert cs (session_reset session, input) s.sessions;
      }
  unfolding send_response
  send_response_lem cs rsp s session input bytes there encoded =
      rw (there, encoded, send_response) refl

  one_response :
      (cs : ℕ) (rsp : ResponseEvent) (s : Service U) (session : ConnectSession RequestEvent)
      (input bytes : Bytes)
      → s.responses ≡ (cs, rsp) ∷ []
      → lookup cs s.sessions ≡ some (session, input)
      → response_bytes codec rsp ≡ some bytes
      → handle_all_response_event codec s ≡ record s {
        responses = [];
        written = s.written ++ ((cs, bytes) ∷ []);
        sessions = insert cs (session_reset session, input) s.sessions;
      }
  unfolding handle_all_response_event send_all
  one_response cs rsp s session input bytes waits there encoded =
      ap (λ rs. send_all codec rs (record s { responses = [] })) waits
      ∙ send_response_lem cs rsp (record s { responses = [] }) session input bytes there encoded

  on_readable_lem :
      (cs : ℕ) (bytes : Bytes) (s : Service U) (session session' : ConnectSession RequestEvent)
      (ev : RequestEvent)
      → lookup cs s.sessions ≡ some (session, [])
      → handle_request (parse_event codec) session bytes ≡ enqueued session' [] ev
      → on_readable codec cs bytes s ≡ record s {
        sessions = insert cs (session', []) s.sessions;
        tasks = s.tasks ++ ((cs, ev) ∷ []);
      }
  unfolding on_readable on_handled
  on_readable_lem cs bytes s session session' ev there done = rw (there, done, on_readable) refl

module _ {U : Type 0} (handle : ℕ → RequestEvent → U → Option ResponseEvent × U) where
  run_task_lem :
      (s : Service U) (cs : ℕ) (ev : RequestEvent) (tasks : List (ℕ × RequestEvent))
      → s.svr_exit ≡ false
      → s.tasks ≡ (cs, ev) ∷ tasks
      → let out = process handle ev s.subscribers s.users in
        run_task handle s ≡ record s {
          tasks = tasks;
          users = out.1;
          responses = s.responses ++ ((cs, or_exit out.0) ∷ []);
        }
  unfolding run_task svc
  run_task_lem s cs ev tasks on next = rw (next, on, run_task) refl

module _ {U : Type 0} (codec : LegacyCodec)
    (handle : ℕ → RequestEvent → U → Option ResponseEvent × U) where
  -- When a connection ends, by an error, a timeout or the client, while its event is the next task, then
  -- the response is sent to the session that was freed, whatever else is waiting.
  pub handle_error-handle_all_response_event :
      (s : Service U) (cs : ℕ) (ev : RequestEvent) (tasks : List (ℕ × RequestEvent))
      → s.svr_exit ≡ false
      → s.tasks ≡ (cs, ev) ∷ tasks
      → (handle_all_response_event codec (run_task handle (handle_error codec cs s))).faulted ≡ true
  unfolding handle_all_response_event handle_error
  handle_error-handle_all_response_event s cs ev tasks on next =
      rw (run_task_lem handle (handle_error codec cs s) cs ev tasks on next) (
        gone_faults codec s.responses cs (or_exit (process handle ev s.subscribers s.users).0) _
          (lookup-erase_self cs s.sessions))

  -- A request that comes while nothing else is on its way is answered to the connection that sent it,
  -- with the bytes of the handler's response, and the session then waits for the next request.
  pub on_readable-handle_all_response_event :
      (s : Service U) (cs eid : ℕ) (payload bytes : Bytes) (session : ConnectSession RequestEvent)
      (ev : RequestEvent) (rsp : ResponseEvent)
      → eid < 2 ^ 16
      → 0 < length payload
      → length payload ≤ max_message_len
      → session.session_stat ≡ ss_request
      → session.req_stat ≡ ms_read_header
      → session.header ≡ []
      → lookup cs s.sessions ≡ some (session, [])
      → s.svr_exit ≡ false
      → s.tasks ≡ []
      → s.responses ≡ []
      → parse_event codec payload eid ≡ some ev
      → (process handle ev s.subscribers s.users).0 ≡ some rsp
      → response_bytes codec rsp ≡ some bytes
      → let t =
          handle_all_response_event codec
            (run_task handle (on_readable codec cs (assemble_hb eid payload) s)) in
        (t.written ≡ s.written ++ ((cs, bytes) ∷ []))
        × (t.faulted ≡ s.faulted)
        × ((session' : ConnectSession RequestEvent) × (lookup cs t.sessions
              ≡ some (session_reset session', [])))
  unfolding assemble_hb
  on_readable-handle_all_response_event s cs eid payload bytes session ev rsp fits some_payload
        small stat req fresh there on idle quiet parsed handled encoded =
      let (session', done, waits, asked) =
        handle_end (parse_event codec) eid payload fits some_payload small session []
          (assemble_hb eid payload) ev (in_header (omega arith) stat req fresh) (omega arith) refl
          parsed in
      let s1 = record s {
        sessions = insert cs (session', []) s.sessions;
        tasks = s.tasks ++ ((cs, ev) ∷ []);
      } in
      let out = process handle ev s.subscribers s.users in
      let s2 = record s1 {
        tasks = [];
        users = out.1;
        responses = s.responses ++ ((cs, or_exit out.0) ∷ []);
      } in
      let ran : run_task handle (on_readable codec cs (assemble_hb eid payload) s) ≡ s2 =
        ap (run_task handle)
          (on_readable_lem codec cs (assemble_hb eid payload) s session session' ev there done)
        ∙ run_task_lem handle s1 cs ev [] on (ap (λ ts. ts ++ ((cs, ev) ∷ [])) idle) in
      rw
        (
          ran,
          one_response codec cs rsp s2 session' [] bytes
              (ap₂ (λ rs o. rs ++ ((cs, or_exit o) ∷ [])) quiet handled)
              (lookup-insert_self cs (session', []) s.sessions) encoded,
        )
        (refl, refl, (session', lookup-insert_self cs (session_reset session', []) s1.sessions))
