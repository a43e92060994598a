-- ===== src/Client/TcpWorker/Validity.antt =====
-- What holds of the worker in every order of calls, signals and timers.
use shared_bike_refactor.Base.{
  ℕ, zero, suc, ◌*◌, ◌≤◌, ◌≡◌, refl, Bool, true, false, List, [], ◌∷◌, ◌++◌, length, drop, All,
  arith, leb, min, length-append, length-drop, Bool-cases, inl, inr, Option-cases, ◌&&◌, ◌||◌, not,
  ◌==◌, ==_iff, if_rule, sym, map,
}
use shared_bike_refactor.Base.Dict.{Bytes}
use shared_bike_refactor.Base.Outcome.{Outcome, ok, throw}
use shared_bike_refactor.Protocol.{encode, event_id, Event}
use shared_bike_refactor.Client.TcpWorker.{
  TcpWorker, Qt, make_worker, append_pending, max_pending_frames, backoff_init_ms, backoff_cap_ms,
  connect_to_server, ensure_socket, send_frame, flush_pending, on_connected, on_disconnected,
  schedule_reconnect, abort_socket, signalled, drop_socket, shutdown, on_ready_read, on_error,
  on_timer, consume_frames, is_unconnected, is_connected, disconnected_slot, frame_ready,
  disconnect_socket, abort_if_used, discard_socket, emit, disconnected, error_occurred,
}
use shared_bike_refactor.Client.TcpWorker.Steps.{
  WorkerEvent, asked_to_connect, asked_to_send, asked_to_stop, socket_connected, socket_ready_read,
  socket_disconnected, socket_error, timer_fired, step, run,
}

-- The bytes of a position report.
abbrev pub IsReport : Bytes → Type 0
IsReport wire =
    (seq : ℕ) × (payload : Bytes) × (encode
        (record { event_id = event_id Event.ride_position_report; seq = seq; payload = payload })
      ≡ ok wire)

-- One timer at most is set, with a delay within the bounds.
abbrev pub IsTimed : Bool → List ℕ → Type 0
IsTimed true (d ∷ []) = (backoff_init_ms ≤ d) × (d ≤ backoff_cap_ms)
IsTimed true _ = ⊥
IsTimed false [] = Unit {0}
IsTimed false _ = ⊥

pub record IsValid {N : Type 0} (w : TcpWorker N) : Type 0 where
  pub backoff_least : backoff_init_ms ≤ w.backoff_ms
  pub backoff_most : w.backoff_ms ≤ backoff_cap_ms
  pub timed : IsTimed w.reconnect_scheduled w.timers
  pub room : length w.pending ≤ max_pending_frames
  pub reports : All IsReport w.pending

-- The fields that validity is about, those that decide on a reconnect among them, are the same.
pub record IsQuiet {N : Type 0} (w w' : TcpWorker N) : Type 0 where
  pub backoff_kept : w'.backoff_ms ≡ w.backoff_ms
  pub scheduled_kept : w'.reconnect_scheduled ≡ w.reconnect_scheduled
  pub timers_kept : w'.timers ≡ w.timers
  pub pending_kept : w'.pending ≡ w.pending
  pub host_kept : w'.host ≡ w.host
  pub shutting_kept : w'.shutting_down ≡ w.shutting_down

module _ {N : Type 0} where
  IsQuiet-IsValid : (w w' : TcpWorker N) → IsQuiet w w' → IsValid w → IsValid w'
  IsQuiet-IsValid w w' q v = ground arith

append_pending-room :
    (ps : List Bytes) (wire : Bytes)
    → length ps ≤ max_pending_frames
    → length (append_pending ps wire) ≤ max_pending_frames
unfolding append_pending
append_pending-room ps wire h = elim (Bool-cases (leb max_pending_frames (length ps))) [
  | inl full ↦ rw full (omega (arith, length-append (drop 1 ps) (wire ∷ []), length-drop 1 ps))
  | inr free ↦ rw free (ground (arith, length-append ps (wire ∷ [])))
]

All-append : (xs ys : List Bytes) → All IsReport xs → All IsReport ys → All IsReport (xs ++ ys)
All-append [] ys a b = b
All-append (x ∷ xs) ys a b = (a.0, All-append xs ys a.1 b)

All-tail : (xs : List Bytes) → All IsReport xs → All IsReport (drop 1 xs)
All-tail [] a = a
All-tail (x ∷ xs) a = a.1

append_pending-IsReport :
    (ps : List Bytes) (wire : Bytes)
    → All IsReport ps
    → IsReport wire
    → All IsReport (append_pending ps wire)
unfolding append_pending
append_pending-IsReport ps wire a r = elim (Bool-cases (leb max_pending_frames (length ps))) [
  | inl full ↦ rw full (All-append (drop 1 ps) (wire ∷ []) (All-tail ps a) (r, tt))
  | inr free ↦ rw free (All-append ps (wire ∷ []) a (r, tt))
]

module _ {N : Type 0} (qt : Qt N) where
  -- A second signal while a reconnect is scheduled changes nothing that matters.
  slot_again :
      (depth : ℕ) (w : TcpWorker N)
      → w.reconnect_scheduled ≡ true
      → IsQuiet w (on_disconnected qt depth w)
  unfolding on_disconnected schedule_reconnect
  slot_again zero w e = ground arith
  slot_again (suc depth) w e = rw e (ground arith)

  pub abort_again :
      (depth : ℕ) (w : TcpWorker N)
      → w.reconnect_scheduled ≡ true
      → IsQuiet w (abort_socket qt (on_disconnected qt depth) w)
  unfolding abort_socket signalled
  abort_again depth w e = ground (arith, slot_again depth (record w { net = (qt.abort w.net).1 }))

  armed :
      (w w' : TcpWorker N)
      → IsValid w
      → w.reconnect_scheduled ≡ false
      → IsQuiet (record w { reconnect_scheduled = true }) w'
      → IsValid (record w' {
        timers = w'.timers ++ (w'.backoff_ms ∷ []);
        backoff_ms = min (w'.backoff_ms * 2) backoff_cap_ms;
      })
  armed w w' v e q = ground arith

  schedule_reconnect-IsValid :
      (depth : ℕ) (w : TcpWorker N)
      → IsValid w
      → IsValid (schedule_reconnect qt (on_disconnected qt depth) w)
  unfolding schedule_reconnect
  schedule_reconnect-IsValid depth w v =
      if_rule IsValid (w.shutting_down || (length w.host == 0)) _ _ (λ _. v)
        λ _.
          if_rule IsValid w.reconnect_scheduled _ _ (λ _. v)
            λ free.
              let w1 = record w { reconnect_scheduled = true } in
              armed w _ v free (
                if_rule (IsQuiet w1) w.sock _ w1 (λ _. abort_again depth w1 refl)
                  (λ _. ground arith))

  on_disconnected-IsValid :
      (depth : ℕ) (w : TcpWorker N) → IsValid w → IsValid (on_disconnected qt depth w)
  unfolding on_disconnected
  on_disconnected-IsValid zero w v = v
  on_disconnected-IsValid (suc depth) w v =
      schedule_reconnect-IsValid depth
        (emit disconnected (record w { connecting = false; rx = [] })) (ground arith)

  signalled-IsValid :
      (gone : Bool) (w : TcpWorker N)
      → IsValid w
      → IsValid (signalled (disconnected_slot qt) gone w)
  unfolding signalled
  signalled-IsValid true w v = on_disconnected-IsValid 2 w v
  signalled-IsValid false w v = v

  abort_socket-IsValid :
      (w : TcpWorker N) → IsValid w → IsValid (abort_socket qt (disconnected_slot qt) w)
  unfolding abort_socket
  abort_socket-IsValid w v =
      signalled-IsValid (qt.abort w.net).0 (record w { net = (qt.abort w.net).1 }) (ground arith)

  drop_socket-IsValid : (w : TcpWorker N) → IsValid w → IsValid (drop_socket qt w)
  unfolding drop_socket
  drop_socket-IsValid w v =
      if_rule IsValid (not w.sock) _ _ (λ _. v)
        λ _. discarded _ (aborted _ (disconnected_first w v))
    where
      disconnected_first :
          (w : TcpWorker N) → IsValid w → IsValid (disconnect_socket qt (disconnected_slot qt) w)
      disconnected_first w v =
          unfold disconnect_socket in
          signalled-IsValid (qt.disconnect_from_host w.net).0
            (record w { net = (qt.disconnect_from_host w.net).1 }) (ground arith)

      aborted : (w : TcpWorker N) → IsValid w → IsValid (abort_if_used qt (disconnected_slot qt) w)
      aborted w v =
          unfold abort_if_used in if_rule IsValid _ _ _ (λ _. abort_socket-IsValid w v) (λ _. v)

      discarded : (w : TcpWorker N) → IsValid w → IsValid (discard_socket qt w)
      discarded w v = unfold discard_socket in ground arith

  ensure_socket-IsValid : (w : TcpWorker N) → IsValid w → IsValid (ensure_socket qt w)
  unfolding ensure_socket
  ensure_socket-IsValid w v = ground arith

  dialled :
      (w : TcpWorker N) (host : Bytes) (port : ℕ)
      → IsValid w
      → IsValid (record w { connecting = true; net = qt.connect_to_host host port w.net })
  dialled w host port v = ground arith

  redialled :
      (w : TcpWorker N)
      → IsValid w
      → IsValid (record w { net = qt.connect_to_host w.host w.port w.net })
  redialled w v = ground arith

  connect_to_server-IsValid :
      (host : Bytes) (port : ℕ) (w : TcpWorker N)
      → IsValid w
      → IsValid (connect_to_server qt host port w)
  unfolding connect_to_server
  connect_to_server-IsValid host port w v =
      if_rule IsValid w.shutting_down _ _ (λ _. v)
        λ _.
          let w1 = record w { host = host; port = port } in
          let v1 : IsValid w1 = ground arith in
          if_rule IsValid (w.connecting || (w.sock && not (is_unconnected (qt.socket_state w.net))))
            w1 _ (λ _. v1)
            (λ _. dialled (ensure_socket qt w1) host port (ensure_socket-IsValid w1 v1))

  send_frame-IsValid :
      (eid seq : ℕ) (payload : Bytes) (w : TcpWorker N)
      → IsValid w
      → IsValid (send_frame qt eid seq payload w)
  unfolding send_frame
  send_frame-IsValid eid seq payload w v =
      go (encode (record { event_id = eid; seq = seq; payload = payload })) refl
    where
      go :
          (o : Outcome Bytes)
          → encode (record { event_id = eid; seq = seq; payload = payload }) ≡ o
          → IsValid (send_frame qt eid seq payload w)
      go (throw e) h = rw (h, send_frame) (ground arith)
      go (ok wire) h =
          rw (h, send_frame)
            (if_rule IsValid (w.sock && is_connected (qt.socket_state w.net))
              (record w { net = qt.write wire w.net }) _ (λ _. ground arith)
              λ _.
                if_rule IsValid (not (eid == event_id Event.ride_position_report)) _ _ (λ _. v)
                  λ report. record {
                    backoff_least = v.backoff_least;
                    backoff_most = v.backoff_most;
                    timed = v.timed;
                    room = append_pending-room w.pending wire v.room;
                    reports =
                        append_pending-IsReport w.pending wire v.reports
                          (seq, payload, rw (sym ((==_iff eid 0x15).0 (ground arith))) h);
                  })

  on_connected-IsValid : (w : TcpWorker N) → IsValid w → IsValid (on_connected qt w)
  unfolding on_connected flush_pending
  on_connected-IsValid w v = ground arith

  on_ready_read-IsValid : (w : TcpWorker N) → IsValid w → IsValid (on_ready_read qt w)
  unfolding on_ready_read
  on_ready_read-IsValid w v =
      let read = qt.read_all w.net in
      elim (Option-cases (consume_frames (w.rx ++ read.0))) [
        | inl e ↦ rw (e, on_ready_read) v
        | inr ((sound, rest, frames), e) ↦
            rw (e, on_ready_read)
              (let w1 = record w {
                net = read.1;
                rx = rest;
                emitted = w.emitted ++ map frame_ready frames;
              } in
                if_rule IsValid sound w1 _ (λ _. ground arith)
                  λ _.
                    on_disconnected-IsValid 2 _
                      (drop_socket-IsValid (emit error_occurred w1) (ground arith)))
      ]

  on_error-IsValid : (w : TcpWorker N) → IsValid w → IsValid (on_error qt w)
  unfolding on_error
  on_error-IsValid w v =
      let w1 = emit error_occurred w in
      if_rule IsValid
        (w.connecting
          && (not w.shutting_down && (w.sock && is_unconnected (qt.socket_state w.net))))
        _ w1 (λ _. schedule_reconnect-IsValid 2 (record w1 { connecting = false }) (ground arith))
        (λ _. ground arith)

  on_timer-IsValid : (w : TcpWorker N) → IsValid w → IsValid (on_timer qt w)
  unfolding on_timer
  on_timer-IsValid w v =
      let w1 = record w { reconnect_scheduled = false; timers = drop 1 w.timers } in
      let v1 : IsValid w1 = ground arith in
      if_rule IsValid w.shutting_down _ _ (λ _. v1)
        λ _.
          let w2 = ensure_socket qt (record w1 { connecting = true }) in
          redialled w2 (ensure_socket-IsValid (record w1 { connecting = true }) (ground arith))

  step-IsValid : (w : TcpWorker N) (e : WorkerEvent) → IsValid w → IsValid (step qt w e)
  unfolding step
  step-IsValid w (asked_to_connect host port) v = connect_to_server-IsValid host port w v
  step-IsValid w (asked_to_send eid seq payload) v = send_frame-IsValid eid seq payload w v
  step-IsValid w asked_to_stop v = unfold shutdown in drop_socket-IsValid _ (ground arith)
  step-IsValid w socket_connected v = if_rule IsValid _ _ _ (λ _. on_connected-IsValid w v) (λ _. v)
  step-IsValid w socket_ready_read v =
      if_rule IsValid _ _ _ (λ _. on_ready_read-IsValid w v) (λ _. v)
  step-IsValid w socket_disconnected v =
      if_rule IsValid _ _ _ (λ _. on_disconnected-IsValid 2 w v) (λ _. v)
  step-IsValid w socket_error v = if_rule IsValid _ _ _ (λ _. on_error-IsValid w v) (λ _. v)
  step-IsValid w timer_fired v = if_rule IsValid _ _ _ (λ _. v) (λ _. on_timer-IsValid w v)

  run-IsValid : (w : TcpWorker N) (es : List WorkerEvent) → IsValid w → IsValid (run qt w es)
  unfolding run
  run-IsValid w [] v = v
  run-IsValid w (e ∷ es) v = run-IsValid (step qt w e) es (step-IsValid w e v)

  -- In every order of calls, signals and timers one reconnect timer at most is set, exactly when the
  -- worker says so; its delay and the next one are from half a second to ten seconds; and at most 128
  -- frames wait for the connection, each a position report.
  pub run-make_worker-IsValid :
      (net : N) (es : List WorkerEvent) → IsValid (run qt (make_worker net) es)
  unfolding make_worker
  run-make_worker-IsValid net es = run-IsValid (make_worker net) es (omega arith)
