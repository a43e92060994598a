-- ===== src/Client/TcpWorker.antt =====
-- client/src/net/tcp_worker.cpp and tcp_worker.hpp: the long connection of the client. The socket and the
-- timers are Qt's, the parameter `Qt` on the state `N` of the network. What the worker emits is added to a
-- list; the texts that go with it are left out.
pub mod Frames
pub mod Steps
pub mod Reads
pub mod Validity
pub mod Shutdown
mod Tests
use shared_bike_refactor.Base.{
  ℕ, zero, suc, ◌+◌, ◌*◌, Bool, true, false, not, ◌&&◌, ◌||◌, Option, none, some, List, [], ◌∷◌,
  ◌++◌, length, drop, leb, ◌==◌, if◌then◌else◌, min, map,
}
use shared_bike_refactor.Base.Dict.{Bytes}
use shared_bike_refactor.Base.Outcome.{ok, throw}
use shared_bike_refactor.Protocol.{
  Frame, encode, decode_frame, need_more, bad_frame, decoded, event_id, Event,
}

-- The frames go to `on_frame` in the order of the list; `none` is a loop that ran out of fuel.
unfoldable pub consume_loop : ℕ → Bytes → List Frame → Option (Bool × Bytes × List Frame)
consume_loop zero buf seen = none
consume_loop (suc fuel) buf seen =
    let out = decode_frame buf in
    elim out.status [
      | need_more ↦ some (true, buf, seen)
      | bad_frame ↦ some (false, buf, seen)
      | decoded ↦ consume_loop fuel (drop out.consumed buf) (seen ++ (out.frame ∷ []))
    ]

-- A frame has a header at least, so a round for each byte and one more are enough.
unfoldable pub consume_frames : Bytes → Option (Bool × Bytes × List Frame)
consume_frames buf = consume_loop (length buf + 1) buf []

-- `QAbstractSocket::SocketState`
pub data SocketState : Type 0 where
  unconnected_state host_lookup_state connecting_state connected_state bound_state : SocketState
  closing_state listening_state : SocketState

abbrev pub is_unconnected : SocketState → Bool
is_unconnected unconnected_state = true
is_unconnected _ = false

abbrev pub is_connected : SocketState → Bool
is_connected connected_state = true
is_connected _ = false

-- The calls of Qt. The two that close a socket also say if they signal `disconnected` meanwhile.
pub record Qt (N : Type 0) : Type 0 where
  pub new_socket : N → N
  pub socket_state : N → SocketState
  pub connect_to_host : Bytes → ℕ → N → N
  pub write : Bytes → N → N
  pub read_all : N → Bytes × N
  pub disconnect_from_host : N → Bool × N
  pub abort : N → Bool × N
  pub delete_later : N → N

pub data WorkerSignal : Type 0 where
  connected disconnected error_occurred : WorkerSignal
  frame_ready : Frame → WorkerSignal

-- `timers` are the delays of the single-shot timers that have not fired.
pub record TcpWorker (N : Type 0) : Type 0 where
  pub host : Bytes
  pub port : ℕ
  pub shutting_down : Bool
  pub connecting : Bool
  pub reconnect_scheduled : Bool
  pub backoff_ms : ℕ
  pub sock : Bool
  pub rx : Bytes
  pub pending : List Bytes
  pub timers : List ℕ
  pub emitted : List WorkerSignal
  pub net : N

abbrev pub max_pending_frames : ℕ
max_pending_frames = 128

abbrev pub backoff_init_ms : ℕ
backoff_init_ms = 500

abbrev pub backoff_cap_ms : ℕ
backoff_cap_ms = 10000

-- `if (pending_.size() >= kMaxPendingFrames) pending_.removeFirst(); pending_.append(wire);`
unfoldable pub append_pending : List Bytes → Bytes → List Bytes
append_pending pending wire =
    (if leb max_pending_frames (length pending) then drop 1 pending else pending) ++ (wire ∷ [])

abbrev is_empty : Bytes → Bool
is_empty bs = length bs == 0

module _ {N : Type 0} where
  abbrev pub emit : WorkerSignal → TcpWorker N → TcpWorker N
  emit s w = record w { emitted = w.emitted ++ (s ∷ []) }

  unfoldable pub make_worker : N → TcpWorker N
  make_worker net = record {
    host = [];
    port = 0;
    shutting_down = false;
    connecting = false;
    reconnect_scheduled = false;
    backoff_ms = backoff_init_ms;
    sock = false;
    rx = [];
    pending = [];
    timers = [];
    emitted = [];
    net = net;
  }

  -- The slot that is connected to `disconnected` runs within the call that signals it.
  unfoldable pub signalled : (TcpWorker N → TcpWorker N) → Bool → TcpWorker N → TcpWorker N
  signalled slot gone w = if gone then slot w else w

module _ {N : Type 0} (qt : Qt N) where
  unfoldable pub ensure_socket : TcpWorker N → TcpWorker N
  ensure_socket w = if w.sock then w else record w { sock = true; net = qt.new_socket w.net }

  unfoldable pub connect_to_server : Bytes → ℕ → TcpWorker N → TcpWorker N
  unfolding ensure_socket
  connect_to_server host port w =
      if w.shutting_down
      then w
      else let w1 = record w { host = host; port = port } in
        if w.connecting || (w.sock && not (is_unconnected (qt.socket_state w.net)))
        then w1
        else let w2 = ensure_socket w1 in
          record w2 { connecting = true; net = qt.connect_to_host host port w2.net }

  unfoldable pub send_frame : ℕ → ℕ → Bytes → TcpWorker N → TcpWorker N
  send_frame eid seq payload w =
      elim (encode (record { event_id = eid; seq = seq; payload = payload })) [
        | throw e ↦ emit error_occurred w
        | ok wire ↦
            if w.sock && is_connected (qt.socket_state w.net)
            then record w { net = qt.write wire w.net }
            else if not (eid == event_id Event.ride_position_report)
            then w
            else record w { pending = append_pending w.pending wire }
      ]

  pub write_all : List Bytes → N → N
  write_all [] net = net
  write_all (wire ∷ wires) net = write_all wires (qt.write wire net)

  unfoldable pub flush_pending : TcpWorker N → TcpWorker N
  flush_pending w =
      if not w.sock || (length w.pending == 0)
      then w
      else record w { net = write_all w.pending w.net; pending = [] }

  unfoldable pub on_connected : TcpWorker N → TcpWorker N
  unfolding flush_pending
  on_connected w =
      emit connected
        (flush_pending (record w { connecting = false; backoff_ms = backoff_init_ms; rx = [] }))

  unfoldable pub abort_socket : (TcpWorker N → TcpWorker N) → TcpWorker N → TcpWorker N
  unfolding signalled
  abort_socket slot w =
      let (gone, net) = qt.abort w.net in signalled slot gone (record w { net = net })

  unfoldable pub schedule_reconnect : (TcpWorker N → TcpWorker N) → TcpWorker N → TcpWorker N
  unfolding abort_socket
  schedule_reconnect slot w =
      if w.shutting_down || is_empty w.host
      then w
      else if w.reconnect_scheduled
      then w
      else let w1 = record w { reconnect_scheduled = true } in
        let w2 = if w.sock then abort_socket slot w1 else w1 in
        record w2 {
          timers = w2.timers ++ (w2.backoff_ms ∷ []);
          backoff_ms = min (w2.backoff_ms * 2) backoff_cap_ms;
        }

  -- The slot may be signalled again while it runs, by the abort in `schedule_reconnect`: the number
  -- bounds how deep.
  unfoldable pub on_disconnected : ℕ → TcpWorker N → TcpWorker N
  unfolding schedule_reconnect
  on_disconnected zero w = w
  on_disconnected (suc depth) w =
      schedule_reconnect (on_disconnected depth)
        (emit disconnected (record w { connecting = false; rx = [] }))

  -- The abort finds a reconnect scheduled, so it is deep enough.
  abbrev pub disconnected_slot : TcpWorker N → TcpWorker N
  disconnected_slot = on_disconnected 2

  unfoldable pub disconnect_socket : (TcpWorker N → TcpWorker N) → TcpWorker N → TcpWorker N
  unfolding signalled
  disconnect_socket slot w =
      let (gone, net) = qt.disconnect_from_host w.net in
      signalled slot gone (record w { net = net })

  unfoldable pub abort_if_used : (TcpWorker N → TcpWorker N) → TcpWorker N → TcpWorker N
  abort_if_used slot w =
      if not (is_unconnected (qt.socket_state w.net)) then abort_socket slot w else w

  unfoldable pub discard_socket : TcpWorker N → TcpWorker N
  discard_socket w = record w { sock = false; net = qt.delete_later w.net }

  unfoldable pub drop_socket : TcpWorker N → TcpWorker N
  drop_socket w =
      if not w.sock
      then w
      else discard_socket (abort_if_used disconnected_slot (disconnect_socket disconnected_slot w))

  unfoldable pub shutdown : TcpWorker N → TcpWorker N
  shutdown w = drop_socket (record w { shutting_down = true; pending = [] })

  unfoldable pub on_ready_read : TcpWorker N → TcpWorker N
  on_ready_read w =
      let (bytes, net) = qt.read_all w.net in
      elim (consume_frames (w.rx ++ bytes)) [
        | none ↦ w
        | some (sound, rest, frames) ↦
            let w1 = record w {
              net = net;
              rx = rest;
              emitted = w.emitted ++ map frame_ready frames;
            } in
            if sound then w1 else disconnected_slot (drop_socket (emit error_occurred w1))
      ]

  -- The lambda on `errorOccurred`.
  unfoldable pub on_error : TcpWorker N → TcpWorker N
  on_error w =
      let w1 = emit error_occurred w in
      if w.connecting && (not w.shutting_down && (w.sock && is_unconnected (qt.socket_state w.net)))
      then schedule_reconnect disconnected_slot (record w1 { connecting = false })
      else w1

  -- The lambda of the timer.
  unfoldable pub on_timer : TcpWorker N → TcpWorker N
  unfolding ensure_socket
  on_timer w =
      let w1 = record w { reconnect_scheduled = false; timers = drop 1 w.timers } in
      if w.shutting_down
      then w1
      else let w2 = ensure_socket (record w1 { connecting = true }) in
        record w2 { net = qt.connect_to_host w2.host w2.port w2.net }
