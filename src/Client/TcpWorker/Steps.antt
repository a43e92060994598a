-- ===== src/Client/TcpWorker/Steps.antt =====
-- What reaches the worker, in any order.
use shared_bike_refactor.Base.{ℕ, List, [], ◌∷◌, if◌then◌else◌, length, ◌==◌}
use shared_bike_refactor.Base.Dict.{Bytes}
use shared_bike_refactor.Client.TcpWorker.{
  TcpWorker, Qt, connect_to_server, send_frame, shutdown, on_connected, on_ready_read, on_error,
  disconnected_slot, on_timer,
}

-- The slots that other threads call, the signals of the socket, and a timer that fires.
pub data WorkerEvent : Type 0 where
  asked_to_connect : Bytes → ℕ → WorkerEvent
  asked_to_send : ℕ → ℕ → Bytes → WorkerEvent
  asked_to_stop : WorkerEvent
  socket_connected socket_ready_read socket_disconnected socket_error : WorkerEvent
  timer_fired : WorkerEvent

module _ {N : Type 0} (qt : Qt N) where
  -- A signal comes from the socket that the worker has, a timer from those that are set.
  unfoldable pub step : TcpWorker N → WorkerEvent → TcpWorker N
  step w (asked_to_connect host port) = connect_to_server qt host port w
  step w (asked_to_send eid seq payload) = send_frame qt eid seq payload w
  step w asked_to_stop = shutdown qt w
  step w socket_connected = if w.sock then on_connected qt w else w
  step w socket_ready_read = if w.sock then on_ready_read qt w else w
  step w socket_disconnected = if w.sock then disconnected_slot qt w else w
  step w socket_error = if w.sock then on_error qt w else w
  step w timer_fired = if length w.timers == 0 then w else on_timer qt w

  unfoldable pub run : TcpWorker N → List WorkerEvent → TcpWorker N
  run w [] = w
  run w (e ∷ es) = run (step w e) es
