-- ===== src/Client/TcpWorker/Tests.antt =====
-- A network of a test: its state is the socket's state and the reads that are still to come.
use shared_bike_refactor.Base.{◌^◌, ◌≡◌, refl, true, List, [], ◌∷◌, ◌++◌, arith, min, ◌*◌, some}
use shared_bike_refactor.Base.Dict.{Bytes}
use shared_bike_refactor.Base.Outcome.{ok}
use shared_bike_refactor.Protocol.{Frame, encode}
use shared_bike_refactor.Protocol.Prefix.{empty_needs_more}
use shared_bike_refactor.Gateway.FrameCut.{CutResult, cut_frames}
use shared_bike_refactor.Gateway.FrameCut.Encodings.{encode_all}
use shared_bike_refactor.Client.TcpWorker.{
  TcpWorker, Qt, unconnected_state, make_worker, shutdown, consume_frames, frame_ready,
  backoff_cap_ms, on_disconnected, schedule_reconnect, connect_to_server, on_error,
}
use shared_bike_refactor.Client.TcpWorker.Frames.{consumed_of, consume_frames-cut_frames}
use shared_bike_refactor.Client.TcpWorker.Steps.{
  asked_to_connect, asked_to_send, socket_error, timer_fired, step, run,
}
use shared_bike_refactor.Client.TcpWorker.Reads.{readings, run-encode_all}
use shared_bike_refactor.Client.TcpWorker.Validity.{IsValid, run-make_worker-IsValid}
use shared_bike_refactor.Client.TcpWorker.Shutdown.{
  IsStopped, IsWaiting, IsDown, failures, run-shutdown, run-failures,
}

abbrev next_read : List Bytes → Bytes
next_read [] = []
next_read (b ∷ bs) = b

abbrev later_reads : List Bytes → List Bytes
later_reads [] = []
later_reads (b ∷ bs) = bs

-- Every attempt fails at once.
abbrev dead_net : Qt (List Bytes)
dead_net = record {
  new_socket = λ n. n;
  socket_state = λ n. unconnected_state;
  connect_to_host = λ h p n. n;
  write = λ b n. n;
  read_all = λ n. (next_read n, later_reads n);
  disconnect_from_host = λ n. (true, n);
  abort = λ n. (true, n);
  delete_later = λ n. n;
}

abbrev first : Frame
first = record { event_id = 2; seq = 1; payload = [] }

abbrev first_sent : Bytes
first_sent = b'F' ∷ b'B' ∷ b'E' ∷ b'B' ∷ 2 ∷ 0 ∷ 1 ∷ 0 ∷ 0 ∷ 0 ∷ 0 ∷ 0 ∷ 0 ∷ 0 ∷ []

first_encoded : encode_all (first ∷ []) ≡ ok first_sent
unfolding encode_all encode
first_encoded = refl

abbrev fresh : TcpWorker (List Bytes)
fresh =
    make_worker
      ((b'F' ∷ b'B' ∷ []) ∷ (b'E' ∷ b'B' ∷ 2 ∷ 0 ∷ 1 ∷ 0 ∷ 0 ∷ 0 ∷ 0 ∷ 0 ∷ 0 ∷ 0 ∷ []) ∷ [])

-- A worker that has connected, lost the connection and waits.
abbrev waiting : TcpWorker (List Bytes)
waiting = run dead_net fresh (asked_to_connect (b'h' ∷ []) 9000 ∷ socket_error ∷ [])

waiting-IsWaiting : IsWaiting waiting
unfolding make_worker run step schedule_reconnect connect_to_server on_error on_disconnected
waiting-IsWaiting = record {
  running = refl;
  host_known = omega arith;
  scheduled = refl;
  one_timer = refl;
}

-- The abort signals `disconnected` again: one timer all the same, and the next delay is doubled.
waiting_timers : (waiting.timers ≡ 500 ∷ []) × (waiting.backoff_ms ≡ 1000)
unfolding make_worker run step schedule_reconnect connect_to_server on_error on_disconnected
waiting_timers = (refl, refl)

consume_frames-cut_frames_example :
    (r : CutResult × List Frame) × (cut_frames (first_sent ++ (1 ∷ [])) [] ≡ some r)
    × (consume_frames (first_sent ++ (1 ∷ [])) ≡ some (consumed_of r))
consume_frames-cut_frames_example = consume_frames-cut_frames (first_sent ++ (1 ∷ []))

run-encode_all_example :
    let w = record fresh { sock = true } in
    ((run dead_net w (readings 2)).emitted ≡ frame_ready first ∷ [])
    × ((run dead_net w (readings 2)).rx ≡ [])
unfolding make_worker
run-encode_all_example =
    run-encode_all dead_net 2 (record fresh { sock = true }) (first ∷ []) first_sent [] refl refl
      (record { event_fits = omega arith; seq_fits = omega arith }, tt) first_encoded
      empty_needs_more refl

run-make_worker-IsValid_example : IsValid (
    run dead_net fresh
      (asked_to_connect (b'h' ∷ []) 9000 ∷ socket_error ∷ asked_to_send 21 1 [] ∷ timer_fired ∷ []))
run-make_worker-IsValid_example =
    run-make_worker-IsValid dead_net _
      (asked_to_connect (b'h' ∷ []) 9000 ∷ socket_error ∷ asked_to_send 21 1 [] ∷ timer_fired ∷ [])

run-shutdown_example :
    IsStopped (run dead_net (shutdown dead_net waiting) (timer_fired ∷ asked_to_connect [] 1 ∷ []))
    × ((run dead_net (shutdown dead_net waiting) (timer_fired ∷ asked_to_connect [] 1 ∷ [])).net
        ≡ (shutdown dead_net waiting).net)
run-shutdown_example = run-shutdown dead_net waiting (timer_fired ∷ asked_to_connect [] 1 ∷ [])

abbrev Anywhere : List Bytes → Type 0
Anywhere n = Unit

dead_net-IsDown : IsDown dead_net Anywhere
dead_net-IsDown = record {
  made = λ n d. tt;
  fails = λ host port n d. refl;
  stays = λ host port n d. tt;
}

run-failures_example :
    IsWaiting (run dead_net waiting (failures 6))
    × ((run dead_net waiting (failures 6)).timers
        ≡ min (waiting.backoff_ms * 2 ^ 5) backoff_cap_ms ∷ [])
    × ((run dead_net waiting (failures 6)).backoff_ms
        ≡ min (waiting.backoff_ms * 2 ^ 6) backoff_cap_ms)
run-failures_example =
    run-failures dead_net Anywhere dead_net-IsDown waiting 5 (omega (arith, waiting_timers.1))
      waiting-IsWaiting tt
