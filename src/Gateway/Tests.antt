-- ===== src/Gateway/Tests.antt =====
-- A sink that echoes the payload of each request, and a queue of two blocks.
use shared_bike_refactor.Base.{ℕ, ◌≡◌, refl, ◌⊎◌, false, some, List, [], ◌∷◌, length, drop}
use shared_bike_refactor.Base.Dict.{Bytes}
use shared_bike_refactor.Base.Int.{pos}
use shared_bike_refactor.Base.Outcome.{Outcome, ok}
use shared_bike_refactor.Gateway.Connection.{Connection, send_pop, make_connection}
use shared_bike_refactor.Gateway.Connection.Backlog.{stream, send_pop-stream}
use shared_bike_refactor.Gateway.FrameCut.Cuts.{Cut}
use shared_bike_refactor.Gateway.WorkerBatch.{
  Request, OutboxItem, OutboxQueue, push, item, close, rearm_recv, worker_batch,
}
use shared_bike_refactor.Gateway.WorkerBatch.Outcomes.{answered, worker_batch_ends}

abbrev echo : Request → ℕ → Outcome Bytes × ℕ
echo req n = (ok req.payload, n)

abbrev raw : Bytes
raw = b'F' ∷ b'B' ∷ b'E' ∷ b'B' ∷ 1 ∷ 0 ∷ 1 ∷ 0 ∷ 0 ∷ 0 ∷ 1 ∷ 0 ∷ 0 ∷ 0 ∷ 9 ∷ b'F' ∷ b'B' ∷ []

abbrev outbox : OutboxQueue
outbox = record { q = [] }

worker_batch_ends_example :
    (c : Cut raw) × (s' : ℕ) × (rs : List Bytes) × (last : OutboxItem) × (worker_batch echo 7 raw 0
        outbox
      ≡ some (s', push (answered echo 7 outbox rs) last))
    × ((last ≡ item echo 7 close []) ⊎ ((last ≡ item echo 7 rearm_recv c.left) × (c.bad ≡ false)))
worker_batch_ends_example = worker_batch_ends echo 7 raw 0 outbox

abbrev connection : Connection
connection = record (make_connection (pos 5) 7 4 0) {
  send_q = (1 ∷ 2 ∷ []) ∷ (3 ∷ 4 ∷ []) ∷ [];
  send_bytes = 4;
}

send_pop-stream_example :
    let c' = send_pop connection 3 in
    (stream c'.send_q ≡ drop 3 (stream connection.send_q))
    × (c'.send_bytes ≡ length (stream c'.send_q))
send_pop-stream_example = send_pop-stream connection 3 refl
