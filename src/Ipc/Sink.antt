-- ===== src/Ipc/Sink.antt =====
-- server/src/ipc/ring_sink.cpp and server/include/bike/ipc/reply_queue.hpp: requests into the rings, and
-- the answers that wait for the way back.
use shared_bike_refactor.Base.{
  ℕ, ◌+◌, ◌-◌, ◌*◌, ◌%◌, ◌^◌, Bool, ◌&&◌, Option, none, some, List, [], ◌∷◌, ◌++◌, length,
  get_elem?, set, ltb, leb, ◌==◌, if◌then◌else◌, map,
}
use shared_bike_refactor.Base.Dict.{Bytes}
use shared_bike_refactor.Base.Outcome.{
  Outcome, ok, throw, runtime_error, sink_overload, malformed_ipc_request,
}
use shared_bike_refactor.Gateway.WorkerBatch.{Request}
use shared_bike_refactor.Ipc.Packet.{IpcPacket, default_packet, flag_one_way, req_payload_max}
use shared_bike_refactor.Ipc.Ring.{
  Producer, Ring, begin_write, fill, publish, size, empty, register_producer, heartbeat_producer,
}
use shared_bike_refactor.Protocol.{event_id, ride_position_report}

-- A producer's view with its ring.
pub record Channel : Type 0 where
  pub producer : Producer
  pub ring : Ring

-- `notified` counts the writes to the FIFO that wakes the reader, if there is one.
pub record RingSink : Type 0 where
  pub producers : List Channel
  pub has_notify : Bool
  pub notified : ℕ
  pub next_idx : ℕ
  pub overload_count : ℕ
  pub inflight_peak : ℕ
  pub last_metrics_ns : ℕ

unfoldable pub make_sink : List Channel → Bool → Outcome RingSink
make_sink [] has_notify = throw runtime_error
make_sink (c ∷ cs) has_notify = ok (record {
  producers = c ∷ cs;
  has_notify = has_notify;
  notified = 0;
  next_idx = 0;
  overload_count = 0;
  inflight_peak = 0;
  last_metrics_ns = 0;
})

-- `t_idx` is the index that the calling thread was bound to, if it was.
unfoldable pub bind_producer : RingSink → Option ℕ → Outcome ℕ × RingSink
bind_producer s (some t_idx) = (ok t_idx, s)
bind_producer s none =
    let s' = record s { next_idx = s.next_idx + 1 } in
    if leb (length s.producers) s.next_idx then (throw runtime_error, s') else (ok s.next_idx, s')

abbrev pub packet_of : Request → IpcPacket
packet_of req = record default_packet {
  conn_id = req.conn_id;
  event_id = req.event_id;
  seq = req.seq;
  payload_len = length req.payload;
  flags = if req.event_id == event_id ride_position_report then flag_one_way else 0;
}

module _ (bits : ℕ) where
  -- From the test of the ring on, for the channel at `idx`.
  unfoldable pub enqueue : RingSink → ℕ → Channel → Request → Outcome Bytes × RingSink
  enqueue s idx c req =
      let was_empty = empty c.producer c.ring in
      let (slot, p) = begin_write bits c.producer c.ring in
      elim slot [
        | none ↦ (throw sink_overload, record s { overload_count = s.overload_count + 1 })
        | some i ↦
            let (p', r) = publish p 1 (fill c.ring i (packet_of req) req.payload) in
            let cur = size p' r in
            (
              ok [],
              record s {
                producers = set s.producers idx (record { producer = p'; ring = r });
                inflight_peak = if ltb s.inflight_peak cur then cur else s.inflight_peak;
                notified = if was_empty && s.has_notify then s.notified + 1 else s.notified;
              },
            )
      ]

  -- The answer comes back by another ring, so no bytes are returned. An index that was bound is in range.
  unfoldable pub handle : RingSink → Option ℕ → Request → Outcome Bytes × RingSink
  handle s t_idx req =
      let (bound, s') = bind_producer s t_idx in
      elim bound [
        | throw e ↦ (throw e, s')
        | ok idx ↦
            if ltb req_payload_max (length req.payload)
            then (throw malformed_ipc_request, s')
            else elim (get_elem? s'.producers idx) [
              | none ↦ (throw runtime_error, s')
              | some c ↦ enqueue s' idx c req
            ]
      ]

unfoldable pub register_pids : RingSink → ℕ → RingSink
register_pids s pid = record s {
  producers = map (λ (c : Channel). record c { ring = register_producer c.ring pid }) s.producers;
}

-- The difference of two readings is that of unsigned 64-bit numbers.
unfoldable pub heartbeat_all : RingSink → ℕ → RingSink
heartbeat_all s now_ns =
    let beaten =
      map (λ (c : Channel). record c { ring = heartbeat_producer c.ring now_ns }) s.producers in
    let apart = (now_ns + 2 ^ 64 - s.last_metrics_ns) % 2 ^ 64 in
    record s {
      producers = beaten;
      last_metrics_ns = if leb (30 * 1000000000) apart then now_ns else s.last_metrics_ns;
    }

pub record ReplyItem : Type 0 where
  pub conn_id : ℕ
  pub seq : ℕ
  pub one_way : Bool
  pub frame : Bytes

pub record ReplyQueue : Type 0 where
  pub q : List ReplyItem

unfoldable pub push_reply : ReplyQueue → ReplyItem → ReplyQueue
push_reply r item = record { q = r.q ++ (item ∷ []) }

-- The number of items, and `out` and the queue afterwards.
unfoldable pub drain_replies : ReplyQueue → List ReplyItem → ℕ × List ReplyItem × ReplyQueue
drain_replies r out = (length r.q, out ++ r.q, record { q = [] })

unfoldable pub reply_count : ReplyQueue → ℕ
reply_count r = length r.q
