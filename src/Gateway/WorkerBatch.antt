-- ===== src/Gateway/WorkerBatch.antt =====
-- server/include/server/gateway/outbox_queue.hpp, the requests of packet_sink.hpp, and `worker_batch`
-- of server/src/gateway/uring_engine.cpp: a worker cuts a buffer and hands each frame to the sink.
pub mod Outcomes
use shared_bike_refactor.Base.{
  ℕ, Bool, true, false, Option, none, some, List, [], ◌∷◌, ◌++◌, length, if◌then◌else◌,
}
use shared_bike_refactor.Base.Dict.{Bytes}
use shared_bike_refactor.Base.Outcome.{Outcome, ok, throw, sink_overload, malformed_ipc_request}
use shared_bike_refactor.Protocol.{Frame, stamp_seq}
use shared_bike_refactor.Gateway.FrameCut.{cut_frames}

pub data OutboxKind : Type 0 where
  respond rearm_recv close : OutboxKind

pub record OutboxItem : Type 0 where
  pub kind : OutboxKind
  pub conn_id : ℕ
  pub bytes : Bytes

pub record OutboxQueue : Type 0 where
  pub q : List OutboxItem

unfoldable pub push : OutboxQueue → OutboxItem → OutboxQueue
push o item = record { q = o.q ++ (item ∷ []) }

-- The number of items, and `out` and the queue afterwards.
unfoldable pub drain : OutboxQueue → List OutboxItem → ℕ × List OutboxItem × OutboxQueue
drain o out = (length o.q, out ++ o.q, record { q = [] })

unfoldable pub size : OutboxQueue → ℕ
size o = length o.q

pub record Request : Type 0 where
  pub conn_id : ℕ
  pub event_id : ℕ
  pub seq : ℕ
  pub payload : Bytes

-- `S` is the state behind the sink (`PacketSink::handle`), which an implementation of it gives.
module _ {S : Type 0} (handle : Request → S → Outcome Bytes × S) (conn_id : ℕ) where
  abbrev pub request_of : Frame → Request
  request_of f = record {
    conn_id = conn_id;
    event_id = f.event_id;
    seq = f.seq;
    payload = f.payload;
  }

  abbrev pub item : OutboxKind → Bytes → OutboxItem
  item kind bytes = record { kind = kind; conn_id = conn_id; bytes = bytes }

  -- An answer is stamped and sent; an empty one, or one that cannot be stamped, is not.
  unfoldable pub answer : ℕ → Bytes → OutboxQueue → OutboxQueue
  unfolding push
  answer seq [] o = o
  answer seq (b ∷ bs) o =
      let (stamped, bytes) = stamp_seq (b ∷ bs) seq in
      if stamped then push o (item respond bytes) else o

  -- The loop over the frames: whether it ran to its end, and what it leaves.
  unfoldable pub handle_frames : List Frame → S → OutboxQueue → Bool × S × OutboxQueue
  unfolding push answer
  handle_frames [] s o = (true, s, o)
  handle_frames (f ∷ fs) s o =
      let (reply, s') = handle (request_of f) s in
      elim reply [
        | ok bytes ↦ handle_frames fs s' (answer f.seq bytes o)
        | throw sink_overload ↦ (false, s', push o (item close []))
        | throw malformed_ipc_request ↦ (false, s', push o (item close []))
        | throw _ ↦ handle_frames fs s' o
      ]

  -- `none` is a cutting loop that ran out of fuel, for which `cut_frames` gives enough.
  unfoldable pub worker_batch : Bytes → S → OutboxQueue → Option (S × OutboxQueue)
  unfolding push
  worker_batch raw s o = elim (cut_frames raw []) [
    | none ↦ none
    | some (cut, frames) ↦
        let (ended, s', o') = handle_frames frames s o in
        if ended
        then if cut.bad
          then some (s', push o' (item close []))
          else some (s', push o' (item rearm_recv cut.leftover))
        else some (s', o')
  ]
