-- ===== src/Dispatch/Tests.antt =====
-- A pool of one worker, a dispatcher that echoes, and a response ring of four slots.
use shared_bike_refactor.Base.{
  ℕ, ◌+◌, ◌<◌, ◌≡◌, refl, Bool, true, false, some, List, [], ◌∷◌, ◌++◌, arith, ◌==◌,
}
use shared_bike_refactor.Base.Dict.{Bytes}
use shared_bike_refactor.Base.Outcome.{Outcome, ok}
use shared_bike_refactor.Protocol.{Frame, encode}
use shared_bike_refactor.Ipc.Packet.{Slot, default_packet, empty_slot}
use shared_bike_refactor.Ipc.Ring.{Ring, Producer}
use shared_bike_refactor.Ipc.Sink.{ReplyItem, push_reply, reply_count}
use shared_bike_refactor.Dispatch.ThreadPool.{
  ThreadPool, make_pool, worker_turn, returns, Run, start, worker_turn-reach, posts, starts, stops,
  leaves,
}
use shared_bike_refactor.Dispatch.ThreadPool as Pool
use shared_bike_refactor.Dispatch.Reader.{
  Task, Dispatcher, new_dispatcher, here, idles, slice, on_slot, next, receives, reply,
}
use shared_bike_refactor.Dispatch.Reader.Quota.{slice-reach, reply-encode}
use shared_bike_refactor.Dispatch.Reader.Flush.{flush_replies, flush_replies_lem}

-- One task was posted and started, then the pool was stopped and its worker returned.
abbrev done_run : Run ℕ
done_run = record {
  pool = record { q = []; stop = true; size = 1 };
  posted = 7 ∷ [];
  started = 7 ∷ [];
  returned = 1;
}

done_run_reached : Pool.Reach (start 1) done_run
unfolding worker_turn make_pool Pool.post Pool.shut_down
done_run_reached =
    Pool.next
      (Pool.next (Pool.next (Pool.next Pool.here (posts 7 refl)) (starts 7 (make_pool 1) refl))
        stops)
      (leaves refl)

worker_turn-reach_example :
    (done_run.posted ≡ done_run.started ++ done_run.pool.q)
    × (0 < done_run.returned → done_run.started ≡ done_run.posted)
worker_turn-reach_example = worker_turn-reach 1 done_run done_run_reached

abbrev echo : ℕ → Bytes → ℕ → Outcome Bytes × ℕ
echo eid payload n = (ok payload, n + 1)

-- A request that is too large is left where it was.
abbrev large : Slot
large = record { pkt = record default_packet { payload_len = 5000 }; payload = [] }

abbrev quiet : Dispatcher ℕ
quiet = on_slot true true large (new_dispatcher 2 0)

slice-reach_example : (quiet.pool.q ≡ []) × (quiet.running ≡ []) × (quiet.replies.q ≡ [])
unfolding slice reply_count on_slot
slice-reach_example =
    slice-reach echo 2 0 quiet quiet (next here (receives true true large)) idles refl

abbrev asking : Task
asking = record { conn_id = 3; event_id = 1; seq = 9; one_way = false; payload = [] }

abbrev response : Frame
response = record { event_id = 2; seq = 0; payload = 5 ∷ [] }

abbrev encoded : Bytes
encoded = b'F' ∷ b'B' ∷ b'E' ∷ b'B' ∷ 2 ∷ 0 ∷ 0 ∷ 0 ∷ 0 ∷ 0 ∷ 1 ∷ 0 ∷ 0 ∷ 0 ∷ 5 ∷ []

encoded_lem : encode response ≡ ok encoded
unfolding encode
encoded_lem = refl

reply-encode_example :
    (asking.one_way ≡ true → reply asking (ok encoded) (record { q = [] }) ≡ record { q = [] })
    × (asking.one_way ≡ false
        → (frame : Bytes) × (encode (record response { seq = asking.seq }) ≡ ok frame)
          × (reply asking (ok encoded) (record { q = [] })
              ≡ push_reply
                  (record { q = [] })
                  (record {
                    conn_id = asking.conn_id;
                    seq = asking.seq;
                    one_way = false;
                    frame = frame;
                  })))
reply-encode_example = reply-encode asking response encoded (record { q = [] }) encoded_lem

abbrev ring : Ring
ring = record {
  hdr = record {
    head = 0;
    producer_pid = 0;
    producer_heartbeat_ns = 0;
    tail = 0;
    consumer_pid = 0;
    consumer_heartbeat_ns = 0;
  };
  slots = empty_slot ∷ empty_slot ∷ empty_slot ∷ empty_slot ∷ [];
}

abbrev writer : Producer
writer = record { head_local = 0; head_published = 0; unpublished = 0 }

abbrev items : List ReplyItem
items = record { conn_id = 3; seq = 9; one_way = false; frame = encoded } ∷ []

abbrev gives_up : ℕ → Bool
gives_up n = n == 3

abbrev gateway : ℕ → Ring → Ring
gateway n r = r

flush_replies_lem_example :
    (notify : Bool) × (p' : Producer) × (ring' : Ring) × (flush_replies 2 gives_up gateway 10 items
        writer ring
      ≡ some (notify, p', ring'))
    × (p'.unpublished ≡ 0)
flush_replies_lem_example =
    flush_replies_lem 2 gives_up gateway 3 10 items writer ring refl (omega arith) (omega arith, tt)
      (omega arith) refl
