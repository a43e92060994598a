-- ===== src/Dispatch/Reader.antt =====
-- server/src/dispatch/dispatch_main.cpp: the reader puts requests to the pool, the pool runs the
-- handlers, and their replies wait until the reader writes them to the response ring. The handlers are
-- the parameter `dispatch` (`Router::dispatch`) on a context of the type `C`.
pub mod Quota
pub mod Flush
use shared_bike_refactor.Base.{
  ℕ, suc, ◌+◌, ◌-◌, ◌%◌, ◌≡◌, Bool, true, false, not, ◌&&◌, ◌||◌, List, [], ◌∷◌, ◌++◌, length, take,
  ltb, ◌==◌, if◌then◌else◌,
}
use shared_bike_refactor.Base.Dict.{Bytes}
use shared_bike_refactor.Base.Outcome.{Outcome, ok, throw}
use shared_bike_refactor.Protocol.{stamp_seq}
use shared_bike_refactor.Ipc.Packet.{Slot, req_payload_max}
use shared_bike_refactor.Ipc.Sink.{ReplyItem, ReplyQueue, push_reply, drain_replies}
use shared_bike_refactor.Dispatch.ThreadPool.{ThreadPool, make_pool, post, worker_turn, takes}

-- What the lambda of a task captures.
pub record Task : Type 0 where
  pub conn_id : ℕ
  pub event_id : ℕ
  pub seq : ℕ
  pub one_way : Bool
  pub payload : Bytes

-- `running` holds the tasks that a worker has begun, `finishing` counts the workers between the end of
-- the handler and the return of the quota.
pub record Dispatcher (C : Type 0) : Type 0 where
  pub pool : ThreadPool Task
  pub running : List Task
  pub finishing : ℕ
  pub inflight_replies : ℕ
  pub replies : ReplyQueue
  pub ctx : C
  pub consumed_total : ℕ

-- `kFlagOneWay` is the lowest bit.
abbrev pub task_of : Slot → Task
task_of slot = record {
  conn_id = slot.pkt.conn_id;
  event_id = slot.pkt.event_id;
  seq = slot.pkt.seq;
  one_way = slot.pkt.flags % 2 == 1;
  payload = take slot.pkt.payload_len slot.payload;
}

-- The poll slice in milliseconds: short while a reply is due or waits.
unfoldable pub slice : ℕ → ℕ → ℕ
slice inflight waiting = if ltb 0 inflight || ltb 0 waiting then 5 else 200

-- The reply of a task: none to a report that wants none, and none that cannot be stamped.
unfoldable pub reply : Task → Outcome Bytes → ReplyQueue → ReplyQueue
unfolding push_reply
reply t (throw _) q = q
reply t (ok []) q = q
reply t (ok (b ∷ bs)) q =
    let (stamped, frame) = stamp_seq (b ∷ bs) t.seq in
    if t.one_way
    then q
    else if stamped
    then push_reply q
        (record { conn_id = t.conn_id; seq = t.seq; one_way = t.one_way; frame = frame })
    else q

module _ {C : Type 0} where
  abbrev pub new_dispatcher : ℕ → C → Dispatcher C
  new_dispatcher workers ctx = record {
    pool = make_pool workers;
    running = [];
    finishing = 0;
    inflight_replies = 0;
    replies = record { q = [] };
    ctx = ctx;
    consumed_total = 0;
  }

  -- The callback of `wait_pop`; `copied` and `posted` say whether there was memory for the payload and
  -- for the task.
  unfoldable pub on_slot : Bool → Bool → Slot → Dispatcher C → Dispatcher C
  unfolding post
  on_slot copied posted slot d =
      let counted = d.inflight_replies + 1 in
      if ltb req_payload_max slot.pkt.payload_len
      then d
      else if not copied
      then d
      else if posted
      then record d {
        pool = post d.pool (task_of slot);
        inflight_replies = counted;
        consumed_total = d.consumed_total + 1;
      }
      else record d { inflight_replies = counted - 1; consumed_total = d.consumed_total + 1 }

  module _ (dispatch : ℕ → Bytes → C → Outcome Bytes × C) where
    unfoldable pub run_task : Task → Dispatcher C → Dispatcher C
    unfolding reply
    run_task t d =
        let (result, ctx) = dispatch t.event_id t.payload d.ctx in
        record d { ctx = ctx; replies = reply t result d.replies; finishing = d.finishing + 1 }

    -- `inflight_replies.fetch_sub(1)`
    unfoldable pub give_back : Dispatcher C → Dispatcher C
    give_back d = record d {
      finishing = d.finishing - 1;
      inflight_replies = d.inflight_replies - 1;
    }

    -- What the workers do.
    pub data Work (d : Dispatcher C) : Dispatcher C → Type 0 where
      begins :
          (t : Task) (p : ThreadPool Task)
          → worker_turn d.pool ≡ takes t p
          → Work d (record d { pool = p; running = d.running ++ (t ∷ []) })
      finishes :
          (before : List Task) (t : Task) (after : List Task)
          → d.running ≡ before ++ (t ∷ after)
          → Work d (run_task t (record d { running = before ++ after }))
      gives_back : (n : ℕ) → d.finishing ≡ suc n → Work d (give_back d)

    -- What the reader does: it takes a request, or all the replies that wait.
    pub data Step (d : Dispatcher C) : Dispatcher C → Type 0 where
      receives : (copied posted : Bool) (slot : Slot) → Step d (on_slot copied posted slot d)
      collects : Step d (record d { replies = (drain_replies d.replies []).2 })
      works : {d' : Dispatcher C} → Work d d' → Step d d'

    pub data Reach (d : Dispatcher C) : Dispatcher C → Type 0 where
      here : Reach d d
      next : {t u : Dispatcher C} → Reach d t → Step t u → Reach d u

    -- What the workers do while the reader looks at its two counters.
    pub data Works (d : Dispatcher C) : Dispatcher C → Type 0 where
      idles : Works d d
      then_works : {t u : Dispatcher C} → Works d t → Work t u → Works d u

-- One judgement of the gateway by its heartbeats: whether it was seen, and whether to stop.
unfoldable pub judge : Bool → Bool → Bool × Bool
judge peer_seen alive = if alive then (true, false) else (peer_seen, peer_seen)
