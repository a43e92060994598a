-- ===== src/Gateway/Engine/Steps.antt =====
-- The event loop of server/src/gateway/uring_engine.cpp as a step relation: whatever the kernel
-- reports and the workers hand back, in every order.
use shared_bike_refactor.Base.{ℕ, ◌≡◌, Bool, true, false, some, List, [], ◌∷◌, if◌then◌else◌}
use shared_bike_refactor.Base.Dict.{Bytes, nat_key, lookup}
use shared_bike_refactor.Ipc.Packet.{Slot}
use shared_bike_refactor.Gateway.WorkerBatch.{OutboxItem, push}
use shared_bike_refactor.Gateway.Engine.{
  UringOp, accept, wakeup, stop, rsp_notify, Engine, GatewayOptions, submit,
}
use shared_bike_refactor.Gateway.Engine.Loop.{send_batches}
use shared_bike_refactor.Gateway.Engine.Turn.{
  Cqe, on_cqe, sweep_idle, begin_drain, reap_round, request_stop,
}

-- The members' initial values.
abbrev pub new_engine : Engine
new_engine = record {
  conns = [];
  next_conn_id = 1;
  ops = [];
  next_op = 0;
  accepting = true;
  draining = false;
  stopping = false;
  drain_deadline = 0;
  sq_fail_logged = false;
  accept_fail_streak = 0;
  rsp_notify_fail_streak = 0;
  outbox = record { q = [] };
  posted = [];
  listen_open = true;
  closed = [];
  cancelled = [];
  popped_total = 0;
  batch_peak = 0;
  tick = 0;
}

module _ (room : ℕ → Bool) (clock : ℕ → ℕ) (opt : GatewayOptions) where
  -- What `run` submits before its loop; the last one only when a response ring is attached.
  unfoldable pub start : Bool → Engine
  unfolding submit
  start ring =
      let arm : UringOp → Engine → Engine = submit room clock opt in
      let e = arm stop (arm wakeup (arm accept new_engine)) in if ring then arm rsp_notify e else e

  -- A worker takes a buffer, and hands back any item; the responses are sent, with or without a
  -- notice. The turn of the loop is its parts, in any order.
  pub data Step (e : Engine) : Engine → Type 0 where
    completes :
        (o : ℕ) (op : UringOp) (cqe : Cqe) (e' : Engine)
        → lookup o e.ops ≡ some op
        → on_cqe room clock opt o op cqe e ≡ some e'
        → Step e e'
    takes :
        (job : ℕ × Bytes) (rest : List (ℕ × Bytes))
        → e.posted ≡ job ∷ rest
        → Step e (record e { posted = rest })
    hands_back : (it : OutboxItem) → Step e (record e { outbox = push e.outbox it })
    responds : (batches : List (List Slot)) → Step e (send_batches room clock opt batches e)
    is_stopped : Step e (request_stop e)
    sweeps : e.draining ≡ false → Step e (sweep_idle room clock opt e)
    drains : Step e (begin_drain clock e)
    reaps : Step e (reap_round room clock opt e)

  pub data Reach (e : Engine) : Engine → Type 0 where
    here : Reach e e
    next : {t u : Engine} → Reach e t → Step t u → Reach e u
