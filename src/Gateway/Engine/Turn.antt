-- ===== src/Gateway/Engine/Turn.antt =====
-- The turns of the loop in `run` (server/src/gateway/uring_engine.cpp): completions, the idle sweep,
-- the stop and the shutdown that frees what is left.
use shared_bike_refactor.Base.{
  ℕ, ◌+◌, ◌-◌, ◌*◌, Bool, true, false, not, ◌&&◌, ◌||◌, Option, none, some, List, [], ◌∷◌, ◌++◌,
  length, take, ltb, ◌==◌, if◌then◌else◌,
}
use shared_bike_refactor.Base.Dict.{Bytes, Dict, lookup, nat_key}
use shared_bike_refactor.Base.Int.{ℤ, pos, negsuc, ltb_ℤ}
use shared_bike_refactor.Ipc.Packet.{Slot}
use shared_bike_refactor.Gateway.Connection.{Connection}
use shared_bike_refactor.Gateway.Engine.{
  UringOp, accept, wakeup, stop, rsp_notify, recv, send, GatewayOptions, Engine, drain_limit,
  is_closing, close_conn,
}
use shared_bike_refactor.Gateway.Engine.Loop.{
  complete_accept, complete_recv, complete_send, complete_wakeup, complete_stop,
  complete_rsp_notify,
}

-- `kMinSqDepth`: whether `validate_sq_capacity` lets the engine start.
unfoldable pub validate_sq_capacity : GatewayOptions → Bool
validate_sq_capacity opt = not (ltb_ℤ opt.sq_depth (pos 128))

-- The flag; the write to the eventfd makes the stop operation complete.
unfoldable pub request_stop : Engine → Engine
request_stop e = record e { stopping = true }

-- A completion: its result, the bytes that the kernel wrote for a receive, and the batches that the
-- response ring gives when it is emptied meanwhile.
pub record Cqe : Type 0 where
  pub res : ℤ
  pub bytes : Bytes
  pub batches : List (List Slot)

-- A stop that was asked for closes the listening socket, unless the engine drains already.
unfoldable pub begin_drain : (ℕ → ℕ) → Engine → Engine
begin_drain clock e =
    if e.stopping && not e.draining
    then record e {
      draining = true;
      accepting = false;
      listen_open = false;
      drain_deadline =
          if e.drain_deadline == 0 then clock e.tick + drain_limit else e.drain_deadline;
      tick = e.tick + 1;
    }
    else e

unfoldable pub drain_complete : (ℕ → ℕ) → Engine → Bool
drain_complete clock e = (length e.conns == 0) || ltb e.drain_deadline (clock e.tick)

abbrev pub ids_of : Dict ℕ Connection → List ℕ
ids_of [] = []
ids_of ((id, _) ∷ conns) = id ∷ ids_of conns

abbrev pub fds_of : Dict ℕ Connection → List ℤ
fds_of [] = []
fds_of ((_, conn) ∷ conns) = conn.fd ∷ fds_of conns

-- Past the limit the descriptors are closed and the connections freed at once.
unfoldable pub force_close : Engine → Engine
force_close e = record e { closed = e.closed ++ fds_of e.conns; conns = [] }

module _ (room : ℕ → Bool) (clock : ℕ → ℕ) (opt : GatewayOptions) where
  unfoldable pub on_cqe : ℕ → UringOp → Cqe → Engine → Option Engine
  unfolding complete_accept complete_recv complete_send complete_wakeup complete_stop
      complete_rsp_notify
  on_cqe o accept cqe e = some (complete_accept room clock opt o cqe.res e)
  on_cqe o (recv c) cqe e = complete_recv room clock opt o c cqe.res cqe.bytes e
  on_cqe o (send c) cqe e = complete_send room clock opt o c cqe.res e
  on_cqe o wakeup cqe e = some (complete_wakeup room clock opt o e)
  on_cqe o stop cqe e = some (complete_stop room clock opt o e)
  on_cqe o rsp_notify cqe e = some (complete_rsp_notify room clock opt o cqe.res cqe.batches e)

  -- Whether the connection has been quiet for longer than the timeout, in milliseconds.
  unfoldable pub is_idle : ℕ → Connection → Bool
  is_idle now conn = elim (opt.idle_timeout) [
    | negsuc _ ↦ false
    | pos ms ↦
        ltb 0 ms && (not (is_closing conn.state) && ltb (ms * 1000000) (now - conn.last_active))
  ]

  unfoldable pub victims : ℕ → Dict ℕ Connection → List ℕ
  unfolding is_idle
  victims now [] = []
  victims now ((id, conn) ∷ conns) =
      if is_idle now conn then id ∷ victims now conns else victims now conns

  -- Each of them that is still there is closed.
  unfoldable pub close_all : List ℕ → Engine → Engine
  unfolding close_conn
  close_all [] e = e
  close_all (id ∷ ids) e = elim (lookup id e.conns) [
    | none ↦ close_all ids e
    | some conn ↦ close_all ids (close_conn room clock opt conn e)
  ]

  -- Every connection is closed in the order of its number; the source's order is its hash map's.
  unfoldable pub sweep_idle : Engine → Engine
  unfolding victims close_all
  sweep_idle e = close_all (victims (clock e.tick) e.conns) (record e { tick = e.tick + 1 })

  -- One round of the shutdown: at most 64 connections are closed (`kReapBatch`).
  unfoldable pub reap_round : Engine → Engine
  unfolding close_all
  reap_round e = close_all (take 64 (ids_of e.conns)) e
