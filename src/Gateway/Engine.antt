-- ===== src/Gateway/Engine.antt =====
-- The engine of server/src/gateway/uring_engine.cpp and uring_op.hpp: its state, the submissions and
-- the life of a connection. A reference to a connection is the connection's value together with its
-- entry in `conns`, where each change is stored; the address of a `UringOp` is a number, new for each
-- operation, and `ops` holds the operations in flight. The kernel is two parameters: whether the
-- submission queue has room at the n-th request, and the time of the n-th reading, in nanoseconds.
pub mod Loop
pub mod Invariant
pub mod Operations
pub mod Lifetime
pub mod Held
pub mod Submission
pub mod Ended
pub mod Completion
pub mod Delivery
pub mod Steps
pub mod Arrivals
pub mod Safety
pub mod Accept
pub mod Deaf
pub mod Closing
mod Tests
pub mod Turn
use shared_bike_refactor.Base.{
  ℕ, suc, ◌+◌, ◌-◌, ◌*◌, Bool, true, false, not, ◌&&◌, ◌||◌, Option, none, some, List, [], ◌∷◌,
  ◌++◌, length, ltb, ◌==◌, if◌then◌else◌,
}
use shared_bike_refactor.Base.Dict.{Bytes, Dict, insert, erase, nat_key}
use shared_bike_refactor.Base.Int.{ℤ}
use shared_bike_refactor.Gateway.Connection.{
  Connection, ConnState, closing, make_connection, release_fd, rx_prepare, send_push,
}
use shared_bike_refactor.Gateway.WorkerBatch.{OutboxQueue}

-- `OpKind`, with the connection of the two kinds that have one.
pub data UringOp : Type 0 where
  accept wakeup stop rsp_notify : UringOp
  recv send : ℕ → UringOp

-- The options that the loop reads.
pub record GatewayOptions : Type 0 where
  pub sq_depth : ℤ
  pub rx_buf_bytes : ℕ
  pub send_backlog_limit : ℕ
  pub idle_timeout : ℤ

-- `posted` holds the buffers posted to the workers, `closed` the descriptors that were closed and
-- `cancelled` the targets of the cancel requests, each in order; `tick` counts the requests to the
-- kernel. A `drain_deadline` of 0 is one that is not set.
pub record Engine : Type 0 where
  pub conns : Dict ℕ Connection
  pub next_conn_id : ℕ
  pub ops : Dict ℕ UringOp
  pub next_op : ℕ
  pub accepting : Bool
  pub draining : Bool
  pub stopping : Bool
  pub drain_deadline : ℕ
  pub sq_fail_logged : Bool
  pub accept_fail_streak : ℕ
  pub rsp_notify_fail_streak : ℕ
  pub outbox : OutboxQueue
  pub posted : List (ℕ × Bytes)
  pub listen_open : Bool
  pub closed : List ℤ
  pub cancelled : List ℕ
  pub popped_total : ℕ
  pub batch_peak : ℕ
  pub tick : ℕ

-- `kExhaustDrainLimit` and `kDrainDeadline`
abbrev pub exhaust_drain_limit : ℕ
exhaust_drain_limit = 10 * 1000000000

abbrev pub drain_limit : ℕ
drain_limit = 5 * 1000000000

-- `*it->second = conn`
unfoldable pub put : Connection → Engine → Engine
put conn e = record e { conns = insert conn.conn_id conn e.conns }

-- The operation is in the kernel's hands from here on.
unfoldable pub start_op : UringOp → Engine → Engine
start_op op e = record e { ops = insert e.next_op op e.ops; next_op = e.next_op + 1 }

-- `delete &op`
unfoldable pub end_op : ℕ → Engine → Engine
end_op o e = record e { ops = erase o e.ops }

abbrev pub is_closing : ConnState → Bool
is_closing closing = true
is_closing _ = false

-- The destructor of a connection closes the descriptor that it still holds.
unfoldable pub free : Connection → Engine → Engine
free conn e = record e { closed = e.closed ++ (conn.fd ∷ []); conns = erase conn.conn_id e.conns }

unfoldable pub maybe_finalize : Connection → Engine → Engine
unfolding free
maybe_finalize conn e =
    if not (is_closing conn.state) || ltb 0 conn.pending_ops then e else free conn e

module _ (room : ℕ → Bool) (clock : ℕ → ℕ) (opt : GatewayOptions) where
  -- Whether there is an entry, at once or after a submit.
  unfoldable pub has_room : Engine → Bool
  has_room e = room e.tick || room (suc e.tick)

  -- Without an entry the engine starts to drain, with a deadline of its own the first time.
  unfoldable pub get_sqe : Engine → Bool × Engine
  unfolding has_room
  get_sqe e = (
    has_room e,
    record e {
      tick = if room e.tick then e.tick + 1 else e.tick + 2;
      sq_fail_logged = e.sq_fail_logged || not (has_room e);
      drain_deadline =
          if has_room e || e.sq_fail_logged
          then e.drain_deadline
          else clock (e.tick + 2) + exhaust_drain_limit;
      draining = e.draining || not (has_room e);
    },
  )

  -- Of the operations without a connection: `submit_accept`, `submit_eventfd_read`,
  -- `submit_stop_read` and `submit_rsp_notify_read`.
  unfoldable pub submit : UringOp → Engine → Engine
  unfolding get_sqe start_op
  submit op e = let (got, e') = get_sqe e in if got then start_op op e' else e'

  -- Whether it was submitted, and the connection and the engine afterwards.
  unfoldable pub submit_recv : Connection → Engine → Bool × Connection × Engine
  unfolding put start_op get_sqe rx_prepare
  submit_recv conn e =
      let ready = rx_prepare conn opt.rx_buf_bytes in
      let (got, e') = get_sqe (put ready e) in
      let armed = record ready { recv_op = some e'.next_op; pending_ops = ready.pending_ops + 1 } in
      if got then (true, armed, put armed (start_op (recv conn.conn_id) e')) else (false, ready, e')

  unfoldable pub submit_send : Connection → Engine → Bool × Connection × Engine
  unfolding put start_op get_sqe
  submit_send conn e =
      let (got, e') = get_sqe e in
      let armed = record conn {
        send_op = some e'.next_op;
        pending_ops = conn.pending_ops + 1;
        send_active = true;
      } in
      if got then (true, armed, put armed (start_op (send conn.conn_id) e')) else (false, conn, e')

  -- Cancels the operation, if there is one.
  unfoldable pub submit_cancel : Option ℕ → Engine → Engine
  unfolding get_sqe
  submit_cancel none e = e
  submit_cancel (some o) e =
      let (got, e') = get_sqe e in
      record e' { cancelled = if got then e'.cancelled ++ (o ∷ []) else e'.cancelled }

  -- The new connection, with the number that was next.
  unfoldable pub make_conn : ℤ → Engine → Connection × Engine
  unfolding make_connection put
  make_conn fd e =
      let conn = make_connection fd e.next_conn_id opt.rx_buf_bytes (clock e.tick) in
      (conn, put conn (record e { next_conn_id = e.next_conn_id + 1; tick = e.tick + 1 }))

  unfoldable pub close_conn : Connection → Engine → Engine
  unfolding put submit_cancel maybe_finalize
  close_conn conn e =
      let shut = record conn { state = closing } in
      if is_closing conn.state
      then e
      else maybe_finalize shut
          (submit_cancel shut.send_op (submit_cancel shut.recv_op (put shut e)))

  unfoldable pub push_response : Connection → Bytes → Engine → Engine
  unfolding close_conn put submit_send send_push
  push_response conn frame e =
      let queued = send_push conn frame in
      let stored = put queued e in
      if ltb opt.send_backlog_limit (conn.send_bytes + length frame)
      then close_conn conn e
      else if queued.send_active
      then stored
      else (submit_send queued stored).2
