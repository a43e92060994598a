-- ===== src/Gateway/Engine/Tests.antt =====
-- An engine with room for every operation, and one connection.
use shared_bike_refactor.Base.{
  ℕ, ◌*◌, ◌≡◌, refl, Bool, true, false, some, [], ◌∷◌, none, arith, inl,
}
use shared_bike_refactor.Base.Dict.{nat_key, lookup, insert, erase}
use shared_bike_refactor.Base.Int.{pos, negsuc}
use shared_bike_refactor.Gateway.Connection.{Connection, closing, make_connection, rx_prepare}
use shared_bike_refactor.Gateway.WorkerBatch.{push, close, drain}
use shared_bike_refactor.Gateway.Engine.{
  accept, recv, Engine, GatewayOptions, has_room, get_sqe, submit, start_op, end_op, put, make_conn,
  submit_recv, submit_cancel, close_conn, maybe_finalize, wakeup,
}
use shared_bike_refactor.Gateway.Engine.Loop.{
  complete_accept, welcome, complete_wakeup, ecanceled, complete_recv, drain_outbox, dispatch_items,
  dispatch_item, serve_item,
}
use shared_bike_refactor.Gateway.Engine.Turn.{Cqe, on_cqe}
use shared_bike_refactor.Gateway.Engine.Steps.{
  start, new_engine, Reach, here, next, completes, hands_back,
}
use shared_bike_refactor.Gateway.Engine.Invariant.{IsValid}
use shared_bike_refactor.Gateway.Engine.Safety.{reach-IsValid, on_cqe-reach}
use shared_bike_refactor.Gateway.Engine.Accept.{NoAccept}
use shared_bike_refactor.Gateway.Engine.Closing.{IsNearer, on_cqe-IsNearer}
use shared_bike_refactor.Gateway.Engine.Deaf.{complete_accept-reach}

abbrev room : ℕ → Bool
room n = true

abbrev clock : ℕ → ℕ
clock n = n * 1000

abbrev opt : GatewayOptions
opt = record {
  sq_depth = pos 256;
  rx_buf_bytes = 4;
  send_backlog_limit = 100;
  idle_timeout = pos 60000;
}

abbrev accepted : Cqe
accepted = record { res = pos 5; bytes = []; batches = [] }

-- After the first accept, of descriptor 5.
abbrev one_conn : Engine
one_conn = complete_accept room clock opt 0 (pos 5) (start room clock opt false)

one_conn_recv : lookup 3 one_conn.ops ≡ some (recv 1)
unfolding complete_accept start submit get_sqe has_room start_op end_op welcome make_conn
    make_connection put submit_recv rx_prepare lookup insert erase
one_conn_recv = refl

one_conn_reached : Reach room clock opt (start room clock opt false) one_conn
unfolding on_cqe start submit get_sqe has_room start_op lookup insert
one_conn_reached = next here (completes 0 accept accepted one_conn refl refl)

reach-IsValid_example : IsValid 100 none one_conn
reach-IsValid_example = reach-IsValid room clock opt false one_conn one_conn_reached

abbrev hello : Cqe
hello = record { res = pos 2; bytes = b'F' ∷ b'B' ∷ []; batches = [] }

on_cqe-reach_example : (e' : Engine) × (on_cqe room clock opt 3 (recv 1) hello one_conn ≡ some e')
on_cqe-reach_example =
    on_cqe-reach room clock opt false one_conn 3 (recv 1) hello one_conn_reached one_conn_recv

-- An engine whose accept has failed seven times.
abbrev failing : Engine
failing = record new_engine { ops = (0, accept) ∷ []; next_op = 1; accept_fail_streak = 7 }

failing_only : (i : ℕ) → lookup i failing.ops ≡ some accept → i ≡ 0
unfolding lookup
failing_only i at = ground arith

complete_accept-reach_example : NoAccept (complete_accept room clock opt 0 (negsuc 23) failing).ops
complete_accept-reach_example =
    complete_accept-reach room clock opt 0 23 failing _ failing_only refl (omega arith)
      (omega arith) here

-- A worker has asked to close the connection, and the main thread has been woken.
abbrev handed : Engine
handed = record one_conn {
  outbox = push one_conn.outbox (record { kind = close; conn_id = 1; bytes = [] });
}

abbrev shut_conn : Engine
shut_conn = complete_wakeup room clock opt 1 handed

abbrev canceled : Cqe
canceled = record { res = ecanceled; bytes = []; batches = [] }

shut_conn_reached : Reach room clock opt (start room clock opt false) shut_conn
unfolding on_cqe start submit get_sqe has_room start_op lookup insert complete_accept end_op welcome
    make_conn make_connection put submit_recv rx_prepare erase
shut_conn_reached =
    next (next one_conn_reached (hands_back (record { kind = close; conn_id = 1; bytes = [] })))
      (completes 1 wakeup canceled shut_conn refl refl)

abbrev closing_conn : Connection
closing_conn = record (make_connection (pos 5) 1 4 3000) {
  state = closing;
  recv_op = some 3;
  pending_ops = 1;
}

shut_conn_recv : lookup 3 shut_conn.ops ≡ some (recv 1)
unfolding start submit get_sqe has_room start_op lookup insert complete_accept end_op welcome
    make_conn make_connection put submit_recv rx_prepare erase complete_wakeup drain_outbox drain
    dispatch_items dispatch_item serve_item close_conn submit_cancel maybe_finalize push
shut_conn_recv = refl

shut_conn_there : lookup 1 shut_conn.conns ≡ some closing_conn
unfolding start submit get_sqe has_room start_op lookup insert complete_accept end_op welcome
    make_conn make_connection put submit_recv rx_prepare erase complete_wakeup drain_outbox drain
    dispatch_items dispatch_item serve_item close_conn submit_cancel maybe_finalize push
shut_conn_there = refl

abbrev freed : Engine
freed =
    let idle = record closing_conn { recv_op = none; pending_ops = 0 } in
    maybe_finalize idle (put idle (end_op 3 shut_conn))

freed_lem : on_cqe room clock opt 3 (recv 1) canceled shut_conn ≡ some freed
unfolding on_cqe complete_recv
freed_lem = rw (shut_conn_there, on_cqe, complete_recv) refl

on_cqe-IsNearer_example : IsNearer 1 closing_conn shut_conn freed
on_cqe-IsNearer_example =
    on_cqe-IsNearer room clock opt false shut_conn freed 3 1 (recv 1) canceled closing_conn
      shut_conn_reached shut_conn_recv (inl refl) shut_conn_there refl freed_lem
