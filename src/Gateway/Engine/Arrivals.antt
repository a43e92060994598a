-- ===== src/Gateway/Engine/Arrivals.antt =====
-- The completions without a connection, and any completion (server/src/gateway/uring_engine.cpp).
use shared_bike_refactor.Base.{
  ℕ, ◌+◌, ◌≡◌, ◌≢◌, refl, sym, Bool, not, none, some, List, leb, ◌==◌, inl, inr, subst, arith,
}
use shared_bike_refactor.Base.Dict.{nat_key, lookup, erase, lookup-insert_self}
use shared_bike_refactor.Base.Int.{ℤ, pos, negsuc}
use shared_bike_refactor.Ipc.Packet.{Slot}
use shared_bike_refactor.Gateway.Connection.{make_connection}
use shared_bike_refactor.Gateway.Engine.{
  UringOp, accept, wakeup, stop, rsp_notify, recv, send, Engine, GatewayOptions, end_op, submit,
  submit_recv, make_conn, put, free,
}
use shared_bike_refactor.Gateway.Engine.Loop.{
  welcome, complete_accept, complete_wakeup, complete_stop, complete_rsp_notify,
}
use shared_bike_refactor.Gateway.Engine.Turn.{Cqe, on_cqe}
use shared_bike_refactor.Gateway.Engine.Invariant.{LinkOf, Tables, IsValid}
use shared_bike_refactor.Gateway.Engine.Operations.{end-Tables}
use shared_bike_refactor.Gateway.Engine.Lifetime.{free-Tables, make-Tables}
use shared_bike_refactor.Gateway.Engine.Held.{hold}
use shared_bike_refactor.Gateway.Engine.Submission.{if-IsValid, submit-IsValid, submit_recv-IsValid}
use shared_bike_refactor.Gateway.Engine.Completion.{Runs, complete_recv-Runs, complete_send-Runs}
use shared_bike_refactor.Gateway.Engine.Delivery.{drain_outbox-IsValid, send_batches-IsValid}

module _ (room : ℕ → Bool) (clock : ℕ → ℕ) (opt : GatewayOptions) where
  welcome-IsValid :
      (fd : ℤ) (e : Engine)
      → IsValid opt.send_backlog_limit none e
      → IsValid opt.send_backlog_limit none (welcome room clock opt fd e)
  unfolding welcome make_conn make_connection put free
  welcome-IsValid fd e v =
      let (conn, e1) = make_conn room clock opt fd e in
      let n = e.next_conn_id in
      let link : LinkOf opt.send_backlog_limit e.ops (n + 1) n conn = record {
        same = refl;
        below = omega arith;
        counted = refl;
        receives = λ o eq. absurd cc;
        sends = λ o eq. absurd cc;
        sending = refl;
        measured = refl;
        bounded = omega arith;
      } in
      let v1 = make-Tables conn v link in
      let h = hold opt.send_backlog_limit n e1 conn v1 (lookup-insert_self n conn e.conns) in
      let r = submit_recv room clock opt conn e1 in
      elim (submit_recv-IsValid room clock opt n e1 conn conn h refl refl) [
        | inl (has, v2) ↦ if-IsValid r.0 _ _ (λ _. v2) (λ lacks. absurd cc)
        | inr (full, held, _, idle, quiet) ↦
            if-IsValid r.0 _ _ (λ has. absurd cc)
              (λ _.
                subst
                  (λ i.
                    Tables opt.send_backlog_limit none (erase i r.2.conns) r.2.next_conn_id r.2.ops
                      r.2.next_op)
                  (sym held.link.same) (free-Tables n r.1 held.tables held.located idle quiet))
      ]

  end_plain-IsValid :
      (o : ℕ) (op : UringOp) (e : Engine)
      → IsValid opt.send_backlog_limit none e
      → lookup o e.ops ≡ some op
      → ((c : ℕ) → (op ≢ recv c) × (op ≢ send c))
      → IsValid opt.send_backlog_limit none (end_op o e)
  unfolding end_op
  end_plain-IsValid o op e v at plain = end-Tables o op v at plain

  complete_accept-IsValid :
      (o : ℕ) (res : ℤ) (e : Engine)
      → IsValid opt.send_backlog_limit none e
      → lookup o e.ops ≡ some accept
      → IsValid opt.send_backlog_limit none (complete_accept room clock opt o res e)
  unfolding complete_accept
  complete_accept-IsValid o (pos fd) e v at =
      let v1 = end_plain-IsValid o accept e v at (λ c. (λ eq. cc, λ eq. cc)) in
      let e1 = end_op o e in
      if-IsValid (not e1.accepting) _ _ (λ _. v1)
        (λ _.
          submit-IsValid room clock opt accept none _
            (welcome-IsValid (pos fd) (record e1 { accept_fail_streak = 0 }) v1) tt)
  complete_accept-IsValid o (negsuc n) e v at =
      let v1 = end_plain-IsValid o accept e v at (λ c. (λ eq. cc, λ eq. cc)) in
      let e1 = end_op o e in
      let streak = e1.accept_fail_streak + 1 in
      if-IsValid (not e1.accepting) _ _ (λ _. v1)
        (λ _.
          if-IsValid (n == 3) _ _ (λ _. submit-IsValid room clock opt accept none e1 v1 tt)
            (λ _.
              if-IsValid (leb 8 streak) _ _ (λ _. v1)
                (λ _.
                  submit-IsValid room clock opt accept none
                    (record e1 { accept_fail_streak = streak }) v1 tt)))

  complete_wakeup-IsValid :
      (o : ℕ) (e : Engine)
      → IsValid opt.send_backlog_limit none e
      → lookup o e.ops ≡ some wakeup
      → IsValid opt.send_backlog_limit none (complete_wakeup room clock opt o e)
  unfolding complete_wakeup
  complete_wakeup-IsValid o e v at =
      let v1 = end_plain-IsValid o wakeup e v at (λ c. (λ eq. cc, λ eq. cc)) in
      drain_outbox-IsValid room clock opt (submit room clock opt wakeup (end_op o e))
        (submit-IsValid room clock opt wakeup none (end_op o e) v1 tt)

  complete_rsp_notify-IsValid :
      (o : ℕ) (res : ℤ) (batches : List (List Slot)) (e : Engine)
      → IsValid opt.send_backlog_limit none e
      → lookup o e.ops ≡ some rsp_notify
      → IsValid opt.send_backlog_limit none (complete_rsp_notify room clock opt o res batches e)
  unfolding complete_rsp_notify
  complete_rsp_notify-IsValid o (pos n) batches e v at =
      let v1 = end_plain-IsValid o rsp_notify e v at (λ c. (λ eq. cc, λ eq. cc)) in
      send_batches-IsValid room clock opt batches _ (
        submit-IsValid room clock opt rsp_notify none
          (record (end_op o e) { rsp_notify_fail_streak = 0 }) v1 tt)
  complete_rsp_notify-IsValid o (negsuc n) batches e v at =
      let v1 = end_plain-IsValid o rsp_notify e v at (λ c. (λ eq. cc, λ eq. cc)) in
      let e1 = end_op o e in
      let streak = e1.rsp_notify_fail_streak + 1 in
      if-IsValid (n == 124) _ _ (λ _. v1)
        (λ _.
          if-IsValid (leb 8 streak) _ _ (λ _. v1)
            (λ _.
              submit-IsValid room clock opt rsp_notify none
                (record e1 { rsp_notify_fail_streak = streak }) v1 tt))

  -- A completion of any operation in flight.
  pub on_cqe-Runs :
      (o : ℕ) (op : UringOp) (cqe : Cqe) (e : Engine)
      → IsValid opt.send_backlog_limit none e
      → lookup o e.ops ≡ some op
      → Runs opt.send_backlog_limit (on_cqe room clock opt o op cqe e)
  unfolding on_cqe complete_stop
  on_cqe-Runs o accept cqe e v at = complete_accept-IsValid o cqe.res e v at
  on_cqe-Runs o (recv c) cqe e v at = complete_recv-Runs room clock opt o c cqe.res cqe.bytes e v at
  on_cqe-Runs o (send c) cqe e v at = complete_send-Runs room clock opt o c cqe.res e v at
  on_cqe-Runs o wakeup cqe e v at = complete_wakeup-IsValid o e v at
  on_cqe-Runs o stop cqe e v at = end_plain-IsValid o stop e v at (λ c. (λ eq. cc, λ eq. cc))
  on_cqe-Runs o rsp_notify cqe e v at = complete_rsp_notify-IsValid o cqe.res cqe.batches e v at
