-- ===== src/Gateway/Engine/Ended.antt =====
-- A connection whose operation is over (server/src/gateway/uring_engine.cpp).
use shared_bike_refactor.Base.{ℕ, ◌-◌, ◌≡◌, refl, sym, false, Option, none, some, arith, subst}
use shared_bike_refactor.Base.Dict.{nat_key, lookup, insert, erase, lookup-insert_self}
use shared_bike_refactor.Gateway.Connection.{Connection}
use shared_bike_refactor.Gateway.Engine.{recv, send, Engine, end_op, put}
use shared_bike_refactor.Gateway.Engine.Invariant.{count, LinkOf, IsValid, begin_busy}
use shared_bike_refactor.Gateway.Engine.Operations.{end_recv-Tables, end_send-Tables, kept}
use shared_bike_refactor.Gateway.Engine.Held.{Held, HeldBy}

abbrev pub recv_done : Connection → Connection
recv_done conn = record conn { recv_op = none; pending_ops = conn.pending_ops - 1 }

abbrev pub send_done : Connection → Connection
send_done conn = record conn {
  send_op = none;
  pending_ops = conn.pending_ops - 1;
  send_active = false;
}

count_busy : {o : ℕ} (r : Option ℕ) → r ≡ some o → count r ≡ 1
count_busy r h = rw h refl

module _ (limit : ℕ) where
  pub end_recv-Held :
      (o c : ℕ) (e : Engine) (conn : Connection)
      → IsValid limit none e
      → lookup o e.ops ≡ some (recv c)
      → lookup c e.conns ≡ some conn
      → conn.recv_op ≡ some o
      → HeldBy limit c (put (recv_done conn) (end_op o e)) (recv_done conn) (recv_done conn)
  unfolding put end_op
  end_recv-Held o c e conn v was at mine =
      let done = recv_done conn in
      let before = v.linked c conn at in
      let link : LinkOf limit (erase o e.ops) e.next_conn_id c done = record {
        same = before.same;
        below = before.below;
        counted = omega (arith, before.counted, count_busy conn.recv_op mine);
        receives = λ i eq. absurd cc;
        sends = λ i eq. kept e.ops o i (recv c) (send c) was (λ eq'. cc) (before.sends i eq);
        sending = before.sending;
        measured = before.measured;
        bounded = before.bounded;
      } in
      subst
        (λ i.
          Held limit c (insert i done e.conns) e.next_conn_id (erase o e.ops) e.next_op done done)
        (sym before.same)
        (record {
          tables = end_recv-Tables o c conn done (begin_busy c v) at was link refl;
          located = lookup-insert_self c done e.conns;
          link = link;
          same_recv = refl;
          same_send = refl;
        })

  pub end_send-Held :
      (o c : ℕ) (e : Engine) (conn : Connection)
      → IsValid limit none e
      → lookup o e.ops ≡ some (send c)
      → lookup c e.conns ≡ some conn
      → conn.send_op ≡ some o
      → HeldBy limit c (put (send_done conn) (end_op o e)) (send_done conn) (send_done conn)
  unfolding put end_op
  end_send-Held o c e conn v was at mine =
      let done = send_done conn in
      let before = v.linked c conn at in
      let link : LinkOf limit (erase o e.ops) e.next_conn_id c done = record {
        same = before.same;
        below = before.below;
        counted = omega (arith, before.counted, count_busy conn.send_op mine);
        receives = λ i eq. kept e.ops o i (send c) (recv c) was (λ eq'. cc) (before.receives i eq);
        sends = λ i eq. absurd cc;
        sending = refl;
        measured = before.measured;
        bounded = before.bounded;
      } in
      subst
        (λ i.
          Held limit c (insert i done e.conns) e.next_conn_id (erase o e.ops) e.next_op done done)
        (sym before.same)
        (record {
          tables = end_send-Tables o c conn done (begin_busy c v) at was link refl;
          located = lookup-insert_self c done e.conns;
          link = link;
          same_recv = refl;
          same_send = refl;
        })
