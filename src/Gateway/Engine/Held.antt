-- ===== src/Gateway/Engine/Held.antt =====
-- A connection that a handler of server/src/gateway/uring_engine.cpp works on.
use shared_bike_refactor.Base.{
  ℕ, ◌+◌, ◌≡◌, refl, sym, ◌∙◌, true, Option, none, some, arith, ltb, Bool-cases, inl, inr, subst,
}
use shared_bike_refactor.Base.Dict.{Dict, nat_key, lookup, insert, erase, lookup-insert_self}
use shared_bike_refactor.Gateway.Connection.{Connection, active, closing}
use shared_bike_refactor.Gateway.Engine.{
  UringOp, recv, send, Engine, start_op, put, free, maybe_finalize,
}
use shared_bike_refactor.Gateway.Engine.Invariant.{
  count, is_some, LinkOf, Tables, IsValid, Agrees, AgreesOf, end_busy, put-Tables,
}
use shared_bike_refactor.Gateway.Engine.Operations.{
  start_recv-Tables, start_send-Tables, started_link,
}
use shared_bike_refactor.Gateway.Engine.Lifetime.{free-Tables}

-- The connection `conn` is stored under `c`, of which a handler may have a newer value `new` with the
-- same operations.
pub record Held (limit c : ℕ) (conns : Dict ℕ Connection) (n : ℕ) (ops : Dict ℕ UringOp) (m : ℕ)
    (old new : Connection) : Type 0 where
  pub tables : Tables limit (some c) conns n ops m
  pub located : lookup c conns ≡ some old
  pub link : LinkOf limit ops n c new
  pub same_recv : new.recv_op ≡ old.recv_op
  pub same_send : new.send_op ≡ old.send_op

abbrev pub HeldBy : ℕ → ℕ → Engine → Connection → Connection → Type 0
HeldBy limit c e old new = Held limit c e.conns e.next_conn_id e.ops e.next_op old new

count_idle : (r : Option ℕ) → r ≡ none → count r ≡ 0
count_idle r h = rw h refl

pub active-Agrees :
    (conn : Connection) → conn.state ≡ active → is_some conn.recv_op ≡ true → AgreesOf conn
active-Agrees conn up r = subst (λ st. Agrees st conn.recv_op conn.pending_ops) (sym up) r

abbrev pub armed_recv : Connection → Engine → Connection
armed_recv conn e = record conn { recv_op = some e.next_op; pending_ops = conn.pending_ops + 1 }

abbrev pub armed_send : Connection → Engine → Connection
armed_send conn e = record conn {
  send_op = some e.next_op;
  pending_ops = conn.pending_ops + 1;
  send_active = true;
}

module _ (limit c : ℕ) where
  pub hold :
      (e : Engine) (conn : Connection)
      → IsValid limit (some c) e
      → lookup c e.conns ≡ some conn
      → HeldBy limit c e conn conn
  hold e conn v at = record {
    tables = v;
    located = at;
    link = v.linked c conn at;
    same_recv = refl;
    same_send = refl;
  }

  -- Once the newer value is stored.
  pub put-Held :
      (e : Engine) (old new : Connection)
      → HeldBy limit c e old new
      → HeldBy limit c (put new e) new new
  unfolding put
  put-Held e old new h = record {
    tables =
        subst (λ i. Tables limit (some c) (insert i new e.conns) e.next_conn_id e.ops e.next_op)
          (sym h.link.same)
          (put-Tables c old new h.tables h.located h.link h.same_recv h.same_send);
    located =
        subst (λ i. lookup c (insert i new e.conns) ≡ some new) (sym h.link.same)
          (lookup-insert_self c new e.conns);
    link = h.link;
    same_recv = refl;
    same_send = refl;
  }

  -- A still newer value.
  pub renew :
      (e : Engine) (old conn new : Connection)
      → HeldBy limit c e old conn
      → LinkOf limit e.ops e.next_conn_id c new
      → new.recv_op ≡ conn.recv_op
      → new.send_op ≡ conn.send_op
      → HeldBy limit c e old new
  renew e old conn new h link r s = record {
    tables = h.tables;
    located = h.located;
    link = link;
    same_recv = r ∙ h.same_recv;
    same_send = s ∙ h.same_send;
  }

  Link-armed_recv :
      (e : Engine) (conn : Connection)
      → HeldBy limit c e conn conn
      → conn.recv_op ≡ none
      → LinkOf limit (insert e.next_op (recv c) e.ops) e.next_conn_id c (armed_recv conn e)
  Link-armed_recv e conn h idle =
      let before = started_link (recv c) c conn h.tables h.link in
      record {
        same = before.same;
        below = before.below;
        counted = omega (arith, before.counted, count_idle conn.recv_op idle);
        receives = λ o eq.
            let at : e.next_op ≡ o = cc in
            subst (λ i. lookup i (insert e.next_op (recv c) e.ops) ≡ some (recv c)) at
              (lookup-insert_self e.next_op (recv c) e.ops);
        sends = before.sends;
        sending = before.sending;
        measured = before.measured;
        bounded = before.bounded;
      }

  -- The receive has started.
  pub arm_recv-Held :
      (e : Engine) (conn : Connection)
      → HeldBy limit c e conn conn
      → conn.recv_op ≡ none
      → HeldBy limit c
          (put (armed_recv conn e) (start_op (recv conn.conn_id) e))
          (armed_recv conn e)
          (armed_recv conn e)
  unfolding put start_op
  arm_recv-Held e conn h idle =
      let armed = armed_recv conn e in
      let link = Link-armed_recv e conn h idle in
      let tables = start_recv-Tables c conn armed h.tables h.located idle link refl refl in
      subst
        (λ i.
          Held limit c (insert i armed e.conns) e.next_conn_id (insert e.next_op (recv i) e.ops)
            (e.next_op + 1) armed armed)
        (sym h.link.same)
        (record {
          tables = tables;
          located = lookup-insert_self c armed e.conns;
          link = link;
          same_recv = refl;
          same_send = refl;
        })

  no_ops : (r s : Option ℕ) → 0 ≡ count r + count s → (r ≡ none) × (s ≡ none)
  no_ops none none h = (refl, refl)
  no_ops none (some y) h = absurd (omega (arith, h))
  no_ops (some x) s h = absurd (omega (arith, h))

  pub maybe_finalize-IsValid :
      (e : Engine) (conn : Connection)
      → HeldBy limit c e conn conn
      → conn.state ≡ closing
      → IsValid limit none (maybe_finalize conn e)
  unfolding maybe_finalize free
  maybe_finalize-IsValid e conn h shut = elim (Bool-cases (ltb 0 conn.pending_ops)) [
    | inl more ↦
        rw (shut, more)
          (end_busy c conn h.tables h.located (
            subst (λ st. Agrees st conn.recv_op conn.pending_ops) (sym shut)
              (ground (arith, more))))
    | inr done ↦
        let (r, s) = no_ops conn.recv_op conn.send_op (ground (arith, h.link.counted, done)) in
        rw (shut, done)
          (subst (λ i. Tables limit none (erase i e.conns) e.next_conn_id e.ops e.next_op)
            (sym h.link.same) (free-Tables c conn h.tables h.located r s))
  ]

  Link-armed_send :
      (e : Engine) (conn : Connection)
      → HeldBy limit c e conn conn
      → conn.send_op ≡ none
      → LinkOf limit (insert e.next_op (send c) e.ops) e.next_conn_id c (armed_send conn e)
  Link-armed_send e conn h idle =
      let before = started_link (send c) c conn h.tables h.link in
      record {
        same = before.same;
        below = before.below;
        counted = omega (arith, before.counted, count_idle conn.send_op idle);
        receives = before.receives;
        sends = λ o eq.
            let at : e.next_op ≡ o = cc in
            subst (λ i. lookup i (insert e.next_op (send c) e.ops) ≡ some (send c)) at
              (lookup-insert_self e.next_op (send c) e.ops);
        sending = refl;
        measured = before.measured;
        bounded = before.bounded;
      }

  -- The send has started.
  pub arm_send-Held :
      (e : Engine) (conn : Connection)
      → HeldBy limit c e conn conn
      → conn.send_op ≡ none
      → HeldBy limit c
          (put (armed_send conn e) (start_op (send conn.conn_id) e))
          (armed_send conn e)
          (armed_send conn e)
  unfolding put start_op
  arm_send-Held e conn h idle =
      let armed = armed_send conn e in
      let link = Link-armed_send e conn h idle in
      let tables = start_send-Tables c conn armed h.tables h.located idle link refl refl in
      subst
        (λ i.
          Held limit c (insert i armed e.conns) e.next_conn_id (insert e.next_op (send i) e.ops)
            (e.next_op + 1) armed armed)
        (sym h.link.same)
        (record {
          tables = tables;
          located = lookup-insert_self c armed e.conns;
          link = link;
          same_recv = refl;
          same_send = refl;
        })
