-- ===== src/Gateway/Engine/Lifetime.antt =====
-- The tables of server/src/gateway/uring_engine.cpp when a connection is made or freed.
use shared_bike_refactor.Base.{ℕ, ◌+◌, ◌≡◌, ◌≢◌, sym, ap, ◌∙◌, Option, none, some, arith}
use shared_bike_refactor.Base.Dict.{Dict, nat_key, lookup, insert, erase, lookup-erase_ne}
use shared_bike_refactor.Gateway.Connection.{Connection}
use shared_bike_refactor.Gateway.Engine.{UringOp, accept, wakeup, stop, rsp_notify, recv, send}
use shared_bike_refactor.Gateway.Engine.Invariant.{
  LinkOf, Tables, Owned, Owned-insert, begin_busy, store, owned_recv, owned_send,
}
use shared_bike_refactor.Gateway.Engine.Operations.{erase_kept}

Link-below :
    {limit n : ℕ} (ops : Dict ℕ UringOp) (c : ℕ) (conn : Connection)
    → LinkOf limit ops n c conn
    → LinkOf limit ops (n + 1) c conn
Link-below ops c conn link = record {
  same = link.same;
  below = omega (arith, link.below);
  counted = link.counted;
  receives = link.receives;
  sends = link.sends;
  sending = link.sending;
  measured = link.measured;
  bounded = link.bounded;
}

-- What is owned by other connections than the one that is freed.
Owned-erase :
    (conns : Dict ℕ Connection) (c o : ℕ) (op : UringOp)
    → Owned conns o op
    → op ≢ recv c
    → op ≢ send c
    → Owned (erase c conns) o op
Owned-erase conns c o (recv d) (conn, at, e) r s =
    (conn, lookup-erase_ne c d conns (λ h. r (ap recv (sym h))) ∙ at, e)
Owned-erase conns c o (send d) (conn, at, e) r s =
    (conn, lookup-erase_ne c d conns (λ h. s (ap send (sym h))) ∙ at, e)
Owned-erase conns c o accept h r s = tt
Owned-erase conns c o wakeup h r s = tt
Owned-erase conns c o stop h r s = tt
Owned-erase conns c o rsp_notify h r s = tt

differ_none : {r : Option ℕ} {o : ℕ} → r ≡ none → r ≢ some o
differ_none h k = cc

module _ {limit n m : ℕ} {conns : Dict ℕ Connection} {ops : Dict ℕ UringOp} where
  -- A connection without operations is freed.
  pub free-Tables :
      (c : ℕ) (old : Connection)
      → Tables limit (some c) conns n ops m
      → lookup c conns ≡ some old
      → old.recv_op ≡ none
      → old.send_op ≡ none
      → Tables limit none (erase c conns) n ops m
  free-Tables c old v at r s = record {
    linked = λ d conn there. v.linked d conn (erase_kept conns c d conn there).1;
    agrees = λ d conn _ there.
        let (differ, before) = erase_kept conns c d conn there in
        v.agrees d conn (λ e. differ cc) before;
    owned = λ o op there.
        let (lt, own) = v.owned o op there in
        (
          lt,
          Owned-erase conns c o op own
              (λ e. differ_none r (owned_recv c old o v at (there ∙ ap some e)))
              (λ e. differ_none s (owned_send c old o v at (there ∙ ap some e))),
        );
  }

  -- No operation belongs to the connection that is made next.
  unborn :
      (o : ℕ) (op : UringOp)
      → Tables limit none conns n ops m
      → Owned conns o op
      → (op ≢ recv n) × (op ≢ send n)
  unborn o (recv d) v (conn, at, _) = (
    λ e. let same : d ≡ n = cc in absurd (omega (arith, (v.linked d conn at).below, same)),
    λ e. cc,
  )
  unborn o (send d) v (conn, at, _) = (
    λ e. cc,
    λ e. let same : d ≡ n = cc in absurd (omega (arith, (v.linked d conn at).below, same)),
  )
  unborn o accept v h = (λ e. cc, λ e. cc)
  unborn o wakeup v h = (λ e. cc, λ e. cc)
  unborn o stop v h = (λ e. cc, λ e. cc)
  unborn o rsp_notify v h = (λ e. cc, λ e. cc)

  -- A connection is made under the next number.
  pub make-Tables :
      (new : Connection)
      → Tables limit none conns n ops m
      → LinkOf limit ops (n + 1) n new
      → Tables limit (some n) (insert n new conns) (n + 1) ops m
  make-Tables new v link =
      store n new (begin_busy n v) link
        (λ d conn h there. Link-below ops d conn (v.linked d conn there))
        (λ o op there.
          let (lt, own) = v.owned o op there in
          let (r, s) = unborn o op v own in
          (lt, Owned-insert conns n new o op own (λ e. absurd (r e)) (λ e. absurd (s e))))
