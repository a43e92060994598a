-- ===== src/Gateway/Engine/Closing.antt =====
-- A closing connection on its way out (server/src/gateway/uring_engine.cpp).
use shared_bike_refactor.Base.{
  ℕ, ◌+◌, ◌-◌, ◌<◌, ◌≡◌, ◌⊎◌, refl, sym, subst, Bool, true, false, none, some, [], ◌∷◌, ◌++◌, ap,
  ltb, arith, Bool-cases, inl, inr, ◌∙◌,
}
use shared_bike_refactor.Base.Dict.{
  nat_key, lookup, insert, erase, lookup-insert_self, lookup-erase_self,
}
use shared_bike_refactor.Gateway.Connection.{Connection, ConnState, closing}
use shared_bike_refactor.Gateway.Engine.{
  UringOp, recv, send, Engine, GatewayOptions, put, end_op, free, maybe_finalize, is_closing,
}
use shared_bike_refactor.Gateway.Engine.Loop.{complete_recv, complete_send}
use shared_bike_refactor.Gateway.Engine.Turn.{Cqe, on_cqe}
use shared_bike_refactor.Gateway.Engine.Steps.{Reach, start}
use shared_bike_refactor.Gateway.Engine.Invariant.{Agrees}
use shared_bike_refactor.Gateway.Engine.Safety.{reach-IsValid}

-- From `e` to `e'`, under the number `c` of the connection `conn`: with its last operation it is gone and
-- its descriptor closed; before that it still closes, with one operation less in flight, and no
-- descriptor is closed.
abbrev pub IsNearer : ℕ → Connection → Engine → Engine → Type 0
IsNearer c conn e e' =
    ((conn.pending_ops ≡ 1) × (lookup c e'.conns ≡ none) × (e'.closed ≡ e.closed ++ (conn.fd ∷ [])))
    ⊎ ((conn' : Connection) × (lookup c e'.conns ≡ some conn')
        × (conn'.state ≡ closing)
        × (0 < conn'.pending_ops)
        × (conn'.pending_ops + 1 ≡ conn.pending_ops)
        × (e'.closed ≡ e.closed))

closing_flag : (st : ConnState) → st ≡ closing → is_closing st ≡ true
closing_flag st h = rw h refl

finalized :
    (c : ℕ) (old conn : Connection) (o : ℕ) (e : Engine)
    → conn.conn_id ≡ c
    → conn.state ≡ closing
    → conn.fd ≡ old.fd
    → conn.pending_ops + 1 ≡ old.pending_ops
    → IsNearer c old e (maybe_finalize conn (put conn (end_op o e)))
unfolding maybe_finalize put free end_op
finalized c old conn o e id shut fd count =
    let flag = closing_flag conn.state shut in
    elim (Bool-cases (ltb 0 conn.pending_ops)) [
      | inl more ↦
          rw (flag, more)
            (inr (
              conn,
              subst (λ i. lookup c (insert i conn e.conns) ≡ some conn) (sym id)
                  (lookup-insert_self c conn e.conns),
              shut,
              ground (arith, more),
              count,
              refl,
            ))
      | inr done ↦
          rw (flag, done)
            (inl (
              ground (arith, done, count),
              subst (λ i. lookup c (erase i (insert i conn e.conns)) ≡ none) (sym id)
                  (lookup-erase_self c (insert c conn e.conns)),
              ap (λ d. e.closed ++ (d ∷ [])) fd,
            ))
    ]

some_value : {x y : Engine} → some x ≡ some y → x ≡ y
some_value h = cc

module _ (room : ℕ → Bool) (clock : ℕ → ℕ) (opt : GatewayOptions) where
  recv_closing :
      (o c : ℕ) (cqe : Cqe) (e : Engine) (conn : Connection) (e' : Engine)
      → lookup c e.conns ≡ some conn
      → conn.state ≡ closing
      → on_cqe room clock opt o (recv c) cqe e ≡ some e'
      → let idle = record conn { recv_op = none; pending_ops = conn.pending_ops - 1 } in
        maybe_finalize idle (put idle (end_op o e)) ≡ e'
  unfolding on_cqe complete_recv
  recv_closing o c cqe e conn e' at shut runs =
      let flag = closing_flag conn.state shut in
      some_value (sym (rw (at, flag, on_cqe, complete_recv) refl) ∙ runs)

  send_closing :
      (o c : ℕ) (cqe : Cqe) (e : Engine) (conn : Connection) (e' : Engine)
      → lookup c e.conns ≡ some conn
      → conn.state ≡ closing
      → on_cqe room clock opt o (send c) cqe e ≡ some e'
      → let idle = record conn {
        send_op = none;
        pending_ops = conn.pending_ops - 1;
        send_active = false;
      } in
        maybe_finalize idle (put idle (end_op o e)) ≡ e'
  unfolding on_cqe complete_send
  send_closing o c cqe e conn e' at shut runs =
      let flag = closing_flag conn.state shut in
      some_value (sym (rw (at, flag, on_cqe, complete_send) refl) ∙ runs)

  -- In every state that the engine can reach, the completion of an operation of a connection that closes
  -- frees the connection and closes its descriptor when it is the last one in flight; before that it
  -- leaves the connection closing with one operation less in flight, but one at least, and its descriptor
  -- open.
  pub on_cqe-IsNearer :
      (ring : Bool) (e e' : Engine) (o c : ℕ) (op : UringOp) (cqe : Cqe) (conn : Connection)
      → Reach room clock opt (start room clock opt ring) e
      → lookup o e.ops ≡ some op
      → (op ≡ recv c) ⊎ (op ≡ send c)
      → lookup c e.conns ≡ some conn
      → conn.state ≡ closing
      → on_cqe room clock opt o op cqe e ≡ some e'
      → IsNearer c conn e e'
  on_cqe-IsNearer ring e e' o c op cqe conn r flies which at shut runs =
      let v = reach-IsValid room clock opt ring e r in
      let link = v.linked c conn at in
      let waits : 0 < conn.pending_ops =
        subst (λ st. Agrees st conn.recv_op conn.pending_ops) shut
          (v.agrees c conn (λ eq. cc) at) in
      elim which [
        | inl is_recv ↦
            let idle = record conn { recv_op = none; pending_ops = conn.pending_ops - 1 } in
            let last = finalized c conn idle o e link.same shut refl (omega (arith, waits)) in
            subst (IsNearer c conn e)
              (recv_closing o c cqe e conn e' at shut
                (subst (λ p. on_cqe room clock opt o p cqe e ≡ some e') is_recv runs))
              last
        | inr is_send ↦
            let idle = record conn {
              send_op = none;
              pending_ops = conn.pending_ops - 1;
              send_active = false;
            } in
            let last = finalized c conn idle o e link.same shut refl (omega (arith, waits)) in
            subst (IsNearer c conn e)
              (send_closing o c cqe e conn e' at shut
                (subst (λ p. on_cqe room clock opt o p cqe e ≡ some e') is_send runs))
              last
      ]
