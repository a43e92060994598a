-- ===== src/Gateway/Engine/Accept.antt =====
-- Where server/src/gateway/uring_engine.cpp submits an accept: `complete_accept` alone, once the loop runs.
use shared_bike_refactor.Base.{
  ℕ, ◌+◌, ◌≡◌, ◌≢◌, sym, ◌∙◌, Bool, true, false, not, ◌||◌, Option, none, some, length, ltb,
  if◌then◌else◌, inl, inr, Bool-cases, ℕ_discrete,
}
use shared_bike_refactor.Base.Dict.{
  Bytes, Dict, nat_key, lookup, insert, erase, lookup-insert_self, lookup-insert_ne,
}
use shared_bike_refactor.Gateway.Connection.{Connection, closing, rx_prepare, send_push}
use shared_bike_refactor.Gateway.Engine.{
  UringOp, accept, recv, send, Engine, GatewayOptions, has_room, get_sqe, submit, start_op, put,
  free, submit_recv, submit_send, submit_cancel, maybe_finalize, close_conn, is_closing,
  push_response,
}
use shared_bike_refactor.Gateway.Engine.Operations.{erase_kept}

-- No accept is in flight.
abbrev pub NoAccept : Dict ℕ UringOp → Type 0
NoAccept ops = (o : ℕ) → lookup o ops ≢ some accept

pub insert-NoAccept :
    (m : ℕ) (op : UringOp) (ops : Dict ℕ UringOp)
    → op ≢ accept
    → NoAccept ops
    → NoAccept (insert m op ops)
insert-NoAccept m op ops other no_accept o at = elim (ℕ_discrete m o) [
  | yes same ↦
      let here : lookup o (insert m op ops) ≡ some op = rw same (lookup-insert_self o op ops) in
      other cc
  | no differ ↦ no_accept o (sym (lookup-insert_ne m o op ops differ) ∙ at)
]

pub erase-NoAccept : (o : ℕ) (ops : Dict ℕ UringOp) → NoAccept ops → NoAccept (erase o ops)
erase-NoAccept o ops no_accept i at = no_accept i (erase_kept ops o i accept at).1

pub if-NoAccept :
    (b : Bool) (x y : Engine) → NoAccept x.ops → NoAccept y.ops → NoAccept (if b then x else y).ops
if-NoAccept true x y h k = h
if-NoAccept false x y h k = k

pub maybe_finalize-NoAccept :
    (conn : Connection) (e : Engine) → NoAccept e.ops → NoAccept (maybe_finalize conn e).ops
unfolding maybe_finalize free
maybe_finalize-NoAccept conn e h =
    if-NoAccept (not (is_closing conn.state) || ltb 0 conn.pending_ops) _ _ h h

module _ (room : ℕ → Bool) (clock : ℕ → ℕ) (opt : GatewayOptions) where
  pub submit-NoAccept :
      (op : UringOp) (e : Engine)
      → op ≢ accept
      → NoAccept e.ops
      → NoAccept (submit room clock opt op e).ops
  unfolding submit get_sqe start_op
  submit-NoAccept op e other h =
      if-NoAccept (has_room room clock opt e) _ _ (insert-NoAccept e.next_op op e.ops other h) h

  pub submit_recv-NoAccept :
      (conn : Connection) (e : Engine)
      → NoAccept e.ops
      → NoAccept (submit_recv room clock opt conn e).2.ops
  unfolding submit_recv rx_prepare put start_op get_sqe
  submit_recv-NoAccept conn e h =
      let ready = rx_prepare conn opt.rx_buf_bytes in
      elim (Bool-cases (has_room room clock opt (put ready e))) [
        | inl has ↦ rw has (insert-NoAccept e.next_op (recv conn.conn_id) e.ops (λ eq. cc) h)
        | inr full ↦ rw full h
      ]

  pub submit_send-NoAccept :
      (conn : Connection) (e : Engine)
      → NoAccept e.ops
      → NoAccept (submit_send room clock opt conn e).2.ops
  unfolding submit_send put start_op get_sqe
  submit_send-NoAccept conn e h = elim (Bool-cases (has_room room clock opt e)) [
    | inl has ↦ rw has (insert-NoAccept e.next_op (send conn.conn_id) e.ops (λ eq. cc) h)
    | inr full ↦ rw full h
  ]

  cancel-NoAccept :
      (r : Option ℕ) (e : Engine) → NoAccept e.ops → NoAccept (submit_cancel room clock opt r e).ops
  unfolding submit_cancel get_sqe
  cancel-NoAccept none e h = h
  cancel-NoAccept (some o) e h = h

  pub close_conn-NoAccept :
      (conn : Connection) (e : Engine)
      → NoAccept e.ops
      → NoAccept (close_conn room clock opt conn e).ops
  unfolding close_conn put
  close_conn-NoAccept conn e h =
      let shut = record conn { state = closing } in
      let e1 = submit_cancel room clock opt shut.recv_op (put shut e) in
      if-NoAccept (is_closing conn.state) _ _ h (
        maybe_finalize-NoAccept shut (submit_cancel room clock opt shut.send_op e1)
          (cancel-NoAccept shut.send_op e1 (cancel-NoAccept shut.recv_op (put shut e) h)))

  pub push_response-NoAccept :
      (conn : Connection) (frame : Bytes) (e : Engine)
      → NoAccept e.ops
      → NoAccept (push_response room clock opt conn frame e).ops
  unfolding push_response put
  push_response-NoAccept conn frame e h =
      let queued = send_push conn frame in
      if-NoAccept (ltb opt.send_backlog_limit (conn.send_bytes + length frame)) _ _
        (close_conn-NoAccept conn e h)
        (if-NoAccept queued.send_active _ _ h (submit_send-NoAccept queued (put queued e) h))
