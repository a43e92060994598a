-- ===== src/Gateway/Engine/Submission.antt =====
-- The submissions of server/src/gateway/uring_engine.cpp, and the life of a connection, keep the tables.
use shared_bike_refactor.Base.{
  ℕ, ◌+◌, ◌≡◌, refl, sym, ◌∙◌, Bool, true, false, Option, none, some, List, [], ◌∷◌, ◌++◌, length,
  arith, ltb, if◌then◌else◌, Bool-cases, inl, inr, ◌⊎◌, length-append,
}
use shared_bike_refactor.Base.Dict.{Bytes, nat_key}
use shared_bike_refactor.Gateway.Connection.{
  Connection, ConnState, active, parsing, closing, rx_prepare, send_push,
}
use shared_bike_refactor.Gateway.Connection.Backlog.{stream}
use shared_bike_refactor.Gateway.Engine.{
  UringOp, Engine, GatewayOptions, has_room, get_sqe, submit, start_op, put, submit_recv,
  submit_send, submit_cancel, close_conn, is_closing, push_response,
}
use shared_bike_refactor.Gateway.Engine.Invariant.{
  is_some, LinkOf, IsValid, Owned, Agrees, AgreesOf, end_busy,
}
use shared_bike_refactor.Gateway.Engine.Operations.{start-Tables}
use shared_bike_refactor.Gateway.Engine.Held.{
  HeldBy, put-Held, renew, maybe_finalize-IsValid, active-Agrees, armed_recv, armed_send,
  arm_recv-Held, arm_send-Held,
}

-- Both branches of a test.
pub if-IsValid :
    {limit : ℕ} {busy : Option ℕ} (b : Bool) (x y : Engine)
    → (b ≡ true → IsValid limit busy x)
    → (b ≡ false → IsValid limit busy y)
    → IsValid limit busy (if b then x else y)
if-IsValid true x y yes_case no_case = yes_case refl
if-IsValid false x y yes_case no_case = no_case refl

module _ (room : ℕ → Bool) (clock : ℕ → ℕ) (opt : GatewayOptions) where
  pub submit-IsValid :
      (op : UringOp) (busy : Option ℕ) (e : Engine)
      → IsValid opt.send_backlog_limit busy e
      → Owned e.conns e.next_op op
      → IsValid opt.send_backlog_limit busy (submit room clock opt op e)
  unfolding submit get_sqe start_op
  submit-IsValid op busy e v own = elim (Bool-cases (has_room room clock opt e)) [
    | inl has ↦ rw has (start-Tables op v own)
    | inr full ↦ rw full v
  ]

  cancel-Held :
      (c : ℕ) (r : Option ℕ) (e : Engine) (conn : Connection)
      → HeldBy opt.send_backlog_limit c e conn conn
      → HeldBy opt.send_backlog_limit c (submit_cancel room clock opt r e) conn conn
  unfolding submit_cancel get_sqe
  cancel-Held c none e conn h = h
  cancel-Held c (some o) e conn h = h

  pub close_conn-IsValid :
      (c : ℕ) (e : Engine) (old conn : Connection)
      → HeldBy opt.send_backlog_limit c e old conn
      → is_closing conn.state ≡ false
      → IsValid opt.send_backlog_limit none (close_conn room clock opt conn e)
  unfolding close_conn
  close_conn-IsValid c e old conn h up =
      let shut = record conn { state = closing } in
      let held =
        put-Held opt.send_backlog_limit c e old shut
          (renew opt.send_backlog_limit c e old conn shut h h.link refl refl) in
      rw up (
        maybe_finalize-IsValid opt.send_backlog_limit c _ shut
          (cancel-Held c conn.send_op _ shut (cancel-Held c conn.recv_op _ shut held)) refl)

  -- A submission that has room puts the connection in order; one without leaves it to the caller.
  pub submit_recv-IsValid :
      (c : ℕ) (e : Engine) (old conn : Connection)
      → HeldBy opt.send_backlog_limit c e old conn
      → conn.state ≡ active
      → conn.recv_op ≡ none
      → let (ok, conn', e') = submit_recv room clock opt conn e in
        ((ok ≡ true) × IsValid opt.send_backlog_limit none e')
        ⊎ ((ok ≡ false)
            × HeldBy opt.send_backlog_limit c e' conn' conn'
            × (is_closing conn'.state ≡ false)
            × (conn'.recv_op ≡ none)
            × (conn'.send_op ≡ conn.send_op))
  unfolding submit_recv rx_prepare get_sqe start_op put
  submit_recv-IsValid c e old conn h up idle =
      let ready = rx_prepare conn opt.rx_buf_bytes in
      let held =
        put-Held opt.send_backlog_limit c e old ready
          (renew opt.send_backlog_limit c e old conn ready h h.link refl refl) in
      let free_entry = (get_sqe room clock opt (put ready e)).1 in
      elim (Bool-cases (has_room room clock opt (put ready e))) [
        | inl has ↦ rw has (
            inl (
              refl,
              let h' = arm_recv-Held opt.send_backlog_limit c free_entry ready held idle in
                  end_busy c (armed_recv ready free_entry) h'.tables h'.located
                    (active-Agrees (armed_recv ready free_entry) up refl),
            ))
        | inr full ↦ rw full (inr (refl, held, rw up refl, idle, refl))
      ]

  -- The state of a connection that is not closing says nothing of the number of its operations.
  more-Agrees :
      (st : ConnState) (r : Option ℕ) (k : ℕ)
      → is_closing st ≡ false
      → Agrees st r k
      → Agrees st r (k + 1)
  more-Agrees active r k up ok = ok
  more-Agrees parsing r k up ok = ok
  more-Agrees closing r k up ok = cc

  pub submit_send-IsValid :
      (c : ℕ) (e : Engine) (conn : Connection)
      → HeldBy opt.send_backlog_limit c e conn conn
      → is_closing conn.state ≡ false
      → AgreesOf conn
      → conn.send_op ≡ none
      → IsValid opt.send_backlog_limit none (submit_send room clock opt conn e).2
  unfolding submit_send get_sqe start_op put
  submit_send-IsValid c e conn h up ok idle =
      let entry = (get_sqe room clock opt e).1 in
      elim (Bool-cases (has_room room clock opt e)) [
        | inl has ↦
            let armed = armed_send conn entry in
            let h' = arm_send-Held opt.send_backlog_limit c entry conn h idle in
            rw has (
              end_busy c armed h'.tables h'.located
                (more-Agrees conn.state conn.recv_op conn.pending_ops up ok))
        | inr full ↦ rw full (end_busy c conn h.tables h.located ok)
      ]

  no_send : (s : Option ℕ) → is_some s ≡ false → s ≡ none
  no_send none h = refl
  no_send (some o) h = cc

  stream-push :
      (q : List Bytes) (b : Bytes) → length (stream (q ++ (b ∷ []))) ≡ length (stream q) + length b
  stream-push [] b = omega (arith, length-append b [])
  stream-push (x ∷ q) b =
      omega (
        arith,
        length-append x (stream (q ++ (b ∷ []))),
        length-append x (stream q),
        stream-push q b,
      )

  pub push_response-IsValid :
      (c : ℕ) (e : Engine) (conn : Connection) (frame : Bytes)
      → HeldBy opt.send_backlog_limit c e conn conn
      → is_closing conn.state ≡ false
      → AgreesOf conn
      → IsValid opt.send_backlog_limit none (push_response room clock opt conn frame e)
  unfolding push_response send_push
  push_response-IsValid c e conn frame h up ok =
      if-IsValid (ltb opt.send_backlog_limit (conn.send_bytes + length frame)) _ _
        (λ over. close_conn-IsValid c e conn conn h up)
        (λ fits.
          let queued = send_push conn frame in
          let link : LinkOf opt.send_backlog_limit e.ops e.next_conn_id c queued = record {
            same = h.link.same;
            below = h.link.below;
            counted = h.link.counted;
            receives = h.link.receives;
            sends = h.link.sends;
            sending = h.link.sending;
            measured = omega (arith, h.link.measured, stream-push conn.send_q frame);
            bounded = ground (arith, fits);
          } in
          let h' =
            put-Held opt.send_backlog_limit c e conn queued
              (renew opt.send_backlog_limit c e conn conn queued h link refl refl) in
          if-IsValid conn.send_active _ _ (λ busy. end_busy c queued h'.tables h'.located ok)
            (λ quiet.
              submit_send-IsValid c _ queued h' up ok
                (no_send conn.send_op (sym h.link.sending ∙ quiet))))
