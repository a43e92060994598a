-- ===== src/Gateway/Engine/Completion.antt =====
-- Each completion of server/src/gateway/uring_engine.cpp finds its connection and keeps the tables.
use shared_bike_refactor.Base.{
  ℕ, zero, suc, ◌+◌, ◌-◌, ◌≡◌, refl, ap, Bool, true, false, Option, none, some, length, arith, ltb,
  length-drop,
}
use shared_bike_refactor.Base.Int.{ℤ, pos, negsuc}
use shared_bike_refactor.Base.Dict.{Bytes, nat_key, lookup}
use shared_bike_refactor.Protocol.{header_len, max_message_len}
use shared_bike_refactor.Gateway.Connection.{
  Connection, ConnState, active, parsing, closing, rx_write, rx_commit, rx_take, send_pop,
  send_pending,
}
use shared_bike_refactor.Gateway.Connection.Backlog.{stream, send_pop-stream}
use shared_bike_refactor.Gateway.Engine.{recv, send, Engine, GatewayOptions, put, is_closing}
use shared_bike_refactor.Gateway.Engine.Loop.{
  received, recv_result, complete_recv, sent, send_result, complete_send,
}
use shared_bike_refactor.Gateway.Engine.Invariant.{LinkOf, IsValid, Agrees, AgreesOf, end_busy}
use shared_bike_refactor.Gateway.Engine.Held.{HeldBy, put-Held, renew, maybe_finalize-IsValid}
use shared_bike_refactor.Gateway.Engine.Submission.{
  if-IsValid, close_conn-IsValid, submit_send-IsValid,
}
use shared_bike_refactor.Gateway.Engine.Ended.{recv_done, send_done, end_recv-Held, end_send-Held}

-- A handler that ran to its end, with the tables in order.
abbrev pub Runs : ℕ → Option Engine → Type 0
Runs limit none = ⊥
Runs limit (some e) = IsValid limit none e

pub closing_sound : (st : ConnState) → is_closing st ≡ true → st ≡ closing
closing_sound active h = cc
closing_sound parsing h = cc
closing_sound closing h = refl

module _ (room : ℕ → Bool) (clock : ℕ → ℕ) (opt : GatewayOptions) where
  received-IsValid :
      (c n : ℕ) (bytes : Bytes) (e : Engine) (conn : Connection)
      → HeldBy opt.send_backlog_limit c e conn conn
      → is_closing conn.state ≡ false
      → conn.recv_op ≡ none
      → IsValid opt.send_backlog_limit none (received room clock opt n bytes conn e)
  unfolding received rx_write rx_commit rx_take
  received-IsValid c n bytes e conn h up idle =
      let full = record (rx_commit (rx_write conn bytes) n) { last_active = clock e.tick } in
      let h' =
        put-Held opt.send_backlog_limit c e conn full
          (renew opt.send_backlog_limit c e conn conn full h h.link refl refl) in
      let busy = record (rx_take full opt.rx_buf_bytes).1 { state = parsing } in
      let h'' =
        put-Held opt.send_backlog_limit c (put full e) full busy
          (renew opt.send_backlog_limit c (put full e) full full busy h' h.link refl refl) in
      if-IsValid (ltb (header_len + max_message_len + opt.rx_buf_bytes) full.rx_len) _ _
        (λ over. close_conn-IsValid room clock opt c _ full full h' up)
        (λ fits. end_busy c busy h''.tables h''.located idle)

  recv_result-IsValid :
      (c : ℕ) (res : ℤ) (bytes : Bytes) (e : Engine) (conn : Connection)
      → HeldBy opt.send_backlog_limit c e conn conn
      → is_closing conn.state ≡ false
      → conn.recv_op ≡ none
      → IsValid opt.send_backlog_limit none (recv_result room clock opt res bytes conn e)
  unfolding recv_result
  recv_result-IsValid c (negsuc _) bytes e conn h up idle =
      close_conn-IsValid room clock opt c e conn conn h up
  recv_result-IsValid c (pos zero) bytes e conn h up idle =
      close_conn-IsValid room clock opt c e conn conn h up
  recv_result-IsValid c (pos (suc n)) bytes e conn h up idle =
      received-IsValid c (suc n) bytes e conn h up idle

  pub complete_recv-Runs :
      (o c : ℕ) (res : ℤ) (bytes : Bytes) (e : Engine)
      → IsValid opt.send_backlog_limit none e
      → lookup o e.ops ≡ some (recv c)
      → Runs opt.send_backlog_limit (complete_recv room clock opt o c res bytes e)
  unfolding complete_recv
  complete_recv-Runs o c res bytes e v was =
      let (conn, at, mine) = (v.owned o (recv c) was).1 in
      let h = end_recv-Held opt.send_backlog_limit o c e conn v was at mine in
      let idle = recv_done conn in
      rw (at, Runs)
        (if-IsValid (is_closing conn.state) _ _
          (λ shut.
            maybe_finalize-IsValid opt.send_backlog_limit c _ idle h
              (closing_sound conn.state shut))
          (λ up. recv_result-IsValid c res bytes _ idle h up refl))

  sent-IsValid :
      (c n : ℕ) (e : Engine) (conn : Connection)
      → HeldBy opt.send_backlog_limit c e conn conn
      → is_closing conn.state ≡ false
      → AgreesOf conn
      → conn.send_op ≡ none
      → IsValid opt.send_backlog_limit none (sent room clock opt n conn e)
  unfolding sent send_pop
  sent-IsValid c n e conn h up ok idle =
      let popped = record (send_pop conn n) { last_active = clock e.tick } in
      let (drops, counts) = send_pop-stream conn n h.link.measured in
      let link : LinkOf opt.send_backlog_limit e.ops e.next_conn_id c popped = record {
        same = h.link.same;
        below = h.link.below;
        counted = h.link.counted;
        receives = h.link.receives;
        sends = h.link.sends;
        sending = h.link.sending;
        measured = counts;
        bounded = omega (
          arith,
          counts,
          h.link.measured,
          h.link.bounded,
          ap length drops,
          length-drop n (stream conn.send_q),
        );
      } in
      let h' =
        put-Held opt.send_backlog_limit c e conn popped
          (renew opt.send_backlog_limit c e conn conn popped h link refl refl) in
      if-IsValid (send_pending popped) _ _
        (λ more. submit_send-IsValid room clock opt c _ popped h' up ok idle)
        (λ done. end_busy c popped h'.tables h'.located ok)

  -- A connection that had a send in flight agrees with its state without it.
  less-Agrees :
      (st : ConnState) (r : Option ℕ) (k : ℕ)
      → is_closing st ≡ false
      → Agrees st r k
      → Agrees st r (k - 1)
  less-Agrees active r k up ok = ok
  less-Agrees parsing r k up ok = ok
  less-Agrees closing r k up ok = cc

  send_result-IsValid :
      (c : ℕ) (res : ℤ) (e : Engine) (conn : Connection)
      → HeldBy opt.send_backlog_limit c e conn conn
      → is_closing conn.state ≡ false
      → AgreesOf conn
      → conn.send_op ≡ none
      → IsValid opt.send_backlog_limit none (send_result room clock opt res conn e)
  unfolding send_result
  send_result-IsValid c (negsuc _) e conn h up ok idle =
      close_conn-IsValid room clock opt c e conn conn h up
  send_result-IsValid c (pos n) e conn h up ok idle = sent-IsValid c n e conn h up ok idle

  pub complete_send-Runs :
      (o c : ℕ) (res : ℤ) (e : Engine)
      → IsValid opt.send_backlog_limit none e
      → lookup o e.ops ≡ some (send c)
      → Runs opt.send_backlog_limit (complete_send room clock opt o c res e)
  unfolding complete_send
  complete_send-Runs o c res e v was =
      let (conn, at, mine) = (v.owned o (send c) was).1 in
      let h = end_send-Held opt.send_backlog_limit o c e conn v was at mine in
      let idle = send_done conn in
      let ok = v.agrees c conn (λ eq. cc) at in
      rw (at, Runs)
        (if-IsValid (is_closing conn.state) _ _
          (λ shut.
            maybe_finalize-IsValid opt.send_backlog_limit c _ idle h
              (closing_sound conn.state shut))
          (λ up.
            send_result-IsValid c res _ idle h up
              (less-Agrees conn.state conn.recv_op conn.pending_ops up ok) refl))
