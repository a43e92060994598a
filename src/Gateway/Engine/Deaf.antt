-- ===== src/Gateway/Engine/Deaf.antt =====
-- An engine of server/src/gateway/uring_engine.cpp without an accept in flight.
use shared_bike_refactor.Base.{
  ℕ, zero, suc, ◌+◌, ◌-◌, ◌≡◌, ◌≢◌, ◌≤◌, refl, sym, Bool, true, false, not, ◌&&◌, ◌||◌, Option,
  none, some, List, [], ◌∷◌, ltb, leb, ◌==◌, Option-cases, inl, inr, subst, take, arith,
}
use shared_bike_refactor.Base.Dict.{Bytes, nat_key, lookup, erase}
use shared_bike_refactor.Base.Int.{ℤ, pos, negsuc}
use shared_bike_refactor.Ipc.Packet.{Slot, rsp_payload_max}
use shared_bike_refactor.Protocol.{header_len, max_message_len}
use shared_bike_refactor.Gateway.Connection.{
  Connection, active, send_pop, send_pending, rx_feed, rx_write, rx_commit, rx_take,
}
use shared_bike_refactor.Gateway.WorkerBatch.{
  OutboxItem, OutboxKind, respond, rearm_recv, close, drain,
}
use shared_bike_refactor.Gateway.Engine.{
  UringOp, accept, wakeup, stop, rsp_notify, recv, send, Engine, GatewayOptions, submit, end_op,
  put, submit_recv, close_conn, is_closing,
}
use shared_bike_refactor.Gateway.Engine.Loop.{
  is_parsing, received, recv_result, complete_recv, sent, send_result, complete_send, rearm,
  serve_item, dispatch_item, dispatch_items, drain_outbox, send_slot, send_slots, send_batches,
  complete_accept, complete_wakeup, complete_stop, complete_rsp_notify,
}
use shared_bike_refactor.Gateway.Engine.Turn.{
  Cqe, on_cqe, close_all, sweep_idle, begin_drain, reap_round, request_stop,
}
use shared_bike_refactor.Gateway.Engine.Steps.{
  Step, completes, takes, hands_back, responds, is_stopped, sweeps, drains, reaps, Reach, here,
  next,
}
use shared_bike_refactor.Gateway.Engine.Operations.{erase_kept}
use shared_bike_refactor.Gateway.Engine.Accept.{
  NoAccept, erase-NoAccept, if-NoAccept, maybe_finalize-NoAccept, submit-NoAccept,
  submit_recv-NoAccept, submit_send-NoAccept, close_conn-NoAccept, push_response-NoAccept,
}

-- The result of a handler, if it ran.
abbrev NoAcceptIn : Option Engine → Type 0
NoAcceptIn none = Unit
NoAcceptIn (some e) = NoAccept e.ops

module _ (room : ℕ → Bool) (clock : ℕ → ℕ) (opt : GatewayOptions) where
  recv_result-NoAccept :
      (res : ℤ) (bytes : Bytes) (conn : Connection) (e : Engine)
      → NoAccept e.ops
      → NoAccept (recv_result room clock opt res bytes conn e).ops
  unfolding recv_result received put rx_write rx_commit rx_take
  recv_result-NoAccept (negsuc _) bytes conn e h = close_conn-NoAccept room clock opt conn e h
  recv_result-NoAccept (pos zero) bytes conn e h = close_conn-NoAccept room clock opt conn e h
  recv_result-NoAccept (pos (suc n)) bytes conn e h =
      let full = record (rx_commit (rx_write conn bytes) (suc n)) { last_active = clock e.tick } in
      if-NoAccept (ltb (header_len + max_message_len + opt.rx_buf_bytes) full.rx_len) _ _
        (close_conn-NoAccept room clock opt full (record (put full e) { tick = e.tick + 1 }) h) h

  complete_recv-NoAccept :
      (o c : ℕ) (res : ℤ) (bytes : Bytes) (e : Engine)
      → NoAccept e.ops
      → NoAcceptIn (complete_recv room clock opt o c res bytes e)
  unfolding complete_recv put end_op
  complete_recv-NoAccept o c res bytes e h = elim (Option-cases (lookup c e.conns)) [
    | inl gone ↦ rw (gone, NoAcceptIn) tt
    | inr (conn, at) ↦
        let idle = record conn { recv_op = none; pending_ops = conn.pending_ops - 1 } in
        let e1 = put idle (end_op o e) in
        let h1 = erase-NoAccept o e.ops h in
        rw (at, NoAcceptIn)
          (if-NoAccept (is_closing conn.state) _ _ (maybe_finalize-NoAccept idle e1 h1)
            (recv_result-NoAccept res bytes idle e1 h1))
  ]

  send_result-NoAccept :
      (res : ℤ) (conn : Connection) (e : Engine)
      → NoAccept e.ops
      → NoAccept (send_result room clock opt res conn e).ops
  unfolding send_result sent put send_pop
  send_result-NoAccept (negsuc _) conn e h = close_conn-NoAccept room clock opt conn e h
  send_result-NoAccept (pos n) conn e h =
      let popped = record (send_pop conn n) { last_active = clock e.tick } in
      let e1 = record (put popped e) { tick = e.tick + 1 } in
      if-NoAccept (send_pending popped) _ _ (submit_send-NoAccept room clock opt popped e1 h) h

  complete_send-NoAccept :
      (o c : ℕ) (res : ℤ) (e : Engine)
      → NoAccept e.ops
      → NoAcceptIn (complete_send room clock opt o c res e)
  unfolding complete_send put end_op
  complete_send-NoAccept o c res e h = elim (Option-cases (lookup c e.conns)) [
    | inl gone ↦ rw (gone, NoAcceptIn) tt
    | inr (conn, at) ↦
        let idle = record conn {
          send_op = none;
          pending_ops = conn.pending_ops - 1;
          send_active = false;
        } in
        let e1 = put idle (end_op o e) in
        let h1 = erase-NoAccept o e.ops h in
        rw (at, NoAcceptIn)
          (if-NoAccept (is_closing conn.state) _ _ (maybe_finalize-NoAccept idle e1 h1)
            (send_result-NoAccept res idle e1 h1))
  ]

  serve_item-NoAccept :
      (kind : OutboxKind) (it : OutboxItem) (conn : Connection) (e : Engine)
      → it.kind ≡ kind
      → NoAccept e.ops
      → NoAccept (serve_item room clock opt it conn e).ops
  unfolding serve_item rearm rx_feed
  serve_item-NoAccept respond it conn e k h =
      rw (k, serve_item) (push_response-NoAccept room clock opt conn it.bytes e h)
  serve_item-NoAccept close it conn e k h =
      rw (k, serve_item) (close_conn-NoAccept room clock opt conn e h)
  serve_item-NoAccept rearm_recv it conn e k h =
      let fed = record (rx_feed conn it.bytes) { state = active } in
      let r = submit_recv room clock opt fed e in
      let h1 = submit_recv-NoAccept room clock opt fed e h in
      rw (k, serve_item)
        (if-NoAccept e.draining _ _ (close_conn-NoAccept room clock opt conn e h) (
          if-NoAccept (not (is_parsing conn.state)) _ _ h
            (if-NoAccept r.0 _ _ h1 (close_conn-NoAccept room clock opt r.1 r.2 h1))))

  dispatch_items-NoAccept :
      (items : List OutboxItem) (e : Engine)
      → NoAccept e.ops
      → NoAccept (dispatch_items room clock opt items e).ops
  unfolding dispatch_items dispatch_item
  dispatch_items-NoAccept [] e h = h
  dispatch_items-NoAccept (it ∷ items) e h =
      dispatch_items-NoAccept items (dispatch_item room clock opt it e)
        (elim (Option-cases (lookup it.conn_id e.conns)) [
          | inl gone ↦ rw (gone, dispatch_item) h
          | inr (conn, at) ↦
              rw (at, dispatch_item)
                (if-NoAccept (is_closing conn.state) _ _ h
                  (serve_item-NoAccept it.kind it conn e refl h))
        ])

  send_slots-NoAccept :
      (batch : List Slot) (e : Engine)
      → NoAccept e.ops
      → NoAccept (send_slots room clock opt batch e).ops
  unfolding send_slots send_slot
  send_slots-NoAccept [] e h = h
  send_slots-NoAccept (slot ∷ batch) e h =
      send_slots-NoAccept batch (send_slot room clock opt slot e) (
        if-NoAccept ((slot.pkt.payload_len == 0) || ltb rsp_payload_max slot.pkt.payload_len) _ _ h
          (elim (Option-cases (lookup slot.pkt.conn_id e.conns)) [
            | inl gone ↦ rw gone h
            | inr (conn, at) ↦ rw at (
                if-NoAccept (is_closing conn.state) _ _ h (
                  push_response-NoAccept room clock opt conn
                    (take slot.pkt.payload_len slot.payload) e h))
          ]))

  send_batches-NoAccept :
      (batches : List (List Slot)) (e : Engine)
      → NoAccept e.ops
      → NoAccept (send_batches room clock opt batches e).ops
  unfolding send_batches
  send_batches-NoAccept [] e h = h
  send_batches-NoAccept ([] ∷ batches) e h = h
  send_batches-NoAccept ((slot ∷ batch) ∷ batches) e h =
      send_batches-NoAccept batches _ (send_slots-NoAccept (slot ∷ batch) _ h)

  close_all-NoAccept :
      (ids : List ℕ) (e : Engine) → NoAccept e.ops → NoAccept (close_all room clock opt ids e).ops
  unfolding close_all
  close_all-NoAccept [] e h = h
  close_all-NoAccept (id ∷ ids) e h = elim (Option-cases (lookup id e.conns)) [
    | inl gone ↦ rw (gone, close_all) (close_all-NoAccept ids e h)
    | inr (conn, at) ↦
        rw (at, close_all)
          (close_all-NoAccept ids (close_conn room clock opt conn e)
            (close_conn-NoAccept room clock opt conn e h))
  ]

  complete_rsp_notify-NoAccept :
      (o : ℕ) (res : ℤ) (batches : List (List Slot)) (e : Engine)
      → NoAccept e.ops
      → NoAccept (complete_rsp_notify room clock opt o res batches e).ops
  unfolding complete_rsp_notify end_op
  complete_rsp_notify-NoAccept o (pos n) batches e h = send_batches-NoAccept batches _ (
      submit-NoAccept room clock opt rsp_notify (record (end_op o e) { rsp_notify_fail_streak = 0 })
        (λ eq. cc) (erase-NoAccept o e.ops h))
  complete_rsp_notify-NoAccept o (negsuc n) batches e h =
      let h1 = erase-NoAccept o e.ops h in
      let streak = e.rsp_notify_fail_streak + 1 in
      if-NoAccept (n == 124) _ _ h1 (
        if-NoAccept (leb 8 streak) _ _ h1 (
          submit-NoAccept room clock opt rsp_notify
            (record (end_op o e) { rsp_notify_fail_streak = streak }) (λ eq. cc) h1))

  on_cqe-NoAccept :
      (o : ℕ) (op : UringOp) (cqe : Cqe) (e : Engine)
      → lookup o e.ops ≡ some op
      → NoAccept e.ops
      → NoAcceptIn (on_cqe room clock opt o op cqe e)
  unfolding on_cqe complete_stop complete_wakeup drain_outbox drain end_op
  on_cqe-NoAccept o accept cqe e at h = absurd (h o at)
  on_cqe-NoAccept o (recv c) cqe e at h = complete_recv-NoAccept o c cqe.res cqe.bytes e h
  on_cqe-NoAccept o (send c) cqe e at h = complete_send-NoAccept o c cqe.res e h
  on_cqe-NoAccept o wakeup cqe e at h =
      let armed = submit room clock opt wakeup (end_op o e) in
      dispatch_items-NoAccept armed.outbox.q (record armed { outbox = (drain armed.outbox []).2 })
        (submit-NoAccept room clock opt wakeup (end_op o e) (λ eq. cc) (erase-NoAccept o e.ops h))
  on_cqe-NoAccept o stop cqe e at h = erase-NoAccept o e.ops h
  on_cqe-NoAccept o rsp_notify cqe e at h = complete_rsp_notify-NoAccept o cqe.res cqe.batches e h

  stepped-NoAccept : (e e' : Engine) → Step room clock opt e e' → NoAccept e.ops → NoAccept e'.ops
  unfolding sweep_idle begin_drain reap_round request_stop
  stepped-NoAccept e e' (completes o op cqe _ at runs) h =
      subst NoAcceptIn runs (on_cqe-NoAccept o op cqe e at h)
  stepped-NoAccept e e' (takes job rest at) h = h
  stepped-NoAccept e e' (hands_back it) h = h
  stepped-NoAccept e e' (responds batches) h = send_batches-NoAccept batches e h
  stepped-NoAccept e e' is_stopped h = h
  stepped-NoAccept e e' (sweeps on) h = close_all-NoAccept _ (record e { tick = e.tick + 1 }) h
  stepped-NoAccept e e' drains h = if-NoAccept (e.stopping && not e.draining) _ _ h h
  stepped-NoAccept e e' reaps h = close_all-NoAccept _ e h

  -- Once no accept is in flight none ever is again: no turn of the loop arms it, however long it runs.
  pub reach-NoAccept :
      (e e' : Engine) → Reach room clock opt e e' → NoAccept e.ops → NoAccept e'.ops
  reach-NoAccept e _ here h = h
  reach-NoAccept e e' (next {t} before step) h =
      stepped-NoAccept t e' step (reach-NoAccept e t before h)

  -- When the one accept in flight fails for the eighth time in a row, otherwise than by an interrupt,
  -- while the engine accepts, then no accept is in flight in any state that the engine reaches from
  -- there.
  pub complete_accept-reach :
      (o n : ℕ) (e e' : Engine)
      → ((i : ℕ) → lookup i e.ops ≡ some accept → i ≡ o)
      → e.accepting ≡ true
      → 7 ≤ e.accept_fail_streak
      → n ≢ 3
      → Reach room clock opt (complete_accept room clock opt o (negsuc n) e) e'
      → NoAccept e'.ops
  unfolding complete_accept end_op
  complete_accept-reach o n e e' only on failed error r =
      let gone : NoAccept (erase o e.ops) = λ i at.
        let (differ, before) = erase_kept e.ops o i accept at in differ (sym (only i before)) in
      let not_eintr : (n == 3) ≡ false = ground (arith, error) in
      let eighth : leb 8 (e.accept_fail_streak + 1) ≡ true = ground (arith, failed) in
      reach-NoAccept _ e' r (rw (on, not_eintr, eighth, complete_accept) gone)
