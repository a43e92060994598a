-- ===== src/Gateway/Engine/Loop.antt =====
-- One completion, and what the loop of `run` does between them (server/src/gateway/uring_engine.cpp).
-- A completion for a connection that is freed reads freed memory: its result is `none`.
use shared_bike_refactor.Base.{
  ℕ, zero, suc, ◌+◌, ◌-◌, Bool, true, false, not, ◌||◌, Option, none, some, List, [], ◌∷◌, ◌++◌,
  length, take, ltb, leb, ◌==◌, if◌then◌else◌,
}
use shared_bike_refactor.Base.Dict.{Bytes, lookup, nat_key}
use shared_bike_refactor.Base.Int.{ℤ, pos, negsuc}
use shared_bike_refactor.Ipc.Packet.{Slot, rsp_payload_max}
use shared_bike_refactor.Protocol.{header_len, max_message_len}
use shared_bike_refactor.Gateway.Connection.{
  Connection, ConnState, active, parsing, rx_write, rx_commit, rx_take, rx_feed, send_pop,
  send_pending,
}
use shared_bike_refactor.Gateway.WorkerBatch.{OutboxItem, respond, rearm_recv, close, drain}
use shared_bike_refactor.Gateway.Engine.{
  UringOp, accept, wakeup, rsp_notify, GatewayOptions, Engine, put, end_op, submit, submit_recv,
  submit_send, make_conn, is_closing, free, maybe_finalize, close_conn, push_response,
}

-- `-EINTR` and `-ECANCELED`
abbrev pub eintr : ℤ
eintr = negsuc 3

abbrev pub ecanceled : ℤ
ecanceled = negsuc 124

abbrev pub is_parsing : ConnState → Bool
is_parsing parsing = true
is_parsing _ = false

module _ (room : ℕ → Bool) (clock : ℕ → ℕ) (opt : GatewayOptions) where
  abbrev pub re_arm : UringOp → Engine → Engine
  re_arm = submit room clock opt

  abbrev pub hang_up : Connection → Engine → Engine
  hang_up = close_conn room clock opt

  -- The connection of the new descriptor, which is freed when its first receive has no room.
  unfoldable pub welcome : ℤ → Engine → Engine
  unfolding make_conn submit_recv free
  welcome fd e =
      let (conn, e1) = make_conn room clock opt fd e in
      let (ok, conn', e2) = submit_recv room clock opt conn e1 in if ok then e2 else free conn' e2

  unfoldable pub complete_accept : ℕ → ℤ → Engine → Engine
  unfolding end_op submit welcome
  complete_accept o (pos fd) e =
      let e1 = end_op o e in
      if not e1.accepting
      then record e1 { closed = e1.closed ++ (pos fd ∷ []) }
      else re_arm accept (welcome (pos fd) (record e1 { accept_fail_streak = 0 }))
  complete_accept o (negsuc n) e =
      let e1 = end_op o e in
      let e2 = record e1 { accept_fail_streak = e1.accept_fail_streak + 1 } in
      if not e1.accepting
      then e1
      else if n == 3
      then re_arm accept e1
      else if leb 8 e2.accept_fail_streak
      then record e2 { accept_fail_streak = 0 }
      else re_arm accept e2

  -- The connection whose receive is over: the number of bytes, and what the kernel wrote.
  unfoldable pub received : ℕ → Bytes → Connection → Engine → Engine
  unfolding rx_write rx_commit rx_take close_conn put
  received n bytes conn e =
      let full = record (rx_commit (rx_write conn bytes) n) { last_active = clock e.tick } in
      let e1 = record (put full e) { tick = e.tick + 1 } in
      let (raw, rest) = rx_take full opt.rx_buf_bytes in
      if ltb (header_len + max_message_len + opt.rx_buf_bytes) full.rx_len
      then hang_up full e1
      else put (record rest { state = parsing })
          (record e1 { posted = e1.posted ++ ((conn.conn_id, raw) ∷ []) })

  -- What a receive brought: an error or the end of the stream closes the connection.
  unfoldable pub recv_result : ℤ → Bytes → Connection → Engine → Engine
  unfolding close_conn received
  recv_result (negsuc _) bytes conn e = hang_up conn e
  recv_result (pos zero) bytes conn e = hang_up conn e
  recv_result (pos (suc n)) bytes conn e = received (suc n) bytes conn e

  unfoldable pub complete_recv : ℕ → ℕ → ℤ → Bytes → Engine → Option Engine
  unfolding end_op put maybe_finalize recv_result
  complete_recv o c res bytes e = elim (lookup c e.conns) [
    | none ↦ none
    | some conn ↦
        let idle = record conn { recv_op = none; pending_ops = conn.pending_ops - 1 } in
        let e1 = put idle (end_op o e) in
        some
          (if is_closing idle.state then maybe_finalize idle e1 else recv_result res bytes idle e1)
  ]

  -- The connection whose send is over: the rest goes out, if there is room for the operation.
  unfoldable pub sent : ℕ → Connection → Engine → Engine
  unfolding send_pop put send_pending submit_send
  sent n conn e =
      let popped = record (send_pop conn n) { last_active = clock e.tick } in
      let e1 = record (put popped e) { tick = e.tick + 1 } in
      if send_pending popped then (submit_send room clock opt popped e1).2 else e1

  unfoldable pub send_result : ℤ → Connection → Engine → Engine
  unfolding close_conn sent
  send_result (negsuc _) conn e = hang_up conn e
  send_result (pos n) conn e = sent n conn e

  unfoldable pub complete_send : ℕ → ℕ → ℤ → Engine → Option Engine
  unfolding end_op put maybe_finalize send_result
  complete_send o c res e = elim (lookup c e.conns) [
    | none ↦ none
    | some conn ↦
        let idle = record conn {
          send_op = none;
          pending_ops = conn.pending_ops - 1;
          send_active = false;
        } in
        let e1 = put idle (end_op o e) in
        some (if is_closing idle.state then maybe_finalize idle e1 else send_result res idle e1)
  ]

  -- A connection that waits for its worker listens again, with the bytes that were left over.
  unfoldable pub rearm : Bytes → Connection → Engine → Engine
  unfolding close_conn rx_feed submit_recv
  rearm bytes conn e =
      let fed = record (rx_feed conn bytes) { state = active } in
      let (ok, conn', e') = submit_recv room clock opt fed e in
      if e.draining
      then hang_up conn e
      else if not (is_parsing conn.state)
      then e
      else if ok
      then e'
      else hang_up conn' e'

  unfoldable pub serve_item : OutboxItem → Connection → Engine → Engine
  unfolding push_response rearm close_conn
  serve_item it conn e = elim (it.kind) [
    | respond ↦ push_response room clock opt conn it.bytes e
    | rearm_recv ↦ rearm it.bytes conn e
    | close ↦ hang_up conn e
  ]

  unfoldable pub dispatch_item : OutboxItem → Engine → Engine
  unfolding serve_item
  dispatch_item it e = elim (lookup it.conn_id e.conns) [
    | none ↦ e
    | some conn ↦ if is_closing conn.state then e else serve_item it conn e
  ]

  unfoldable pub dispatch_items : List OutboxItem → Engine → Engine
  unfolding dispatch_item
  dispatch_items [] e = e
  dispatch_items (it ∷ items) e = dispatch_items items (dispatch_item it e)

  unfoldable pub drain_outbox : Engine → Engine
  unfolding drain dispatch_items
  drain_outbox e =
      let (_, items, q) = drain e.outbox [] in dispatch_items items (record e { outbox = q })

  -- A slot of the response ring: an empty or an oversized one is left out.
  unfoldable pub send_slot : Slot → Engine → Engine
  unfolding push_response
  send_slot slot e =
      if (slot.pkt.payload_len == 0) || ltb rsp_payload_max slot.pkt.payload_len
      then e
      else elim (lookup slot.pkt.conn_id e.conns) [
        | none ↦ e
        | some conn ↦
            if is_closing conn.state
            then e
            else push_response room clock opt conn (take slot.pkt.payload_len slot.payload) e
      ]

  unfoldable pub send_slots : List Slot → Engine → Engine
  unfolding send_slot
  send_slots [] e = e
  send_slots (slot ∷ batch) e = send_slots batch (send_slot slot e)

  -- The batches that `pop_batch` returns, up to the first empty one.
  unfoldable pub send_batches : List (List Slot) → Engine → Engine
  unfolding send_slots
  send_batches [] e = e
  send_batches ([] ∷ batches) e = e
  send_batches ((slot ∷ batch) ∷ batches) e =
      let n = length (slot ∷ batch) in
      let counted = record e {
        popped_total = e.popped_total + n;
        batch_peak = if ltb e.batch_peak n then n else e.batch_peak;
      } in
      send_batches batches (send_slots (slot ∷ batch) counted)

  unfoldable pub complete_wakeup : ℕ → Engine → Engine
  unfolding end_op submit drain_outbox
  complete_wakeup o e = drain_outbox (re_arm wakeup (end_op o e))

  -- The stop is not armed again.
  unfoldable pub complete_stop : ℕ → Engine → Engine
  unfolding end_op
  complete_stop o e = record (end_op o e) { stopping = true }

  unfoldable pub complete_rsp_notify : ℕ → ℤ → List (List Slot) → Engine → Engine
  unfolding end_op submit send_batches
  complete_rsp_notify o (pos n) batches e =
      send_batches batches (re_arm rsp_notify (record (end_op o e) { rsp_notify_fail_streak = 0 }))
  complete_rsp_notify o (negsuc n) batches e =
      let e1 = end_op o e in
      let e2 = record e1 { rsp_notify_fail_streak = e1.rsp_notify_fail_streak + 1 } in
      if n == 124
      then e1
      else if leb 8 e2.rsp_notify_fail_streak
      then record e2 { rsp_notify_fail_streak = 0 }
      else re_arm rsp_notify e2
