-- ===== src/Gateway/Engine/Delivery.antt =====
-- What the workers hand back, and the responses of the ring (server/src/gateway/uring_engine.cpp).
use shared_bike_refactor.Base.{
  ℕ, ◌≡◌, refl, Bool, true, false, not, ◌||◌, Option, none, List, [], ◌∷◌, ltb, ◌==◌, Option-cases,
  inl, inr, take,
}
use shared_bike_refactor.Base.Dict.{Bytes, nat_key, lookup}
use shared_bike_refactor.Ipc.Packet.{Slot, rsp_payload_max}
use shared_bike_refactor.Gateway.Connection.{
  Connection, ConnState, active, parsing, closing, rx_feed,
}
use shared_bike_refactor.Gateway.WorkerBatch.{OutboxItem, respond, rearm_recv, close, drain}
use shared_bike_refactor.Gateway.Engine.{Engine, GatewayOptions, submit_recv, is_closing}
use shared_bike_refactor.Gateway.Engine.Loop.{
  is_parsing, rearm, serve_item, dispatch_item, dispatch_items, drain_outbox, send_slot, send_slots,
  send_batches,
}
use shared_bike_refactor.Gateway.Engine.Invariant.{IsValid, Agrees, AgreesOf, begin_busy, end_busy}
use shared_bike_refactor.Gateway.Engine.Held.{HeldBy, hold, renew}
use shared_bike_refactor.Gateway.Engine.Submission.{
  if-IsValid, close_conn-IsValid, push_response-IsValid, submit_recv-IsValid,
}

unnot : (b : Bool) → not b ≡ false → b ≡ true
unnot true h = refl
unnot false h = cc

waits : (st : ConnState) (r : Option ℕ) (k : ℕ) → is_parsing st ≡ true → Agrees st r k → r ≡ none
waits active r k h ok = cc
waits parsing r k h ok = ok
waits closing r k h ok = cc

module _ (room : ℕ → Bool) (clock : ℕ → ℕ) (opt : GatewayOptions) where
  rearm-IsValid :
      (c : ℕ) (bytes : Bytes) (e : Engine) (conn : Connection)
      → HeldBy opt.send_backlog_limit c e conn conn
      → is_closing conn.state ≡ false
      → AgreesOf conn
      → IsValid opt.send_backlog_limit none (rearm room clock opt bytes conn e)
  unfolding rearm rx_feed
  rearm-IsValid c bytes e conn h up ok =
      let fed = record (rx_feed conn bytes) { state = active } in
      let h' = renew opt.send_backlog_limit c e conn conn fed h h.link refl refl in
      if-IsValid e.draining _ _ (λ _. close_conn-IsValid room clock opt c e conn conn h up)
        (λ _.
          if-IsValid (not (is_parsing conn.state)) _ _ (λ _. end_busy c conn h.tables h.located ok)
            (λ waiting.
              let idle = waits conn.state conn.recv_op conn.pending_ops (unnot _ waiting) ok in
              let r = submit_recv room clock opt fed e in
              elim (submit_recv-IsValid room clock opt c e conn fed h' refl idle) [
                | inl (has, v) ↦ if-IsValid r.0 _ _ (λ _. v) (λ lacks. absurd cc)
                | inr (full, held, open_yet, _, _) ↦
                    if-IsValid r.0 _ _ (λ has. absurd cc)
                      (λ _. close_conn-IsValid room clock opt c r.2 r.1 r.1 held open_yet)
              ]))

  serve_item-IsValid :
      (c : ℕ) (it : OutboxItem) (e : Engine) (conn : Connection)
      → HeldBy opt.send_backlog_limit c e conn conn
      → is_closing conn.state ≡ false
      → AgreesOf conn
      → IsValid opt.send_backlog_limit none (serve_item room clock opt it conn e)
  unfolding serve_item
  serve_item-IsValid c it e conn h up ok =
      elim (it.kind)
        as (λ k.
          IsValid opt.send_backlog_limit none
            (serve_item room clock opt (record it { kind = k }) conn e)) [
              | respond ↦ push_response-IsValid room clock opt c e conn it.bytes h up ok
              | rearm_recv ↦ rearm-IsValid c it.bytes e conn h up ok
              | close ↦ close_conn-IsValid room clock opt c e conn conn h up
            ]

  dispatch_item-IsValid :
      (it : OutboxItem) (e : Engine)
      → IsValid opt.send_backlog_limit none e
      → IsValid opt.send_backlog_limit none (dispatch_item room clock opt it e)
  unfolding dispatch_item
  dispatch_item-IsValid it e v = elim (Option-cases (lookup it.conn_id e.conns)) [
    | inl gone ↦ rw (gone, dispatch_item) v
    | inr (conn, at) ↦
        rw (at, dispatch_item)
          (if-IsValid (is_closing conn.state) _ _ (λ _. v)
            (λ up.
              serve_item-IsValid it.conn_id it e conn
                (hold opt.send_backlog_limit it.conn_id e conn (begin_busy it.conn_id v) at) up
                (v.agrees it.conn_id conn (λ eq. cc) at)))
  ]

  dispatch_items-IsValid :
      (items : List OutboxItem) (e : Engine)
      → IsValid opt.send_backlog_limit none e
      → IsValid opt.send_backlog_limit none (dispatch_items room clock opt items e)
  unfolding dispatch_items
  dispatch_items-IsValid [] e v = v
  dispatch_items-IsValid (it ∷ items) e v =
      dispatch_items-IsValid items _ (dispatch_item-IsValid it e v)

  pub drain_outbox-IsValid :
      (e : Engine)
      → IsValid opt.send_backlog_limit none e
      → IsValid opt.send_backlog_limit none (drain_outbox room clock opt e)
  unfolding drain_outbox drain
  drain_outbox-IsValid e v =
      dispatch_items-IsValid e.outbox.q (record e { outbox = (drain e.outbox []).2 }) v

  send_slot-IsValid :
      (slot : Slot) (e : Engine)
      → IsValid opt.send_backlog_limit none e
      → IsValid opt.send_backlog_limit none (send_slot room clock opt slot e)
  unfolding send_slot
  send_slot-IsValid slot e v =
      let c = slot.pkt.conn_id in
      if-IsValid ((slot.pkt.payload_len == 0) || ltb rsp_payload_max slot.pkt.payload_len) _ _
        (λ _. v)
        (λ _. elim (Option-cases (lookup slot.pkt.conn_id e.conns)) [
          | inl gone ↦ rw gone v
          | inr (conn, at) ↦ rw at (
              if-IsValid (is_closing conn.state) _ _ (λ _. v)
                (λ up.
                  push_response-IsValid room clock opt c e conn
                    (take slot.pkt.payload_len slot.payload)
                    (hold opt.send_backlog_limit c e conn (begin_busy c v) at) up
                    (v.agrees c conn (λ eq. cc) at)))
        ])

  send_slots-IsValid :
      (batch : List Slot) (e : Engine)
      → IsValid opt.send_backlog_limit none e
      → IsValid opt.send_backlog_limit none (send_slots room clock opt batch e)
  unfolding send_slots
  send_slots-IsValid [] e v = v
  send_slots-IsValid (slot ∷ batch) e v = send_slots-IsValid batch _ (send_slot-IsValid slot e v)

  pub send_batches-IsValid :
      (batches : List (List Slot)) (e : Engine)
      → IsValid opt.send_backlog_limit none e
      → IsValid opt.send_backlog_limit none (send_batches room clock opt batches e)
  unfolding send_batches
  send_batches-IsValid [] e v = v
  send_batches-IsValid ([] ∷ batches) e v = v
  send_batches-IsValid ((slot ∷ batch) ∷ batches) e v =
      send_batches-IsValid batches _ (send_slots-IsValid (slot ∷ batch) _ v)
