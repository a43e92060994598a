-- ===== src/Gateway/Engine/Safety.antt =====
-- Every step of the event loop keeps the tables (server/src/gateway/uring_engine.cpp).
use shared_bike_refactor.Base.{
  ℕ, ◌+◌, ◌≡◌, refl, Bool, not, ◌&&◌, Option, none, some, List, [], ◌∷◌, Option-cases, inl, inr,
  subst, Bool-cases,
}
use shared_bike_refactor.Base.Dict.{nat_key, lookup}
use shared_bike_refactor.Gateway.Connection.{Connection}
use shared_bike_refactor.Gateway.Engine.{
  UringOp, accept, wakeup, stop, rsp_notify, Engine, GatewayOptions, submit, close_conn, is_closing,
}
use shared_bike_refactor.Gateway.Engine.Turn.{
  Cqe, on_cqe, close_all, sweep_idle, begin_drain, reap_round, request_stop,
}
use shared_bike_refactor.Gateway.Engine.Steps.{
  Step, completes, takes, hands_back, responds, is_stopped, sweeps, drains, reaps, Reach, here,
  next, start, new_engine,
}
use shared_bike_refactor.Gateway.Engine.Invariant.{IsValid, begin_busy}
use shared_bike_refactor.Gateway.Engine.Held.{hold}
use shared_bike_refactor.Gateway.Engine.Submission.{if-IsValid, submit-IsValid, close_conn-IsValid}
use shared_bike_refactor.Gateway.Engine.Completion.{Runs}
use shared_bike_refactor.Gateway.Engine.Arrivals.{on_cqe-Runs}
use shared_bike_refactor.Gateway.Engine.Delivery.{send_batches-IsValid}

module _ (room : ℕ → Bool) (clock : ℕ → ℕ) (opt : GatewayOptions) where
  hang_up-IsValid :
      (c : ℕ) (conn : Connection) (e : Engine)
      → IsValid opt.send_backlog_limit none e
      → lookup c e.conns ≡ some conn
      → IsValid opt.send_backlog_limit none (close_conn room clock opt conn e)
  unfolding close_conn
  hang_up-IsValid c conn e v at = elim (Bool-cases (is_closing conn.state)) [
    | inl shut ↦ rw (shut, close_conn) v
    | inr up ↦
        close_conn-IsValid room clock opt c e conn conn
          (hold opt.send_backlog_limit c e conn (begin_busy c v) at) up
  ]

  close_all-IsValid :
      (ids : List ℕ) (e : Engine)
      → IsValid opt.send_backlog_limit none e
      → IsValid opt.send_backlog_limit none (close_all room clock opt ids e)
  unfolding close_all
  close_all-IsValid [] e v = v
  close_all-IsValid (id ∷ ids) e v = elim (Option-cases (lookup id e.conns)) [
    | inl gone ↦ rw (gone, close_all) (close_all-IsValid ids e v)
    | inr (conn, at) ↦
        rw (at, close_all)
          (close_all-IsValid ids (close_conn room clock opt conn e)
            (hang_up-IsValid id conn e v at))
  ]

  Runs-value :
      (limit : ℕ) (r : Option Engine)
      → Runs limit r
      → (e : Engine) × (r ≡ some e) × IsValid limit none e
  Runs-value limit none v = elim v [ ]
  Runs-value limit (some e) v = (e, refl, v)

  stepped-IsValid :
      (e e' : Engine)
      → Step room clock opt e e'
      → IsValid opt.send_backlog_limit none e
      → IsValid opt.send_backlog_limit none e'
  unfolding sweep_idle begin_drain reap_round request_stop
  stepped-IsValid e e' (completes o op cqe _ at runs) v =
      subst (Runs opt.send_backlog_limit) runs (on_cqe-Runs room clock opt o op cqe e v at)
  stepped-IsValid e e' (takes job rest at) v = v
  stepped-IsValid e e' (hands_back it) v = v
  stepped-IsValid e e' (responds batches) v = send_batches-IsValid room clock opt batches e v
  stepped-IsValid e e' is_stopped v = v
  stepped-IsValid e e' (sweeps on) v = close_all-IsValid _ (record e { tick = e.tick + 1 }) v
  stepped-IsValid e e' drains v = if-IsValid (e.stopping && not e.draining) _ _ (λ _. v) (λ _. v)
  stepped-IsValid e e' reaps v = close_all-IsValid _ e v

  start-IsValid : (ring : Bool) → IsValid opt.send_backlog_limit none (start room clock opt ring)
  unfolding start lookup
  start-IsValid ring =
      let arm : UringOp → Engine → Engine = submit room clock opt in
      let e0 : IsValid opt.send_backlog_limit none new_engine = record {
        linked = λ c conn at. absurd cc;
        agrees = λ c conn _ at. absurd cc;
        owned = λ o op at. absurd cc;
      } in
      let e1 = submit-IsValid room clock opt accept none new_engine e0 tt in
      let e2 = submit-IsValid room clock opt wakeup none (arm accept new_engine) e1 tt in
      let e3 = submit-IsValid room clock opt stop none (arm wakeup (arm accept new_engine)) e2 tt in
      if-IsValid ring _ _
        (λ _.
          submit-IsValid room clock opt rsp_notify none
            (arm stop (arm wakeup (arm accept new_engine))) e3 tt)
        (λ _. e3)

  -- Whatever the kernel reports and the workers hand back, in every order and with any shortage of
  -- submission entries, the tables stay in order: each operation of a connection is in flight under
  -- the number that the connection keeps, they are counted, an active connection listens, one whose
  -- worker runs does not, one that closes waits for an operation, and no more bytes wait for a
  -- connection than the limit.
  pub reach-IsValid :
      (ring : Bool) (e : Engine)
      → Reach room clock opt (start room clock opt ring) e
      → IsValid opt.send_backlog_limit none e
  reach-IsValid ring e here = start-IsValid ring
  reach-IsValid ring e (next {t} before step) =
      stepped-IsValid t e step (reach-IsValid ring t before)

  -- A completion of any operation in flight, in a state that the engine can reach, is handled: the
  -- connection of the operation is there and holds it, so no freed connection is touched.
  pub on_cqe-reach :
      (ring : Bool) (e : Engine) (o : ℕ) (op : UringOp) (cqe : Cqe)
      → Reach room clock opt (start room clock opt ring) e
      → lookup o e.ops ≡ some op
      → (e' : Engine) × (on_cqe room clock opt o op cqe e ≡ some e')
  on_cqe-reach ring e o op cqe r at =
      let (e', runs, _) =
        Runs-value opt.send_backlog_limit _
          (on_cqe-Runs room clock opt o op cqe e (reach-IsValid ring e r) at) in
      (e', runs)
