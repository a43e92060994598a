-- ===== src/Gateway/Engine/Invariant.antt =====
-- What holds of the engine's tables between completions, and how the changes to one connection and its
-- operations keep it (server/src/gateway/uring_engine.cpp). While a handler works on a connection, that
-- one is `busy`: its state and its operations need not agree yet.
use shared_bike_refactor.Base.{
  ℕ, ◌+◌, ◌≤◌, ◌<◌, ◌≡◌, ◌≢◌, sym, ap, ◌∙◌, Bool, true, false, Option, none, some, List, length,
  subst, ℕ_discrete,
}
use shared_bike_refactor.Base.Dict.{
  Bytes, Dict, nat_key, lookup, insert, lookup-insert_self, lookup-insert_ne,
}
use shared_bike_refactor.Gateway.Connection.{Connection, ConnState, active, parsing, closing}
use shared_bike_refactor.Gateway.Connection.Backlog.{stream}
use shared_bike_refactor.Gateway.Engine.{
  UringOp, accept, wakeup, stop, rsp_notify, recv, send, Engine,
}

abbrev pub count : Option ℕ → ℕ
count none = 0
count (some o) = 1

abbrev pub is_some : Option ℕ → Bool
is_some none = false
is_some (some o) = true

-- Of the connection under the number `c`: its operations are in flight, under the numbers that it
-- keeps, they are counted, and its send queue is measured and bounded.
pub record Link (limit : ℕ) (ops : Dict ℕ UringOp) (next_conn_id c id pending_ops : ℕ)
    (recv_op send_op : Option ℕ) (q : List Bytes) (bytes : ℕ) (send_active : Bool) : Type 0 where
  pub same : id ≡ c
  pub below : c < next_conn_id
  pub counted : pending_ops ≡ count recv_op + count send_op
  pub receives : (o : ℕ) → recv_op ≡ some o → lookup o ops ≡ some (recv c)
  pub sends : (o : ℕ) → send_op ≡ some o → lookup o ops ≡ some (send c)
  pub sending : send_active ≡ is_some send_op
  pub measured : bytes ≡ length (stream q)
  pub bounded : bytes ≤ limit

abbrev pub LinkOf : ℕ → Dict ℕ UringOp → ℕ → ℕ → Connection → Type 0
LinkOf limit ops n c conn =
    Link limit ops n c conn.conn_id conn.pending_ops conn.recv_op conn.send_op conn.send_q
      conn.send_bytes conn.send_active

-- An active connection has a receive in flight, one whose worker runs has none, and one that closes
-- waits for an operation.
abbrev pub Agrees : ConnState → Option ℕ → ℕ → Type 0
Agrees active r n = is_some r ≡ true
Agrees parsing r n = r ≡ none
Agrees closing r n = 0 < n

abbrev pub AgreesOf : Connection → Type 0
AgreesOf conn = Agrees conn.state conn.recv_op conn.pending_ops

-- The connection of an operation is there, and holds the operation's number.
abbrev pub Owned : Dict ℕ Connection → ℕ → UringOp → Type 0
Owned conns o (recv c) =
    (conn : Connection) × (lookup c conns ≡ some conn) × (conn.recv_op ≡ some o)
Owned conns o (send c) =
    (conn : Connection) × (lookup c conns ≡ some conn) × (conn.send_op ≡ some o)
Owned conns o _ = Unit

pub record Tables (limit : ℕ) (busy : Option ℕ) (conns : Dict ℕ Connection) (next_conn_id : ℕ)
    (ops : Dict ℕ UringOp) (next_op : ℕ) : Type 0 where
  pub linked :
      (c : ℕ) (conn : Connection)
      → lookup c conns ≡ some conn
      → LinkOf limit ops next_conn_id c conn
  pub agrees :
      (c : ℕ) (conn : Connection) → busy ≢ some c → lookup c conns ≡ some conn → AgreesOf conn
  pub owned : (o : ℕ) (op : UringOp) → lookup o ops ≡ some op → (o < next_op) × Owned conns o op

abbrev pub IsValid : ℕ → Option ℕ → Engine → Type 0
IsValid limit busy e = Tables limit busy e.conns e.next_conn_id e.ops e.next_op

pub one_value {ℓ} : {A : Type ℓ} {x : Option A} {a b : A} → x ≡ some a → x ≡ some b → a ≡ b
one_value h k = cc

pub Owned-insert :
    (conns : Dict ℕ Connection) (c : ℕ) (new : Connection) (o : ℕ) (op : UringOp)
    → Owned conns o op
    → (op ≡ recv c → new.recv_op ≡ some o)
    → (op ≡ send c → new.send_op ≡ some o)
    → Owned (insert c new conns) o op
Owned-insert conns c new o (recv d) (conn, at, e) r s = elim (ℕ_discrete c d) [
  | yes same ↦ (new, rw same (lookup-insert_self d new conns), r (ap recv (sym same)))
  | no other ↦ (conn, lookup-insert_ne c d new conns other ∙ at, e)
]
Owned-insert conns c new o (send d) (conn, at, e) r s = elim (ℕ_discrete c d) [
  | yes same ↦ (new, rw same (lookup-insert_self d new conns), s (ap send (sym same)))
  | no other ↦ (conn, lookup-insert_ne c d new conns other ∙ at, e)
]
Owned-insert conns c new o accept h r s = tt
Owned-insert conns c new o wakeup h r s = tt
Owned-insert conns c new o stop h r s = tt
Owned-insert conns c new o rsp_notify h r s = tt

module _ {limit n m : ℕ} {conns : Dict ℕ Connection} {ops : Dict ℕ UringOp} where
  pub begin_busy : (c : ℕ) → Tables limit none conns n ops m → Tables limit (some c) conns n ops m
  begin_busy c v = record {
    linked = v.linked;
    agrees = λ d conn h at. v.agrees d conn (λ e. cc) at;
    owned = v.owned;
  }

  pub end_busy :
      (c : ℕ) (conn : Connection)
      → Tables limit (some c) conns n ops m
      → lookup c conns ≡ some conn
      → AgreesOf conn
      → Tables limit none conns n ops m
  end_busy c conn v at ok = record {
    linked = v.linked;
    agrees = λ d other h there. elim (ℕ_discrete c d) [
      | yes same ↦
          subst AgreesOf (one_value at (subst (λ i. lookup i conns ≡ some other) (sym same) there))
            ok
      | no other_one ↦ v.agrees d other (λ e. other_one cc) there
    ];
    owned = v.owned;
  }

  -- The busy connection changes, and the operations with it.
  pub store :
      (c : ℕ) (new : Connection) {ops' : Dict ℕ UringOp} {n' m' : ℕ}
      → Tables limit (some c) conns n ops m
      → LinkOf limit ops' n' c new
      → ((d : ℕ) (conn : Connection)
          → c ≢ d
          → lookup d conns ≡ some conn
          → LinkOf limit ops' n' d conn)
      → ((o : ℕ) (op : UringOp)
          → lookup o ops' ≡ some op
          → (o < m') × Owned (insert c new conns) o op)
      → Tables limit (some c) (insert c new conns) n' ops' m'
  store c new {ops'} {n'} {m'} v link rest own = record {
    linked = λ d conn at. elim (ℕ_discrete c d) [
      | yes same ↦
          let here : lookup d (insert c new conns) ≡ some new =
            rw same (lookup-insert_self d new conns) in
          let new_one : new ≡ conn = one_value here at in
          subst (λ i. LinkOf limit ops' n' i conn) same
            (subst (LinkOf limit ops' n' c) new_one link)
      | no other ↦ rest d conn other (sym (lookup-insert_ne c d new conns other) ∙ at)
    ];
    agrees = λ d conn h at.
        v.agrees d conn h (sym (lookup-insert_ne c d new conns (λ e. h (ap some e))) ∙ at);
    owned = own;
  }

  pub owned_recv :
      (c : ℕ) (old : Connection) {busy : Option ℕ} (o : ℕ)
      → Tables limit busy conns n ops m
      → lookup c conns ≡ some old
      → lookup o ops ≡ some (recv c)
      → old.recv_op ≡ some o
  owned_recv c old o v at there =
      let (conn, found, e) = (v.owned o (recv c) there).1 in
      subst (λ (x : Connection). x.recv_op ≡ some o) (one_value found at) e

  pub owned_send :
      (c : ℕ) (old : Connection) {busy : Option ℕ} (o : ℕ)
      → Tables limit busy conns n ops m
      → lookup c conns ≡ some old
      → lookup o ops ≡ some (send c)
      → old.send_op ≡ some o
  owned_send c old o v at there =
      let (conn, found, e) = (v.owned o (send c) there).1 in
      subst (λ (x : Connection). x.send_op ≡ some o) (one_value found at) e

  -- What is still owned when the busy connection changes.
  pub keep-Owned :
      (c : ℕ) (old new : Connection) (o : ℕ) (op : UringOp)
      → Tables limit (some c) conns n ops m
      → lookup c conns ≡ some old
      → lookup o ops ≡ some op
      → (old.recv_op ≡ some o → op ≡ recv c → new.recv_op ≡ some o)
      → (old.send_op ≡ some o → op ≡ send c → new.send_op ≡ some o)
      → Owned (insert c new conns) o op
  keep-Owned c old new o op v at there r s =
      Owned-insert conns c new o op (v.owned o op there).1
        (λ e. r (owned_recv c old o v at (there ∙ ap some e)) e)
        (λ e. s (owned_send c old o v at (there ∙ ap some e)) e)

  -- A change that leaves the operations of the busy connection alone.
  pub put-Tables :
      (c : ℕ) (old new : Connection)
      → Tables limit (some c) conns n ops m
      → lookup c conns ≡ some old
      → LinkOf limit ops n c new
      → new.recv_op ≡ old.recv_op
      → new.send_op ≡ old.send_op
      → Tables limit (some c) (insert c new conns) n ops m
  put-Tables c old new v at link r s =
      store c new v link (λ d conn h there. v.linked d conn there)
        (λ o op there. (
          (v.owned o op there).0,
          keep-Owned c old new o op v at there (λ h e. r ∙ h) (λ h e. s ∙ h),
        ))
