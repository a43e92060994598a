-- ===== src/Gateway/Engine/Operations.antt =====
-- The tables of server/src/gateway/uring_engine.cpp when an operation starts or ends.
use shared_bike_refactor.Base.{
  ℕ, ◌+◌, ◌<◌, ◌≡◌, ◌≢◌, sym, ◌∙◌, Option, none, some, arith, subst, ℕ_discrete,
}
use shared_bike_refactor.Base.Dict.{
  Dict, nat_key, lookup, insert, erase, lookup-insert_self, lookup-insert_ne, lookup-erase_self,
  lookup-erase_ne,
}
use shared_bike_refactor.Gateway.Connection.{Connection}
use shared_bike_refactor.Gateway.Engine.{UringOp, recv, send}
use shared_bike_refactor.Gateway.Engine.Invariant.{
  LinkOf, Tables, Owned, store, keep-Owned, owned_recv, owned_send, one_value,
}

Link-ops :
    {limit n : ℕ} {ops : Dict ℕ UringOp} (ops' : Dict ℕ UringOp) (c : ℕ) (conn : Connection)
    → LinkOf limit ops n c conn
    → ((i : ℕ)
        → conn.recv_op ≡ some i
        → lookup i ops ≡ some (recv c)
        → lookup i ops' ≡ some (recv c))
    → ((i : ℕ)
        → conn.send_op ≡ some i
        → lookup i ops ≡ some (send c)
        → lookup i ops' ≡ some (send c))
    → LinkOf limit ops' n c conn
Link-ops ops' c conn link r s = record {
  same = link.same;
  below = link.below;
  counted = link.counted;
  receives = λ i e. r i e (link.receives i e);
  sends = λ i e. s i e (link.sends i e);
  sending = link.sending;
  measured = link.measured;
  bounded = link.bounded;
}

-- An operation that erase_kept is not found again, and the others are.
pub erase_kept :
    {V : Type 0} (ops : Dict ℕ V) (o i : ℕ) (x : V)
    → lookup i (erase o ops) ≡ some x
    → (o ≢ i) × (lookup i ops ≡ some x)
erase_kept ops o i x there = elim (ℕ_discrete o i) [
  | yes same ↦
      let gone : lookup i (erase o ops) ≡ none = rw same (lookup-erase_self i ops) in absurd cc
  | no other ↦ (other, sym (lookup-erase_ne o i ops other) ∙ there)
]

-- The end of an operation of another kind, or of another connection.
pub kept :
    (ops : Dict ℕ UringOp) (o i : ℕ) (x y : UringOp)
    → lookup o ops ≡ some x
    → x ≢ y
    → lookup i ops ≡ some y
    → lookup i (erase o ops) ≡ some y
kept ops o i x y at differ there =
    lookup-erase_ne o i ops
      (λ same. differ (one_value at (subst (λ j. lookup j ops ≡ some y) (sym same) there)))
    ∙ there

module _ {limit n m : ℕ} {conns : Dict ℕ Connection} {ops : Dict ℕ UringOp} where
  still_there :
      {busy : Option ℕ} (op : UringOp) (i : ℕ) (x : UringOp)
      → Tables limit busy conns n ops m
      → lookup i ops ≡ some x
      → lookup i (insert m op ops) ≡ some x
  still_there op i x v at =
      lookup-insert_ne m i op ops (λ e. omega (arith, (v.owned i x at).0, e)) ∙ at

  -- What is owned when the operation `m` has started.
  started-Owned :
      {busy : Option ℕ} (conns' : Dict ℕ Connection) (op : UringOp)
      → Tables limit busy conns n ops m
      → Owned conns' m op
      → ((o : ℕ) (x : UringOp) → lookup o ops ≡ some x → Owned conns' o x)
      → (o : ℕ) (x : UringOp) → lookup o (insert m op ops) ≡ some x
      → (o < m + 1) × Owned conns' o x
  started-Owned conns' op v own rest o x there = elim (ℕ_discrete m o) [
    | yes same ↦
        let here : lookup o (insert m op ops) ≡ some op = rw same (lookup-insert_self o op ops) in
        let one : op ≡ x = one_value here there in
        (omega (arith, same), subst (λ i. Owned conns' i x) same (subst (Owned conns' m) one own))
    | no other ↦
        let before : lookup o ops ≡ some x = sym (lookup-insert_ne m o op ops other) ∙ there in
        (omega (arith, (v.owned o x before).0), rest o x before)
  ]

  -- The links of the connections when the operation `m` has started.
  pub started_link :
      {busy : Option ℕ} (op : UringOp) (d : ℕ) (conn : Connection)
      → Tables limit busy conns n ops m
      → LinkOf limit ops n d conn
      → LinkOf limit (insert m op ops) n d conn
  started_link op d conn v link =
      Link-ops (insert m op ops) d conn link (λ i _ was. still_there op i (recv d) v was)
        (λ i _ was. still_there op i (send d) v was)

  -- An operation that no connection has.
  pub start-Tables :
      {busy : Option ℕ} (op : UringOp)
      → Tables limit busy conns n ops m
      → Owned conns m op
      → Tables limit busy conns n (insert m op ops) (m + 1)
  start-Tables op v own = record {
    linked = λ d conn at. started_link op d conn v (v.linked d conn at);
    agrees = v.agrees;
    owned = λ o x there. started-Owned conns op v own (λ i y was. (v.owned i y was).1) o x there;
  }

  pub start_recv-Tables :
      (c : ℕ) (old new : Connection)
      → Tables limit (some c) conns n ops m
      → lookup c conns ≡ some old
      → old.recv_op ≡ none
      → LinkOf limit (insert m (recv c) ops) n c new
      → new.recv_op ≡ some m
      → new.send_op ≡ old.send_op
      → Tables limit (some c) (insert c new conns) n (insert m (recv c) ops) (m + 1)
  start_recv-Tables c old new v at idle link r s =
      store c new v link (λ d conn h there. started_link (recv c) d conn v (v.linked d conn there))
        (λ o x there.
          started-Owned (insert c new conns) (recv c) v (new, lookup-insert_self c new conns, r)
            (λ i y was. keep-Owned c old new i y v at was (λ h _. absurd cc) (λ h _. s ∙ h)) o x
            there)

  pub start_send-Tables :
      (c : ℕ) (old new : Connection)
      → Tables limit (some c) conns n ops m
      → lookup c conns ≡ some old
      → old.send_op ≡ none
      → LinkOf limit (insert m (send c) ops) n c new
      → new.send_op ≡ some m
      → new.recv_op ≡ old.recv_op
      → Tables limit (some c) (insert c new conns) n (insert m (send c) ops) (m + 1)
  start_send-Tables c old new v at idle link s r =
      store c new v link (λ d conn h there. started_link (send c) d conn v (v.linked d conn there))
        (λ o x there.
          started-Owned (insert c new conns) (send c) v (new, lookup-insert_self c new conns, s)
            (λ i y was. keep-Owned c old new i y v at was (λ h _. r ∙ h) (λ h _. absurd cc)) o x
            there)

  pub end-Tables :
      {busy : Option ℕ} (o : ℕ) (op : UringOp)
      → Tables limit busy conns n ops m
      → lookup o ops ≡ some op
      → ((c : ℕ) → (op ≢ recv c) × (op ≢ send c))
      → Tables limit busy conns n (erase o ops) m
  end-Tables o op v at plain = record {
    linked = λ d conn there.
        Link-ops (erase o ops) d conn (v.linked d conn there)
          (λ i _ was. kept ops o i op (recv d) at (plain d).0 was)
          (λ i _ was. kept ops o i op (send d) at (plain d).1 was);
    agrees = v.agrees;
    owned = λ i x there. v.owned i x (erase_kept ops o i x there).1;
  }

  pub end_recv-Tables :
      (o c : ℕ) (old new : Connection)
      → Tables limit (some c) conns n ops m
      → lookup c conns ≡ some old
      → lookup o ops ≡ some (recv c)
      → LinkOf limit (erase o ops) n c new
      → new.send_op ≡ old.send_op
      → Tables limit (some c) (insert c new conns) n (erase o ops) m
  end_recv-Tables o c old new v at was link s =
      store c new v link
        (λ d conn h there.
          Link-ops (erase o ops) d conn (v.linked d conn there)
            (λ i _ held. kept ops o i (recv c) (recv d) was (λ e. h cc) held)
            (λ i _ held. kept ops o i (recv c) (send d) was (λ e. cc) held))
        (λ i x there.
          let (differ, before) = erase_kept ops o i x there in
          (
            (v.owned i x before).0,
            keep-Owned c old new i x v at before
                (λ h _. absurd (differ (one_value (owned_recv c old o v at was) h))) (λ h _. s ∙ h),
          ))

  pub end_send-Tables :
      (o c : ℕ) (old new : Connection)
      → Tables limit (some c) conns n ops m
      → lookup c conns ≡ some old
      → lookup o ops ≡ some (send c)
      → LinkOf limit (erase o ops) n c new
      → new.recv_op ≡ old.recv_op
      → Tables limit (some c) (insert c new conns) n (erase o ops) m
  end_send-Tables o c old new v at was link r =
      store c new v link
        (λ d conn h there.
          Link-ops (erase o ops) d conn (v.linked d conn there)
            (λ i _ held. kept ops o i (send c) (recv d) was (λ e. cc) held)
            (λ i _ held. kept ops o i (send c) (send d) was (λ e. h cc) held))
        (λ i x there.
          let (differ, before) = erase_kept ops o i x there in
          (
            (v.owned i x before).0,
            keep-Owned c old new i x v at before (λ h _. r ∙ h)
                (λ h _. absurd (differ (one_value (owned_send c old o v at was) h))),
          ))
