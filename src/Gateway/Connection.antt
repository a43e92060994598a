-- ===== src/Gateway/Connection.antt =====
-- server/include/server/gateway/conn_context.hpp: what the gateway keeps of a connection. The receive
-- storage is a list whose first `rx_len` bytes are valid; growing it appends zeros. The pointers
-- `recv_op` and `send_op` are the numbers of the operations, and times are in nanoseconds.
pub mod Backlog
use shared_bike_refactor.Base.{
  ℕ, zero, suc, ◌+◌, ◌-◌, Bool, false, not, List, [], ◌∷◌, ◌++◌, length, take, drop, ltb,
  if◌then◌else◌, Option, none,
}
use shared_bike_refactor.Base.Dict.{Bytes}
use shared_bike_refactor.Base.Int.{ℤ, negsuc}

pub data ConnState : Type 0 where
  active parsing closing : ConnState

pub record Connection : Type 0 where
  pub state : ConnState
  pub pending_ops : ℕ
  pub fd : ℤ
  pub conn_id : ℕ
  pub pending : Bytes
  pub rx_len : ℕ
  pub send_q : List Bytes
  pub send_bytes : ℕ
  pub send_active : Bool
  pub recv_op : Option ℕ
  pub send_op : Option ℕ
  pub last_active : ℕ

abbrev pub zeros : ℕ → Bytes
zeros zero = []
zeros (suc n) = 0 ∷ zeros n

-- `v.resize(n)`
abbrev pub resize : ℕ → Bytes → Bytes
resize n v = if ltb (length v) n then v ++ zeros (n - length v) else take n v

unfoldable pub make_connection : ℤ → ℕ → ℕ → ℕ → Connection
make_connection fd conn_id rx_buf_bytes now = record {
  state = active;
  pending_ops = 0;
  fd = fd;
  conn_id = conn_id;
  pending = zeros rx_buf_bytes;
  rx_len = 0;
  send_q = [];
  send_bytes = 0;
  send_active = false;
  recv_op = none;
  send_op = none;
  last_active = now;
}

unfoldable pub release_fd : Connection → ℤ × Connection
release_fd c = (c.fd, record c { fd = negsuc 0 })

unfoldable pub rx_prepare : Connection → ℕ → Connection
rx_prepare c spare = record c {
  pending =
      if ltb (length c.pending) (c.rx_len + spare)
      then resize (c.rx_len + spare) c.pending
      else c.pending;
}

-- What the kernel writes into the free part, before `rx_commit`.
unfoldable pub rx_write : Connection → Bytes → Connection
rx_write c bs = record c {
  pending = take c.rx_len c.pending ++ (bs ++ drop (c.rx_len + length bs) c.pending);
}

unfoldable pub rx_commit : Connection → ℕ → Connection
rx_commit c n = record c { rx_len = c.rx_len + n }

-- The valid bytes are handed over, and the storage starts anew.
unfoldable pub rx_take : Connection → ℕ → Bytes × Connection
rx_take c reserve_cap =
    (resize c.rx_len c.pending, record c { pending = zeros reserve_cap; rx_len = 0 })

unfoldable pub rx_feed : Connection → Bytes → Connection
rx_feed c leftover =
    let room =
      if ltb (length c.pending) (c.rx_len + length leftover)
      then resize (c.rx_len + length leftover) c.pending
      else c.pending in
    record c {
      pending = take c.rx_len room ++ (leftover ++ drop (c.rx_len + length leftover) room);
      rx_len = c.rx_len + length leftover;
    }

unfoldable pub send_push : Connection → Bytes → Connection
send_push c bytes = record c {
  send_bytes = c.send_bytes + length bytes;
  send_q = c.send_q ++ (bytes ∷ []);
}

unfoldable pub send_pending : Connection → Bool
send_pending c = ltb 0 (length c.send_q)

-- The loop of `send_pop` on the queue and its byte count.
unfoldable pub pop_loop : ℕ → List Bytes → ℕ → List Bytes × ℕ
pop_loop n [] total = ([], total)
pop_loop n (head ∷ q) total =
    let rest = pop_loop (n - length head) q (total - length head) in
    if not (ltb 0 n)
    then (head ∷ q, total)
    else if ltb n (length head)
    then (drop n head ∷ q, total - n)
    else rest

unfoldable pub send_pop : Connection → ℕ → Connection
send_pop c n =
    let (q, total) = pop_loop n c.send_q c.send_bytes in record c { send_q = q; send_bytes = total }
