-- ===== src/Server/Config.antt =====
-- server/src/config.cpp: the sections of the configuration that are checked. A TOML file is read by a
-- library, so a section is a function from its keys to the integer that stands there, if there is one.
-- Every violation throws the same exception; only its message says which one it was.
pub mod Bounds
mod Tests
use shared_bike_refactor.Base.{ℕ, ◌*◌, Bool, true, false, not, ◌&&◌, ◌||◌, [], ◌∷◌, if◌then◌else◌}
use shared_bike_refactor.Base.Dict.{Bytes, bytes_eq}
use shared_bike_refactor.Base.Int.{ℤ, pos, ltb_ℤ, to_int}
use shared_bike_refactor.Base.Outcome.{Outcome, ok, throw, runtime_error}

pub record Uring : Type 0 where
  pub sq_depth : ℤ
  pub cq_depth : ℤ
  pub workers : ℤ
  pub rx_buf_bytes : ℤ
  pub send_backlog_limit_bytes : ℤ
  pub idle_timeout_ms : ℤ
  pub accept_backlog : ℤ

-- The section `ipc` as far as it is checked.
pub record Ipc : Type 0 where
  pub mode : Bytes
  pub shm_prefix : Bytes
  pub instance_no : ℤ
  pub open_timeout_ms : ℤ
  pub peer_timeout_ms : ℤ
  pub spin_tries : ℤ
  pub dispatch_workers : ℤ
  pub req_ring_slots : ℤ
  pub rsp_ring_slots : ℤ

-- `if (x > most) x = most;`
abbrev pub narrow : ℤ → ℤ → ℤ
narrow most x = if ltb_ℤ most x then most else x

-- The entry depth of the completion queue, which is never below that of the submission queue.
abbrev pub widen : ℤ → ℤ → ℤ
widen least x = if ltb_ℤ x least then least else x

unfoldable pub uring_is_bad : Uring → Bool
uring_is_bad u =
    ltb_ℤ u.sq_depth (pos 16)
    || (ltb_ℤ u.cq_depth (pos 16)
        || (ltb_ℤ u.workers (pos 1)
            || (ltb_ℤ u.rx_buf_bytes (pos 4096)
                || (ltb_ℤ u.send_backlog_limit_bytes (pos 1)
                    || (ltb_ℤ u.idle_timeout_ms (pos 0) || ltb_ℤ u.accept_backlog (pos 1))))))

unfoldable pub clamp_uring : Uring → Uring
clamp_uring u =
    let sq = narrow (pos 65536) u.sq_depth in
    record {
      sq_depth = sq;
      cq_depth = narrow (pos 131072) (widen sq u.cq_depth);
      workers = narrow (pos 1024) u.workers;
      rx_buf_bytes = narrow (pos 16777216) u.rx_buf_bytes;
      send_backlog_limit_bytes = u.send_backlog_limit_bytes;
      idle_timeout_ms = narrow (pos 3600000) u.idle_timeout_ms;
      accept_backlog = narrow (pos 65535) u.accept_backlog;
    }

unfoldable pub validate_uring : Uring → Outcome Uring
unfolding uring_is_bad clamp_uring
validate_uring u = if uring_is_bad u then throw runtime_error else ok (clamp_uring u)

abbrev pub ring_mode : Bytes
ring_mode = b'r' ∷ b'i' ∷ b'n' ∷ b'g' ∷ []

abbrev pub inprocess_mode : Bytes
inprocess_mode = b'i' ∷ b'n' ∷ b'p' ∷ b'r' ∷ b'o' ∷ b'c' ∷ b'e' ∷ b's' ∷ b's' ∷ []

abbrev is_empty : Bytes → Bool
is_empty [] = true
is_empty _ = false

abbrev outside : ℤ → ℤ → ℤ → Bool
outside least most x = ltb_ℤ x least || ltb_ℤ most x

-- The numbers of slots are those that the rings are compiled with, 512 and 256.
unfoldable pub ipc_is_bad : Ipc → Bool
ipc_is_bad c =
    not (bytes_eq c.mode ring_mode || bytes_eq c.mode inprocess_mode)
    || (is_empty c.shm_prefix
        || (outside (pos 0) (pos 99) c.instance_no
            || (ltb_ℤ c.open_timeout_ms (pos 100)
                || (ltb_ℤ c.peer_timeout_ms (pos 100)
                    || (outside (pos 0) (pos 10000) c.spin_tries
                        || (outside (pos 1) (pos 1024) c.dispatch_workers
                            || (outside (pos 512) (pos 512) c.req_ring_slots
                                || outside (pos 256) (pos 256) c.rsp_ring_slots)))))))

unfoldable pub validate_ipc : Ipc → Outcome Ipc
unfolding ipc_is_bad
validate_ipc c = if ipc_is_bad c then throw runtime_error else ok c
