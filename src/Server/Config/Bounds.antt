-- ===== src/Server/Config/Bounds.antt =====
-- What a configuration holds once it has been accepted (server/src/config.cpp).
use shared_bike_refactor.Base.{
  ℕ, ◌≡◌, refl, Bool, true, false, ◌||◌, arith, Bool-cases, inl, inr, ltb, subst,
}
use shared_bike_refactor.Base.Int.{ℤ, pos, ltb_ℤ, ◌≤ℤ◌}
use shared_bike_refactor.Base.Outcome.{ok, throw, runtime_error}
use shared_bike_refactor.Server.Config.{
  Uring, narrow, widen, uring_is_bad, clamp_uring, validate_uring,
}

-- The bounds of an accepted section.
pub record InBounds (u : Uring) : Type 0 where
  pub sq_depth : (pos 16 ≤ℤ u.sq_depth) × (u.sq_depth ≤ℤ pos 65536)
  pub cq_depth : (u.sq_depth ≤ℤ u.cq_depth) × (u.cq_depth ≤ℤ pos 131072)
  pub workers : (pos 1 ≤ℤ u.workers) × (u.workers ≤ℤ pos 1024)
  pub rx_buf_bytes : (pos 4096 ≤ℤ u.rx_buf_bytes) × (u.rx_buf_bytes ≤ℤ pos 16777216)
  pub send_backlog_limit_bytes : pos 1 ≤ℤ u.send_backlog_limit_bytes
  pub idle_timeout_ms : (pos 0 ≤ℤ u.idle_timeout_ms) × (u.idle_timeout_ms ≤ℤ pos 3600000)
  pub accept_backlog : (pos 1 ≤ℤ u.accept_backlog) × (u.accept_backlog ≤ℤ pos 65535)

or_left : (a b : Bool) → (a || b) ≡ false → (a ≡ false) × (b ≡ false)
or_left true b h = cc
or_left false b h = (refl, h)

not_below : (x least : ℤ) → ltb_ℤ x least ≡ false → least ≤ℤ x
not_below x least h = ground (arith, h)

narrowed :
    (least most x : ℤ)
    → least ≤ℤ most
    → least ≤ℤ x
    → (least ≤ℤ narrow most x) × (narrow most x ≤ℤ most)
narrowed least most x h k = ground (arith, h, k)

below_pos : (a b : ℕ) → ltb b a ≡ false → pos a ≤ℤ pos b
below_pos a b h = ground (arith, h)

widened : (least x : ℤ) → least ≤ℤ widen least x
widened least x = ground arith

-- A section that is not bad is in bounds once it is clamped.
clamp_uring-InBounds : (u : Uring) → uring_is_bad u ≡ false → InBounds (clamp_uring u)
unfolding uring_is_bad clamp_uring
clamp_uring-InBounds u h =
    let (sq, h1) = or_left _ _ h in
    let (cq, h2) = or_left _ _ h1 in
    let (wk, h3) = or_left _ _ h2 in
    let (rx, h4) = or_left _ _ h3 in
    let (bl, h5) = or_left _ _ h4 in
    let (it, ab) = or_left _ _ h5 in
    let sq' =
      narrowed (pos 16) (pos 65536) u.sq_depth (below_pos 16 65536 refl)
        (not_below u.sq_depth (pos 16) sq) in
    record {
      sq_depth = sq';
      cq_depth =
          narrowed (clamp_uring u).sq_depth (pos 131072) (widen (clamp_uring u).sq_depth u.cq_depth)
            (omega (arith, sq'.1)) (widened (clamp_uring u).sq_depth u.cq_depth);
      workers =
          narrowed (pos 1) (pos 1024) u.workers (below_pos 1 1024 refl)
            (not_below u.workers (pos 1) wk);
      rx_buf_bytes =
          narrowed (pos 4096) (pos 16777216) u.rx_buf_bytes (below_pos 4096 16777216 refl)
            (not_below u.rx_buf_bytes (pos 4096) rx);
      send_backlog_limit_bytes = not_below u.send_backlog_limit_bytes (pos 1) bl;
      idle_timeout_ms =
          narrowed (pos 0) (pos 3600000) u.idle_timeout_ms (below_pos 0 3600000 refl)
            (not_below u.idle_timeout_ms (pos 0) it);
      accept_backlog =
          narrowed (pos 1) (pos 65535) u.accept_backlog (below_pos 1 65535 refl)
            (not_below u.accept_backlog (pos 1) ab);
    }

kept_limit : (u : Uring) → (clamp_uring u).send_backlog_limit_bytes ≡ u.send_backlog_limit_bytes
unfolding clamp_uring
kept_limit u = refl

-- A section that is accepted is in bounds; its queues have room for one another, and the limit of the
-- bytes that wait is the one that was asked for.
pub validate_uring-InBounds :
    (u v : Uring)
    → validate_uring u ≡ ok v
    → InBounds v × (v.send_backlog_limit_bytes ≡ u.send_backlog_limit_bytes)
unfolding validate_uring
validate_uring-InBounds u v h = elim (Bool-cases (uring_is_bad u)) [
  | inl bad ↦
      let thrown : validate_uring u ≡ throw runtime_error = rw (bad, validate_uring) refl in
      absurd cc
  | inr good ↦
      let made : validate_uring u ≡ ok (clamp_uring u) = rw (good, validate_uring) refl in
      let same : clamp_uring u ≡ v = cc in
      subst (λ w. InBounds w × (w.send_backlog_limit_bytes ≡ u.send_backlog_limit_bytes)) same
        (clamp_uring-InBounds u good, kept_limit u)
]
