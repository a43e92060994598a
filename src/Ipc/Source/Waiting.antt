-- ===== src/Ipc/Source/Waiting.antt =====
-- What the result of `wait_pop` says.
use shared_bike_refactor.Base.{
  ℕ, zero, suc, ◌+◌, ◌≡◌, ◌↔◌, refl, ◌∙◌, Bool, false, not, ◌&&◌, ◌||◌, ltb, if◌then◌else◌, if_rule,
  arith,
}
use shared_bike_refactor.Ipc.Source.{
  Waits, Polled, poll_failed, poll_done, spin, after_poll, poll_slice, wait_pop,
}

-- `handed w` is the number of slots that the callback has been given: only `pop_once` adds to it, and by
-- the count that it returns.
pub record IsCounted {W : Type 0} (ws : Waits W) (handed : W → ℕ) : Type 0 where
  pub by_pop : (w : W) → handed (ws.pop_once w).1 ≡ handed w + (ws.pop_once w).0
  pub by_pause : (w : W) → handed (ws.cpu_pause w) ≡ handed w
  pub by_poll : (w : W) → handed (ws.poll w).1 ≡ handed w
  pub by_drain : (w : W) → handed (ws.drain w) ≡ handed w
  pub by_sleep : (w : W) → handed (ws.sleep_for w) ≡ handed w

module _ {W : Type 0} (ws : Waits W) (handed : W → ℕ) (counted : IsCounted ws handed) where
  abbrev Tells : W → ℕ × W → Type 0
  Tells w r = (r.0 ≡ 0) ↔ (handed r.1 ≡ handed w)

  spin_lem :
      (tries : ℕ) (w : W) → ((spin ws tries w).0 ≡ false) ↔ (handed (spin ws tries w).1 ≡ handed w)
  unfolding spin
  spin_lem zero w = (λ _. refl, λ _. refl)
  spin_lem (suc tries) w =
      let w1 = ws.cpu_pause w in
      ground (arith, counted.by_pop w1, counted.by_pause w, spin_lem tries (ws.pop_once w1).1)

  pop_counted : (w v : W) → handed v ≡ handed w → Tells w (ws.pop_once v)
  pop_counted w v e = ground (arith, counted.by_pop v)

  after_poll_lem :
      (has_notify has_wake : Bool) (p : Polled) (w v : W)
      → handed v ≡ handed w
      → Tells w (after_poll ws has_notify has_wake p v)
  unfolding after_poll
  after_poll_lem has_notify has_wake poll_failed w v e = (λ _. e, λ _. refl)
  after_poll_lem has_notify has_wake (poll_done woken) w v e =
      let read = if has_notify then ws.drain v else v in
      let same : handed read ≡ handed w = ground (arith, counted.by_drain v) in
      if_rule (Tells w) (has_wake && woken) (0, read) (ws.pop_once read)
        (λ _. (λ _. same, λ _. refl)) (λ _. pop_counted w read same)

  poll_slice_lem :
      (has_notify has_wake : Bool) (w v : W)
      → handed v ≡ handed w
      → Tells w (poll_slice ws has_notify has_wake v)
  unfolding poll_slice
  poll_slice_lem has_notify has_wake w v e =
      if_rule (Tells w) (not (has_notify || has_wake)) _ _
        (λ _. pop_counted w (ws.sleep_for v) (counted.by_sleep v ∙ e))
        (λ _.
          after_poll_lem has_notify has_wake (ws.poll v).0 w (ws.poll v).1 (counted.by_poll v ∙ e))

  -- `wait_pop` returns 0 exactly when it has handed nothing to the callback, on every path: at once, after
  -- a spin, on a failed poll, when it is woken to stop, and at the end of the slice.
  wait_pop_lem :
      (has_notify has_wake : Bool) (spin_tries : ℕ) (w : W)
      → ((wait_pop ws has_notify has_wake spin_tries w).0 ≡ 0)
        ↔ (handed (wait_pop ws has_notify has_wake spin_tries w).1 ≡ handed w)
  unfolding wait_pop
  wait_pop_lem has_notify has_wake spin_tries w =
      let (n, w1) = ws.pop_once w in
      let first = counted.by_pop w in
      let (found, w2) = spin ws spin_tries w1 in
      let spun = spin_lem spin_tries w1 in
      if_rule (Tells w) (ltb 0 n) (n, w1) _ (λ some_popped. ground arith)
        λ none_popped.
          let same : handed w1 ≡ handed w = ground arith in
          if_rule (Tells w) found (1, w2) _ (λ hit. ground arith)
            λ miss. poll_slice_lem has_notify has_wake w w2 (spun.0 miss ∙ same)
