-- ===== src/Ipc/Source.antt =====
-- server/src/ipc/ring_source.cpp: the reading side. A ring is read with `pop_batch` and `release` of
-- Ipc/Ring; the slots that are handed to the callback are a list.
pub mod Drain
pub mod Waiting
mod Tests
use shared_bike_refactor.Base.{
  ℕ, zero, suc, ◌+◌, ◌-◌, ◌*◌, ◌%◌, ◌^◌, Bool, true, false, ◌&&◌, ◌||◌, not, Option, none, some,
  List, [], ◌∷◌, ◌++◌, ltb, ◌==◌, map, if◌then◌else◌, get_or, length,
}
use shared_bike_refactor.Ipc.Packet.{Slot, empty_slot}
use shared_bike_refactor.Ipc.Ring.{
  Ring, Consumer, pop_batch, release, register_consumer, heartbeat_consumer,
}

-- `now - hb` of unsigned 64-bit numbers; `timeout_ms` is `timeout.count()`.
unfoldable pub producer_alive : List Ring → ℕ → ℕ → Bool
producer_alive [] timeout_ms now = false
producer_alive (r ∷ rings) timeout_ms now =
    let hb = r.hdr.producer_heartbeat_ns in
    (not (hb == 0) && ltb ((now + 2 ^ 64 - hb) % 2 ^ 64) (timeout_ms * 1000000 % 2 ^ 64))
    || producer_alive rings timeout_ms now

unfoldable pub register_pid : List Ring → ℕ → List Ring
register_pid rings pid = map (λ (r : Ring). register_consumer r pid) rings

unfoldable pub beat_all : List Ring → ℕ → List Ring
beat_all rings now = map (λ (r : Ring). heartbeat_consumer r now) rings

-- `batch[0]`, …, `batch[n - 1]`
abbrev pub batch_from : List Slot → ℕ → ℕ → List Slot
batch_from slots i zero = []
batch_from slots i (suc n) = get_or slots i empty_slot ∷ batch_from slots (i + 1) n

module _ (bits : ℕ) where
  -- The inner loop of `pop_once`: the slots that the callback has seen, and the ring with its view.
  -- `none` is a loop that ran out of fuel.
  unfoldable pub pop_ring : ℕ → Consumer → Ring → Option (List Slot × Consumer × Ring)
  pop_ring zero c r = none
  pop_ring (suc fuel) c r =
      let (n, i) = pop_batch bits c r 64 in
      let (c', r') = release c n r in
      let rest : Option (List Slot × Consumer × Ring) = elim (pop_ring fuel c' r') [
        | none ↦ none
        | some (slots, c'', r'') ↦ some (batch_from r.slots i n ++ slots, c'', r'')
      ] in
      if n == 0 then some ([], c, r) else rest

  -- The number of slots is `total`.
  unfoldable pub pop_once : ℕ → List (Consumer × Ring) → Option (List Slot × List (Consumer × Ring))
  pop_once fuel [] = some ([], [])
  pop_once fuel ((c, r) ∷ consumers) = elim (pop_ring fuel c r) [
    | none ↦ none
    | some (slots, c', r') ↦ elim (pop_once fuel consumers) [
      | none ↦ none
      | some (later, rest) ↦ some (slots ++ later, (c', r') ∷ rest)
    ]
  ]

-- What `poll` reports: a failure other than EINTR and EAGAIN, or whether the wake descriptor is readable.
pub data Polled : Type 0 where
  poll_failed : Polled
  poll_done : Bool → Polled

-- What waiting calls, on the state `W` of the rings and of the process. `pop_once` counts what it handed
-- to the callback.
pub record Waits (W : Type 0) : Type 0 where
  pub pop_once : W → ℕ × W
  pub cpu_pause : W → W
  pub poll : W → Polled × W
  pub drain : W → W
  pub sleep_for : W → W

module _ {W : Type 0} (ws : Waits W) where
  -- Whether one of the spins has found something.
  unfoldable pub spin : ℕ → W → Bool × W
  spin zero w = (false, w)
  spin (suc tries) w =
      let (n, w') = ws.pop_once (ws.cpu_pause w) in
      let rest = spin tries w' in if ltb 0 n then (true, w') else rest

  unfoldable pub after_poll : Bool → Bool → Polled → W → ℕ × W
  after_poll has_notify has_wake poll_failed w = (0, w)
  after_poll has_notify has_wake (poll_done woken) w =
      let read = if has_notify then ws.drain w else w in
      if has_wake && woken then (0, read) else ws.pop_once read

  -- The poll of one slice. `has_notify` and `has_wake` say which of the two descriptors there is.
  unfoldable pub poll_slice : Bool → Bool → W → ℕ × W
  unfolding after_poll
  poll_slice has_notify has_wake w =
      if not (has_notify || has_wake)
      then ws.pop_once (ws.sleep_for w)
      else after_poll has_notify has_wake (ws.poll w).0 (ws.poll w).1

  unfoldable pub wait_pop : Bool → Bool → ℕ → W → ℕ × W
  unfolding spin poll_slice
  wait_pop has_notify has_wake spin_tries w =
      let (n, w1) = ws.pop_once w in
      let (found, w2) = spin spin_tries w1 in
      if ltb 0 n then (n, w1) else if found then (1, w2) else poll_slice has_notify has_wake w2
