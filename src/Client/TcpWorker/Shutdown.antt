-- ===== src/Client/TcpWorker/Shutdown.antt =====
-- The end of the worker, and its patience with a network that is down.
use native.Mathlib.Nat.{mul_assoc, mul-le-mul_right}
use shared_bike_refactor.Base.Dict.{Bytes}
use shared_bike_refactor.Base.{
  ℕ, zero, suc, sym, subst, ◌*◌, ◌^◌, ◌≤◌, ◌≡◌, refl, ap, ◌∙◌, Bool, true, false, List, [], ◌∷◌,
  length, arith, min, if_rule, not, leb, Bool-cases, inl, inr, ◌<◌,
}
use shared_bike_refactor.Client.TcpWorker.{
  TcpWorker, Qt, unconnected_state, backoff_cap_ms, on_disconnected, schedule_reconnect,
  abort_socket, signalled, disconnect_socket, abort_if_used, discard_socket, drop_socket, shutdown,
  connect_to_server, ensure_socket, send_frame, on_error, on_timer, is_unconnected, emit,
  error_occurred,
}
use shared_bike_refactor.Client.TcpWorker.Steps.{WorkerEvent, socket_error, timer_fired, step, run}
use shared_bike_refactor.Client.TcpWorker.Validity.{abort_again}

pub record IsStopped {N : Type 0} (w : TcpWorker N) : Type 0 where
  pub stopping : w.shutting_down ≡ true
  pub no_socket : w.sock ≡ false

module _ {N : Type 0} (qt : Qt N) where
  slot_stops :
      (depth : ℕ) (w : TcpWorker N)
      → w.shutting_down ≡ true
      → (on_disconnected qt depth w).shutting_down ≡ true
  unfolding on_disconnected schedule_reconnect
  slot_stops zero w e = e
  slot_stops (suc depth) w e = ground arith

  signalled_stops :
      (gone : Bool) (w : TcpWorker N)
      → w.shutting_down ≡ true
      → (signalled (on_disconnected qt 2) gone w).shutting_down ≡ true
  unfolding signalled
  signalled_stops true w e = slot_stops 2 w e
  signalled_stops false w e = e

  abort_if_used_stops :
      (w : TcpWorker N)
      → w.shutting_down ≡ true
      → (abort_if_used qt (on_disconnected qt 2) w).shutting_down ≡ true
  unfolding abort_if_used abort_socket
  abort_if_used_stops w e =
      if_rule (λ (v : TcpWorker N). v.shutting_down ≡ true)
        (not (is_unconnected (qt.socket_state w.net))) _ w
        (λ _. signalled_stops (qt.abort w.net).0 (record w { net = (qt.abort w.net).1 }) e) (λ _. e)

  shutdown-IsStopped : (w : TcpWorker N) → IsStopped (shutdown qt w)
  unfolding shutdown drop_socket discard_socket disconnect_socket
  shutdown-IsStopped w =
      let w1 = record w { shutting_down = true; pending = [] } in
      let net = qt.disconnect_from_host w.net in
      if_rule IsStopped (not w.sock) w1 _
        (λ none. record { stopping = refl; no_socket = ground arith })
        (λ _. record {
          stopping = abort_if_used_stops _ (signalled_stops net.0 (record w1 { net = net.1 }) refl);
          no_socket = refl;
        })

  step-IsStopped :
      (w : TcpWorker N) (e : WorkerEvent)
      → IsStopped w
      → IsStopped (step qt w e) × ((step qt w e).net ≡ w.net)
  unfolding step connect_to_server send_frame shutdown drop_socket on_timer
  step-IsStopped w e s = ground arith

  run-IsStopped :
      (w : TcpWorker N) (es : List WorkerEvent)
      → IsStopped w
      → IsStopped (run qt w es) × ((run qt w es).net ≡ w.net)
  unfolding run
  run-IsStopped w [] s = (s, refl)
  run-IsStopped w (e ∷ es) s =
      let (still, same) = step-IsStopped w e s in
      let rest = run-IsStopped (step qt w e) es still in (rest.0, rest.1 ∙ same)

  -- After `shutdown` the worker has no socket, gets none, and calls the network no more, whatever is
  -- asked of it and whatever timers are left.
  pub run-shutdown :
      (w : TcpWorker N) (es : List WorkerEvent)
      → IsStopped (run qt (shutdown qt w) es)
        × ((run qt (shutdown qt w) es).net ≡ (shutdown qt w).net)
  run-shutdown w es = run-IsStopped (shutdown qt w) es (shutdown-IsStopped w)

-- A worker that waits for its reconnect timer.
pub record IsWaiting {N : Type 0} (w : TcpWorker N) : Type 0 where
  pub running : w.shutting_down ≡ false
  pub host_known : 0 < length w.host
  pub scheduled : w.reconnect_scheduled ≡ true
  pub one_timer : length w.timers ≡ 1

-- The timer fires, the connection fails: so many times.
abbrev pub failures : ℕ → List WorkerEvent
failures zero = []
failures (suc k) = timer_fired ∷ socket_error ∷ failures k

doubled_twice : (b k : ℕ) → min (min (b * 2) 10000 * 2 ^ k) 10000 ≡ min (b * 2 ^ suc k) 10000
doubled_twice b k = go (2 ^ k) (pow_pos k) ∙ ap (λ (p : ℕ). min (b * p) 10000) (omega arith)
  where
    pow_pos : (k : ℕ) → 1 ≤ 2 ^ k
    pow_pos zero = omega arith
    pow_pos (suc k) = omega (arith, pow_pos k)

    go : (p : ℕ) → 1 ≤ p → min (min (b * 2) 10000 * p) 10000 ≡ min (b * (2 * p)) 10000
    go p h = elim (Bool-cases (leb (b * 2) 10000)) [
      | inl small ↦
          let e : min (b * 2) 10000 ≡ b * 2 = ground arith in
          rw e (ap (λ (t : ℕ). min t 10000) (mul_assoc b 2 p))
      | inr large ↦
          let e : min (b * 2) 10000 ≡ 10000 = ground arith in
          let more : 10000 * p ≤ b * 2 * p = mul-le-mul_right p (ground arith) in
          rw e (omega (arith, more, mul_assoc b 2 p))
    ]

length_one : (ds : List ℕ) → length ds ≡ 1 → (d : ℕ) × (ds ≡ d ∷ [])
length_one (d ∷ []) h = (d, refl)
length_one [] h = absurd (omega arith)
length_one (d ∷ e ∷ ds) h = absurd (omega arith)

-- Where the network is down, `D`, each attempt to connect has failed when the socket says so, and the
-- network is still down when the socket is aborted.
pub record IsDown {N : Type 0} (qt : Qt N) (D : N → Type 0) : Type 0 where
  pub made : (n : N) → D n → D (qt.new_socket n)
  pub fails :
      (host : Bytes) (port : ℕ) (n : N)
      → D n
      → qt.socket_state (qt.connect_to_host host port n) ≡ unconnected_state
  pub stays :
      (host : Bytes) (port : ℕ) (n : N) → D n → D (qt.abort (qt.connect_to_host host port n)).1

module _ {N : Type 0} (qt : Qt N) where
  slot_keeps_net :
      (depth : ℕ) (w : TcpWorker N)
      → w.reconnect_scheduled ≡ true
      → (on_disconnected qt depth w).net ≡ w.net
  unfolding on_disconnected schedule_reconnect
  slot_keeps_net zero w e = refl
  slot_keeps_net (suc depth) w e = rw e (ground arith)

  abort_net :
      (w : TcpWorker N)
      → w.reconnect_scheduled ≡ true
      → (abort_socket qt (on_disconnected qt 2) w).net ≡ (qt.abort w.net).1
  unfolding abort_socket signalled
  abort_net w e = ground (arith, slot_keeps_net 2 (record w { net = (qt.abort w.net).1 }) e)

  -- The timer is set to the delay that the worker had; the next one is doubled.
  scheduled_lem :
      (u : TcpWorker N)
      → u.shutting_down ≡ false
      → 0 < length u.host
      → u.reconnect_scheduled ≡ false
      → u.timers ≡ []
      → u.sock ≡ true
      → let s = schedule_reconnect qt (on_disconnected qt 2) u in
        IsWaiting s
        × (s.timers ≡ u.backoff_ms ∷ [])
        × (s.backoff_ms ≡ min (u.backoff_ms * 2) backoff_cap_ms)
        × (s.net ≡ (qt.abort u.net).1)
  unfolding schedule_reconnect
  scheduled_lem u live host free none has = ground (
    arith,
    abort_again qt 2 (record u { reconnect_scheduled = true }) refl,
    abort_net (record u { reconnect_scheduled = true }) refl,
  )

  error_schedules :
      (w : TcpWorker N)
      → w.shutting_down ≡ false
      → 0 < length w.host
      → w.reconnect_scheduled ≡ false
      → w.timers ≡ []
      → w.connecting ≡ true
      → w.sock ≡ true
      → qt.socket_state w.net ≡ unconnected_state
      → let s = on_error qt w in
        IsWaiting s
        × (s.timers ≡ w.backoff_ms ∷ [])
        × (s.backoff_ms ≡ min (w.backoff_ms * 2) backoff_cap_ms)
        × (s.net ≡ (qt.abort w.net).1)
  unfolding on_error
  error_schedules w live host free none busy has failed =
      let u = record (emit error_occurred w) { connecting = false } in
      ground (arith, scheduled_lem u live host free none has)

  socket_error_lem : (w : TcpWorker N) → w.sock ≡ true → step qt w socket_error ≡ on_error qt w
  unfolding step
  socket_error_lem w e = rw e

  fired_lem :
      (w : TcpWorker N)
      → IsWaiting w
      → let f = step qt w timer_fired in
        (f.shutting_down ≡ false)
        × (0 < length f.host)
        × (f.reconnect_scheduled ≡ false)
        × (f.timers ≡ [])
        × (f.connecting ≡ true)
        × (f.sock ≡ true)
        × (f.backoff_ms ≡ w.backoff_ms)
        × (f.net ≡ qt.connect_to_host w.host w.port (ensure_socket qt w).net)
  unfolding step on_timer ensure_socket
  fired_lem w v = let (d, e) = length_one w.timers v.one_timer in ground arith

  module _ (D : N → Type 0) (down : IsDown qt D) where
    ensure_socket_down : (w : TcpWorker N) → D w.net → D (ensure_socket qt w).net
    unfolding ensure_socket
    ensure_socket_down w d =
        if_rule (λ (v : TcpWorker N). D v.net) w.sock w _ (λ _. d) (λ _. down.made w.net d)

    round_lem :
        (w : TcpWorker N)
        → IsWaiting w
        → D w.net
        → let w' = step qt (step qt w timer_fired) socket_error in
          IsWaiting w'
          × (w'.timers ≡ w.backoff_ms ∷ [])
          × (w'.backoff_ms ≡ min (w.backoff_ms * 2) backoff_cap_ms)
          × D w'.net
    round_lem w v d =
        let f = step qt w timer_fired in
        let ready = (ensure_socket qt w).net in
        let on = ensure_socket_down w d in
        let (live, host, free, none, busy, has, same, net) = fired_lem w v in
        let failed = ap qt.socket_state net ∙ down.fails w.host w.port ready on in
        let (waits, timer, delay, after) = error_schedules f live host free none busy has failed in
        rw (socket_error_lem f has) (
          waits,
          timer ∙ ap (λ (b : ℕ). b ∷ []) same,
          delay ∙ ap (λ (b : ℕ). min (b * 2) backoff_cap_ms) same,
          subst D (sym (after ∙ ap (λ n. (qt.abort n).1) net)) (down.stays w.host w.port ready on),
        )

    -- While the network is down, so that every attempt fails, the worker never gives up: after each
    -- failure it waits, with one timer set. The delay of that timer was doubled at each failure before
    -- this one, up to ten seconds, and so is the next one.
    pub run-failures :
        (w : TcpWorker N) (k : ℕ)
        → w.backoff_ms ≤ backoff_cap_ms
        → IsWaiting w
        → D w.net
        → let w' = run qt w (failures (suc k)) in
          IsWaiting w'
          × (w'.timers ≡ min (w.backoff_ms * 2 ^ k) backoff_cap_ms ∷ [])
          × (w'.backoff_ms ≡ min (w.backoff_ms * 2 ^ suc k) backoff_cap_ms)
    unfolding run
    run-failures w zero h v d =
        let (waits, timer, delay, _) = round_lem w v d in
        (waits, timer ∙ ap (λ (b : ℕ). b ∷ []) (omega arith), delay ∙ omega arith)
    run-failures w (suc k) h v d =
        let w' = step qt (step qt w timer_fired) socket_error in
        let (waits, _, delay, still) = round_lem w v d in
        let rest = run-failures w' k (omega (arith, delay)) waits still in
        (
          rest.0,
          rest.1
              ∙ ap (λ (b : ℕ). min (b * 2 ^ k) backoff_cap_ms ∷ []) delay
              ∙ ap (λ (b : ℕ). b ∷ []) (doubled_twice w.backoff_ms k),
          rest.2
              ∙ ap (λ (b : ℕ). min (b * 2 ^ suc k) backoff_cap_ms) delay
              ∙ doubled_twice w.backoff_ms (suc k),
        )
