-- ===== src/Ipc/Ring/Tests.antt =====
-- The ring at a concrete size, with counters that wrap.
use shared_bike_refactor.Base.{
  ℕ, ◌+◌, ◌-◌, ◌^◌, ◌≤◌, ◌≡◌, ◌≢◌, ◌↔◌, refl, List, [], ◌∷◌, ◌++◌, none, false, arith, length,
}
use shared_bike_refactor.Ipc.Packet.{IpcPacket, Slot, default_packet, empty_slot}
use shared_bike_refactor.Ipc.Ring.{
  Ring, begin_write, fill, publish, pop_batch, push, make_producer, make_consumer, size,
}
use shared_bike_refactor.Ipc.Ring.Steps.{
  System, Reach, here, next, reserves, fills, publishes, pops,
}
use shared_bike_refactor.Ipc.Ring.Fifo.{
  initial, IsEmptyRing, sent_received, fill_not_held, begin_write-none,
}

-- Two slots, and a tail one below the point where it wraps.
abbrev wrapping : Ring
wrapping = record {
  hdr = record {
    head = 2 ^ 32 - 1;
    producer_pid = 0;
    producer_heartbeat_ns = 0;
    tail = 2 ^ 32 - 1;
    consumer_pid = 0;
    consumer_heartbeat_ns = 0;
  };
  slots = empty_slot ∷ empty_slot ∷ [];
}

wrapping-IsEmptyRing : IsEmptyRing 1 wrapping
wrapping-IsEmptyRing = record { word = omega arith; drained = refl; slots_full = refl }

abbrev packet : ℕ → IpcPacket
packet n = record default_packet { seq = n; payload_len = 1 }

push_twice :
    let (a, p, r) = push 1 (make_producer wrapping) wrapping (packet 1) (7 ∷ []) in
    let (b, p', r') = push 1 p r (packet 2) (8 ∷ []) in
    let (c, p'', r'') = push 1 p' r' (packet 3) (9 ∷ []) in
    (r''.hdr.head ≡ 1)
    × (size p'' r'' ≡ 2)
    × (c ≡ false)
    × (pop_batch 1 (make_consumer wrapping) r'' 64 ≡ (1, 1))
unfolding push make_producer make_consumer size pop_batch
push_twice = (refl, refl, refl, refl)

-- One slot reserved, filled, published and taken as a batch; then the second slot reserved.
reach_held :
    (s : System) × Reach 1 (initial wrapping) s
    × (s.held ≡ 1)
    × (s.first ≡ 1)
    × (s.reserved ≡ 0 ∷ [])
unfolding begin_write fill publish pop_batch make_producer make_consumer
reach_held = (
  _,
  next
      (next
        (next (next (next here (reserves 1 _ refl)) (fills 0 1 (packet 1) (7 ∷ []) refl))
          (publishes _ _ refl))
        (pops 64 1 1 refl refl))
      (reserves 0 _ refl),
  refl,
  refl,
  refl,
)

sent_received_example :
    (q : List Slot) × (reach_held.0.sent ≡ reach_held.0.received ++ q) × (length q ≤ 2 ^ 1)
sent_received_example =
    sent_received 1 (omega arith) wrapping reach_held.0 wrapping-IsEmptyRing reach_held.1

fill_not_held_example : reach_held.0.first + 0 ≢ 0
fill_not_held_example =
    fill_not_held 1 (omega arith) wrapping reach_held.0 0 0 0 wrapping-IsEmptyRing reach_held.1
      (rw reach_held.4) (omega (arith, reach_held.2))

begin_write-none_example :
    (q : List Slot) × (reach_held.0.sent ≡ reach_held.0.received ++ q)
    × (((begin_write 1 reach_held.0.prod reach_held.0.ring).0 ≡ none)
        ↔ (length q + reach_held.0.seen + length reach_held.0.reserved ≡ 2 ^ 1))
begin_write-none_example =
    begin_write-none 1 (omega arith) wrapping reach_held.0 wrapping-IsEmptyRing reach_held.1
