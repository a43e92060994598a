-- ===== src/Ipc/Source/Tests.antt =====
-- A ring of two slots with one slot published, and a process that finds something at its second look.
use shared_bike_refactor.Base.{
  ℕ, ◌+◌, ◌-◌, ◌^◌, ◌≡◌, refl, true, false, some, List, [], ◌∷◌, arith, if◌then◌else◌, ◌==◌,
}
use shared_bike_refactor.Ipc.Packet.{IpcPacket, Slot, default_packet, empty_slot}
use shared_bike_refactor.Ipc.Ring.{
  Ring, Consumer, begin_write, fill, publish, make_producer, make_consumer,
}
use shared_bike_refactor.Ipc.Ring.Steps.{System, Reach, here, next, reserves, fills, publishes}
use shared_bike_refactor.Ipc.Ring.Fifo.{initial, IsEmptyRing}
use shared_bike_refactor.Ipc.Source.{Waits, poll_done, pop_once, wait_pop}
use shared_bike_refactor.Ipc.Source.Drain.{AreDrained, views, joined, pop_once-reach}

abbrev wrapping : Ring
wrapping = record {
  hdr = record {
    head = 2 ^ 32 - 1;
    producer_pid = 0;
    producer_heartbeat_ns = 0;
    tail = 2 ^ 32 - 1;
    consumer_pid = 0;
    consumer_heartbeat_ns = 0;
  };
  slots = empty_slot ∷ empty_slot ∷ [];
}

abbrev packet : IpcPacket
packet = record default_packet { seq = 5; payload_len = 1 }

one_published : (s : System) × Reach 1 (initial wrapping) s × (s.held ≡ 0)
unfolding begin_write fill publish make_producer make_consumer
one_published = (
  _,
  next (next (next here (reserves 1 _ refl)) (fills 0 1 packet (7 ∷ []) refl)) (publishes _ _ refl),
  refl,
)

wrapping-IsEmptyRing : IsEmptyRing 1 wrapping
wrapping-IsEmptyRing = record { word = omega arith; drained = refl; slots_full = refl }

pop_once-reach_example :
    (qs : List (List Slot)) × (rest : List (Consumer × Ring)) × (pop_once 1
        (2 ^ 1 + 1)
        (views (one_published.0 ∷ []))
      ≡ some (joined qs, rest))
    × AreDrained 1 (one_published.0 ∷ []) qs rest
pop_once-reach_example =
    pop_once-reach 1 (omega arith) (one_published.0 ∷ [])
      ((wrapping, wrapping-IsEmptyRing, one_published.1, one_published.2), tt)

-- The state counts the looks and what was found; the second look finds two slots.
abbrev second_look : Waits (ℕ × ℕ)
second_look = record {
  pop_once = λ (w : ℕ × ℕ). if w.0 == 1 then (2, (w.0 + 1, w.1 + 2)) else (0, (w.0 + 1, w.1));
  cpu_pause = λ w. w;
  poll = λ w. (poll_done false, w);
  drain = λ w. w;
  sleep_for = λ w. w;
}

-- Found by a spin, the two slots are reported as one.
found_by_spin : (wait_pop second_look true true 4 (0, 0)).0 ≡ 1
unfolding wait_pop
found_by_spin = refl
