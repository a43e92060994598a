-- ===== src/Ipc/Ring.antt =====
-- server/include/bike/ipc/spsc_ring.hpp: the ring of one producer and one consumer, with the header of
-- shm_layout.hpp. The counters are 32-bit words that wrap; `x & kMask` is `x % 2 ^ bits`. An operation
-- of a view takes the view and the shared ring, and returns what it changes.
pub mod Counters
pub mod Steps
pub mod Safety
pub mod Fifo
mod Tests
use shared_bike_refactor.Base.{
  ℕ, ◌+◌, ◌-◌, ◌%◌, ◌^◌, Bool, true, false, Option, none, some, List, [], ◌++◌, ltb, ◌==◌,
  if◌then◌else◌, get_or, set, take, drop, min,
}
use shared_bike_refactor.Base.Dict.{Bytes}
use shared_bike_refactor.Ipc.Packet.{IpcPacket, Slot, empty_slot}

pub record RingHeader : Type 0 where
  pub head : ℕ
  pub producer_pid : ℕ
  pub producer_heartbeat_ns : ℕ
  pub tail : ℕ
  pub consumer_pid : ℕ
  pub consumer_heartbeat_ns : ℕ

-- The shared memory of one ring.
pub record Ring : Type 0 where
  pub hdr : RingHeader
  pub slots : List Slot

pub record Producer : Type 0 where
  pub head_local : ℕ
  pub head_published : ℕ
  pub unpublished : ℕ

pub record Consumer : Type 0 where
  pub tail_local : ℕ

-- `std::uint32_t` sum and difference.
abbrev pub add32 : ℕ → ℕ → ℕ
add32 a b = (a + b) % 2 ^ 32

abbrev pub sub32 : ℕ → ℕ → ℕ
sub32 a b = (a + 2 ^ 32 - b) % 2 ^ 32

abbrev set_head : Ring → ℕ → Ring
set_head r v = let h = r.hdr in record r { hdr = record h { head = v } }

abbrev set_tail : Ring → ℕ → Ring
set_tail r v = let h = r.hdr in record r { hdr = record h { tail = v } }

-- The constructors of the views read the shared counters.
unfoldable pub make_producer : Ring → Producer
make_producer r = record { head_local = r.hdr.head; head_published = r.hdr.head; unpublished = 0 }

unfoldable pub make_consumer : Ring → Consumer
make_consumer r = record { tail_local = r.hdr.tail }

-- `fill` at an index of the slot array. As in the source it is the caller that checks that the payload
-- fits a slot; a longer one would be copied into the next slot there.
unfoldable pub fill : Ring → ℕ → IpcPacket → Bytes → Ring
fill r i pkt src = record r { slots = set r.slots i (record { pkt = pkt; payload = copied }) }
  where
    old : Bytes
    old = (get_or r.slots i empty_slot).payload

    copied : Bytes
    copied =
        if ltb 0 pkt.payload_len then take pkt.payload_len src ++ drop pkt.payload_len old else old

-- `assert(n == unpublished_)` is the caller's contract.
unfoldable pub publish : Producer → ℕ → Ring → Producer × Ring
publish p n r =
    let published = add32 p.head_published n in
    (
      record p { unpublished = sub32 p.unpublished n; head_published = published },
      set_head r published,
    )

unfoldable pub size : Producer → Ring → ℕ
size p r = sub32 p.head_local r.hdr.tail

unfoldable pub empty : Producer → Ring → Bool
unfolding size
empty p r = size p r == 0

unfoldable pub register_producer : Ring → ℕ → Ring
register_producer r pid = let h = r.hdr in record r { hdr = record h { producer_pid = pid } }

unfoldable pub heartbeat_producer : Ring → ℕ → Ring
heartbeat_producer r now_ns =
    let h = r.hdr in record r { hdr = record h { producer_heartbeat_ns = now_ns } }

unfoldable pub register_consumer : Ring → ℕ → Ring
register_consumer r pid = let h = r.hdr in record r { hdr = record h { consumer_pid = pid } }

unfoldable pub heartbeat_consumer : Ring → ℕ → Ring
heartbeat_consumer r now_ns =
    let h = r.hdr in record r { hdr = record h { consumer_heartbeat_ns = now_ns } }

unfoldable pub release : Consumer → ℕ → Ring → Consumer × Ring
release c n r = let t = add32 c.tail_local n in (record { tail_local = t }, set_tail r t)

unfoldable pub consumer_empty : Consumer → Ring → Bool
consumer_empty c r = r.hdr.head == c.tail_local

module _ (bits : ℕ) where
  abbrev pub slot_count : ℕ
  slot_count = 2 ^ bits

  -- The index of the reserved slot, if the ring is not full.
  unfoldable pub begin_write : Producer → Ring → Option ℕ × Producer
  begin_write p r = if sub32 p.head_local r.hdr.tail == slot_count then (none, p) else (
    some (p.head_local % slot_count),
    record p { unpublished = add32 p.unpublished 1; head_local = add32 p.head_local 1 },
  )

  unfoldable pub push : Producer → Ring → IpcPacket → Bytes → Bool × Producer × Ring
  unfolding begin_write publish fill
  push p r pkt src =
      let (slot, p') = begin_write p r in
      elim slot [
        | none ↦ (false, p', r)
        | some i ↦ let (p'', r') = publish p' 1 (fill r i pkt src) in (true, p'', r')
      ]

  unfoldable pub full : Producer → Ring → Bool
  full p r = sub32 p.head_local r.hdr.tail == slot_count

  -- The number of slots that may be read, and the index of the first of them.
  unfoldable pub pop_batch : Consumer → Ring → ℕ → ℕ × ℕ
  pop_batch c r max =
      let to_end = slot_count - c.tail_local % slot_count in
      (min (min max (sub32 r.hdr.head c.tail_local)) to_end, c.tail_local % slot_count)
