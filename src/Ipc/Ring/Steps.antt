-- ===== src/Ipc/Ring/Steps.antt =====
-- One producer and one consumer on a shared ring, as a step relation: every interleaving of their
-- accesses is a sequence of steps. A step holds one access to shared memory. The atomic loads and
-- stores of the counters are taken in one order, which the acquire and release pairs give for the slots.
use shared_bike_refactor.Base.{ℕ, ◌+◌, ◌<◌, ◌≡◌, List, [], ◌∷◌, ◌++◌, some, get_elem?, get_or}
use shared_bike_refactor.Base.Dict.{Bytes}
use shared_bike_refactor.Ipc.Packet.{IpcPacket, Slot, empty_slot}
use shared_bike_refactor.Ipc.Ring.{
  Ring, Producer, Consumer, begin_write, fill, publish, pop_batch, release,
}

-- `reserved` holds the slots that `begin_write` handed out since the last `publish`; `batch` is what
-- `pop_batch` returned and `release` has not given back, with the number of its slots read so far.
-- `sent` and `received` record, in order, the slots as published and as read.
pub record System : Type 0 where
  pub ring : Ring
  pub prod : Producer
  pub cons : Consumer
  pub reserved : List ℕ
  pub held : ℕ
  pub first : ℕ
  pub seen : ℕ
  pub sent : List Slot
  pub received : List Slot

-- What the slots hold at a list of indices.
abbrev pub slots_at : List Slot → List ℕ → List Slot
slots_at slots [] = []
slots_at slots (i ∷ is) = get_or slots i empty_slot ∷ slots_at slots is

pub data Step (bits : ℕ) (s : System) : System → Type 0 where
  reserves :
      (i : ℕ) (p : Producer)
      → begin_write bits s.prod s.ring ≡ (some i, p)
      → Step bits s (record s { prod = p; reserved = s.reserved ++ (i ∷ []) })
  fills :
      (j i : ℕ) (pkt : IpcPacket) (src : Bytes)
      → get_elem? s.reserved j ≡ some i
      → Step bits s (record s { ring = fill s.ring i pkt src })
  publishes :
      (p : Producer) (r : Ring)
      → publish s.prod s.prod.unpublished s.ring ≡ (p, r)
      → Step bits s (record s {
        prod = p;
        ring = r;
        reserved = [];
        sent = s.sent ++ slots_at s.ring.slots s.reserved;
      })
  pops :
      (max n i : ℕ)
      → s.held ≡ 0
      → pop_batch bits s.cons s.ring max ≡ (n, i)
      → Step bits s (record s { held = n; first = i; seen = 0 })
  reads :
      s.seen < s.held
      → Step bits s (record s {
        seen = s.seen + 1;
        received = s.received ++ (get_or s.ring.slots (s.first + s.seen) empty_slot ∷ []);
      })
  releases :
      (c : Consumer) (r : Ring)
      → s.seen ≡ s.held
      → release s.cons s.held s.ring ≡ (c, r)
      → Step bits s (record s { cons = c; ring = r; held = 0; seen = 0 })

pub data Reach (bits : ℕ) (s : System) : System → Type 0 where
  here : Reach bits s s
  next : {t u : System} → Reach bits s t → Step bits t u → Reach bits s u
