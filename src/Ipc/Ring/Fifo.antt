-- ===== src/Ipc/Ring/Fifo.antt =====
-- What the ring promises its two sides, after any interleaving of their accesses.
use native.Mathlib.Nat.{mod-lt}
use shared_bike_refactor.Base.{
  ℕ, zero, suc, ◌+◌, ◌-◌, ◌^◌, ◌≤◌, ◌<◌, ◌≡◌, ◌≢◌, ◌↔◌, refl, sym, ap, ◌∙◌, List, [], ◌++◌, some,
  none, get_elem?, length, arith, append-nil,
}
use shared_bike_refactor.Ipc.Packet.{Slot}
use shared_bike_refactor.Ipc.Ring.{
  Ring, Producer, begin_write, pop_batch, make_producer, make_consumer, sub32,
}
use shared_bike_refactor.Ipc.Ring.Counters.{count_pos, index_ne, window, indices}
use shared_bike_refactor.Ipc.Ring.Steps.{System, Reach}
use shared_bike_refactor.Ipc.Ring.Safety.{
  Inv, Reach-Inv, used, readable, filled_apart, popped_fields, index-add,
}

-- Both sides attach to an empty ring, at whatever value its counters have.
abbrev pub initial : Ring → System
initial r = record {
  ring = r;
  prod = make_producer r;
  cons = make_consumer r;
  reserved = [];
  held = 0;
  first = 0;
  seen = 0;
  sent = [];
  received = [];
}

pub record IsEmptyRing (bits : ℕ) (r : Ring) : Type 0 where
  pub word : r.hdr.tail < 2 ^ 32
  pub drained : r.hdr.head ≡ r.hdr.tail
  pub slots_full : length r.slots ≡ 2 ^ bits

length-window : (cap : ℕ) (slots : List Slot) (x n : ℕ) → length (window cap slots x n) ≡ n
length-window cap slots x zero = refl
length-window cap slots x (suc n) = ap suc (length-window cap slots (x + 1) n)

length-indices : (cap x n : ℕ) → length (indices cap x n) ≡ n
length-indices cap x zero = refl
length-indices cap x (suc n) = ap suc (length-indices cap (x + 1) n)

module _ (bits : ℕ) (small : bits ≤ 16) where
  pub initial-Inv : (r : Ring) → IsEmptyRing bits r → Inv bits (initial r)
  unfolding make_producer make_consumer
  initial-Inv r v = record {
    tail_at = r.hdr.tail;
    in_flight = 0;
    pending = 0;
    room = omega (arith, count_pos bits);
    head_shared = omega (arith, v.word, v.drained);
    tail_shared = omega (arith, v.word);
    head_local = omega (arith, v.word, v.drained);
    head_published = omega (arith, v.word, v.drained);
    unpublished = refl;
    tail_local = omega (arith, v.word);
    slots_full = v.slots_full;
    reserved_at = refl;
    batch_published = omega arith;
    batch_seen = omega arith;
    batch_first = λ h. absurd (h refl);
    batch_fits = λ h. absurd (h refl);
    in_order = refl;
  }

  -- First in, first out: what the consumer has read is a prefix of what the producer has published,
  -- in the same order with nothing lost, doubled or altered, and what is not yet read fits in the ring.
  pub sent_received :
      (r : Ring) (s : System)
      → IsEmptyRing bits r
      → Reach bits (initial r) s
      → (q : List Slot) × (s.sent ≡ s.received ++ q) × (length q ≤ 2 ^ bits)
  sent_received r s v path =
      let i = Reach-Inv bits small (initial-Inv r v) path in
      (
        window (2 ^ bits) s.ring.slots (i.tail_at + s.seen) (i.in_flight - s.seen),
        i.in_order,
        omega (
          arith,
          length-window (2 ^ bits) s.ring.slots (i.tail_at + s.seen) (i.in_flight - s.seen),
          i.room,
        ),
      )

  -- No slot that the producer may fill is in the batch that the consumer holds.
  pub fill_not_held :
      (r : Ring) (s : System) (j i k : ℕ)
      → IsEmptyRing bits r
      → Reach bits (initial r) s
      → get_elem? s.reserved j ≡ some i
      → k < s.held
      → s.first + k ≢ i
  fill_not_held r s j i k v path e lt =
      let a = Reach-Inv bits small (initial-Inv r v) path in
      let (pending, at) = filled_apart bits small s a j i e in
      let first_at = a.batch_first (λ z. absurd (omega arith)) in
      let fits = a.batch_fits (λ z. absurd (omega arith)) in
      λ same.
        index_ne (2 ^ bits) (a.tail_at + k) (a.tail_at + a.in_flight + j)
          (omega (arith, a.batch_published)) (omega (arith, a.room))
          (index-add (2 ^ bits) a.tail_at k (omega arith)
            ∙ ap (λ (t : ℕ). t + k) (sym first_at)
            ∙ same
            ∙ at)

  begin_write_full :
      (p : Producer) (r : Ring)
      → ((begin_write bits p r).0 ≡ none) ↔ (sub32 p.head_local r.hdr.tail ≡ 2 ^ bits)
  unfolding begin_write
  begin_write_full p r = (λ e. ground arith, λ e. ground arith)

  -- The producer gets no slot exactly when every slot is reserved, or published and not given back.
  pub begin_write-none :
      (r : Ring) (s : System)
      → IsEmptyRing bits r
      → Reach bits (initial r) s
      → (q : List Slot) × (s.sent ≡ s.received ++ q)
        × (((begin_write bits s.prod s.ring).0 ≡ none)
            ↔ (length q + s.seen + length s.reserved ≡ 2 ^ bits))
  begin_write-none r s v path =
      let i = Reach-Inv bits small (initial-Inv r v) path in
      let q = window (2 ^ bits) s.ring.slots (i.tail_at + s.seen) (i.in_flight - s.seen) in
      let count : length q + s.seen + length s.reserved ≡ i.in_flight + i.pending = omega (
        arith,
        length-window (2 ^ bits) s.ring.slots (i.tail_at + s.seen) (i.in_flight - s.seen),
        ap length i.reserved_at,
        length-indices (2 ^ bits) (i.tail_at + i.in_flight) i.pending,
        i.batch_seen,
        i.batch_published,
      ) in
      let in_use = used bits small s i in
      let test = begin_write_full s.prod s.ring in
      (q, i.in_order, (λ e. count ∙ sym in_use ∙ test.0 e, λ e. test.1 (in_use ∙ sym count ∙ e)))

  -- A consumer that holds no batch and asks for some slots gets one, unless all that was published
  -- has been read.
  pop_batch_progress :
      (r : Ring) (s : System) (max : ℕ)
      → IsEmptyRing bits r
      → Reach bits (initial r) s
      → s.held ≡ 0
      → 0 < max
      → (pop_batch bits s.cons s.ring max).0 ≡ 0
      → s.sent ≡ s.received
  pop_batch_progress r s max v path z lt stuck =
      let i = Reach-Inv bits small (initial-Inv r v) path in
      let at = popped_fields bits s.cons s.ring max _ _ refl in
      let drained : i.in_flight - s.seen ≡ 0 =
        omega (arith, at.0, readable bits small s i, mod-lt s.cons.tail_local (count_pos bits)) in
      i.in_order
      ∙ ap (λ (n : ℕ). s.received ++ window (2 ^ bits) s.ring.slots (i.tail_at + s.seen) n) drained
      ∙ append-nil s.received
