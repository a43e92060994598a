-- ===== src/Ipc/Ring/Safety.antt =====
-- The invariant of the ring under every interleaving.
use shared_bike_refactor.Base.{
  ℕ, zero, suc, ◌+◌, ◌-◌, ◌%◌, ◌^◌, ◌≤◌, ◌<◌, ◌≡◌, ◌≢◌, refl, sym, ap, ap₂, ◌∙◌, List, [], ◌∷◌,
  ◌++◌, some, get_elem?, get_or, length, length-set, arith, append_assoc, min,
}
use native.Mathlib.Nat.{mod-add-mod, mod-eq_of_lt, mod-lt}
use shared_bike_refactor.Base.Dict.{Bytes}
use shared_bike_refactor.Ipc.Packet.{IpcPacket, Slot, empty_slot}
use shared_bike_refactor.Ipc.Ring.{
  Ring, Producer, Consumer, sub32, begin_write, fill, publish, pop_batch, release,
}
use shared_bike_refactor.Ipc.Ring.Counters.{
  count_pos, count_le, index_absolute, indices, window, indices-append, window-append, window-set,
  get_elem?-indices,
}
use shared_bike_refactor.Ipc.Ring.Steps.{
  System, slots_at, Step, reserves, fills, publishes, pops, reads, releases, Reach, here, next,
}

-- The positions of the counters, were they never to wrap: `tail ≤ head ≤ local`, at most one turn apart.
pub record Inv (bits : ℕ) (s : System) : Type 0 where
  pub tail_at : ℕ
  pub in_flight : ℕ
  pub pending : ℕ
  pub room : in_flight + pending ≤ 2 ^ bits
  pub head_shared : s.ring.hdr.head ≡ (tail_at + in_flight) % 2 ^ 32
  pub tail_shared : s.ring.hdr.tail ≡ tail_at % 2 ^ 32
  pub head_local : s.prod.head_local ≡ (tail_at + in_flight + pending) % 2 ^ 32
  pub head_published : s.prod.head_published ≡ (tail_at + in_flight) % 2 ^ 32
  pub unpublished : s.prod.unpublished ≡ pending
  pub tail_local : s.cons.tail_local ≡ tail_at % 2 ^ 32
  pub slots_full : length s.ring.slots ≡ 2 ^ bits
  pub reserved_at : s.reserved ≡ indices (2 ^ bits) (tail_at + in_flight) pending
  pub batch_published : s.held ≤ in_flight
  pub batch_seen : s.seen ≤ s.held
  pub batch_first : s.held ≢ 0 → s.first ≡ tail_at % 2 ^ bits
  pub batch_fits : s.held ≢ 0 → tail_at % 2 ^ bits + s.held ≤ 2 ^ bits
  pub in_order :
      s.sent ≡ s.received ++ window (2 ^ bits) s.ring.slots (tail_at + s.seen) (in_flight - s.seen)

slots_at-indices :
    (cap : ℕ) (slots : List Slot) (x n : ℕ)
    → slots_at slots (indices cap x n) ≡ window cap slots x n
slots_at-indices cap slots x zero = refl
slots_at-indices cap slots x (suc n) =
    ap (◌∷◌ (get_or slots (x % cap) empty_slot)) (slots_at-indices cap slots (x + 1) n)

-- A window, as a run of its elements one after the other.
window-cons :
    (cap : ℕ) (slots : List Slot) (x n : ℕ)
    → 0 < n
    → window cap slots x n ≡ get_or slots (x % cap) empty_slot ∷ window cap slots (x + 1) (n - 1)
window-cons cap slots x zero h = absurd (omega arith)
window-cons cap slots x (suc n) h =
    ap (λ (k : ℕ). get_or slots (x % cap) empty_slot ∷ window cap slots (x + 1) k) (omega arith)

published_fields :
    (p : Producer) (r : Ring) (p' : Producer) (r' : Ring)
    → publish p p.unpublished r ≡ (p', r')
    → (r'.hdr.head ≡ (p.head_published + p.unpublished) % 2 ^ 32)
      × (r'.hdr.tail ≡ r.hdr.tail)
      × (p'.head_local ≡ p.head_local)
      × (p'.head_published ≡ (p.head_published + p.unpublished) % 2 ^ 32)
      × (p'.unpublished ≡ sub32 p.unpublished p.unpublished)
      × (r'.slots ≡ r.slots)
unfolding publish
published_fields p r p' r' e = ground arith

pub released_fields :
    (c : Consumer) (n : ℕ) (r : Ring) (c' : Consumer) (r' : Ring)
    → release c n r ≡ (c', r')
    → (r'.hdr.head ≡ r.hdr.head)
      × (r'.hdr.tail ≡ (c.tail_local + n) % 2 ^ 32)
      × (c'.tail_local ≡ (c.tail_local + n) % 2 ^ 32)
      × (r'.slots ≡ r.slots)
unfolding release
released_fields c n r c' r' e = ground arith

pub popped_fields :
    (bits : ℕ) (c : Consumer) (r : Ring) (max n i : ℕ)
    → pop_batch bits c r max ≡ (n, i)
    → (n ≡ min (min max (sub32 r.hdr.head c.tail_local)) (2 ^ bits - c.tail_local % 2 ^ bits))
      × (i ≡ c.tail_local % 2 ^ bits)
unfolding pop_batch
popped_fields bits c r max n i e =
    (sym (ap (λ (x : ℕ × ℕ). x.0) e), sym (ap (λ (x : ℕ × ℕ). x.1) e))

window_at :
    (cap : ℕ) (slots : List Slot) (x y m n : ℕ)
    → x ≡ y
    → m ≡ n
    → window cap slots x m ≡ window cap slots y n
window_at cap slots x y m n e f = rw (e, f)

-- Below the end of the array, indices go up by one.
pub index-add : (cap x k : ℕ) → x % cap + k < cap → (x + k) % cap ≡ x % cap + k
index-add cap x k h = sym (mod-add-mod x cap k) ∙ mod-eq_of_lt h

module _ (bits : ℕ) (small : bits ≤ 16) where
  -- What `begin_write` tests is the number of slots in use.
  pub used :
      (s : System) (v : Inv bits s)
      → sub32 s.prod.head_local s.ring.hdr.tail ≡ v.in_flight + v.pending
  used s v = omega (arith, count_le bits small, v.room, v.head_local, v.tail_shared)

  -- What `pop_batch` finds is the number of slots in flight.
  pub readable :
      (s : System) (v : Inv bits s) → sub32 s.ring.hdr.head s.cons.tail_local ≡ v.in_flight
  readable s v = omega (arith, count_le bits small, v.room, v.head_shared, v.tail_local)

  begin_write-eq_some :
      (p : Producer) (r : Ring) (i : ℕ) (p' : Producer)
      → begin_write bits p r ≡ (some i, p')
      → (sub32 p.head_local r.hdr.tail ≢ 2 ^ bits)
        × (i ≡ p.head_local % 2 ^ bits)
        × (p'.head_local ≡ (p.head_local + 1) % 2 ^ 32)
        × (p'.unpublished ≡ (p.unpublished + 1) % 2 ^ 32)
        × (p'.head_published ≡ p.head_published)
  unfolding begin_write
  begin_write-eq_some p r i p' e = ground arith

  Inv-reserves :
      (s : System) (i : ℕ) (p : Producer)
      → begin_write bits s.prod s.ring ≡ (some i, p)
      → Inv bits s
      → Inv bits (record s { prod = p; reserved = s.reserved ++ (i ∷ []) })
  Inv-reserves s i p e v =
      let (free, at, local, count, published) = begin_write-eq_some s.prod s.ring i p e in
      let bound = count_le bits small in
      record {
        tail_at = v.tail_at;
        in_flight = v.in_flight;
        pending = v.pending + 1;
        room = omega (arith, used s v);
        head_shared = v.head_shared;
        tail_shared = v.tail_shared;
        head_local = omega arith;
        head_published = omega arith;
        unpublished = omega arith;
        tail_local = v.tail_local;
        slots_full = v.slots_full;
        reserved_at = rw v.reserved_at (
            ap (λ k. indices (2 ^ bits) (v.tail_at + v.in_flight) v.pending ++ (k ∷ []))
              (at ∙ ap (λ (t : ℕ). t % 2 ^ bits) v.head_local ∙ index_absolute bits small _)
            ∙ sym (indices-append (2 ^ bits) _ v.pending 1 (v.pending + 1) refl));
        batch_published = v.batch_published;
        batch_seen = v.batch_seen;
        batch_first = v.batch_first;
        batch_fits = v.batch_fits;
        in_order = v.in_order;
      }

  -- A filled slot is none of those in flight.
  pub filled_apart :
      (s : System) (v : Inv bits s) (j i : ℕ)
      → get_elem? s.reserved j ≡ some i
      → (j < v.pending) × (i ≡ (v.tail_at + v.in_flight + j) % 2 ^ bits)
  filled_apart s v j i e =
      get_elem?-indices (2 ^ bits) (v.tail_at + v.in_flight) v.pending j i (rw v.reserved_at at e)

  Inv-fills :
      (s : System) (j i : ℕ) (pkt : IpcPacket) (src : Bytes)
      → get_elem? s.reserved j ≡ some i
      → Inv bits s
      → Inv bits (record s { ring = fill s.ring i pkt src })
  unfolding fill
  Inv-fills s j i pkt src e v =
      let (lt, at) = filled_apart s v j i e in
      record {
        tail_at = v.tail_at;
        in_flight = v.in_flight;
        pending = v.pending;
        room = v.room;
        head_shared = v.head_shared;
        tail_shared = v.tail_shared;
        head_local = v.head_local;
        head_published = v.head_published;
        unpublished = v.unpublished;
        tail_local = v.tail_local;
        slots_full = length-set s.ring.slots i _ ∙ v.slots_full;
        reserved_at = v.reserved_at;
        batch_published = v.batch_published;
        batch_seen = v.batch_seen;
        batch_first = v.batch_first;
        batch_fits = v.batch_fits;
        in_order =
            v.in_order
            ∙ ap (◌++◌ s.received) (
                rw at (
                  sym (
                    window-set (2 ^ bits) s.ring.slots _ (v.tail_at + s.seen) (v.in_flight - s.seen)
                      (v.tail_at + v.in_flight + j) (omega (arith, v.batch_seen, v.batch_published))
                      (omega (arith, v.room)))));
      }

  Inv-publishes :
      (s : System) (p : Producer) (r : Ring)
      → publish s.prod s.prod.unpublished s.ring ≡ (p, r)
      → Inv bits s
      → Inv bits (record s {
        prod = p;
        ring = r;
        reserved = [];
        sent = s.sent ++ slots_at s.ring.slots s.reserved;
      })
  unfolding publish
  Inv-publishes s p r e v =
      let bound = count_le bits small in
      let (head, tail, local, published, count, slots) = published_fields s.prod s.ring p r e in
      record {
        tail_at = v.tail_at;
        in_flight = v.in_flight + v.pending;
        pending = 0;
        room = omega (arith, v.room);
        head_shared = omega (arith, v.head_published, v.unpublished);
        tail_shared = tail ∙ v.tail_shared;
        head_local = omega (arith, v.head_local);
        head_published = omega (arith, v.head_published, v.unpublished);
        unpublished = omega (arith, v.unpublished);
        tail_local = v.tail_local;
        slots_full = ap length slots ∙ v.slots_full;
        reserved_at = refl;
        batch_published = omega (arith, v.batch_published);
        batch_seen = v.batch_seen;
        batch_first = v.batch_first;
        batch_fits = v.batch_fits;
        in_order =
            let at : v.tail_at + s.seen + (v.in_flight - s.seen) ≡ v.tail_at + v.in_flight =
              omega (arith, v.batch_seen, v.batch_published) in
            rw (slots, v.reserved_at, slots_at-indices)
              (ap (λ l. l ++ window (2 ^ bits) s.ring.slots (v.tail_at + v.in_flight) v.pending)
                  v.in_order
                ∙ append_assoc s.received _ _
                ∙ ap (◌++◌ s.received) (
                    ap
                      (λ (x : ℕ).
                        window (2 ^ bits) s.ring.slots (v.tail_at + s.seen) (v.in_flight - s.seen)
                        ++ window (2 ^ bits) s.ring.slots x v.pending)
                      (sym at)
                    ∙ sym (
                        window-append (2 ^ bits) s.ring.slots (v.tail_at + s.seen)
                          (v.in_flight - s.seen) v.pending (v.in_flight + v.pending - s.seen)
                          (omega (arith, v.batch_seen, v.batch_published)))));
      }

  Inv-pops :
      (s : System) (max n i : ℕ)
      → s.held ≡ 0
      → pop_batch bits s.cons s.ring max ≡ (n, i)
      → Inv bits s
      → Inv bits (record s { held = n; first = i; seen = 0 })
  unfolding pop_batch
  Inv-pops s max n i none_held e v =
      let popped = popped_fields bits s.cons s.ring max n i e in
      let at : s.cons.tail_local % 2 ^ bits ≡ v.tail_at % 2 ^ bits =
        ap (λ (t : ℕ). t % 2 ^ bits) v.tail_local ∙ index_absolute bits small v.tail_at in
      record {
        tail_at = v.tail_at;
        in_flight = v.in_flight;
        pending = v.pending;
        room = v.room;
        head_shared = v.head_shared;
        tail_shared = v.tail_shared;
        head_local = v.head_local;
        head_published = v.head_published;
        unpublished = v.unpublished;
        tail_local = v.tail_local;
        slots_full = v.slots_full;
        reserved_at = v.reserved_at;
        batch_published = omega (arith, popped.0, readable s v);
        batch_seen = omega arith;
        batch_first = λ h. popped.1 ∙ at;
        batch_fits = λ h. omega (arith, popped.0, at, mod-lt v.tail_at (count_pos bits));
        in_order =
            let z : s.seen ≡ 0 = omega (arith, v.batch_seen) in
            v.in_order
            ∙ ap
                (λ (k : ℕ).
                  s.received ++ window (2 ^ bits) s.ring.slots (v.tail_at + k) (v.in_flight - k))
                z;
      }

  Inv-reads :
      (s : System)
      → s.seen < s.held
      → Inv bits s
      → Inv bits (record s {
        seen = s.seen + 1;
        received = s.received ++ (get_or s.ring.slots (s.first + s.seen) empty_slot ∷ []);
      })
  Inv-reads s lt v = record {
    tail_at = v.tail_at;
    in_flight = v.in_flight;
    pending = v.pending;
    room = v.room;
    head_shared = v.head_shared;
    tail_shared = v.tail_shared;
    head_local = v.head_local;
    head_published = v.head_published;
    unpublished = v.unpublished;
    tail_local = v.tail_local;
    slots_full = v.slots_full;
    reserved_at = v.reserved_at;
    batch_published = v.batch_published;
    batch_seen = omega arith;
    batch_first = v.batch_first;
    batch_fits = v.batch_fits;
    in_order =
        let more : 0 < v.in_flight - s.seen = omega (arith, v.batch_published) in
        let first_at = v.batch_first (λ z. absurd (omega arith)) in
        let fits = v.batch_fits (λ z. absurd (omega arith)) in
        let index : (v.tail_at + s.seen) % 2 ^ bits ≡ s.first + s.seen =
          index-add (2 ^ bits) v.tail_at s.seen (omega arith)
          ∙ ap (λ (t : ℕ). t + s.seen) (sym first_at) in
        v.in_order
        ∙ ap (◌++◌ s.received) (
            window-cons (2 ^ bits) s.ring.slots (v.tail_at + s.seen) (v.in_flight - s.seen) more
            ∙ ap₂ (λ (x : ℕ) l. get_or s.ring.slots x empty_slot ∷ l) index
                (window_at (2 ^ bits) s.ring.slots _ (v.tail_at + (s.seen + 1)) _
                  (v.in_flight - (s.seen + 1)) (omega arith) (omega arith)))
        ∙ sym (append_assoc s.received _ _);
  }

  Inv-releases :
      (s : System) (c : Consumer) (r : Ring)
      → s.seen ≡ s.held
      → release s.cons s.held s.ring ≡ (c, r)
      → Inv bits s
      → Inv bits (record s { cons = c; ring = r; held = 0; seen = 0 })
  unfolding release
  Inv-releases s c r done e v =
      let at : v.tail_at + v.in_flight ≡ v.tail_at + s.held + (v.in_flight - s.held) =
        omega (arith, v.batch_published) in
      let (head, tail, local, slots) = released_fields s.cons s.held s.ring c r e in
      record {
        tail_at = v.tail_at + s.held;
        in_flight = v.in_flight - s.held;
        pending = v.pending;
        room = omega (arith, v.room);
        head_shared = head ∙ v.head_shared ∙ ap (λ (t : ℕ). t % 2 ^ 32) at;
        tail_shared = omega (arith, v.tail_local);
        head_local = v.head_local ∙ ap (λ (t : ℕ). (t + v.pending) % 2 ^ 32) at;
        head_published = v.head_published ∙ ap (λ (t : ℕ). t % 2 ^ 32) at;
        unpublished = v.unpublished;
        tail_local = omega (arith, v.tail_local);
        slots_full = ap length slots ∙ v.slots_full;
        reserved_at = v.reserved_at ∙ ap (λ (t : ℕ). indices (2 ^ bits) t v.pending) at;
        batch_published = omega arith;
        batch_seen = omega arith;
        batch_first = λ h. absurd (h refl);
        batch_fits = λ h. absurd (h refl);
        in_order = rw slots (
            v.in_order
            ∙ ap (◌++◌ s.received)
                (window_at (2 ^ bits) s.ring.slots _ _ _ _ (omega arith) (omega arith)));
      }

  -- Every step keeps the invariant.
  pub Step-Inv : {s t : System} → Step bits s t → Inv bits s → Inv bits t
  Step-Inv {s} (reserves i p e) v = Inv-reserves s i p e v
  Step-Inv {s} (fills j i pkt src e) v = Inv-fills s j i pkt src e v
  Step-Inv {s} (publishes p r e) v = Inv-publishes s p r e v
  Step-Inv {s} (pops max n i z e) v = Inv-pops s max n i z e v
  Step-Inv {s} (reads lt) v = Inv-reads s lt v
  Step-Inv {s} (releases c r done e) v = Inv-releases s c r done e v

  pub Reach-Inv : {s t : System} → Inv bits s → Reach bits s t → Inv bits t
  Reach-Inv v here = v
  Reach-Inv v (next r st) = Step-Inv st (Reach-Inv v r)
