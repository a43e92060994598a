-- ===== src/Ipc/Source/Drain.antt =====
-- `pop_once` against the steps of the rings: it ends, and hands over what was published and not yet read.
use native.Mathlib.Nat.{mod-lt}
use shared_bike_refactor.Base.{
  ℕ, zero, suc, ◌+◌, ◌-◌, ◌^◌, ◌≤◌, ◌<◌, ◌≡◌, refl, sym, ap, ◌∙◌, some, List, [], ◌∷◌, ◌++◌, arith,
  append-nil, append_assoc, get_or, Bool-cases, inl, inr, ◌==◌, ==_iff, subst, ap₂,
}
use shared_bike_refactor.Ipc.Packet.{Slot, empty_slot}
use shared_bike_refactor.Ipc.Ring.{Ring, Consumer, pop_batch, release}
use shared_bike_refactor.Ipc.Ring.Counters.{count_pos, count_le, window}
use shared_bike_refactor.Ipc.Ring.Steps.{System, Reach, here, next, pops, reads, releases}
use shared_bike_refactor.Ipc.Ring.Safety.{Inv, Reach-Inv, readable, popped_fields, released_fields}
use shared_bike_refactor.Ipc.Ring.Fifo.{initial, IsEmptyRing, initial-Inv}
use shared_bike_refactor.Ipc.Source.{batch_from, pop_ring, pop_once}

module _ (bits : ℕ) where
  Reach_trans : {s t u : System} → Reach bits s t → Reach bits t u → Reach bits s u
  Reach_trans p here = p
  Reach_trans p (next q st) = next (Reach_trans p q) st

  abbrev read_to : System → ℕ → List Slot → System
  read_to s seen slots = record s { seen = seen; received = slots }

  -- The callback reads the rest of the batch, slot by slot.
  reads_rest :
      (m : ℕ) (s : System) (i : ℕ)
      → s.seen + m ≡ s.held
      → s.first + s.seen ≡ i
      → Reach bits s (read_to s s.held (s.received ++ batch_from s.ring.slots i m))
  reads_rest zero s i e at =
      subst (Reach bits s)
        (ap₂ (read_to s) {x = s.seen} {y = s.held} (omega (arith, e)) (sym (append-nil s.received)))
        here
  reads_rest (suc m) s i e at =
      let x = get_or s.ring.slots (s.first + s.seen) empty_slot in
      let rest =
        reads_rest m (read_to s (s.seen + 1) (s.received ++ (x ∷ []))) (i + 1) (omega arith)
          (omega arith) in
      subst (Reach bits s)
        (ap (read_to s s.held) (
          append_assoc s.received (x ∷ []) (batch_from s.ring.slots (i + 1) m)
          ∙ ap
              (λ (j : ℕ).
                s.received
                ++ (get_or s.ring.slots j empty_slot ∷ batch_from s.ring.slots (i + 1) m))
              at))
        (Reach_trans (next here (reads (omega arith))) rest)

  -- One round of the inner loop.
  abbrev after_round : System → System
  after_round s =
      let (n, i) = pop_batch bits s.cons s.ring 64 in
      let (c, r) = release s.cons n s.ring in
      record s {
        cons = c;
        ring = r;
        held = 0;
        first = i;
        seen = 0;
        received = s.received ++ batch_from s.ring.slots i n;
      }

  round_Reach : (s : System) → s.held ≡ 0 → Reach bits s (after_round s)
  round_Reach s free =
      let (n, i) = pop_batch bits s.cons s.ring 64 in
      let popped = record s { held = n; first = i; seen = 0 } in
      let rest = reads_rest n popped i (omega arith) (omega arith) in
      Reach_trans (next here (pops 64 n i free refl))
        (next rest (releases (release s.cons n s.ring).0 (release s.cons n s.ring).1 refl refl))

-- What the inner loop leaves of a ring from which all has been read.
pub record IsDrained (bits : ℕ) (s : System) (q : List Slot) (c : Consumer) (r : Ring)
    : Type 0 where
  pub final : System
  pub path : Reach bits s final
  pub read : final.received ≡ s.received ++ q
  pub unread : s.sent ≡ s.received ++ q
  pub view : final.cons ≡ c
  pub shared : final.ring ≡ r
  pub given_back : final.held ≡ 0

module _ (bits : ℕ) (small : bits ≤ 16) where
  pop_ring-zero :
      (fuel : ℕ) (c : Consumer) (r : Ring)
      → (pop_batch bits c r 64).0 ≡ 0
      → pop_ring bits (suc fuel) c r ≡ some ([], c, r)
  unfolding pop_ring
  pop_ring-zero fuel c r e = rw (e, pop_ring)

  pop_ring-suc :
      (fuel : ℕ) (c : Consumer) (r : Ring) {q : List Slot} {c'' : Consumer} {r'' : Ring}
      → 0 < (pop_batch bits c r 64).0
      → let (n, i) = pop_batch bits c r 64 in
        let (c', r') = release c n r in
        pop_ring bits fuel c' r' ≡ some (q, c'', r'')
        → pop_ring bits (suc fuel) c r ≡ some (batch_from r.slots i n ++ q, c'', r'')
  unfolding pop_ring
  pop_ring-suc fuel c r some_left e = rw e (ground arith)

  drained_end :
      (s : System)
      → Inv bits s
      → s.held ≡ 0
      → (pop_batch bits s.cons s.ring 64).0 ≡ 0
      → s.sent ≡ s.received ++ []
  drained_end s v free stuck =
      let at = popped_fields bits s.cons s.ring 64 _ _ refl in
      let none_left : v.in_flight - s.seen ≡ 0 =
        omega (
          arith,
          at.0,
          stuck,
          readable bits small s v,
          mod-lt s.cons.tail_local (count_pos bits),
        ) in
      v.in_order
      ∙ ap (λ (n : ℕ). s.received ++ window (2 ^ bits) s.ring.slots (v.tail_at + s.seen) n)
          none_left

  -- A round that finds slots leaves fewer of them.
  fewer :
      (s : System) (v : Inv bits s) (w : Inv bits (after_round bits s))
      → 0 < (pop_batch bits s.cons s.ring 64).0
      → w.in_flight < v.in_flight
  fewer s v w some_left =
      let n = (pop_batch bits s.cons s.ring 64).0 in
      let at = popped_fields bits s.cons s.ring 64 _ _ refl in
      let given = released_fields s.cons n s.ring _ _ refl in
      omega (
        arith,
        some_left,
        at.0,
        given.0,
        given.2,
        readable bits small s v,
        readable bits small (after_round bits s) w,
        v.head_shared,
        v.tail_local,
        v.room,
        count_le bits small,
      )

  pop_ring_lem :
      (fuel : ℕ) (s : System)
      → (v : Inv bits s) → s.held ≡ 0
      → v.in_flight < fuel
      → (q : List Slot) × (c : Consumer) × (r : Ring) × (pop_ring bits fuel s.cons s.ring
          ≡ some (q, c, r))
        × IsDrained bits s q c r
  pop_ring_lem zero s v free h = absurd (omega arith)
  pop_ring_lem (suc fuel) s v free h =
      elim (Bool-cases ((pop_batch bits s.cons s.ring 64).0 == 0)) [
        | inl e ↦
            let stuck = (==_iff _ 0).0 e in
            (
              [],
              s.cons,
              s.ring,
              pop_ring-zero fuel s.cons s.ring stuck,
              record {
                final = s;
                path = here;
                read = sym (append-nil s.received);
                unread = drained_end s v free stuck;
                view = refl;
                shared = refl;
                given_back = free;
              },
            )
        | inr more ↦
            let (n, i) = pop_batch bits s.cons s.ring 64 in
            let t = after_round bits s in
            let path = round_Reach bits s free in
            let w = Reach-Inv bits small v path in
            let (q, c, r, ends, d) =
              pop_ring_lem fuel t w refl (omega (arith, fewer s v w (ground arith))) in
            (
              batch_from s.ring.slots i n ++ q,
              c,
              r,
              pop_ring-suc fuel s.cons s.ring (ground arith) ends,
              record {
                final = d.final;
                path = Reach_trans bits path d.path;
                read = d.read ∙ append_assoc s.received (batch_from s.ring.slots i n) q;
                unread = d.unread ∙ append_assoc s.received (batch_from s.ring.slots i n) q;
                view = d.view;
                shared = d.shared;
                given_back = d.given_back;
              },
            )
      ]

abbrev pub views : List System → List (Consumer × Ring)
views [] = []
views (s ∷ ss) = (s.cons, s.ring) ∷ views ss

abbrev pub joined : List (List Slot) → List Slot
joined [] = []
joined (q ∷ qs) = q ++ joined qs

-- The rings that the reader serves: each was empty at first, and no batch of it is held.
abbrev pub AreServed : ℕ → List System → Type 0
AreServed bits [] = Unit {0}
AreServed bits (s ∷ ss) =
    ((r : Ring) × IsEmptyRing bits r × Reach bits (initial r) s × (s.held ≡ 0)) × AreServed bits ss

-- Each ring was drained of its own slots.
abbrev pub AreDrained : ℕ → List System → List (List Slot) → List (Consumer × Ring) → Type 0
AreDrained bits [] [] [] = Unit {0}
AreDrained bits (s ∷ ss) (q ∷ qs) ((c, r) ∷ rest) =
    IsDrained bits s q c r × AreDrained bits ss qs rest
AreDrained bits _ _ _ = ⊥

module _ (bits : ℕ) (small : bits ≤ 16) where
  pop_once-cons :
      (fuel : ℕ) (c : Consumer) (r : Ring) (cs : List (Consumer × Ring)) {q later : List Slot}
      {c' : Consumer} {r' : Ring} {rest : List (Consumer × Ring)}
      → pop_ring bits fuel c r ≡ some (q, c', r')
      → pop_once bits fuel cs ≡ some (later, rest)
      → pop_once bits fuel ((c, r) ∷ cs) ≡ some (q ++ later, (c', r') ∷ rest)
  unfolding pop_once
  pop_once-cons fuel c r cs e f = rw (e, f, pop_once)

  -- With a round for each slot of a ring and one more, and while the producers pause, `pop_once` ends. It
  -- hands over what was published and not yet read, ring after ring and in the order of publication, by
  -- steps of each ring, and gives every slot back.
  pub pop_once-reach :
      (ss : List System)
      → AreServed bits ss
      → (qs : List (List Slot)) × (rest : List (Consumer × Ring)) × (pop_once bits
            (2 ^ bits + 1)
            (views ss)
          ≡ some (joined qs, rest))
        × AreDrained bits ss qs rest
  pop_once-reach [] _ = ([], [], unfold pop_once in refl, tt)
  pop_once-reach (s ∷ ss) ((r0, empty, path, free), served) =
      let v = Reach-Inv bits small (initial-Inv bits small r0 empty) path in
      let (q, c, r, ends, d) =
        pop_ring_lem bits small (2 ^ bits + 1) s v free (omega (arith, v.room)) in
      let (qs, rest, later, ds) = pop_once-reach ss served in
      (
        q ∷ qs,
        (c, r) ∷ rest,
        pop_once-cons (2 ^ bits + 1) s.cons s.ring (views ss) ends later,
        (d, ds),
      )
