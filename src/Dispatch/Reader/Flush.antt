-- ===== src/Dispatch/Reader/Flush.antt =====
-- `flush_replies` of server/src/dispatch/dispatch_main.cpp: the replies that waited go into the
-- response ring. At the n-th pause on a full ring `gives_up` says whether the process stops or the
-- deadline has passed, and `gateway` what the reader of the ring has done meanwhile.
use shared_bike_refactor.Base.{
  ℕ, zero, suc, ◌+◌, ◌≡◌, ◌≤◌, ◌<◌, ◌^◌, refl, Bool, true, false, Option, none, some, List, [], ◌∷◌,
  length, All, ltb, if◌then◌else◌, arith, ◌⊎◌, Bool-cases, Option-cases, inl, inr, ◌∙◌, subst,
}
use shared_bike_refactor.Ipc.Packet.{IpcPacket, default_packet, rsp_payload_max}
use shared_bike_refactor.Ipc.Ring.{Ring, Producer, begin_write, fill, publish, empty, add32, sub32}
use shared_bike_refactor.Ipc.Sink.{ReplyItem}

abbrev pub reply_packet : ReplyItem → IpcPacket
reply_packet r = record default_packet {
  conn_id = r.conn_id;
  seq = r.seq;
  payload_len = length r.frame;
}

-- What the loop leaves: the slots that are filled and not published, and the replies that it dropped
-- when it gave up. `pauses` counts the tries on a full ring.
pub record Flushed : Type 0 where
  pub pending : ℕ
  pub producer : Producer
  pub ring : Ring
  pub pauses : ℕ
  pub dropped : ℕ

ℕ_cases : (k : ℕ) → (k ≡ 0) ⊎ ((j : ℕ) × (k ≡ suc j))
ℕ_cases zero = inl refl
ℕ_cases (suc j) = inr (j, refl)

-- The count of reserved slots as a 32-bit word.
settled_word : (u pending : ℕ) → u ≡ pending → sub32 u pending ≡ 0
settled_word u pending same = omega arith

next_word : (u pending : ℕ) → u ≡ pending → pending + 1 < 2 ^ 32 → add32 u 1 ≡ pending + 1
next_word u pending same small = omega arith

module _ (bits : ℕ) (gives_up : ℕ → Bool) (gateway : ℕ → Ring → Ring) where
  -- A reply that is too large is left out. `none` is a loop that ran out of fuel.
  unfoldable pub flush_loop : ℕ → List ReplyItem → ℕ → ℕ → Producer → Ring → Option Flushed
  unfolding begin_write publish fill
  flush_loop fuel [] pending n p ring =
      some (record { pending = pending; producer = p; ring = ring; pauses = n; dropped = 0 })
  flush_loop zero (r ∷ items) pending n p ring = none
  flush_loop (suc fuel) (r ∷ items) pending n p ring =
      let (slot, p') = begin_write bits p ring in
      let (p'', published) = publish p' pending ring in
      elim slot [
        | none ↦
            if gives_up n
            then some (record {
              pending = 0;
              producer = p'';
              ring = published;
              pauses = n;
              dropped = length (r ∷ items);
            })
            else flush_loop fuel (r ∷ items) 0 (suc n) p'' (gateway n published)
        | some i ↦
            if ltb rsp_payload_max (length r.frame)
            then flush_loop fuel items pending n p' ring
            else flush_loop fuel items (pending + 1) n p' (fill ring i (reply_packet r) r.frame)
      ]

  -- `flush_replies` on the replies that were drained: whether it writes to the FIFO, and the rest.
  unfoldable pub flush_replies :
      ℕ → List ReplyItem → Producer → Ring → Option (Bool × Producer × Ring)
  unfolding flush_loop publish
  flush_replies fuel [] p ring = some (false, p, ring)
  flush_replies fuel (r ∷ items) p ring = elim (flush_loop fuel (r ∷ items) 0 0 p ring) [
    | none ↦ none
    | some f ↦
        let (p', ring') = publish f.producer f.pending f.ring in
        if ltb 0 f.pending
        then some (empty p ring, p', ring')
        else some (empty p ring, f.producer, f.ring)
  ]

  flush_loop_fuel :
      (m k fuel : ℕ) (items : List ReplyItem) (pending n : ℕ) (p : Producer) (ring : Ring)
      → gives_up m ≡ true
      → n + k ≡ m
      → length items + k < fuel
      → (f : Flushed) × (flush_loop fuel items pending n p ring ≡ some f) × (f.pauses ≤ m)
  unfolding flush_loop begin_write
  flush_loop_fuel m k fuel [] pending n p ring up at enough = (_, refl, omega (arith, at))
  flush_loop_fuel m k zero (r ∷ items) pending n p ring up at enough =
      absurd (omega (arith, enough))
  flush_loop_fuel m k (suc fuel) (r ∷ items) pending n p ring up at enough =
      let (slot, p') = begin_write bits p ring in
      let (p'', published) = publish p' pending ring in
      elim (Option-cases (begin_write bits p ring).0) [
        | inl full ↦ elim (Bool-cases (gives_up n)) [
          | inl stops ↦ rw (full, stops, flush_loop) (_, refl, omega (arith, at))
          | inr goes_on ↦ elim (ℕ_cases k) [
            | inl done ↦ let same : n ≡ m = omega (arith, at, done) in absurd cc
            | inr (k', more) ↦
                rw (full, goes_on, flush_loop)
                  (flush_loop_fuel m k' fuel (r ∷ items) 0 (suc n) p'' (gateway n published) up
                    (omega (arith, at, more)) (omega (arith, enough, more)))
          ]
        ]
        | inr (i, room) ↦ elim (Bool-cases (ltb rsp_payload_max (length r.frame))) [
          | inl large ↦
              rw (room, large, flush_loop)
                (flush_loop_fuel m k fuel items pending n p' ring up at (omega (arith, enough)))
          | inr fits ↦
              rw (room, fits, flush_loop)
                (flush_loop_fuel m k fuel items (pending + 1) n p'
                  (fill ring i (reply_packet r) r.frame) up at (omega (arith, enough)))
        ]
      ]

  -- A frame that a slot can hold.
  abbrev pub Fits : ReplyItem → Type 0
  Fits r = length r.frame ≤ rsp_payload_max

  begin_write_full :
      (p : Producer) (ring : Ring)
      → (begin_write bits p ring).0 ≡ none
      → (begin_write bits p ring).1.unpublished ≡ p.unpublished
  unfolding begin_write
  begin_write_full p ring h = ground arith

  begin_write_room :
      (p : Producer) (ring : Ring) (i : ℕ)
      → (begin_write bits p ring).0 ≡ some i
      → (begin_write bits p ring).1.unpublished ≡ add32 p.unpublished 1
  unfolding begin_write
  begin_write_room p ring i h = ground arith

  -- As many slots are reserved as are filled and not published.
  abbrev Settled : Option Flushed → Type 0
  Settled none = Unit
  Settled (some f) = f.producer.unpublished ≡ f.pending

  flush_loop-Settled :
      (fuel : ℕ) (items : List ReplyItem) (pending n : ℕ) (p : Producer) (ring : Ring)
      → All Fits items
      → p.unpublished ≡ pending
      → pending + length items < 2 ^ 32
      → Settled (flush_loop fuel items pending n p ring)
  unfolding flush_loop begin_write publish
  flush_loop-Settled fuel [] pending n p ring fit same small = same
  flush_loop-Settled zero (r ∷ items) pending n p ring fit same small = tt
  flush_loop-Settled (suc fuel) (r ∷ items) pending n p ring fit same small =
      let (slot, p') = begin_write bits p ring in
      let (p'', published) = publish p' pending ring in
      elim (Option-cases (begin_write bits p ring).0) [
        | inl full ↦
            let clear : p''.unpublished ≡ 0 =
              settled_word p'.unpublished pending (begin_write_full p ring full ∙ same) in
            elim (Bool-cases (gives_up n)) [
              | inl stops ↦ rw (full, stops, flush_loop, Settled) clear
              | inr goes_on ↦
                  rw (full, goes_on, flush_loop, Settled)
                    (flush_loop-Settled fuel (r ∷ items) 0 (suc n) p'' (gateway n published) fit
                      clear (omega (arith, small)))
            ]
        | inr (i, room) ↦
            let fits : ltb rsp_payload_max (length r.frame) ≡ false = ground (arith, fit.0) in
            let one_more : p'.unpublished ≡ pending + 1 =
              begin_write_room p ring i room
              ∙ next_word p.unpublished pending same (omega (arith, small)) in
            rw (room, fits, flush_loop, Settled)
              (flush_loop-Settled fuel items (pending + 1) n p'
                (fill ring i (reply_packet r) r.frame) fit.1 one_more (omega (arith, small)))
      ]

  -- With fuel for every reply and every pause up to the one at which it gives up, `flush_replies` ends;
  -- where all the frames fit a slot and none was reserved before, it leaves no slot that is reserved and
  -- not published.
  pub flush_replies_lem :
      (m fuel : ℕ) (items : List ReplyItem) (p : Producer) (ring : Ring)
      → gives_up m ≡ true
      → length items + m < fuel
      → All Fits items
      → length items < 2 ^ 32
      → p.unpublished ≡ 0
      → (notify : Bool) × (p' : Producer) × (ring' : Ring) × (flush_replies fuel items p ring
          ≡ some (notify, p', ring'))
        × (p'.unpublished ≡ 0)
  unfolding flush_replies publish
  flush_replies_lem m fuel [] p ring up enough fit small none_open =
      (false, p, ring, refl, none_open)
  flush_replies_lem m fuel (r ∷ items) p ring up enough fit small none_open =
      let (f, runs, _) = flush_loop_fuel m m fuel (r ∷ items) 0 0 p ring up (omega arith) enough in
      let settled =
        flush_loop-Settled fuel (r ∷ items) 0 0 p ring fit none_open (omega (arith, small)) in
      let same : f.producer.unpublished ≡ f.pending = subst Settled runs settled in
      elim (Bool-cases (ltb 0 f.pending)) [
        | inl some_left ↦
            rw (runs, some_left, flush_replies, publish)
              (_, _, _, refl, settled_word f.producer.unpublished f.pending same)
        | inr none_left ↦
            rw (runs, none_left, flush_replies) (_, _, _, refl, ground (arith, same, none_left))
      ]
