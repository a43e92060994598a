-- ===== src/Dispatch/Reader/Quota.antt =====
-- The quota of replies that are due (server/src/dispatch/dispatch_main.cpp).
use shared_bike_refactor.Base.{
  ℕ, ◌+◌, ◌≡◌, refl, ap, Bool, true, false, List, [], ◌∷◌, length, arith, length-append,
}
use shared_bike_refactor.Base.Dict.{Bytes}
use shared_bike_refactor.Base.Outcome.{Outcome, ok}
use shared_bike_refactor.Protocol.{Frame, encode, stamp_seq}
use shared_bike_refactor.Protocol.Stamp.{stamp_seq-encode, encode_some}
use shared_bike_refactor.Ipc.Packet.{Slot}
use shared_bike_refactor.Ipc.Sink.{ReplyQueue, push_reply, reply_count}
use shared_bike_refactor.Dispatch.ThreadPool.{make_pool, post, taken}
use shared_bike_refactor.Dispatch.Reader.{
  Task, Dispatcher, task_of, slice, new_dispatcher, on_slot, reply, run_task, give_back, Work,
  begins, finishes, gives_back, receives, collects, works, Reach, here, next, Works, idles,
  then_works,
}

no_elem {ℓ} : {A : Type ℓ} (q : List A) → length q ≡ 0 → q ≡ []
no_elem [] h = refl
no_elem (t ∷ q) h = absurd (omega (arith, h))

module _ {C : Type 0} where
  -- The quota is the number of tasks that wait, that run, or whose worker has not given it back.
  abbrev pub IsCounted : Dispatcher C → Type 0
  IsCounted d = d.inflight_replies ≡ length d.pool.q + length d.running + d.finishing

  on_slot-IsCounted :
      (copied posted : Bool) (slot : Slot) (d : Dispatcher C)
      → IsCounted d
      → IsCounted (on_slot copied posted slot d)
  unfolding on_slot post
  on_slot-IsCounted copied posted slot d h =
      ground (arith, h, length-append d.pool.q (task_of slot ∷ []))

  module _ (dispatch : ℕ → Bytes → C → Outcome Bytes × C) where
    worked-IsCounted : (d d' : Dispatcher C) → Work dispatch d d' → IsCounted d → IsCounted d'
    unfolding run_task give_back
    worked-IsCounted d d' (begins t p turn) h =
        let (front, _) = taken d.pool.q d.pool.stop d.pool.size p t turn in
        omega (arith, h, ap length front, length-append d.running (t ∷ []))
    worked-IsCounted d d' (finishes before t after at) h =
        omega (arith, h, ap length at, length-append before (t ∷ after), length-append before after)
    worked-IsCounted d d' (gives_back n at) h = omega (arith, h, at)

    reached-IsCounted :
        (workers : ℕ) (ctx : C) (d : Dispatcher C)
        → Reach dispatch (new_dispatcher workers ctx) d
        → IsCounted d
    unfolding make_pool
    reached-IsCounted workers ctx d here = refl
    reached-IsCounted workers ctx d (next {t} before (receives copied posted slot)) =
        on_slot-IsCounted copied posted slot t (reached-IsCounted workers ctx t before)
    reached-IsCounted workers ctx d (next {t} before collects) =
        reached-IsCounted workers ctx t before
    reached-IsCounted workers ctx d (next {t} before (works w)) =
        worked-IsCounted t d w (reached-IsCounted workers ctx t before)

    -- No task waits or runs, and no worker is about to give its quota back.
    abbrev IsQuiet : Dispatcher C → Type 0
    IsQuiet d = (d.pool.q ≡ []) × (d.running ≡ []) × (d.finishing ≡ 0)

    busy_moves : (d d' : Dispatcher C) → Work dispatch d d' → IsQuiet d → ⊥
    busy_moves d d' (begins t p turn) (waiting, _, _) =
        let (front, _) = taken d.pool.q d.pool.stop d.pool.size p t turn in
        omega (arith, ap length front, ap length waiting)
    busy_moves d d' (finishes before t after at) (_, running, _) =
        omega (arith, ap length at, ap length running, length-append before (t ∷ after))
    busy_moves d d' (gives_back n at) (_, _, finishing) = omega (arith, at, finishing)

    rested-IsQuiet : (d d' : Dispatcher C) → Works dispatch d d' → IsQuiet d → IsQuiet d'
    rested-IsQuiet d _ idles q = q
    rested-IsQuiet d d' (then_works {t} before w) q =
        absurd (busy_moves t d' w (rested-IsQuiet d t before q))

    -- The reader reads the quota, and later, while the workers go on, the number of waiting replies: when
    -- it takes the long slice then, no task waits or runs, and no reply waits.
    pub slice-reach :
        (workers : ℕ) (ctx : C) (d d' : Dispatcher C)
        → Reach dispatch (new_dispatcher workers ctx) d
        → Works dispatch d d'
        → slice d.inflight_replies (reply_count d'.replies) ≡ 200
        → (d'.pool.q ≡ []) × (d'.running ≡ []) × (d'.replies.q ≡ [])
    unfolding slice reply_count
    slice-reach workers ctx d d' r w long =
        let counted = reached-IsCounted workers ctx d r in
        let none_due : d.inflight_replies ≡ 0 = ground (arith, long) in
        let none_waits : length d'.replies.q ≡ 0 = ground (arith, long) in
        let quiet = rested-IsQuiet d d' w (
          no_elem d.pool.q (omega (arith, counted, none_due)),
          no_elem d.running (omega (arith, counted, none_due)),
          omega (arith, counted, none_due),
        ) in
        (quiet.0, quiet.1, no_elem d'.replies.q none_waits)

-- A handler's encoded response reaches the queue once, as the encoding with the sequence number of the
-- request, for the connection that asked; a report that wants no reply gets none.
pub reply-encode :
    (t : Task) (f : Frame) (bs : Bytes) (q : ReplyQueue)
    → encode f ≡ ok bs
    → (t.one_way ≡ true → reply t (ok bs) q ≡ q)
      × (t.one_way ≡ false
          → (frame : Bytes) × (encode (record f { seq = t.seq }) ≡ ok frame)
            × (reply t (ok bs) q
                ≡ push_reply q
                    (record { conn_id = t.conn_id; seq = t.seq; one_way = false; frame = frame })))
unfolding reply
reply-encode t f [] q e = absurd (encode_some f e)
reply-encode t f (b ∷ bs) q e =
    let (stamped, same) = stamp_seq-encode f t.seq (b ∷ bs) e in
    (
      λ silent. rw silent refl,
      λ asks. ((stamp_seq (b ∷ bs) t.seq).1, same, rw (asks, stamped, reply) refl),
    )
