-- ===== src/Gateway/WorkerBatch/Outcomes.antt =====
-- What a worker leaves in the outbox for one buffer.
use shared_bike_refactor.Base.{
  ℕ, Bool, true, false, ◌≡◌, refl, sym, ◌∙◌, ap, ◌⊎◌, inl, inr, some, List, [], ◌∷◌, ◌++◌, map,
  append_assoc, append-nil, Bool-cases,
}
use shared_bike_refactor.Base.Dict.{Bytes}
use shared_bike_refactor.Base.Outcome.{
  Outcome, ok, throw, sink_overload, malformed_ipc_request, overflow_error, invalid_argument,
  runtime_error,
}
use shared_bike_refactor.Protocol.{Frame, stamp_seq}
use shared_bike_refactor.Gateway.FrameCut.Cuts.{Cut, cut_frames_lem}
use shared_bike_refactor.Gateway.WorkerBatch.{
  OutboxItem, OutboxQueue, respond, rearm_recv, close, Request, push, request_of, item, answer,
  handle_frames, worker_batch,
}

module _ {S : Type 0} (handle : Request → S → Outcome Bytes × S) (conn_id : ℕ) where
  -- The queue after some answers.
  abbrev pub answered : OutboxQueue → List Bytes → OutboxQueue
  answered o rs = record { q = o.q ++ map (item handle conn_id respond) rs }

  answered_cons :
      (o : OutboxQueue) (r : Bytes) (rs : List Bytes)
      → answered (push o (item handle conn_id respond r)) rs ≡ answered o (r ∷ rs)
  unfolding push
  answered_cons o r rs =
      ap (λ (q : List OutboxItem). record { q = q })
        (append_assoc o.q (item handle conn_id respond r ∷ [])
          (map (item handle conn_id respond) rs))

  -- How the loop over the frames may end.
  Ends : OutboxQueue → Bool × S × OutboxQueue → Type 0
  Ends o r =
      (s : S) × (rs : List Bytes) × ((r ≡ (true, s, answered o rs))
        ⊎ (r ≡ (false, s, push (answered o rs) (item handle conn_id close []))))

  Ends-respond :
      (o : OutboxQueue) (b : Bytes) (r : Bool × S × OutboxQueue)
      → Ends (push o (item handle conn_id respond b)) r
      → Ends o r
  unfolding Ends
  Ends-respond o b r (s, rs, inl e) = (s, b ∷ rs, inl (e ∙ rw (answered_cons o b rs)))
  Ends-respond o b r (s, rs, inr e) = (s, b ∷ rs, inr (e ∙ rw (answered_cons o b rs)))

  Ends-answer :
      (o : OutboxQueue) (seq : ℕ) (b : Bytes) (r : Bool × S × OutboxQueue)
      → Ends (answer handle conn_id seq b o) r
      → Ends o r
  unfolding answer Ends
  Ends-answer o seq [] r e = e
  Ends-answer o seq (x ∷ xs) r e = elim (Bool-cases (stamp_seq (x ∷ xs) seq).0) [
    | inr h ↦ rw h at e
    | inl h ↦ Ends-respond o (stamp_seq (x ∷ xs) seq).1 r (rw h at e)
  ]

  frame-Ends :
      (f : Frame) (fs : List Frame) (s : S) (o : OutboxQueue)
      → ((o' : OutboxQueue)
          → Ends o' (handle_frames handle conn_id fs (handle (request_of handle conn_id f) s).1 o'))
      → (reply : Outcome Bytes) → (handle (request_of handle conn_id f) s).0 ≡ reply
      → Ends o (handle_frames handle conn_id (f ∷ fs) s o)
  unfolding handle_frames Ends
  frame-Ends f fs s o rest (ok b) h =
      rw (h, handle_frames) (Ends-answer o f.seq b _ (rest (answer handle conn_id f.seq b o)))
  frame-Ends f fs s o rest (throw sink_overload) h =
      rw (h, handle_frames)
        (
          _,
          [],
          inr (
              ap (λ q. (false, _, push (record { q = q }) (item handle conn_id close [])))
                (sym (append-nil o.q))),
        )
  frame-Ends f fs s o rest (throw malformed_ipc_request) h =
      rw (h, handle_frames)
        (
          _,
          [],
          inr (
              ap (λ q. (false, _, push (record { q = q }) (item handle conn_id close [])))
                (sym (append-nil o.q))),
        )
  frame-Ends f fs s o rest (throw overflow_error) h = rw (h, handle_frames) (rest o)
  frame-Ends f fs s o rest (throw invalid_argument) h = rw (h, handle_frames) (rest o)
  frame-Ends f fs s o rest (throw runtime_error) h = rw (h, handle_frames) (rest o)

  handle_frames-Ends :
      (fs : List Frame) (s : S) (o : OutboxQueue) → Ends o (handle_frames handle conn_id fs s o)
  unfolding handle_frames Ends
  handle_frames-Ends [] s o = (
    s,
    [],
    inl (ap (λ (q : List OutboxItem). (true, s, record { q = q })) (sym (append-nil o.q))),
  )
  handle_frames-Ends (f ∷ fs) s o =
      frame-Ends f fs s o
        (λ o'. handle_frames-Ends fs (handle (request_of handle conn_id f) s).1 o')
        (handle (request_of handle conn_id f) s).0 refl

  -- For every buffer and whatever the sink does, the worker ends. Behind what was in the outbox it leaves
  -- some answers and then one last item of its connection: an order to close it, or, only where the cut
  -- found no bad frame, the incomplete tail of the buffer with the order to read on.
  pub worker_batch_ends :
      (raw : Bytes) (s : S) (o : OutboxQueue)
      → (c : Cut raw) × (s' : S) × (rs : List Bytes) × (last : OutboxItem) × (worker_batch handle
            conn_id raw s o
          ≡ some (s', push (answered o rs) last))
        × ((last ≡ item handle conn_id close [])
            ⊎ ((last ≡ item handle conn_id rearm_recv c.left) × (c.bad ≡ false)))
  unfolding worker_batch Ends
  worker_batch_ends raw s o =
      let (c, e) = cut_frames_lem raw [] in
      let (s', rs, end) = handle_frames-Ends c.frames s o in
      elim end [
        | inr h ↦ (c, s', rs, item handle conn_id close [], rw (e, worker_batch, h) refl, inl refl)
        | inl h ↦ elim (Bool-cases c.bad) [
          | inl bad ↦
              (c, s', rs, item handle conn_id close [], rw (e, worker_batch, h, bad) refl, inl refl)
          | inr fine ↦ (
            c,
            s',
            rs,
            item handle conn_id rearm_recv c.left,
            rw (e, worker_batch, h, fine) refl,
            inr (refl, fine),
          )
        ]
      ]
