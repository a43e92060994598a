-- ===== src/Server/RideSessions/Track.antt =====
-- The track of a ride: what the position reports leave in the session.
use shared_bike_refactor.Base.{
  suc, ◌≤◌, ◌<◌, ◌≡◌, refl, List, [], ◌∷◌, ◌++◌, ltb, length, length-append, length-drop, true,
  false, arith, drop, All, inl, inr, Bool-cases,
}
use shared_bike_refactor.Base.Dict.{bytes_key}
use shared_bike_refactor.Base.Int.{ℤ, ◌≤ℤ◌, ◌<ℤ◌}
use shared_bike_refactor.Server.Rides.{RidePoint}
use shared_bike_refactor.Server.RideSessions.{
  RideSession, max_points, has_points, ignores, trim, report,
}

module _ {F : Type 0} where
  -- Each point has a higher sequence number than those before it.
  abbrev pub Ascending : List (RidePoint F) → Type 0
  Ascending [] = Unit {0}
  Ascending (p ∷ ps) = All (λ (q : RidePoint F). p.seq <ℤ q.seq) ps × Ascending ps

  pub record IsTrack (s : RideSession F) : Type 0 where
    pub ascending : Ascending s.points
    pub below : All (λ (p : RidePoint F). p.seq ≤ℤ s.last_seq) s.points
    pub bounded : length s.points ≤ max_points

  All-snoc :
      (P : RidePoint F → Type 0) (ps : List (RidePoint F)) (q : RidePoint F)
      → All P ps
      → P q
      → All P (ps ++ (q ∷ []))
  All-snoc P [] q a h = (h, tt)
  All-snoc P (p ∷ ps) q a h = (a.0, All-snoc P ps q a.1 h)

  Ascending-snoc :
      (ps : List (RidePoint F)) (q : RidePoint F)
      → Ascending ps
      → All (λ (p : RidePoint F). p.seq <ℤ q.seq) ps
      → Ascending (ps ++ (q ∷ []))
  Ascending-snoc [] q a h = (tt, tt)
  Ascending-snoc (p ∷ ps) q a h =
      (All-snoc (λ (x : RidePoint F). p.seq <ℤ x.seq) ps q a.0 h.0, Ascending-snoc ps q a.1 h.1)

  All-weaken :
      (lo hi : ℤ) (ps : List (RidePoint F))
      → lo <ℤ hi
      → All (λ (p : RidePoint F). p.seq ≤ℤ lo) ps
      → All (λ (p : RidePoint F). p.seq <ℤ hi) ps
  All-weaken lo hi [] h a = tt
  All-weaken lo hi (p ∷ ps) h a = (omega arith, All-weaken lo hi ps h a.1)

  All-loosen :
      (hi : ℤ) (ps : List (RidePoint F))
      → All (λ (p : RidePoint F). p.seq <ℤ hi) ps
      → All (λ (p : RidePoint F). p.seq ≤ℤ hi) ps
  All-loosen hi [] a = tt
  All-loosen hi (p ∷ ps) a = (omega arith, All-loosen hi ps a.1)

  All-drop : (P : RidePoint F → Type 0) (ps : List (RidePoint F)) → All P ps → All P (drop 1 ps)
  All-drop P [] a = tt
  All-drop P (p ∷ ps) a = a.1

  Ascending-drop : (ps : List (RidePoint F)) → Ascending ps → Ascending (drop 1 ps)
  Ascending-drop [] a = tt
  Ascending-drop (p ∷ ps) a = a.1

  trim-All : (P : RidePoint F → Type 0) (ps : List (RidePoint F)) → All P ps → All P (trim ps)
  unfolding trim
  trim-All P ps a = elim (Bool-cases (ltb max_points (length ps))) [
    | inl e ↦ rw e (All-drop P ps a)
    | inr e ↦ rw e a
  ]

  trim-Ascending : (ps : List (RidePoint F)) → Ascending ps → Ascending (trim ps)
  unfolding trim
  trim-Ascending ps a = elim (Bool-cases (ltb max_points (length ps))) [
    | inl e ↦ rw e (Ascending-drop ps a)
    | inr e ↦ rw e a
  ]

  -- One more point than there may be is one that goes.
  length-trim :
      (ps : List (RidePoint F)) → length ps ≤ suc max_points → length (trim ps) ≤ max_points
  unfolding trim
  length-trim ps h = ground (arith, length-drop 1 ps)

  length-trim_pos : (ps : List (RidePoint F)) → 0 < length ps → 0 < length (trim ps)
  unfolding trim
  length-trim_pos ps h = ground (arith, length-drop 1 ps)

  has_points_lem : (ps : List (RidePoint F)) → 0 < length ps → has_points ps ≡ true
  has_points_lem [] h = absurd (omega arith)
  has_points_lem (p ∷ ps) h = refl

  none_above :
      (ps : List (RidePoint F)) (seq : ℤ)
      → has_points ps ≡ false
      → All (λ (p : RidePoint F). p.seq <ℤ seq) ps
  none_above [] seq h = tt
  none_above (p ∷ ps) seq h = cc

  -- A report that is not ignored is above every point there is.
  above-All :
      (s : RideSession F) (seq : ℤ)
      → IsTrack s
      → ignores s seq ≡ false
      → All (λ (p : RidePoint F). p.seq <ℤ seq) s.points
  unfolding ignores
  above-All s seq v e = elim (Bool-cases (has_points s.points)) [
    | inl h ↦ All-weaken s.last_seq seq s.points (ground (arith, e, h)) v.below
    | inr h ↦ none_above s.points seq h
  ]

  -- The reports that are kept have rising sequence numbers, and there are never more than 3600 of them.
  report-IsTrack :
      (s : RideSession F) (lat lng : F) (seq elapsed_sec : ℤ)
      → IsTrack s
      → IsTrack (report s lat lng seq elapsed_sec)
  unfolding report
  report-IsTrack s lat lng seq elapsed_sec v =
      let q : RidePoint F = record { seq = seq; lat = lat; lng = lng; elapsed_sec = elapsed_sec } in
      elim (Bool-cases (ignores s seq)) [
        | inl e ↦ rw e v
        | inr e ↦
            let above = above-All s seq v e in
            rw e (record {
              ascending =
                  trim-Ascending (s.points ++ (q ∷ []))
                    (Ascending-snoc s.points q v.ascending above);
              below =
                  trim-All (λ (p : RidePoint F). p.seq ≤ℤ seq) (s.points ++ (q ∷ []))
                    (All-snoc (λ (p : RidePoint F). p.seq ≤ℤ seq) s.points q
                      (All-loosen seq s.points above) (omega arith));
              bounded =
                  length-trim (s.points ++ (q ∷ []))
                    (omega (arith, length-append s.points (q ∷ []), v.bounded));
            })
      ]

  -- With a point there, a session ignores its last sequence number.
  ignores_last : (s : RideSession F) → 0 < length s.points → ignores s s.last_seq ≡ true
  unfolding ignores
  ignores_last s h = ground (arith, has_points_lem s.points h)

  report_ignored :
      (s : RideSession F) (lat lng : F) (seq elapsed_sec : ℤ)
      → ignores s seq ≡ true
      → report s lat lng seq elapsed_sec ≡ s
  unfolding report
  report_ignored s lat lng seq elapsed_sec e = rw e refl

  ignores_reported :
      (s : RideSession F) (lat lng : F) (seq elapsed_sec : ℤ)
      → ignores (report s lat lng seq elapsed_sec) seq ≡ true
  unfolding report
  ignores_reported s lat lng seq elapsed_sec =
      let q : RidePoint F = record { seq = seq; lat = lat; lng = lng; elapsed_sec = elapsed_sec } in
      let next : RideSession F = record s {
        last_lat = lat;
        last_lng = lng;
        last_seq = seq;
        points = trim (s.points ++ (q ∷ []));
      } in
      elim (Bool-cases (ignores s seq)) [
        | inl e ↦ rw e e
        | inr e ↦ rw e (
            ignores_last next (
              length-trim_pos (s.points ++ (q ∷ []))
                (omega (arith, length-append s.points (q ∷ [])))))
      ]

  -- A report that arrives twice counts once.
  report_twice :
      (s : RideSession F) (lat lng : F) (seq elapsed_sec : ℤ)
      → report (report s lat lng seq elapsed_sec) lat lng seq elapsed_sec
        ≡ report s lat lng seq elapsed_sec
  report_twice s lat lng seq elapsed_sec =
      report_ignored (report s lat lng seq elapsed_sec) lat lng seq elapsed_sec
        (ignores_reported s lat lng seq elapsed_sec)
