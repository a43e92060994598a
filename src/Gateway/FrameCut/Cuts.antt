-- ===== src/Gateway/FrameCut/Cuts.antt =====
-- What a cut means, and that the loop finds it on every buffer.
use shared_bike_refactor.Base.{
  ℕ, zero, suc, ◌+◌, ◌<◌, ◌≡◌, refl, ◌∙◌, ap, Bool, true, false, some, List, [], ◌∷◌, ◌++◌, length,
  drop, arith, append-nil, append_assoc, length-drop, ◌⊎◌, inl, inr,
}
use shared_bike_refactor.Base.Dict.{Bytes}
use shared_bike_refactor.Protocol.{Frame, decode_frame, need_more, bad_frame, decoded, DecodeStatus}
use shared_bike_refactor.Protocol.Prefix.{consumed_bounds, empty_needs_more}
use shared_bike_refactor.Gateway.FrameCut.{rest_of, cut_loop, cut_frames}

-- `Cuts p fs bad left`: the frames `fs` stand at the front of `p`, one after the other, and at `left`
-- the buffer is incomplete, or bad.
pub data Cuts : Bytes → List Frame → Bool → Bytes → Type 0 where
  incomplete : {p : Bytes} → (decode_frame p).status ≡ need_more → Cuts p [] false p
  broken : {p : Bytes} → (decode_frame p).status ≡ bad_frame → Cuts p [] true p
  frame :
      {p : Bytes} {fs : List Frame} {bad : Bool} {left : Bytes}
      → (decode_frame p).status ≡ decoded
      → Cuts (drop (decode_frame p).consumed p) fs bad left
      → Cuts p ((decode_frame p).frame ∷ fs) bad left

pub drop_shorter :
    (p : Bytes)
    → (decode_frame p).status ≡ decoded
    → length (drop (decode_frame p).consumed p) < length p
drop_shorter p s = omega (arith, consumed_bounds p s, length-drop (decode_frame p).consumed p)

-- One round of the loop.
round_incomplete :
    (fuel : ℕ) (p : Bytes) (out : List Frame)
    → (decode_frame p).status ≡ need_more
    → cut_loop (suc fuel) p out ≡ some (rest_of false p, out)
unfolding cut_loop
round_incomplete fuel [] out s = refl
round_incomplete fuel (b ∷ bs) out s = rw (s, cut_loop)

round_broken :
    (fuel : ℕ) (p : Bytes) (out : List Frame)
    → (decode_frame p).status ≡ bad_frame
    → cut_loop (suc fuel) p out ≡ some (rest_of true p, out)
unfolding cut_loop
round_broken fuel [] out s = cc (empty_needs_more)
round_broken fuel (b ∷ bs) out s = rw (s, cut_loop)

round_frame :
    (fuel : ℕ) (p : Bytes) (out : List Frame)
    → (decode_frame p).status ≡ decoded
    → cut_loop (suc fuel) p out
      ≡ cut_loop fuel (drop (decode_frame p).consumed p) (out ++ ((decode_frame p).frame ∷ []))
unfolding cut_loop
round_frame fuel [] out s = cc (empty_needs_more)
round_frame fuel (b ∷ bs) out s = rw (s, cut_loop)

-- With more fuel than bytes the loop returns what the relation says.
pub cut_loop-Cuts :
    (fuel : ℕ) (out : List Frame) {p : Bytes} {fs : List Frame} {bad : Bool} {left : Bytes}
    → length p < fuel
    → Cuts p fs bad left
    → cut_loop fuel p out ≡ some (rest_of bad left, out ++ fs)
cut_loop-Cuts zero out h c = absurd (omega arith)
cut_loop-Cuts (suc fuel) out h (incomplete {p = p} s) =
    rw (append-nil out) (round_incomplete fuel p out s)
cut_loop-Cuts (suc fuel) out h (broken {p = p} s) = rw (append-nil out) (round_broken fuel p out s)
cut_loop-Cuts (suc fuel) out h (frame {p = p} {fs = fs} {bad = bad} {left = left} s c) =
    round_frame fuel p out s
    ∙ cut_loop-Cuts fuel (out ++ ((decode_frame p).frame ∷ [])) (omega (arith, drop_shorter p s)) c
    ∙ ap (λ o. some (rest_of bad left, o)) (append_assoc out ((decode_frame p).frame ∷ []) fs)

-- Some cut of the buffer.
pub record Cut (p : Bytes) : Type 0 where
  pub frames : List Frame
  pub bad : Bool
  pub left : Bytes
  pub cuts : Cuts p frames bad left

status-cases : (s : DecodeStatus) → (s ≡ need_more) ⊎ ((s ≡ bad_frame) ⊎ (s ≡ decoded))
status-cases need_more = inl refl
status-cases bad_frame = inr (inl refl)
status-cases decoded = inr (inr refl)

Cut-below : (n : ℕ) (p : Bytes) → length p < n → Cut p
Cut-below zero p h = absurd (omega arith)
Cut-below (suc n) p h = elim (status-cases (decode_frame p).status) [
  | inl s ↦ record { frames = []; bad = false; left = p; cuts = incomplete s }
  | inr (inl s) ↦ record { frames = []; bad = true; left = p; cuts = broken s }
  | inr (inr s) ↦
      let c = Cut-below n (drop (decode_frame p).consumed p) (omega (arith, drop_shorter p s)) in
      record {
        frames = (decode_frame p).frame ∷ c.frames;
        bad = c.bad;
        left = c.left;
        cuts = frame s c.cuts;
      }
]

pub Cut-of : (p : Bytes) → Cut p
Cut-of p = Cut-below (suc (length p)) p (omega arith)

-- `cut_frames` ends on every buffer: it appends the frames at the front of the buffer, and leaves the
-- bytes from the first incomplete or bad place on, telling the two apart.
pub cut_frames_lem :
    (p : Bytes) (out : List Frame)
    → (c : Cut p) × (cut_frames p out ≡ some (rest_of c.bad c.left, out ++ c.frames))
unfolding cut_frames
cut_frames_lem p out = (Cut-of p, cut_loop-Cuts (length p + 1) out (omega arith) (Cut-of p).cuts)

pub cut_frames-Cuts :
    {fs : List Frame} {bad : Bool} {left : Bytes} (p : Bytes) (out : List Frame)
    → Cuts p fs bad left
    → cut_frames p out ≡ some (rest_of bad left, out ++ fs)
unfolding cut_frames
cut_frames-Cuts p out c = cut_loop-Cuts (length p + 1) out (omega arith) c
