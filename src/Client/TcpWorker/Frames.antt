-- ===== src/Client/TcpWorker/Frames.antt =====
-- The frames that the client cuts, against those that the gateway cuts.
use shared_bike_refactor.Base.{
  ℕ, zero, suc, ◌+◌, ◌<◌, ◌≡◌, ap, ◌∙◌, Bool, not, some, List, [], ◌∷◌, ◌++◌, length, drop, arith,
  append-nil, append_assoc,
}
use shared_bike_refactor.Base.Dict.{Bytes}
use shared_bike_refactor.Protocol.{Frame, decode_frame, decoded}
use shared_bike_refactor.Gateway.FrameCut.{CutResult, rest_of, cut_frames}
use shared_bike_refactor.Gateway.FrameCut.Cuts.{
  Cuts, incomplete, broken, frame, drop_shorter, cut_frames-Cuts, Cut-of,
}
use shared_bike_refactor.Client.TcpWorker.{consume_loop, consume_frames}

round_decoded :
    (fuel : ℕ) (p : Bytes) (seen : List Frame)
    → (decode_frame p).status ≡ decoded
    → consume_loop (suc fuel) p seen
      ≡ consume_loop fuel (drop (decode_frame p).consumed p) (seen ++ ((decode_frame p).frame ∷ []))
unfolding consume_loop
round_decoded fuel p seen s = rw (s, consume_loop)

consume_loop-Cuts :
    (fuel : ℕ) (seen : List Frame) {p : Bytes} {fs : List Frame} {bad : Bool} {left : Bytes}
    → length p < fuel
    → Cuts p fs bad left
    → consume_loop fuel p seen ≡ some (not bad, left, seen ++ fs)
unfolding consume_loop
consume_loop-Cuts zero seen h c = absurd (omega arith)
consume_loop-Cuts (suc fuel) seen h (incomplete s) = rw (s, consume_loop, append-nil seen)
consume_loop-Cuts (suc fuel) seen h (broken s) = rw (s, consume_loop, append-nil seen)
consume_loop-Cuts (suc fuel) seen h (frame {p = p} {fs = fs} {bad = bad} {left = left} s c) =
    round_decoded fuel p seen s
    ∙ consume_loop-Cuts fuel (seen ++ ((decode_frame p).frame ∷ []))
        (omega (arith, drop_shorter p s)) c
    ∙ ap (λ o. some (not bad, left, o)) (append_assoc seen ((decode_frame p).frame ∷ []) fs)

pub consume_frames-Cuts :
    {fs : List Frame} {bad : Bool} {left : Bytes} (p : Bytes)
    → Cuts p fs bad left
    → consume_frames p ≡ some (not bad, left, fs)
unfolding consume_frames
consume_frames-Cuts p c = consume_loop-Cuts (length p + 1) [] (omega arith) c

-- What `consume_frames` returns, in the terms of `cut_frames`.
abbrev pub consumed_of : CutResult × List Frame → Bool × Bytes × List Frame
consumed_of (r, fs) = (not r.bad, r.leftover, fs)

-- On every buffer the client ends and cuts the frames, leaves the rest and gives the verdict that the
-- gateway does.
pub consume_frames-cut_frames :
    (p : Bytes)
    → (r : CutResult × List Frame) × (cut_frames p [] ≡ some r)
      × (consume_frames p ≡ some (consumed_of r))
consume_frames-cut_frames p =
    let c = Cut-of p in
    ((rest_of c.bad c.left, c.frames), cut_frames-Cuts p [] c.cuts, consume_frames-Cuts p c.cuts)
