-- ===== src/Gateway/FrameCut/Stream.antt =====
-- Cutting a byte stream: the frames do not depend on how the stream is split into reads.
use shared_bike_refactor.Base.{
  ◌≡◌, refl, sym, ◌∙◌, ap, subst, Bool, true, false, Option, none, some, List, [], ◌∷◌, ◌++◌, drop,
  append-nil, append_assoc, drop-append_le,
}
use shared_bike_refactor.Base.Dict.{Bytes}
use shared_bike_refactor.Protocol.{Frame, decode_frame, need_more, decoded, DecodeOutcome}
use shared_bike_refactor.Protocol.Prefix.{consumed_bounds, decode_frame-append}
use shared_bike_refactor.Gateway.FrameCut.{CutResult, rest_of, cut_frames}
use shared_bike_refactor.Gateway.FrameCut.Cuts.{
  Cuts, incomplete, broken, frame, cut_frames-Cuts, Cut-of,
}

-- The constructor `frame` at a decoder's answer that is known.
pub frame_of :
    {fs : List Frame} {bad : Bool} {left : Bytes} (p : Bytes) (d : DecodeOutcome)
    → decode_frame p ≡ d
    → d.status ≡ decoded
    → Cuts (drop d.consumed p) fs bad left
    → Cuts p (d.frame ∷ fs) bad left
frame_of {fs} {bad} {left} p d e =
    subst
      (λ d.
        d.status ≡ decoded → Cuts (drop d.consumed p) fs bad left → Cuts p (d.frame ∷ fs) bad left)
      e frame

-- A decoded frame at the front stays when bytes follow, and the rest of the buffer grows by them.
frame-append :
    {fs : List Frame} {bad : Bool} {left : Bytes} (p more : Bytes)
    → (decode_frame p).status ≡ decoded
    → Cuts (drop (decode_frame p).consumed p ++ more) fs bad left
    → Cuts (p ++ more) ((decode_frame p).frame ∷ fs) bad left
frame-append {fs} {bad} {left} p more s c =
    frame_of (p ++ more) (decode_frame p) (decode_frame-append p more (λ e. cc)) s (
      subst (λ q. Cuts q fs bad left)
        (sym (drop-append_le (decode_frame p).consumed p more (consumed_bounds p s).1)) c)

-- Bytes behind a cut that ended without a bad frame: the cut goes on from what was left.
pub Cuts-append :
    {a left : Bytes} {fs : List Frame} (b : Bytes) {gs : List Frame} {bad : Bool} {left' : Bytes}
    → Cuts a fs false left
    → Cuts (left ++ b) gs bad left'
    → Cuts (a ++ b) (fs ++ gs) bad left'
Cuts-append b (incomplete s) d = d
Cuts-append b (frame {p = p} s c) d = frame-append p b s (Cuts-append b c d)

-- Bytes behind a bad frame change nothing.
pub Cuts-append_bad :
    {a left : Bytes} {fs : List Frame} (b : Bytes)
    → Cuts a fs true left
    → Cuts (a ++ b) fs true (left ++ b)
Cuts-append_bad b (broken {p = p} s) =
    broken (ap (λ (d : DecodeOutcome). d.status) (decode_frame-append p b (λ e. cc)) ∙ s)
Cuts-append_bad b (frame {p = p} s c) = frame-append p b s (Cuts-append_bad b c)

-- The reads of one connection, one after the other: what a read leaves over is put before the next
-- one, and nothing is cut behind a bad frame.
pub cut_chunks : Bytes → List Bytes → List Frame → Option (Bool × List Frame)
cut_chunks left [] out = some (false, out)
cut_chunks left (c ∷ cs) out = elim (cut_frames (left ++ c) out) [
  | none ↦ none
  | some (r, out') ↦ elim r.bad [ true ↦ some (true, out') | false ↦ cut_chunks r.leftover cs out' ]
]

abbrev pub concat : List Bytes → Bytes
concat [] = []
concat (c ∷ cs) = c ++ concat cs

chunks_step :
    {fs : List Frame} (bad : Bool) {rest : Bytes} (left c : Bytes) (cs : List Bytes)
    (out : List Frame)
    → Cuts (left ++ c) fs bad rest
    → cut_chunks left (c ∷ cs) out
      ≡ elim bad [ true ↦ some (true, out ++ fs) | false ↦ cut_chunks rest cs (out ++ fs) ]
unfolding cut_chunks
chunks_step true left c cs out d = rw (cut_frames-Cuts (left ++ c) out d, cut_chunks)
chunks_step false left c cs out d = rw (cut_frames-Cuts (left ++ c) out d, cut_chunks)

pub left_incomplete :
    {p left : Bytes} {fs : List Frame}
    → Cuts p fs false left
    → (decode_frame left).status ≡ need_more
left_incomplete (incomplete s) = s
left_incomplete (frame s c) = left_incomplete c

-- Where a read ends without a bad frame, cutting may stop there and go on, with the bytes that were
-- left over put before the next ones.
cut_frames-append :
    {a left : Bytes} {fs : List Frame} (b : Bytes) (out : List Frame)
    → Cuts a fs false left
    → cut_frames (a ++ b) out ≡ cut_frames (left ++ b) (out ++ fs)
cut_frames-append {a} {left} {fs} b out c =
    let d = Cut-of (left ++ b) in
    cut_frames-Cuts (a ++ b) out (Cuts-append b c d.cuts)
    ∙ ap (λ o. some (rest_of d.bad d.left, o)) (sym (append_assoc out fs d.frames))
    ∙ sym (cut_frames-Cuts (left ++ b) (out ++ fs) d.cuts)

-- Whether a bad frame was met, and the frames before it.
abbrev pub verdict : Option (CutResult × List Frame) → Option (Bool × List Frame)
verdict none = none
verdict (some (r, fs)) = some (r.bad, fs)

chunk_cases :
    {fs : List Frame} (bad : Bool) {rest : Bytes} (left c : Bytes) (cs : List Bytes)
    (out : List Frame)
    → (bad ≡ false
        → cut_chunks rest cs (out ++ fs) ≡ verdict (cut_frames (rest ++ concat cs) (out ++ fs)))
    → Cuts (left ++ c) fs bad rest
    → cut_chunks left (c ∷ cs) out ≡ verdict (cut_frames ((left ++ c) ++ concat cs) out)
chunk_cases true left c cs out ih d =
    chunks_step true left c cs out d
    ∙ ap verdict
        (sym (cut_frames-Cuts ((left ++ c) ++ concat cs) out (Cuts-append_bad (concat cs) d)))
chunk_cases false left c cs out ih d =
    chunks_step false left c cs out d
    ∙ ih refl
    ∙ ap verdict (sym (cut_frames-append (concat cs) out d))

-- However a byte stream is split into reads, the connection yields the frames, and the verdict on a
-- bad frame, that one cut of the whole stream yields.
pub cut_chunks-concat :
    (cs : List Bytes) (left : Bytes) (out : List Frame)
    → (decode_frame left).status ≡ need_more
    → cut_chunks left cs out ≡ verdict (cut_frames (left ++ concat cs) out)
cut_chunks-concat [] left out s =
    unfold cut_chunks in
    rw append-nil (
      ap (λ o. some (false, o)) (sym (append-nil out))
      ∙ ap verdict (sym (cut_frames-Cuts left out (incomplete s))))
cut_chunks-concat (c ∷ cs) left out s =
    let k = Cut-of (left ++ c) in
    chunk_cases k.bad left c cs out
      (λ e.
        cut_chunks-concat cs k.left (out ++ k.frames)
          (left_incomplete (subst (λ b. Cuts (left ++ c) k.frames b k.left) e k.cuts)))
      k.cuts
    ∙ ap (λ p. verdict (cut_frames p out)) (append_assoc left c (concat cs))
