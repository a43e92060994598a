-- ===== src/Gateway/FrameCut/Encodings.antt =====
-- A cut against the encoder: what was encoded is cut apart again, and no byte is lost.
use shared_bike_refactor.Base.{
  ℕ, zero, suc, ◌≡◌, refl, sym, ◌∙◌, ap, Bool, false, some, List, [], ◌∷◌, ◌++◌, drop, take, arith,
  append_assoc, drop-append, take-append-drop, All,
}
use shared_bike_refactor.Base.Dict.{Bytes}
use shared_bike_refactor.Base.Outcome.{Outcome, ok, ◌>>=◌}
use shared_bike_refactor.Protocol.{Frame, IsFrame, IsByte, encode, decode_frame, need_more}
use shared_bike_refactor.Protocol.RoundTrip.{decode_frame-encode}
use shared_bike_refactor.Protocol.Canonical.{encode-decode_frame}
use shared_bike_refactor.Gateway.FrameCut.{rest_of, cut_frames}
use shared_bike_refactor.Gateway.FrameCut.Cuts.{Cuts, incomplete, broken, frame, cut_frames-Cuts}
use shared_bike_refactor.Gateway.FrameCut.Stream.{frame_of}

-- The encodings of frames, one after the other.
unfoldable pub encode_all : List Frame → Outcome Bytes
encode_all [] = ok []
encode_all (f ∷ fs) = do bs ← encode f; rest ← encode_all fs; ok (bs ++ rest)

encode_all-nil : {bs : Bytes} → encode_all [] ≡ ok bs → bs ≡ []
unfolding encode_all
encode_all-nil h = cc

encode_all-cons_ok :
    (f : Frame) (fs : List Frame) {b r : Bytes}
    → encode f ≡ ok b
    → encode_all fs ≡ ok r
    → encode_all (f ∷ fs) ≡ ok (b ++ r)
unfolding encode_all
encode_all-cons_ok f fs e h = rw (e, h)

encode_all-cons :
    (f : Frame) (fs : List Frame) {bs : Bytes}
    → encode_all (f ∷ fs) ≡ ok bs
    → (b : Bytes) × (r : Bytes) × (encode f ≡ ok b) × (encode_all fs ≡ ok r) × (bs ≡ b ++ r)
unfolding encode_all
encode_all-cons f fs h = ground arith

pub Cuts-encode_all :
    (fs : List Frame) (bs tail : Bytes)
    → All IsFrame fs
    → encode_all fs ≡ ok bs
    → (decode_frame tail).status ≡ need_more
    → Cuts (bs ++ tail) fs false tail
Cuts-encode_all [] bs tail v e s = rw (encode_all-nil e) (incomplete s)
Cuts-encode_all (f ∷ fs) bs tail v e s =
    let (b, r, eb, er, ebs) = encode_all-cons f fs e in
    rw (ebs, append_assoc b r tail)
      (frame_of (b ++ (r ++ tail)) _ (decode_frame-encode f b (r ++ tail) v.0 eb) refl
        (rw drop-append (Cuts-encode_all fs r tail v.1 er s)))

-- Frames that were encoded one after the other are cut apart again, in order, and an incomplete tail
-- is left over.
pub cut_frames-encode_all :
    (fs : List Frame) (bs tail : Bytes) (out : List Frame)
    → All IsFrame fs
    → encode_all fs ≡ ok bs
    → (decode_frame tail).status ≡ need_more
    → cut_frames (bs ++ tail) out ≡ some (rest_of false tail, out ++ fs)
cut_frames-encode_all fs bs tail out v e s =
    cut_frames-Cuts (bs ++ tail) out (Cuts-encode_all fs bs tail v e s)

All-drop : (n : ℕ) (xs : Bytes) → All IsByte xs → All IsByte (drop n xs)
All-drop zero xs v = v
All-drop (suc n) [] v = v
All-drop (suc n) (x ∷ xs) v = All-drop n xs v.1

-- A cut loses and invents no byte: the buffer is the encodings of the frames, then what is left.
Cuts-bytes :
    {p : Bytes} {fs : List Frame} {bad : Bool} {left : Bytes}
    → All IsByte p
    → Cuts p fs bad left
    → (bs : Bytes) × (encode_all fs ≡ ok bs) × (p ≡ bs ++ left)
Cuts-bytes v (incomplete s) = ([], unfold encode_all in refl, refl)
Cuts-bytes v (broken s) = ([], unfold encode_all in refl, refl)
Cuts-bytes v (frame {p = p} {fs = fs} {left = left} s c) =
    let n = (decode_frame p).consumed in
    let (bs, e, q) = Cuts-bytes (All-drop n p v) c in
    (
      take n p ++ bs,
      encode_all-cons_ok (decode_frame p).frame fs (encode-decode_frame p v s).1 e,
      sym (take-append-drop n p) ∙ ap (◌++◌ (take n p)) q ∙ sym (append_assoc (take n p) bs left),
    )
