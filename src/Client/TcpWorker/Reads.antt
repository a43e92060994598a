-- ===== src/Client/TcpWorker/Reads.antt =====
-- A connection of the worker from the first byte on: what it hands over, however the bytes arrive.
use shared_bike_refactor.Base.{
  ℕ, zero, suc, ◌≡◌, sym, ap, ◌∙◌, subst, Bool, true, false, List, [], ◌∷◌, ◌++◌, map, append-nil,
  append_assoc, All, not, ap₂,
}
use mathlib.Core.List.{map-append}
use shared_bike_refactor.Base.Dict.{Bytes}
use shared_bike_refactor.Base.Outcome.{ok}
use shared_bike_refactor.Protocol.{Frame, IsFrame, decode_frame, need_more}
use shared_bike_refactor.Protocol.Prefix.{empty_needs_more}
use shared_bike_refactor.Gateway.FrameCut.Cuts.{Cuts, incomplete, cut_frames-Cuts, Cut-of}
use shared_bike_refactor.Gateway.FrameCut.Stream.{Cuts-append, Cuts-append_bad, left_incomplete}
use shared_bike_refactor.Gateway.FrameCut.Encodings.{encode_all, Cuts-encode_all}
use shared_bike_refactor.Client.TcpWorker.{TcpWorker, Qt, frame_ready, on_ready_read}
use shared_bike_refactor.Client.TcpWorker.Frames.{consume_frames-Cuts}
use shared_bike_refactor.Client.TcpWorker.Steps.{WorkerEvent, socket_ready_read, step, run}

-- So many reads, one after the other.
abbrev pub readings : ℕ → List WorkerEvent
readings zero = []
readings (suc k) = socket_ready_read ∷ readings k

-- A buffer has one cut.
Cuts_unique :
    (p : Bytes) {fs gs : List Frame} {a b : Bool} {left rest : Bytes}
    → Cuts p fs a left
    → Cuts p gs b rest
    → (fs ≡ gs) × (a ≡ b) × (left ≡ rest)
Cuts_unique p c d = (
  cc (cut_frames-Cuts p [] c, cut_frames-Cuts p [] d),
  cc (cut_frames-Cuts p [] c, cut_frames-Cuts p [] d),
  cc (cut_frames-Cuts p [] c, cut_frames-Cuts p [] d),
)

module _ {N : Type 0} (qt : Qt N) where
  -- The bytes that so many reads return.
  abbrev pub bytes_of : ℕ → N → Bytes
  bytes_of zero net = []
  bytes_of (suc k) net = (qt.read_all net).0 ++ bytes_of k (qt.read_all net).1

  -- The worker when a read has yielded these frames and left these bytes over.
  abbrev after_read : TcpWorker N → List Frame → Bytes → TcpWorker N
  after_read w fs left = record w {
    net = (qt.read_all w.net).1;
    rx = left;
    emitted = w.emitted ++ map frame_ready fs;
  }

  on_ready_read_lem :
      {fs : List Frame} {left : Bytes} (w : TcpWorker N)
      → Cuts (w.rx ++ (qt.read_all w.net).0) fs false left
      → on_ready_read qt w ≡ after_read w fs left
  unfolding on_ready_read
  on_ready_read_lem w c =
      rw (consume_frames-Cuts (w.rx ++ (qt.read_all w.net).0) c, on_ready_read, not)

  step_ready : (w : TcpWorker N) → w.sock ≡ true → step qt w socket_ready_read ≡ on_ready_read qt w
  unfolding step
  step_ready w e = rw e

  module _ (k : ℕ) (w : TcpWorker N) (has : w.sock ≡ true) where
    abbrev more : Bytes
    more = bytes_of k (qt.read_all w.net).1

    reads_on :
        (bad : Bool) {fs gs : List Frame} {left l : Bytes}
        → Cuts (w.rx ++ (qt.read_all w.net).0) gs bad l
        → Cuts ((w.rx ++ (qt.read_all w.net).0) ++ more) fs false left
        → ((hs : List Frame)
            → (decode_frame l).status ≡ need_more
            → Cuts (l ++ more) hs false left
            → ((run qt (after_read w gs l) (readings k)).emitted
                ≡ (w.emitted ++ map frame_ready gs) ++ map frame_ready hs)
              × ((run qt (after_read w gs l) (readings k)).rx ≡ left))
        → ((run qt (step qt w socket_ready_read) (readings k)).emitted
            ≡ w.emitted ++ map frame_ready fs)
          × ((run qt (step qt w socket_ready_read) (readings k)).rx ≡ left)
    reads_on true d c ih = cc ((Cuts_unique _ c (Cuts-append_bad more d)).1)
    reads_on false {fs} {gs} {left} {l} d c ih =
        let e = Cut-of (l ++ more) in
        let (same, sound, rest) = Cuts_unique _ c (Cuts-append more d e.cuts) in
        let tail : Cuts (l ++ more) e.frames false left =
          subst (λ b. Cuts (l ++ more) e.frames b left) (sym sound)
            (subst (λ r. Cuts (l ++ more) e.frames e.bad r) (sym rest) e.cuts) in
        let (emits, keeps) = ih e.frames (left_incomplete d) tail in
        rw (step_ready w has, on_ready_read_lem w d)
          (
            emits
                ∙ append_assoc w.emitted (map frame_ready gs) (map frame_ready e.frames)
                ∙ ap (◌++◌ w.emitted)
                    (sym (map-append frame_ready gs e.frames) ∙ ap (map frame_ready) (sym same)),
            keeps,
          )

  run-readings :
      (k : ℕ) (w : TcpWorker N) {fs : List Frame} {left : Bytes}
      → w.sock ≡ true
      → (decode_frame w.rx).status ≡ need_more
      → Cuts (w.rx ++ bytes_of k w.net) fs false left
      → ((run qt w (readings k)).emitted ≡ w.emitted ++ map frame_ready fs)
        × ((run qt w (readings k)).rx ≡ left)
  unfolding run
  run-readings zero w {fs} {left} has s c =
      let (none, _, same) =
        Cuts_unique w.rx (subst (λ p. Cuts p fs false left) (append-nil w.rx) c) (incomplete s) in
      (sym (append-nil w.emitted) ∙ ap (λ fs. w.emitted ++ map frame_ready fs) (sym none), sym same)
  run-readings (suc k) w {fs} {left} has s c =
      let b = (qt.read_all w.net).0 in
      let first = Cut-of (w.rx ++ b) in
      reads_on k w has first.bad first.cuts
        (subst (λ p. Cuts p fs false left)
          (sym (append_assoc w.rx b (bytes_of k (qt.read_all w.net).1))) c)
        (λ hs s' c'. run-readings k (after_read w first.frames first.left) has s' c')

  -- However the bytes of a connection are split into reads, the worker hands over exactly the frames
  -- that the server has encoded, in their order, and keeps an incomplete tail.
  pub run-encode_all :
      (k : ℕ) (w : TcpWorker N) (fs : List Frame) (bs tail : Bytes)
      → w.sock ≡ true
      → w.rx ≡ []
      → All IsFrame fs
      → encode_all fs ≡ ok bs
      → (decode_frame tail).status ≡ need_more
      → bytes_of k w.net ≡ bs ++ tail
      → ((run qt w (readings k)).emitted ≡ w.emitted ++ map frame_ready fs)
        × ((run qt w (readings k)).rx ≡ tail)
  run-encode_all k w fs bs tail has fresh v e s arrived =
      run-readings k w has (ap (λ p. (decode_frame p).status) fresh ∙ empty_needs_more) (
        subst (λ p. Cuts p fs false tail) (sym (ap₂ ◌++◌ fresh arrived))
          (Cuts-encode_all fs bs tail v e s))
