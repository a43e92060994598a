-- ===== src/Protocol/Stamp.antt =====
-- `stamp_seq` on an encoded frame is the encoding with that sequence number.
use shared_bike_refactor.Base.{ℕ, ◌≡◌, ◌≢◌, [], true, false, length, length-set, arith}
use shared_bike_refactor.Base.Dict.{Bytes}
use shared_bike_refactor.Base.Outcome.{ok}
use shared_bike_refactor.Protocol.{Frame, encode, stamp_seq}

-- Stamping an encoded frame succeeds and gives the encoding of the same frame with the new sequence
-- number.
pub stamp_seq-encode :
    (f : Frame) (s : ℕ) (bs : Bytes)
    → encode f ≡ ok bs
    → ((stamp_seq bs s).0 ≡ true) × (encode (record f { seq = s }) ≡ ok (stamp_seq bs s).1)
unfolding encode stamp_seq
stamp_seq-encode f s bs e = ground arith

-- A buffer is never resized, and one that is refused comes back as it was.
pub stamp_seq_unchanged :
    (bs : Bytes) (s : ℕ)
    → (length (stamp_seq bs s).1 ≡ length bs)
      × ((stamp_seq bs s).0 ≡ false → (stamp_seq bs s).1 ≡ bs)
unfolding stamp_seq
stamp_seq_unchanged bs s = grind (arith, length-set)

-- An encoding has bytes.
pub encode_some : (f : Frame) → encode f ≢ ok []
unfolding encode
encode_some f e = ground arith
