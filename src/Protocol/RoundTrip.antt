-- ===== src/Protocol/RoundTrip.antt =====
-- `encode` and `decode_frame` are inverse to one another.
use shared_bike_refactor.Base.{◌≡◌, ◌++◌, length, length-append, take-append, arith}
use shared_bike_refactor.Base.Dict.{Bytes}
use shared_bike_refactor.Base.Outcome.{ok}
use shared_bike_refactor.Protocol.{Frame, IsFrame, encode, decode_frame, decoded}

-- A frame that `encode` accepts is read back by `decode_frame` with exactly its bytes consumed,
-- whatever follows it in the buffer.
pub decode_frame-encode :
    (f : Frame) (bs rest : Bytes)
    → IsFrame f
    → encode f ≡ ok bs
    → decode_frame (bs ++ rest) ≡ record { status = decoded; frame = f; consumed = length bs }
unfolding encode decode_frame
decode_frame-encode f bs rest v e =
    ground (arith, length-append f.payload rest, take-append f.payload rest)
