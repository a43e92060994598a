-- ===== src/Gateway/FrameCut.antt =====
-- server/src/gateway/frame_cut.cpp: whole frames are cut from the front of a receive buffer. The
-- pointer `p + off` is the rest of the buffer; `leftover` is that rest where the loop stops.
pub mod Cuts
pub mod Stream
pub mod Encodings
mod Tests
use shared_bike_refactor.Base.{
  ℕ, zero, suc, ◌+◌, Bool, true, false, Option, none, some, List, [], ◌∷◌, ◌++◌, length, drop,
}
use shared_bike_refactor.Base.Dict.{Bytes}
use shared_bike_refactor.Protocol.{Frame, decode_frame, need_more, bad_frame, decoded}

pub record CutResult : Type 0 where
  pub bad : Bool
  pub leftover : Bytes
  pub leftover_len : ℕ

abbrev pub rest_of : Bool → Bytes → CutResult
rest_of bad p = record { bad = bad; leftover = p; leftover_len = length p }

-- `none` is a loop that ran out of fuel.
pub cut_loop : ℕ → Bytes → List Frame → Option (CutResult × List Frame)
cut_loop zero p out = none
cut_loop (suc fuel) [] out = some (rest_of false [], out)
cut_loop (suc fuel) (b ∷ bs) out =
    let res = decode_frame (b ∷ bs) in
    elim res.status [
      | need_more ↦ some (rest_of false (b ∷ bs), out)
      | bad_frame ↦ some (rest_of true (b ∷ bs), out)
      | decoded ↦ cut_loop fuel (drop res.consumed (b ∷ bs)) (out ++ (res.frame ∷ []))
    ]

-- Each round but the last takes a header at least, so a round for each byte and one more are enough.
pub cut_frames : Bytes → List Frame → Option (CutResult × List Frame)
cut_frames p out = cut_loop (length p + 1) p out
