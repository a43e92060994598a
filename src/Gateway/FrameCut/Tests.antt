-- ===== src/Gateway/FrameCut/Tests.antt =====
-- Two frames and half of a third, in one buffer and in two reads.
use shared_bike_refactor.Base.{◌≡◌, refl, true, false, some, [], ◌∷◌, ◌++◌, arith}
use shared_bike_refactor.Base.Dict.{Bytes}
use shared_bike_refactor.Base.Outcome.{ok}
use shared_bike_refactor.Protocol.{Frame, encode, decode_frame, need_more}
use shared_bike_refactor.Protocol.Prefix.{empty_needs_more}
use shared_bike_refactor.Gateway.FrameCut.{rest_of, cut_frames, cut_loop}
use shared_bike_refactor.Gateway.FrameCut.Stream.{cut_chunks, verdict, cut_chunks-concat}
use shared_bike_refactor.Gateway.FrameCut.Encodings.{encode_all, cut_frames-encode_all}

abbrev first : Frame
first = record { event_id = 1; seq = 1; payload = [] }

abbrev second : Frame
second = record { event_id = 3; seq = 2; payload = 9 ∷ [] }

abbrev first_sent : Bytes
first_sent = b'F' ∷ b'B' ∷ b'E' ∷ b'B' ∷ 1 ∷ 0 ∷ 1 ∷ 0 ∷ 0 ∷ 0 ∷ 0 ∷ 0 ∷ 0 ∷ 0 ∷ []

abbrev second_sent : Bytes
second_sent = b'F' ∷ b'B' ∷ b'E' ∷ b'B' ∷ 3 ∷ 0 ∷ 2 ∷ 0 ∷ 0 ∷ 0 ∷ 1 ∷ 0 ∷ 0 ∷ 0 ∷ 9 ∷ []

abbrev half : Bytes
half = b'F' ∷ b'B' ∷ []

half_needs_more : (decode_frame half).status ≡ need_more
unfolding decode_frame
half_needs_more = refl

both_encoded : encode_all (first ∷ second ∷ []) ≡ ok (first_sent ++ second_sent)
unfolding encode_all encode
both_encoded = refl

bad_magic :
    cut_frames (first_sent ++ (0 ∷ first_sent)) []
    ≡ some (rest_of true (0 ∷ first_sent), first ∷ [])
unfolding cut_frames decode_frame cut_loop
bad_magic = refl

cut_frames-encode_all_example :
    cut_frames ((first_sent ++ second_sent) ++ half) []
    ≡ some (rest_of false half, first ∷ second ∷ [])
cut_frames-encode_all_example =
    cut_frames-encode_all (first ∷ second ∷ []) (first_sent ++ second_sent) half []
      (
        record { event_fits = omega arith; seq_fits = omega arith },
        (record { event_fits = omega arith; seq_fits = omega arith }, tt),
      )
      both_encoded half_needs_more

cut_chunks-concat_example :
    cut_chunks [] (half ∷ (b'E' ∷ b'B' ∷ []) ∷ second_sent ∷ []) []
    ≡ verdict (cut_frames (half ++ ((b'E' ∷ b'B' ∷ []) ++ (second_sent ++ []))) [])
cut_chunks-concat_example =
    cut_chunks-concat (half ∷ (b'E' ∷ b'B' ∷ []) ∷ second_sent ∷ []) [] [] empty_needs_more
