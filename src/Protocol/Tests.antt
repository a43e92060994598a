-- ===== src/Protocol/Tests.antt =====
-- The codec on a login request with three bytes of payload.
use shared_bike_refactor.Base.{◌+◌, ◌^◌, ◌≡◌, ◌≢◌, refl, [], ◌∷◌, ◌++◌, take, arith, All}
use shared_bike_refactor.Base.Dict.{Bytes}
use shared_bike_refactor.Base.Outcome.{ok}
use shared_bike_refactor.Protocol.{
  Frame, IsFrame, encode, decode_frame, decoded, need_more, event_id, login_request, IsByte,
}
use shared_bike_refactor.Protocol.RoundTrip.{decode_frame-encode}
use shared_bike_refactor.Protocol.Canonical.{encode-decode_frame}

abbrev login : Frame
login = record { event_id = event_id login_request; seq = 2 ^ 31 + 5; payload = 1 ∷ 2 ∷ 255 ∷ [] }

login-IsFrame : IsFrame login
login-IsFrame = record { event_fits = omega arith; seq_fits = omega arith }

abbrev sent : Bytes
sent = b'F' ∷ b'B' ∷ b'E' ∷ b'B' ∷ 3 ∷ 0 ∷ 5 ∷ 0 ∷ 0 ∷ 128 ∷ 3 ∷ 0 ∷ 0 ∷ 0 ∷ 1 ∷ 2 ∷ 255 ∷ []

encode-login : encode login ≡ ok sent
unfolding encode
encode-login = refl

bytes-All : All IsByte (sent ++ (7 ∷ []))
bytes-All = (
  omega arith,
  (
    omega arith,
    (
      omega arith,
      (
        omega arith,
        (
          omega arith,
          (
            omega arith,
            (
              omega arith,
              (
                omega arith,
                (
                  omega arith,
                  (
                    omega arith,
                    (
                      omega arith,
                      (
                        omega arith,
                        (
                          omega arith,
                          (
                            omega arith,
                            (omega arith, (omega arith, (omega arith, (omega arith, tt)))),
                          ),
                        ),
                      ),
                    ),
                  ),
                ),
              ),
            ),
          ),
        ),
      ),
    ),
  ),
)

sent_decoded : (decode_frame (sent ++ (7 ∷ []))).status ≡ decoded
unfolding decode_frame
sent_decoded = refl

sent_settled : (decode_frame sent).status ≢ need_more
unfolding decode_frame
sent_settled e = cc

decode_frame-encode_example :
    decode_frame (sent ++ (7 ∷ [])) ≡ record { status = decoded; frame = login; consumed = 17 }
decode_frame-encode_example = decode_frame-encode login sent (7 ∷ []) login-IsFrame encode-login

encode-decode_frame_example :
    IsFrame (decode_frame (sent ++ (7 ∷ []))).frame
    × (encode (decode_frame (sent ++ (7 ∷ []))).frame
        ≡ ok (take (decode_frame (sent ++ (7 ∷ []))).consumed (sent ++ (7 ∷ []))))
encode-decode_frame_example = encode-decode_frame (sent ++ (7 ∷ [])) bytes-All sent_decoded
