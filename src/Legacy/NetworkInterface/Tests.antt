-- ===== src/Legacy/NetworkInterface/Tests.antt =====
-- A request for a login code, in three pieces.
use shared_bike_refactor.Base.{ℕ, ◌≡◌, refl, Option, some, List, [], ◌∷◌, arith}
use shared_bike_refactor.Base.Dict.{Bytes, bytes_eq}
use shared_bike_refactor.Legacy.NetworkInterface.{
  ConnectSession, enqueued, closed, ss_response, session_init, handle_request, read_header,
  check_header, after_header, assemble_hb,
}
use shared_bike_refactor.Legacy.NetworkInterface.Stages.{in_header}
use shared_bike_refactor.Legacy.NetworkInterface.Reading.{feed, feed-assemble_hb}

abbrev any_event : Bytes → ℕ → Option (ℕ × Bytes)
any_event message eid = some (eid, message)

abbrev pieces : List Bytes
pieces = (b'F' ∷ b'B' ∷ b'E' ∷ []) ∷ (b'B' ∷ 1 ∷ 0 ∷ 2 ∷ 0 ∷ 0 ∷ 0 ∷ 5 ∷ []) ∷ (7 ∷ []) ∷ []

-- A length of zero closes the connection.
empty_payload :
    handle_request any_event session_init (b'F' ∷ b'B' ∷ b'E' ∷ b'B' ∷ 1 ∷ 0 ∷ 0 ∷ 0 ∷ 0 ∷ 0 ∷ [])
    ≡ closed
unfolding handle_request session_init read_header check_header bytes_eq after_header
empty_payload = refl

feed-assemble_hb_example :
    (cs' : ConnectSession (ℕ × Bytes)) × (feed any_event session_init [] pieces
      ≡ enqueued cs' [] (1, 5 ∷ 7 ∷ []))
    × (cs'.session_stat ≡ ss_response)
    × (cs'.request ≡ some (1, 5 ∷ 7 ∷ []))
unfolding session_init assemble_hb
feed-assemble_hb_example =
    feed-assemble_hb any_event 1 (5 ∷ 7 ∷ []) (omega arith) (omega arith) (omega arith) pieces
      session_init [] (1, 5 ∷ 7 ∷ []) (omega arith, (omega arith, (omega arith, tt))) (λ e. cc)
      (in_header (omega arith) refl refl refl) refl refl
