-- ===== src/Protocol.antt =====
-- common/include/bike/protocol.hpp and common/src/protocol.cpp: the FBEB frame, its encoder, the
-- three-way decoder and the sequence stamp. A byte is a number below 256, a buffer with its length
-- is a list, and a thrown `std::overflow_error` is an outcome.

pub mod RoundTrip
pub mod Prefix
pub mod Stamp
mod Header
pub mod Canonical
mod Tests
use shared_bike_refactor.Base.{
  ℕ, ◌+◌, ◌*◌, ◌/◌, ◌%◌, ◌^◌, ◌<◌, Bool, true, false, Option, none, some, [], ◌∷◌, ◌++◌, ltb,
  if◌then◌else◌, length, get_or, set, take, drop, not,
}
use shared_bike_refactor.Base.Dict.{Bytes, bytes_eq}
use shared_bike_refactor.Base.Int.{ℤ, pos, signed32}
use shared_bike_refactor.Base.Outcome.{Outcome, ok, throw, overflow_error}

-- `kFrameMagic`: "FBEB".
abbrev pub frame_magic : Bytes
frame_magic = b'F' ∷ b'B' ∷ b'E' ∷ b'B' ∷ []

abbrev pub header_len : ℕ
header_len = 14

abbrev pub max_message_len : ℕ
max_message_len = 372680

-- The event numbers (`enum class Event`).
pub data Event : Type 0 where
  mobile_request mobile_response : Event
  login_request login_response : Event
  recharge_request recharge_response : Event
  account_balance_request account_balance_response : Event
  list_account_records_request list_account_records_response : Event
  list_nearby_bikes_request list_nearby_bikes_response : Event
  scan_unlock_request scan_unlock_response : Event
  ride_position_report : Event
  end_ride_request end_ride_response : Event
  report_damage_request report_damage_response : Event
  get_ride_detail_request get_ride_detail_response : Event
  list_rides_request list_rides_response : Event

abbrev pub event_id : Event → ℕ
event_id Event.mobile_request = 0x01
event_id Event.mobile_response = 0x02
event_id Event.login_request = 0x03
event_id Event.login_response = 0x04
event_id Event.recharge_request = 0x05
event_id Event.recharge_response = 0x06
event_id Event.account_balance_request = 0x07
event_id Event.account_balance_response = 0x08
event_id Event.list_account_records_request = 0x09
event_id Event.list_account_records_response = 0x10
event_id Event.list_nearby_bikes_request = 0x11
event_id Event.list_nearby_bikes_response = 0x12
event_id Event.scan_unlock_request = 0x13
event_id Event.scan_unlock_response = 0x14
event_id Event.ride_position_report = 0x15
event_id Event.end_ride_request = 0x17
event_id Event.end_ride_response = 0x18
event_id Event.report_damage_request = 0x19
event_id Event.report_damage_response = 0x1a
event_id Event.get_ride_detail_request = 0x1b
event_id Event.get_ride_detail_response = 0x1c
event_id Event.list_rides_request = 0x1d
event_id Event.list_rides_response = 0x1e

pub record Frame : Type 0 where
  pub event_id : ℕ
  pub seq : ℕ
  pub payload : Bytes

abbrev pub empty_frame : Frame
empty_frame = record { event_id = 0; seq = 0; payload = [] }

-- `(v >> s) & 0xFF`
abbrev pub byte_at : ℕ → ℕ → ℕ
byte_at v s = v / 2 ^ s % 256

abbrev pub put_u16_le : ℕ → Bytes
put_u16_le v = byte_at v 0 ∷ byte_at v 8 ∷ []

abbrev pub put_u32_le : ℕ → Bytes
put_u32_le u = byte_at u 0 ∷ byte_at u 8 ∷ byte_at u 16 ∷ byte_at u 24 ∷ []

-- The bytes that are joined by `|` have no bit in common, so their sum is taken.
abbrev pub get_u16_le : Bytes → ℕ → ℕ
get_u16_le p i = get_or p i 0 + get_or p (i + 1) 0 * 2 ^ 8

abbrev pub get_u32_le : Bytes → ℕ → ℕ
get_u32_le p i =
    get_or p i 0
    + get_or p (i + 1) 0 * 2 ^ 8
    + get_or p (i + 2) 0 * 2 ^ 16
    + get_or p (i + 3) 0 * 2 ^ 24

abbrev pub get_i32_le : Bytes → ℕ → ℤ
get_i32_le p i = signed32 (get_u32_le p i)

-- The length is at most `max_message_len` here, so as an `int32_t` it has the same pattern.
unfoldable pub encode : Frame → Outcome Bytes
encode f =
    if ltb max_message_len (length f.payload)
    then throw overflow_error
    else ok (
        (frame_magic ++ put_u16_le f.event_id ++ put_u32_le f.seq ++ put_u32_le (length f.payload))
        ++ f.payload)

pub data DecodeStatus : Type 0 where
  need_more bad_frame decoded : DecodeStatus

pub record DecodeOutcome : Type 0 where
  pub status : DecodeStatus
  pub frame : Frame
  pub consumed : ℕ

abbrev pub stopped : DecodeStatus → DecodeOutcome
stopped s = record { status = s; frame = empty_frame; consumed = 0 }

abbrev has_magic : Bytes → Bool
has_magic buf = bytes_eq (take 4 buf) frame_magic

-- The body of a buffer whose header is sound: `len` is the length field.
abbrev decode_body : Bytes → ℕ → DecodeOutcome
decode_body buf len = if ltb (length buf) (header_len + len) then stopped need_more else record {
  status = decoded;
  frame = record {
    event_id = get_u16_le buf 4;
    seq = get_u32_le buf 6;
    payload = take len (drop header_len buf);
  };
  consumed = header_len + len;
}

abbrev decode_len : Bytes → ℤ → DecodeOutcome
decode_len buf (pos len) =
    if ltb max_message_len len then stopped bad_frame else decode_body buf len
decode_len buf _ = stopped bad_frame

unfoldable pub decode_frame : Bytes → DecodeOutcome
unfolding bytes_eq
decode_frame buf =
    if ltb (length buf) header_len
    then stopped need_more
    else if not (has_magic buf)
    then stopped bad_frame
    else decode_len buf (get_i32_le buf 10)

pub record DecodeResult : Type 0 where
  pub frame : Frame
  pub consumed : ℕ

pub decode : Bytes → Option DecodeResult
decode buf =
    let out = decode_frame buf in
    elim out.status [
      | decoded ↦ some (record { frame = out.frame; consumed = out.consumed })
      | _ ↦ none
    ]

-- The stamp of a sequence number into an encoded frame: the flag and the buffer afterwards.
pub stamp_seq : Bytes → ℕ → Bool × Bytes
unfolding bytes_eq
stamp_seq encoded seq =
    if ltb (length encoded) header_len
    then (false, encoded)
    else if not (has_magic encoded)
    then (false, encoded)
    else (
      true,
      set (set (set (set encoded 6 (byte_at seq 0)) 7 (byte_at seq 8)) 8 (byte_at seq 16)) 9
          (byte_at seq 24),
    )

-- The ranges of the fields of a C++ `Frame`, and of a byte buffer.
abbrev pub IsByte : ℕ → Type 0
IsByte b = b < 256

pub record IsFrame (f : Frame) : Type 0 where
  pub event_fits : f.event_id < 2 ^ 16
  pub seq_fits : f.seq < 2 ^ 32
