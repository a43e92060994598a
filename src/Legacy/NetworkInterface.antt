-- ===== src/Legacy/NetworkInterface.antt =====
-- legacy/NetworkInterface.cpp and NetworkInterface.h: the connections of the first server. libevent's
-- input buffer is a list of bytes; a read of `n` bytes takes as many as there are. The buffers of a
-- session are lists with what was read so far, so the counts of read bytes are their lengths.
pub mod Stages
pub mod Reading
mod Tests
use shared_bike_refactor.Base.{
  ℕ, ◌+◌, ◌-◌, ◌*◌, ◌^◌, Bool, true, false, not, ◌&&◌, ◌||◌, Option, none, some, List, [], ◌∷◌,
  ◌++◌, length, take, drop, ltb, ◌==◌, if◌then◌else◌,
}
use shared_bike_refactor.Base.Dict.{Bytes, bytes_eq}
use shared_bike_refactor.Protocol.{
  frame_magic, max_message_len, put_u16_le, put_u32_le, get_u16_le, get_u32_le,
}

-- `MESSAGE_HEADER_LEN`
abbrev message_header_len : ℕ
message_header_len = 10

pub data SessionStatus : Type 0 where
  ss_request ss_response : SessionStatus

-- The two values that the code gives to `req_stat`.
pub data MessageStatus : Type 0 where
  ms_read_header ms_read_message : MessageStatus

-- `E` is the type of an event; `request` is the one that a worker may be handling.
pub record ConnectSession (E : Type 0) : Type 0 where
  pub session_stat : SessionStatus
  pub req_stat : MessageStatus
  pub request : Option E
  pub eid : ℕ
  pub message_len : ℕ
  pub header : Bytes
  pub read_buf : Bytes

-- What a callback does to its session, with the input that it leaves: the session stays, is freed with
-- its connection, or stays with an event given to the thread pool.
pub data Handled (E : Type 0) : Type 0 where
  kept : ConnectSession E → Bytes → Handled E
  closed : Handled E
  enqueued : ConnectSession E → Bytes → E → Handled E

abbrev pub is_request : SessionStatus → Bool
is_request ss_request = true
is_request ss_response = false

abbrev pub is_header : MessageStatus → Bool
is_header ms_read_header = true
is_header ms_read_message = false

module _ {E : Type 0} where
  -- `session_init` and the lines of `listener_cb` behind it.
  unfoldable pub session_init : ConnectSession E
  session_init = record {
    session_stat = ss_request;
    req_stat = ms_read_header;
    request = none;
    eid = 0;
    message_len = 0;
    header = [];
    read_buf = [];
  }

  -- The event number stays as it was.
  unfoldable pub session_reset : ConnectSession E → ConnectSession E
  session_reset cs = record cs {
    session_stat = ss_request;
    req_stat = ms_read_header;
    request = none;
    message_len = 0;
    header = [];
    read_buf = [];
  }

  -- The header is complete: `none` closes the connection.
  unfoldable pub check_header : ConnectSession E → Option (ConnectSession E)
  check_header cs =
      let len = get_u32_le cs.header 6 in
      if not (bytes_eq (take 4 cs.header) frame_magic)
      then none
      else if ltb len 1 || ltb max_message_len len
      then none
      else some (record cs {
        eid = get_u16_le cs.header 4;
        message_len = len;
        read_buf = [];
        req_stat = ms_read_message;
      })

  unfoldable pub read_header : ConnectSession E → Bytes → Option (ConnectSession E) × Bytes
  read_header cs input =
      let room = message_header_len - length cs.header in
      let cs' = record cs { header = cs.header ++ take room input } in
      let rest = drop room input in
      if length cs'.header == message_header_len then (check_header cs', rest) else (some cs', rest)

  -- `parse_event` is `DispatchMsgService::parseEvent`.
  unfoldable pub read_message : (Bytes → ℕ → Option E) → ConnectSession E → Bytes → Handled E
  read_message parse_event cs input =
      let room = cs.message_len - length cs.read_buf in
      let body = cs.read_buf ++ take room input in
      let rest = drop room input in
      if not (length body == cs.message_len)
      then kept (record cs { read_buf = body }) rest
      else elim (parse_event body cs.eid) [
        | none ↦ closed
        | some ev ↦
            enqueued (record cs { session_stat = ss_response; read_buf = []; request = some ev })
              rest ev
      ]

  unfoldable pub handle_body : (Bytes → ℕ → Option E) → ConnectSession E → Bytes → Handled E
  handle_body parse_event cs input =
      if is_header cs.req_stat || (length input == 0)
      then kept cs input
      else read_message parse_event cs input

  unfoldable pub after_header :
      (Bytes → ℕ → Option E) → Option (ConnectSession E) → Bytes → Handled E
  after_header parse_event none input = closed
  after_header parse_event (some cs) input = handle_body parse_event cs input

  unfoldable pub handle_request : (Bytes → ℕ → Option E) → ConnectSession E → Bytes → Handled E
  handle_request parse_event cs input =
      let (checked, rest) = read_header cs input in
      if not (is_request cs.session_stat)
      then kept cs input
      else if is_header cs.req_stat
      then after_header parse_event checked rest
      else handle_body parse_event cs input

-- `AssembleHB` of legacy/DispatchMsgService.cpp: what is written for an event with this number and
-- these bytes.
unfoldable pub assemble_hb : ℕ → Bytes → Bytes
assemble_hb eid payload = (frame_magic ++ put_u16_le eid ++ put_u32_le (length payload)) ++ payload
