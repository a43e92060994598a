-- ===== src/Ipc/Packet.antt =====
-- server/include/bike/ipc/ipc_packet.hpp and the slot of shm_layout.hpp.
use shared_bike_refactor.Base.{ℕ, ◌-◌, []}
use shared_bike_refactor.Base.Dict.{Bytes}

-- `kFlagOneWay`
abbrev pub flag_one_way : ℕ
flag_one_way = 1

pub record IpcPacket : Type 0 where
  pub conn_id : ℕ
  pub event_id : ℕ
  pub flags : ℕ
  pub seq : ℕ
  pub payload_len : ℕ
  pub reserved0 : ℕ
  pub reserved1 : ℕ

-- The value of a packet whose members have their initializers.
abbrev pub default_packet : IpcPacket
default_packet = record {
  conn_id = 0;
  event_id = 0;
  flags = 0;
  seq = 0;
  payload_len = 0;
  reserved0 = 0;
  reserved1 = 0;
}

-- `sizeof(IpcPacket)`
abbrev pub packet_size : ℕ
packet_size = 32

abbrev pub req_slot_size : ℕ
req_slot_size = 4096

abbrev pub rsp_slot_size : ℕ
rsp_slot_size = 401408

abbrev pub req_payload_max : ℕ
req_payload_max = req_slot_size - packet_size

abbrev pub rsp_payload_max : ℕ
rsp_payload_max = rsp_slot_size - packet_size

-- `RingSlotT`: the packet, then the bytes of the payload area.
pub record Slot : Type 0 where
  pub pkt : IpcPacket
  pub payload : Bytes

abbrev pub empty_slot : Slot
empty_slot = record { pkt = default_packet; payload = [] }
