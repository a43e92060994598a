-- ===== src/Ipc/Region.antt =====
-- server/src/ipc/shm_region.cpp and server/include/bike/ipc/shm_layout.hpp: a file of rings in shared
-- memory, which the dispatch process makes or takes over and the gateway opens. The calls of the system
-- come in as arguments: whether another creator holds the lock, whether a process is alive, the time.
pub mod Recovery
pub mod Views
mod Tests
use shared_bike_refactor.Base.{
  ℕ, zero, suc, ◌+◌, ◌-◌, ◌*◌, ◌%◌, ◌^◌, Bool, true, false, not, ◌&&◌, ◌||◌, Option, none, some,
  List, [], ◌∷◌, ltb, ◌==◌, if◌then◌else◌,
}
use shared_bike_refactor.Base.Outcome.{Outcome, ok, throw, runtime_error}
use shared_bike_refactor.Ipc.Ring.{RingHeader}
use shared_bike_refactor.Ipc.Layout.{RingFileLayout, compute_file_layout, ring_header_size}

-- `kShmMagic` and `kShmVersion`
abbrev pub shm_magic : ℕ
shm_magic = 1162561858

abbrev pub shm_version : ℕ
shm_version = 1

pub record ShmFileHeader : Type 0 where
  pub magic : ℕ
  pub version : ℕ
  pub ring_count : ℕ
  pub slot_count : ℕ
  pub slot_size : ℕ
  pub total_bytes : ℕ
  pub created_ns : ℕ

-- A file in shared memory: its size, its header and the headers of its rings.
pub record ShmFile : Type 0 where
  pub bytes : ℕ
  pub header : ShmFileHeader
  pub rings : List RingHeader

-- What a process asks of a file.
pub record Shape : Type 0 where
  pub ring_count : ℕ
  pub slot_count : ℕ
  pub slot_size : ℕ
  pub total : ℕ

abbrev pub new_ring : RingHeader
new_ring = record {
  head = 0;
  producer_pid = 0;
  producer_heartbeat_ns = 0;
  tail = 0;
  consumer_pid = 0;
  consumer_heartbeat_ns = 0;
}

abbrev pub new_rings : ℕ → List RingHeader
new_rings zero = []
new_rings (suc n) = new_ring ∷ new_rings n

-- A file of zeros, as `ftruncate` makes it.
abbrev pub blank : Shape → ShmFile
blank s = record {
  bytes = s.total;
  header = record {
    magic = 0;
    version = 0;
    ring_count = 0;
    slot_count = 0;
    slot_size = 0;
    total_bytes = 0;
    created_ns = 0;
  };
  rings = new_rings s.ring_count;
}

unfoldable pub write_headers : Shape → ℕ → ShmFile → ShmFile
write_headers s now f = record f {
  header = record {
    magic = shm_magic;
    version = shm_version;
    ring_count = s.ring_count;
    slot_count = s.slot_count;
    slot_size = s.slot_size % 2 ^ 32;
    total_bytes = s.total;
    created_ns = now;
  };
  rings = new_rings s.ring_count;
}

unfoldable pub validate_file : Shape → ShmFile → Bool
validate_file s f =
    let fh = f.header in
    (f.bytes == s.total)
    && ((fh.magic == shm_magic)
        && ((fh.version == shm_version)
            && ((fh.ring_count == s.ring_count)
                && ((fh.slot_count == s.slot_count)
                    && ((fh.slot_size == s.slot_size % 2 ^ 32) && (fh.total_bytes == s.total))))))

-- `ftruncate` to the size, and new headers.
unfoldable pub reinit_file : Shape → ℕ → ShmFile → ShmFile
unfolding write_headers
reinit_file s now f = write_headers s now (record f { bytes = s.total })

-- `kInUseHbLimitNs`
abbrev pub in_use_limit : ℕ
in_use_limit = 3 * 1000000000

-- The header of the first ring.
abbrev pub first_ring : List RingHeader → RingHeader
first_ring [] = new_ring
first_ring (h ∷ hs) = h

unfoldable pub pid_alive : (ℕ → Bool) → ℕ → Bool
pid_alive kill pid = not (pid == 0) && kill pid

-- Whether the gateway is alive and has beaten within the limit; differences are those of unsigned
-- 64-bit numbers.
unfoldable pub peer_in_use : (ℕ → Bool) → ℕ → Bool → ShmFile → Bool
unfolding pid_alive
peer_in_use kill now peer_is_producer f =
    let h = first_ring f.rings in
    let pid = if peer_is_producer then h.producer_pid else h.consumer_pid in
    let hb = if peer_is_producer then h.producer_heartbeat_ns else h.consumer_heartbeat_ns in
    pid_alive kill pid && (not (hb == 0) && ltb ((now + 2 ^ 64 - hb) % 2 ^ 64) in_use_limit)

-- `map_all` of the creator for one file; `locked` says that another creator holds the lock. `mmap` of a
-- file without bytes fails.
unfoldable pub create_or_recover :
    (ℕ → Bool) → Bool → ℕ → Bool → Shape → Option ShmFile → Outcome ShmFile × Option ShmFile
unfolding write_headers validate_file reinit_file peer_in_use
create_or_recover kill locked now peer_is_producer s none =
    let made = write_headers s now (blank s) in
    if locked then (throw runtime_error, some (blank s)) else (ok made, some made)
create_or_recover kill locked now peer_is_producer s (some f) =
    let made = reinit_file s now f in
    if f.bytes == 0
    then (throw runtime_error, some f)
    else if locked
    then (throw runtime_error, some f)
    else if validate_file s f && peer_in_use kill now peer_is_producer f
    then (throw runtime_error, some f)
    else (ok made, some made)

-- `map_all` of the process that opens: it only checks.
unfoldable pub open_existing : Shape → Option ShmFile → Outcome ShmFile
unfolding validate_file
open_existing s none = throw runtime_error
open_existing s (some f) = if validate_file s f then ok f else throw runtime_error

-- Where a view of ring `i` finds its header and its slots.
pub record View : Type 0 where
  pub header_at : ℕ
  pub slots_at : ℕ

-- `attach_req_consumers` and its like; `region_bytes` is `kRegionBytes`.
unfoldable pub attach : ℕ → ℕ → ℕ → View
unfolding compute_file_layout
attach ring_count region_bytes i =
    let l = compute_file_layout ring_count region_bytes in
    record {
      header_at = l.headers_offset + i * ring_header_size;
      slots_at = l.slots_offset + i * region_bytes;
    }
