-- ===== src/Ipc/Layout.antt =====
-- `align_up` and `compute_file_layout` of server/include/bike/ipc/shm_layout.hpp, in numbers that do
-- not overflow a `std::size_t`.
use shared_bike_refactor.Base.{ℕ, ◌+◌, ◌-◌, ◌*◌, ◌/◌}

abbrev pub page_align : ℕ
page_align = 4096

-- `sizeof(ShmFileHeader)` and `sizeof(RingHeader)`, as the source asserts them.
abbrev pub file_header_size : ℕ
file_header_size = 128

abbrev pub ring_header_size : ℕ
ring_header_size = 128

unfoldable pub align_up : ℕ → ℕ → ℕ
align_up v align = (v + align - 1) / align * align

pub record RingFileLayout : Type 0 where
  pub headers_offset : ℕ
  pub slots_offset : ℕ
  pub ring_stride : ℕ
  pub total_bytes : ℕ

unfoldable pub compute_file_layout : ℕ → ℕ → RingFileLayout
unfolding align_up
compute_file_layout ring_count bytes_per_ring =
    let slots_offset = align_up (file_header_size + ring_count * ring_header_size) page_align in
    record {
      headers_offset = file_header_size;
      slots_offset = slots_offset;
      ring_stride = bytes_per_ring;
      total_bytes = slots_offset + ring_count * bytes_per_ring;
    }
