-- ===== src/Ipc/Region/Views.antt =====
-- Where the views of a file of rings lie (server/src/ipc/shm_region.cpp).
use shared_bike_refactor.Base.{
  ℕ, ◌+◌, ◌*◌, ◌≤◌, ◌<◌, ◌≡◌, arith, zero, suc, ltb, Bool-cases, inl, inr,
}
use shared_bike_refactor.Ipc.Layout.{
  align_up, compute_file_layout, ring_header_size, file_header_size, page_align,
}
use shared_bike_refactor.Ipc.Region.{attach}

align_up_ge : (v : ℕ) → v ≤ align_up v page_align
unfolding align_up
align_up_ge v = omega arith

mul_suc : (j r : ℕ) → suc j * r ≡ j * r + r
mul_suc j r = omega arith

before : (i j r : ℕ) → i < j → i * r + r ≤ j * r
before i zero r h = absurd (omega (arith, h))
before i (suc j) r h = elim (Bool-cases (ltb i j)) [
  | inl lt ↦ omega (arith, before i j r (ground (arith, lt)), mul_suc j r)
  | inr ge ↦ let same : i ≡ j = ground (arith, ge, h) in rw same (omega (arith, mul_suc j r))
]

-- Of two rings of one file, the header and the slots of the first end before those of the second begin;
-- the headers end before the slots begin, and the slots end within the file.
pub attach_lem :
    (n region_bytes i j : ℕ)
    → i < j
    → j < n
    → let l = compute_file_layout n region_bytes in
      let v = attach n region_bytes i in
      let w = attach n region_bytes j in
      (v.header_at + ring_header_size ≤ w.header_at)
      × (w.header_at + ring_header_size ≤ v.slots_at)
      × (v.slots_at + region_bytes ≤ w.slots_at)
      × (w.slots_at + region_bytes ≤ l.total_bytes)
unfolding attach compute_file_layout
attach_lem n region_bytes i j lt within =
    let slots = align_up_ge (file_header_size + n * ring_header_size) in
    (
      omega (arith, lt),
      omega (arith, slots, within),
      omega (arith, before i j region_bytes lt),
      omega (arith, before j n region_bytes within),
    )
