-- ===== src/Ipc/Region/Tests.antt =====
-- A file of three rings of four slots of 64 bytes, left behind or in use.
use shared_bike_refactor.Base.{
  ℕ, ◌+◌, ◌≤◌, ◌≡◌, ◌≢◌, none, refl, Bool, true, false, some, ◌∷◌, arith,
}
use shared_bike_refactor.Base.Outcome.{ok, throw, runtime_error}
use shared_bike_refactor.Ipc.Layout.{compute_file_layout, ring_header_size}
use shared_bike_refactor.Ipc.Region.{
  Shape, ShmFile, new_rings, new_ring, blank, write_headers, reinit_file, validate_file,
  peer_in_use, pid_alive, create_or_recover, open_existing, attach,
}
use shared_bike_refactor.Ipc.Region.Recovery.{
  create_or_recover-open_existing, create_or_recover_again,
}
use shared_bike_refactor.Ipc.Region.Views.{attach_lem}

abbrev shape : Shape
shape = record { ring_count = 3; slot_count = 4; slot_size = 64; total = 4864 }

abbrev four_rings : Shape
four_rings = record { ring_count = 4; slot_count = 4; slot_size = 64; total = 6208 }

abbrev alive : ℕ → Bool
alive pid = true

abbrev dead : ℕ → Bool
dead pid = false

-- The gateway, of process 8, has beaten at 1000.
abbrev used : ShmFile
used = record (write_headers shape 5 (blank shape)) {
  rings =
      record new_ring { head = 2; tail = 1; producer_pid = 8; producer_heartbeat_ns = 1000 }
      ∷ new_rings 2;
}

create_or_recover-open_existing_example :
    (open_existing shape (some (reinit_file shape 2000 used)) ≡ ok (reinit_file shape 2000 used))
    × ((reinit_file shape 2000 used).bytes ≡ 4864)
    × ((reinit_file shape 2000 used).rings ≡ new_rings 3)
unfolding create_or_recover validate_file peer_in_use pid_alive
create_or_recover-open_existing_example =
    create_or_recover-open_existing dead false 2000 true shape (some used)
      (some (reinit_file shape 2000 used)) (reinit_file shape 2000 used) refl

-- The gateway has come and the dispatch process starts again, with four rings or with three.
create_or_recover_again_example :
    (create_or_recover alive false 2000 true shape (some used) ≡ (throw runtime_error, some used))
    × (four_rings.ring_count ≢ shape.ring_count
        → (taken : ShmFile) × (create_or_recover alive false 2000 true four_rings (some used)
            ≡ (ok taken, some taken))
          × (taken.rings ≡ new_rings 4))
unfolding create_or_recover write_headers peer_in_use pid_alive
create_or_recover_again_example =
    create_or_recover_again dead alive false 5 2000 true shape four_rings none
      (some (write_headers shape 5 (blank shape))) (write_headers shape 5 (blank shape)) used
      (omega arith) refl refl refl

attach_lem_example :
    let l = compute_file_layout 3 256 in
    let v = attach 3 256 0 in
    let w = attach 3 256 2 in
    (v.header_at + ring_header_size ≤ w.header_at)
    × (w.header_at + ring_header_size ≤ v.slots_at)
    × (v.slots_at + 256 ≤ w.slots_at)
    × (w.slots_at + 256 ≤ l.total_bytes)
attach_lem_example = attach_lem 3 256 0 2 (omega arith) (omega arith)
