-- ===== src/Ipc/Region/Recovery.antt =====
-- A file of rings when the dispatch process starts again (server/src/ipc/shm_region.cpp).
use shared_bike_refactor.Base.{
  ℕ, ◌%◌, ◌^◌, ◌<◌, ◌≡◌, ◌≢◌, ap, ◌∙◌, refl, subst, Bool, true, false, ◌&&◌, Option, none, some,
  ◌==◌, if◌then◌else◌, arith,
}
use shared_bike_refactor.Base.Outcome.{Outcome, ok, throw, runtime_error}
use shared_bike_refactor.Ipc.Region.{
  Shape, ShmFile, new_rings, blank, write_headers, reinit_file, validate_file, peer_in_use,
  create_or_recover, open_existing,
}

equal_self : (n : ℕ) → (n == n) ≡ true
equal_self n = ground arith

written_valid :
    (s : Shape) (now : ℕ) (f : ShmFile)
    → f.bytes ≡ s.total
    → validate_file s (write_headers s now f) ≡ true
unfolding validate_file write_headers
written_valid s now f h =
    rw
      (
        h,
        equal_self s.total,
        equal_self s.ring_count,
        equal_self s.slot_count,
        equal_self (s.slot_size % 2 ^ 32),
      )
      refl

-- The result of a creator that did not fail.
abbrev Made : Shape → Outcome ShmFile × Option ShmFile → Type 0
Made s (throw _, file) = Unit
Made s (ok f, file) =
    (file ≡ some f)
    × (validate_file s f ≡ true)
    × (f.bytes ≡ s.total)
    × (f.rings ≡ new_rings s.ring_count)

if-Made :
    (s : Shape) (b : Bool) (x y : Outcome ShmFile × Option ShmFile)
    → Made s x
    → Made s y
    → Made s (if b then x else y)
if-Made s true x y h k = h
if-Made s false x y h k = k

module _ (kill : ℕ → Bool) (locked : Bool) (now : ℕ) (peer_is_producer : Bool) (s : Shape) where
  created-Made :
      (file : Option ShmFile) → Made s (create_or_recover kill locked now peer_is_producer s file)
  unfolding create_or_recover reinit_file write_headers
  created-Made none = if-Made s locked _ _ tt (refl, written_valid s now (blank s) refl, refl, refl)
  created-Made (some f) = if-Made s (f.bytes == 0) _ _ tt (
      if-Made s locked _ _ tt (
        if-Made s (validate_file s f && peer_in_use kill now peer_is_producer f) _ _ tt
          (refl, written_valid s now (record f { bytes = s.total }) refl, refl, refl)))

  -- What the creator has made or taken over, a process that opens with the same shape finds valid; it
  -- has the size of the shape, and all its rings are empty.
  pub create_or_recover-open_existing :
      (file file' : Option ShmFile) (f' : ShmFile)
      → create_or_recover kill locked now peer_is_producer s file ≡ (ok f', file')
      → (open_existing s file' ≡ ok f') × (f'.bytes ≡ s.total) × (f'.rings ≡ new_rings s.ring_count)
  unfolding open_existing
  create_or_recover-open_existing file file' f' h =
      let (same, valid, size, rings) = subst (Made s) h (created-Made file) in
      (rw (same, valid, open_existing) refl, size, rings)

-- A file that fits one shape does not fit one with another number of rings.
other_shape :
    (s s' : Shape) (f : ShmFile)
    → validate_file s f ≡ true
    → s'.ring_count ≢ s.ring_count
    → validate_file s' f ≡ false
unfolding validate_file
other_shape s s' f fits other = ground arith

module _ (kill : ℕ → Bool) (now : ℕ) (peer_is_producer : Bool) (s : Shape) where
  refused :
      (f : ShmFile)
      → validate_file s f ≡ true
      → peer_in_use kill now peer_is_producer f ≡ true
      → create_or_recover kill false now peer_is_producer s (some f) ≡ (throw runtime_error, some f)
  unfolding create_or_recover
  refused f fits used = ground (arith, fits, used)

  remade :
      (f : ShmFile)
      → 0 < f.bytes
      → validate_file s f ≡ false
      → create_or_recover kill false now peer_is_producer s (some f)
        ≡ (ok (reinit_file s now f), some (reinit_file s now f))
  unfolding create_or_recover
  remade f some_bytes misfit = ground (arith, misfit)

-- The dispatch process starts again while the gateway is alive, after any use of the rings of the file
-- that it made. With the same shape it is refused, and the file is left as it is; with another number of
-- rings it takes the file over all the same, and all its rings are empty.
pub create_or_recover_again :
    (kill kill' : ℕ → Bool) (locked : Bool) (now now' : ℕ) (peer_is_producer : Bool) (s s' : Shape)
    (file file' : Option ShmFile) (made used : ShmFile)
    → 0 < s.total
    → create_or_recover kill locked now peer_is_producer s file ≡ (ok made, file')
    → used ≡ record made { rings = used.rings }
    → peer_in_use kill' now' peer_is_producer used ≡ true
    → (create_or_recover kill' false now' peer_is_producer s (some used)
        ≡ (throw runtime_error, some used))
      × (s'.ring_count ≢ s.ring_count
          → (taken : ShmFile) × (create_or_recover kill' false now' peer_is_producer s' (some used)
              ≡ (ok taken, some taken))
            × (taken.rings ≡ new_rings s'.ring_count))
unfolding reinit_file write_headers validate_file
create_or_recover_again kill kill' locked now now' peer_is_producer s s' file file' made used
      some_total h same alive =
    let (_, valid, size, _) =
      subst (Made s) h (created-Made kill locked now peer_is_producer s file) in
    let fits : validate_file s used ≡ true = ap (validate_file s) same ∙ valid in
    let bytes : used.bytes ≡ s.total = ap (λ (f : ShmFile). f.bytes) same ∙ size in
    (
      refused kill' now' peer_is_producer s used fits alive,
      λ other. (
        reinit_file s' now' used,
        remade kill' now' peer_is_producer s' used (omega (arith, bytes, some_total))
            (other_shape s s' used fits other),
        refl,
      ),
    )
