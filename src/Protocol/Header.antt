-- ===== src/Protocol/Header.antt =====
-- Buffers that hold a whole header.
use shared_bike_refactor.Base.{
  ℕ, zero, suc, ◌<◌, ◌≤◌, ◌≡◌, ◌≢◌, refl, sym, subst, [], ◌∷◌, length, drop, get_or, arith,
}
use shared_bike_refactor.Base.Dict.{Bytes}
use shared_bike_refactor.Protocol.{decode_frame, need_more, header_len}

-- A buffer from index `i` on, by its element there.
drop-cons : (i : ℕ) (xs : Bytes) → i < length xs → drop i xs ≡ get_or xs i 0 ∷ drop (suc i) xs
drop-cons i [] h = absurd (omega arith)
drop-cons zero (x ∷ xs) h = refl
drop-cons (suc i) (x ∷ xs) h = drop-cons i xs (omega arith)

header_bytes :
    (xs : Bytes)
    → header_len ≤ length xs
    → xs
      ≡ get_or xs 0 0
        ∷ get_or xs 1 0
        ∷ get_or xs 2 0
        ∷ get_or xs 3 0
        ∷ get_or xs 4 0
        ∷ get_or xs 5 0
        ∷ get_or xs 6 0
        ∷ get_or xs 7 0
        ∷ get_or xs 8 0
        ∷ get_or xs 9 0
        ∷ get_or xs 10 0
        ∷ get_or xs 11 0
        ∷ get_or xs 12 0
        ∷ get_or xs 13 0
        ∷ drop 14 xs
header_bytes xs h = cc (
  drop-cons 0 xs (omega arith),
  drop-cons 1 xs (omega arith),
  drop-cons 2 xs (omega arith),
  drop-cons 3 xs (omega arith),
  drop-cons 4 xs (omega arith),
  drop-cons 5 xs (omega arith),
  drop-cons 6 xs (omega arith),
  drop-cons 7 xs (omega arith),
  drop-cons 8 xs (omega arith),
  drop-cons 9 xs (omega arith),
  drop-cons 10 xs (omega arith),
  drop-cons 11 xs (omega arith),
  drop-cons 12 xs (omega arith),
  drop-cons 13 xs (omega arith),
)

-- To prove a statement of a buffer with a whole header, name the header's bytes.
pub by_header {ℓ} :
    (P : Bytes → Type ℓ)
    → ((a b c d e f g h i j k l m n : ℕ) (rest : Bytes)
        → P (a ∷ b ∷ c ∷ d ∷ e ∷ f ∷ g ∷ h ∷ i ∷ j ∷ k ∷ l ∷ m ∷ n ∷ rest))
    → (xs : Bytes) → header_len ≤ length xs
    → P xs
by_header P all xs h = subst P (sym (header_bytes xs h)) (all _ _ _ _ _ _ _ _ _ _ _ _ _ _ _)

pub decoded_has_header :
    (xs : Bytes) → (decode_frame xs).status ≢ need_more → header_len ≤ length xs
unfolding decode_frame
decoded_has_header xs s = ground arith
