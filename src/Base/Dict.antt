-- ===== src/Base/Dict.antt =====
-- Maps as association lists in the order of their keys, as a `std::map` is walked. Where the source
-- has a `std::unordered_map`, only the operations by key are used.
use shared_bike_refactor.Base.Tests.{◌==◌, ==_iff, ltb, if◌then◌else◌}
use Prim.Native.Nat.{ℕ}
use mathlib.Core.Path.{◌≡◌, refl}
use mathlib.Core.Logic.{◌↔◌, ◌≢◌}
use mathlib.Core.Bool.{Bool, true, false, ◌&&◌, ◌||◌}
use mathlib.Core.Option.{Option, none, some}
use mathlib.Core.List.{List, [], ◌∷◌}
use native.Mathlib.Omega.{arith}

-- What a map needs of its keys: an equality test and the order of `operator<`.
pub record Key (K : Type 0) : Type 0 where
  pub beq : K → K → Bool
  pub blt : K → K → Bool
  pub beq_iff : (a b : K) → (beq a b ≡ true) ↔ (a ≡ b)

abbrev pub Dict : Type 0 → Type 0 → Type 0
Dict K V = List (K × V)

-- A byte string.
abbrev pub Bytes : Type 0
Bytes = List ℕ

instance abbrev pub nat_key : Key ℕ
nat_key = record { beq = ◌==◌; blt = ltb; beq_iff = ==_iff }

unfoldable pub bytes_eq : Bytes → Bytes → Bool
bytes_eq [] [] = true
bytes_eq [] (y ∷ ys) = false
bytes_eq (x ∷ xs) [] = false
bytes_eq (x ∷ xs) (y ∷ ys) = (x == y) && bytes_eq xs ys

unfoldable pub bytes_lt : Bytes → Bytes → Bool
bytes_lt [] [] = false
bytes_lt [] (y ∷ ys) = true
bytes_lt (x ∷ xs) [] = false
bytes_lt (x ∷ xs) (y ∷ ys) = ltb x y || ((x == y) && bytes_lt xs ys)

bytes_eq_sound : (a b : Bytes) → bytes_eq a b ≡ true → a ≡ b
unfolding bytes_eq
bytes_eq_sound [] [] h = refl
bytes_eq_sound [] (y ∷ ys) h = cc
bytes_eq_sound (x ∷ xs) [] h = cc
bytes_eq_sound (x ∷ xs) (y ∷ ys) h = ground (arith, bytes_eq_sound xs ys)

bytes_eq_refl : (a : Bytes) → bytes_eq a a ≡ true
unfolding bytes_eq
bytes_eq_refl [] = refl
bytes_eq_refl (x ∷ xs) = ground (arith, bytes_eq_refl xs)

pub bytes_eq_iff : (a b : Bytes) → (bytes_eq a b ≡ true) ↔ (a ≡ b)
bytes_eq_iff a b = (bytes_eq_sound a b, λ e. rw e (bytes_eq_refl b))

instance abbrev pub bytes_key : Key Bytes
bytes_key = record { beq = bytes_eq; blt = bytes_lt; beq_iff = bytes_eq_iff }

module _ {K V : Type 0} ⦃k : Key K⦄ where
  unfoldable pub lookup : K → Dict K V → Option V
  lookup a [] = none
  lookup a ((j, v) ∷ m) = if k.beq j a then some v else lookup a m

  unfoldable pub contains : K → Dict K V → Bool
  contains a m = elim (lookup a m) [ none ↦ false | some _ ↦ true ]

  -- `m[a] = v`
  unfoldable pub insert : K → V → Dict K V → Dict K V
  insert a v [] = (a, v) ∷ []
  insert a v ((j, w) ∷ m) =
      if k.beq j a
      then (a, v) ∷ m
      else if k.blt a j
      then (a, v) ∷ (j, w) ∷ m
      else (j, w) ∷ insert a v m

  -- `m.erase(a)`
  unfoldable pub erase : K → Dict K V → Dict K V
  erase a [] = []
  erase a ((j, w) ∷ m) = if k.beq j a then erase a m else (j, w) ∷ erase a m

  pub lookup-insert :
      (a b : K) (v : V) (m : Dict K V)
      → lookup b (insert a v m) ≡ (if k.beq a b then some v else lookup b m)
  unfolding lookup insert
  lookup-insert a b v [] = refl
  lookup-insert a b v ((j, w) ∷ m) =
      ground (arith, k.beq_iff j a, k.beq_iff j b, k.beq_iff a b, lookup-insert a b v m)

  pub lookup-insert_self : (a : K) (v : V) (m : Dict K V) → lookup a (insert a v m) ≡ some v
  lookup-insert_self a v m = ground (arith, lookup-insert a a v m, k.beq_iff a a)

  pub lookup-insert_ne :
      (a b : K) (v : V) (m : Dict K V) → a ≢ b → lookup b (insert a v m) ≡ lookup b m
  lookup-insert_ne a b v m h = ground (arith, lookup-insert a b v m, k.beq_iff a b)

  pub lookup-erase :
      (a b : K) (m : Dict K V) → lookup b (erase a m) ≡ (if k.beq a b then none else lookup b m)
  unfolding lookup erase
  lookup-erase a b [] = ground arith
  lookup-erase a b ((j, w) ∷ m) =
      ground (arith, k.beq_iff j a, k.beq_iff j b, k.beq_iff a b, lookup-erase a b m)

  pub lookup-erase_self : (a : K) (m : Dict K V) → lookup a (erase a m) ≡ none
  lookup-erase_self a m = ground (arith, lookup-erase a a m, k.beq_iff a a)

  pub lookup-erase_ne : (a b : K) (m : Dict K V) → a ≢ b → lookup b (erase a m) ≡ lookup b m
  lookup-erase_ne a b m h = ground (arith, lookup-erase a b m, k.beq_iff a b)
