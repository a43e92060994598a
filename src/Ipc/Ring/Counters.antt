-- ===== src/Ipc/Ring/Counters.antt =====
-- Arithmetic of the ring: a counter is a number modulo 2 ^ 32, and 2 ^ bits divides 2 ^ 32. A window is
-- what the slots hold from one absolute position on.
use shared_bike_refactor.Base.{
  ℕ, zero, suc, ◌+◌, ◌-◌, ◌*◌, ◌%◌, ◌^◌, ◌≤◌, ◌<◌, ◌≡◌, ◌≢◌, refl, sym, ◌∙◌, ap, ap₂, List, [], ◌∷◌,
  ◌++◌, get_or, get_elem?, set, arith, get_or-set_ne, some, subst,
}
use native.Mathlib.Nat.{
  mod-mod_of_dvd, pow-suc, dvd-mul_right, add-zero, add-suc, le_of_dvd, div-add-mod,
}
use Prim.Native.Nat.{◌∣◌}
use shared_bike_refactor.Ipc.Packet.{Slot, empty_slot}

pow-add : (b d : ℕ) → 2 ^ (b + d) ≡ 2 ^ b * 2 ^ d
pow-add b zero = rw add-zero (omega arith)
pow-add b (suc d) = rw add-suc (
    pow-suc 2 (b + d)
    ∙ omega (arith, ap (λ (t : ℕ). t * 2) (pow-add b d), ap (λ (t : ℕ). 2 ^ b * t) (pow-suc 2 d)))

pow_split : (b d n : ℕ) → b + d ≡ n → 2 ^ n ≡ 2 ^ b * 2 ^ d
pow_split b d n e = rw (← e) (pow-add b d)

pow_pos : (b : ℕ) → 0 < 2 ^ b
pow_pos zero = omega arith
pow_pos (suc b) = omega (arith, pow-suc 2 b, pow_pos b)

module _ (bits : ℕ) where
  pub count_pos : 0 < 2 ^ bits
  count_pos = pow_pos bits

  pub count_le : bits ≤ 16 → 2 ^ bits ≤ 2 ^ 16
  count_le small = le_of_dvd (omega arith) (
      subst (λ t. ◌∣◌ (2 ^ bits) t) (sym (pow_split bits (16 - bits) 16 (omega arith)))
        (dvd-mul_right _ _))

  pub index_absolute : bits ≤ 16 → (x : ℕ) → x % 2 ^ 32 % 2 ^ bits ≡ x % 2 ^ bits
  index_absolute small x = mod-mod_of_dvd (2 ^ bits) x (
      subst (λ t. ◌∣◌ (2 ^ bits) t) (sym (pow_split bits (32 - bits) 32 (omega arith)))
        (dvd-mul_right _ _))

-- Two positions less than a whole turn apart have different indices.
pub index_ne : (cap x y : ℕ) → x < y → y < x + cap → x % cap ≢ y % cap
index_ne cap x y lo hi e = grind (arith, div-add-mod x cap, div-add-mod y cap)

-- The indices of the `n` slots from position `x` on, and what they hold.
module _ (cap : ℕ) where
  abbrev pub indices : ℕ → ℕ → List ℕ
  indices x zero = []
  indices x (suc n) = x % cap ∷ indices (x + 1) n

  abbrev pub window : List Slot → ℕ → ℕ → List Slot
  window slots x zero = []
  window slots x (suc n) = get_or slots (x % cap) empty_slot ∷ window slots (x + 1) n

  pub indices-append : (x m n k : ℕ) → k ≡ m + n → indices x k ≡ indices x m ++ indices (x + m) n
  indices-append x zero n k e =
      let p : x + 0 ≡ x = omega arith in let q : k ≡ n = omega arith in rw (p, q)
  indices-append x (suc m) n zero e = absurd (omega arith)
  indices-append x (suc m) n (suc k) e =
      let p : x + suc m ≡ x + 1 + m = omega arith in
      rw p (ap (◌∷◌ (x % cap)) (indices-append (x + 1) m n k (omega arith)))

  pub window-append :
      (slots : List Slot) (x m n k : ℕ)
      → k ≡ m + n
      → window slots x k ≡ window slots x m ++ window slots (x + m) n
  window-append slots x zero n k e =
      let p : x + 0 ≡ x = omega arith in let q : k ≡ n = omega arith in rw (p, q)
  window-append slots x (suc m) n zero e = absurd (omega arith)
  window-append slots x (suc m) n (suc k) e =
      let p : x + suc m ≡ x + 1 + m = omega arith in
      rw p (
        ap (◌∷◌ (get_or slots (x % cap) empty_slot))
          (window-append slots (x + 1) m n k (omega arith)))

  -- A write at a position past the window, and less than a turn from its start, leaves it alone.
  pub window-set :
      (slots : List Slot) (v : Slot) (x n y : ℕ)
      → x + n ≤ y
      → y < x + cap
      → window (set slots (y % cap) v) x n ≡ window slots x n
  window-set slots v x zero y lo hi = refl
  window-set slots v x (suc n) y lo hi =
      ap₂ ◌∷◌
        (get_or-set_ne slots (y % cap) (x % cap) v empty_slot
          (λ e. index_ne cap x y (omega arith) hi (sym e)))
        (window-set slots v (x + 1) n y (omega arith) (omega arith))

  pub get_elem?-indices :
      (x n j i : ℕ) → get_elem? (indices x n) j ≡ some i → (j < n) × (i ≡ (x + j) % cap)
  get_elem?-indices x zero j i e = cc
  get_elem?-indices x (suc n) zero i e = let p : x + 0 ≡ x = omega arith in (omega arith, rw p (cc))
  get_elem?-indices x (suc n) (suc j) i e =
      let r = get_elem?-indices (x + 1) n j i e in
      (omega arith, r.1 ∙ ap (λ (t : ℕ). t % cap) {y = x + suc j} (omega arith))
