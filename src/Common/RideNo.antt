-- ===== src/Common/RideNo.antt =====
-- common/src/ride_no.cpp: "R", the date with eight digits and the daily number with six. `%0wd` prints
-- all digits of a longer number, and `snprintf` keeps the 15 bytes that the buffer has room for.
use shared_bike_refactor.Base.{
  ℕ, zero, suc, ◌+◌, ◌-◌, ◌*◌, ◌/◌, ◌%◌, ◌^◌, ◌≤◌, ◌<◌, ◌≡◌, refl, sym, ap, ◌∙◌, ltb, if◌then◌else◌,
  ◌||◌, [], ◌∷◌, ◌++◌, take, take_all, length, length-append, arith,
}
use native.Mathlib.Nat.{pow-suc}
use shared_bike_refactor.Base.Dict.{Bytes}
use shared_bike_refactor.Base.Int.{ℤ, pos, negsuc}
use shared_bike_refactor.Base.Outcome.{Outcome, ok, throw, invalid_argument}

-- The last `w` decimal digits, most significant first.
pub digits : ℕ → ℕ → Bytes
digits zero n = []
digits (suc w) n = digits w (n / 10) ++ ((b'0' + n % 10) ∷ [])

-- The number of decimal digits of a number below 10 ^ (fuel + 1).
decimal_width : ℕ → ℕ → ℕ
decimal_width zero n = 1
decimal_width (suc fuel) n =
    let more = decimal_width fuel (n / 10) in if ltb n 10 then 1 else suc more

-- `%0wd` of an `int` that is not negative; it has ten digits at most.
pub zero_padded : ℕ → ℕ → Bytes
unfolding digits decimal_width
zero_padded w n = let d = decimal_width 9 n in digits (if ltb w d then d else w) n

unfoldable pub make_ride_no : ℕ → ℤ → Outcome Bytes
unfolding zero_padded
make_ride_no date_yyyymmdd (pos daily_seq) =
    if ltb daily_seq 1 || ltb 999999 daily_seq
    then throw invalid_argument
    else ok (take 15 (b'R' ∷ (zero_padded 8 date_yyyymmdd ++ zero_padded 6 daily_seq)))
make_ride_no _ (negsuc _) = throw invalid_argument

decimal_width_le : (fuel w n : ℕ) → n < 10 ^ suc w → decimal_width fuel n ≤ suc w
unfolding decimal_width
decimal_width_le zero w n lt = omega arith
decimal_width_le (suc fuel) zero n lt = ground (arith, pow-suc 10 0)
decimal_width_le (suc fuel) (suc w) n lt =
    ground (arith, decimal_width_le fuel w (n / 10) (omega (arith, pow-suc 10 (suc w))))

length-digits : (w n : ℕ) → length (digits w n) ≡ w
unfolding digits
length-digits zero n = refl
length-digits (suc w) n =
    length-append (digits w (n / 10)) _ ∙ omega (arith, length-digits w (n / 10))

-- A number that fits is padded to the width and no longer.
zero_padded-digits : (w n : ℕ) → n < 10 ^ suc w → zero_padded (suc w) n ≡ digits (suc w) n
unfolding zero_padded
zero_padded-digits w n lt = ground (arith, decimal_width_le 9 w n lt)

-- The number that decimal digits stand for, read on from `acc`.
abbrev pub value_from : ℕ → Bytes → ℕ
value_from acc [] = acc
value_from acc (c ∷ cs) = value_from (acc * 10 + (c - b'0')) cs

value_from-append :
    (acc : ℕ) (xs ys : Bytes) → value_from acc (xs ++ ys) ≡ value_from (value_from acc xs) ys
value_from-append acc [] ys = refl
value_from-append acc (x ∷ xs) ys = value_from-append (acc * 10 + (x - b'0')) xs ys

value_from-digits : (acc w n : ℕ) → n < 10 ^ w → value_from acc (digits w n) ≡ acc * 10 ^ w + n
unfolding digits
value_from-digits acc zero n lt = omega arith
value_from-digits acc (suc w) n lt =
    value_from-append acc (digits w (n / 10)) _
    ∙ omega (
      arith,
      value_from-digits acc w (n / 10) (omega (arith, pow-suc 10 w)),
      ap (λ (t : ℕ). acc * t) (pow-suc 10 w),
    )

-- For an eight-digit date and a number from 1 to 999999, the ride number is "R" and fourteen digits,
-- which read date * 10 ^ 6 + number.
pub make_ride_no_lem :
    (date seq : ℕ)
    → date < 10 ^ 8
    → 1 ≤ seq
    → seq ≤ 999999
    → (ds : Bytes) × (make_ride_no date (pos seq) ≡ ok (b'R' ∷ ds))
      × (length ds ≡ 14)
      × (value_from 0 ds ≡ date * 10 ^ 6 + seq)
unfolding make_ride_no
make_ride_no_lem date seq hd lo hi =
    let ds = digits 8 date ++ digits 6 seq in
    let count : length ds ≡ 14 =
      length-append (digits 8 date) (digits 6 seq)
      ∙ omega (arith, length-digits 8 date, length-digits 6 seq) in
    (
      ds,
      rw (zero_padded-digits 7 date hd, zero_padded-digits 5 seq (omega arith))
          (ground (arith, take_all 15 (b'R' ∷ ds) (omega arith))),
      count,
      value_from-append 0 (digits 8 date) (digits 6 seq)
          ∙ value_from-digits (value_from 0 (digits 8 date)) 6 seq (omega arith)
          ∙ omega (arith, value_from-digits 0 8 date hd),
    )

-- Rides with different dates, or different numbers on one date, have different ride numbers.
make_ride_no_injective :
    (date seq date' seq' : ℕ)
    → date < 10 ^ 8
    → date' < 10 ^ 8
    → 1 ≤ seq
    → seq ≤ 999999
    → 1 ≤ seq'
    → seq' ≤ 999999
    → make_ride_no date (pos seq) ≡ make_ride_no date' (pos seq')
    → (date ≡ date') × (seq ≡ seq')
make_ride_no_injective date seq date' seq' hd hd' lo hi lo' hi' same =
    let (ds, e, _, val) = make_ride_no_lem date seq hd lo hi in
    let (ds', e', _, val') = make_ride_no_lem date' seq' hd' lo' hi' in
    let eq_ds : ds ≡ ds' = cc in
    let eq_val : date * 10 ^ 6 + seq ≡ date' * 10 ^ 6 + seq' =
      sym val ∙ ap (value_from 0) eq_ds ∙ val' in
    (omega arith, omega arith)
