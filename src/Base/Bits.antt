-- ===== src/Base/Bits.antt =====
-- Laws of `&` and `|` at variables. The native operations mean a recursion on binary digits;
-- from the equations for the lowest digit and for the rest everything here follows.
use Prim.Native.Nat.{
  ℕ, zero, suc, ◌+◌, ◌*◌, ◌/◌, ◌%◌, ◌≤◌, min, max, bit_and, bit_or, digits, bit_and-bitwise,
  bit_or-bitwise,
}
use mathlib.Core.Path.{◌≡◌, refl, ap, ap₂, ◌∙◌}
use native.Mathlib.Omega.{arith}

-- `z` is the result on a first operand of 0, `f` the operation on one digit.
module _ (z : ℕ → ℕ) (f : ℕ → ℕ → ℕ) where
  -- Any fuel that is at least the first operand gives the same number.
  enough_fuel : (i j x y : ℕ) → x ≤ i → x ≤ j → digits z f i x y ≡ digits z f j x y
  enough_fuel zero zero x y hi hj = refl
  enough_fuel zero (suc j) zero y hi hj = refl
  enough_fuel (suc i) zero zero y hi hj = refl
  enough_fuel (suc i) (suc j) zero y hi hj = refl
  enough_fuel zero (suc j) (suc x) y hi hj = absurd (omega arith)
  enough_fuel (suc i) zero (suc x) y hi hj = absurd (omega arith)
  enough_fuel (suc i) (suc j) (suc x) y hi hj =
      ap (λ (r : ℕ). r * 2 + f (suc x % 2) (y % 2))
        (enough_fuel i j (suc x / 2) (y / 2) (omega arith) (omega arith))

zero-bit_and : (y : ℕ) → bit_and 0 y ≡ 0
zero-bit_and y = bit_and-bitwise 0 y

zero-bit_or : (y : ℕ) → bit_or 0 y ≡ y
zero-bit_or y = bit_or-bitwise 0 y

and_digit : (x y : ℕ) → bit_and x y ≡ bit_and (x / 2) (y / 2) * 2 + min (x % 2) (y % 2)
and_digit zero y = omega (arith, zero-bit_and y, zero-bit_and (y / 2))
and_digit (suc x) y = omega (
  arith,
  bit_and-bitwise (suc x) y,
  bit_and-bitwise (suc x / 2) (y / 2),
  enough_fuel (λ y. zero) min x (suc x / 2) (suc x / 2) (y / 2) (omega arith) (omega arith),
)

or_digit : (x y : ℕ) → bit_or x y ≡ bit_or (x / 2) (y / 2) * 2 + max (x % 2) (y % 2)
or_digit zero y = omega (arith, zero-bit_or y, zero-bit_or (y / 2))
or_digit (suc x) y = omega (
  arith,
  bit_or-bitwise (suc x) y,
  bit_or-bitwise (suc x / 2) (y / 2),
  enough_fuel (λ y. y) max x (suc x / 2) (suc x / 2) (y / 2) (omega arith) (omega arith),
)

and_half : (x y : ℕ) → bit_and x y / 2 ≡ bit_and (x / 2) (y / 2)
and_half x y = omega (arith, and_digit x y)

and_low : (x y : ℕ) → bit_and x y % 2 ≡ min (x % 2) (y % 2)
and_low x y = omega (arith, and_digit x y)

or_half : (x y : ℕ) → bit_or x y / 2 ≡ bit_or (x / 2) (y / 2)
or_half x y = omega (arith, or_digit x y)

or_low : (x y : ℕ) → bit_or x y % 2 ≡ max (x % 2) (y % 2)
or_low x y = omega (arith, or_digit x y)

distrib_below : (n x y m : ℕ) → x ≤ n → bit_and (bit_or x y) m ≡ bit_or (bit_and x m) (bit_and y m)
distrib_below n zero y m h =
    ap (λ (t : ℕ). bit_and t m) (zero-bit_or y)
    ∙ omega
        (arith, zero-bit_or (bit_and y m), ap (λ (t : ℕ). bit_or t (bit_and y m)) (zero-bit_and m))
distrib_below zero (suc x) y m h = absurd (omega arith)
distrib_below (suc n) (suc x) y m h =
    let p = bit_and (suc x) m in
    let q = bit_and y m in
    omega (
      arith,
      and_digit (bit_or (suc x) y) m,
      ap (λ (t : ℕ). bit_and t (m / 2)) (or_half (suc x) y),
      or_low (suc x) y,
      distrib_below n (suc x / 2) (y / 2) (m / 2) (omega arith),
      or_digit p q,
      ap₂ {A = ℕ} {B = ℕ} {C = ℕ} bit_or (and_half (suc x) m) (and_half y m),
      and_low (suc x) m,
      and_low y m,
    )

-- A mask of a union is the union of the masks.
pub bit_and-bit_or : (x y m : ℕ) → bit_and (bit_or x y) m ≡ bit_or (bit_and x m) (bit_and y m)
bit_and-bit_or x y m = distrib_below x x y m (omega arith)

bounds_below : (n x y : ℕ) → x ≤ n → (x ≤ bit_or x y) × (y ≤ bit_or x y) × (bit_or x y ≤ x + y)
bounds_below n zero y h = omega (arith, zero-bit_or y)
bounds_below zero (suc x) y h = absurd (omega arith)
bounds_below (suc n) (suc x) y h =
    let (a, b, c) = bounds_below n (suc x / 2) (y / 2) (omega arith) in
    omega (arith, or_digit (suc x) y, a, b, c)

-- A union is at least either part and at most their sum; so it is 0 only if both parts are.
pub bit_or_bounds : (x y : ℕ) → (x ≤ bit_or x y) × (y ≤ bit_or x y) × (bit_or x y ≤ x + y)
bit_or_bounds x y = bounds_below x x y (omega arith)
