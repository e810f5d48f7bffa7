-- ===== src/Prelude/Bits.antt =====
-- The bitwise "and" of Go's bytes: its law at the lowest bit, and what follows by induction.
use Prim.Native.Nat.{ℕ, zero, suc, ◌+◌, ◌*◌, ◌/◌, ◌%◌, ◌≤◌, min, bit_and, digits, bit_and-bitwise}
use mathlib.Core.Path.{◌≡◌, refl}
use native.Mathlib.Omega.{arith}

abbrev and_fuel : ℕ → ℕ → ℕ → ℕ
and_fuel k x y = digits (λ d. zero) min k x y

-- Fuel above the first number changes nothing.
and_fuel_enough : (x k l y : ℕ) → x ≤ k → x ≤ l → and_fuel k x y ≡ and_fuel l x y
and_fuel_enough zero zero zero y h g = refl
and_fuel_enough zero zero (suc l) y h g = refl
and_fuel_enough zero (suc k) zero y h g = refl
and_fuel_enough zero (suc k) (suc l) y h g = refl
and_fuel_enough (suc x) zero l y h g = absurd (omega arith)
and_fuel_enough (suc x) (suc k) zero y h g = absurd (omega arith)
and_fuel_enough (suc x) (suc k) (suc l) y h g =
    omega (arith, and_fuel_enough (suc x / 2) k l (y / 2) (omega arith) (omega arith))

pub bit_and_digit : (x y : ℕ) → bit_and x y ≡ 2 * bit_and (x / 2) (y / 2) + min (x % 2) (y % 2)
bit_and_digit zero y = omega (arith, bit_and-bitwise 0 y, bit_and-bitwise 0 (y / 2))
bit_and_digit (suc x) y = omega (
  arith,
  bit_and-bitwise (suc x) y,
  bit_and-bitwise (suc x / 2) (y / 2),
  and_fuel_enough (suc x / 2) x (suc x / 2) (y / 2) (omega arith) (omega arith),
)

zero-bit_and : (y : ℕ) → bit_and 0 y ≡ 0
zero-bit_and y = bit_and-bitwise 0 y

bit_and_half : (x y : ℕ) → bit_and x y / 2 ≡ bit_and (x / 2) (y / 2)
bit_and_half x y = omega (arith, bit_and_digit x y)

bit_and_low : (x y : ℕ) → bit_and x y % 2 ≡ min (x % 2) (y % 2)
bit_and_low x y = omega (arith, bit_and_digit x y)

bit_and_assoc_fuel : (k x y z : ℕ) → x ≤ k → bit_and (bit_and x y) z ≡ bit_and x (bit_and y z)
bit_and_assoc_fuel zero zero y z h = rw (zero-bit_and y, zero-bit_and z, zero-bit_and (bit_and y z))
bit_and_assoc_fuel zero (suc x) y z h = absurd (omega arith)
bit_and_assoc_fuel (suc k) x y z h =
    let ih = bit_and_assoc_fuel k (x / 2) (y / 2) (z / 2) (omega arith) in
    rw
      (
        bit_and_digit (bit_and x y) z,
        bit_and_digit x (bit_and y z),
        bit_and_half x y,
        bit_and_half y z,
        ih,
      )
      (omega (arith, bit_and_low x y, bit_and_low y z))

-- Bitwise "and" is associative.
pub bit_and_assoc : (x y z : ℕ) → bit_and (bit_and x y) z ≡ bit_and x (bit_and y z)
bit_and_assoc x y z = bit_and_assoc_fuel x x y z (omega arith)

bit_and_self_fuel : (k x : ℕ) → x ≤ k → bit_and x x ≡ x
bit_and_self_fuel zero zero h = refl
bit_and_self_fuel zero (suc x) h = absurd (omega arith)
bit_and_self_fuel (suc k) x h =
    omega (arith, bit_and_digit x x, bit_and_self_fuel k (x / 2) (omega arith))

pub bit_and_self : (x : ℕ) → bit_and x x ≡ x
bit_and_self x = bit_and_self_fuel x x (omega arith)
