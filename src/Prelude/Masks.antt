-- ===== src/Prelude/Masks.antt =====
-- `x | (1 << i)`, for a mask that is built from its lowest bit on.
use Prim.Native.Nat.{ℕ, zero, suc, ◌+◌, ◌*◌, ◌/◌, ◌%◌, ◌^◌, ◌<◌, max}
use Prim.Native.Nat.{bit_or, bit_or-bitwise}
use mathlib.Core.Path.{◌≡◌, ap}
use native.Mathlib.Nat.{pow-suc}
use native.Mathlib.Omega.{arith}
use nadrvlinux.Prelude.Bits.{digits_enough}

bit_or_digit : (a b : ℕ) → bit_or a b ≡ bit_or (a / 2) (b / 2) * 2 + max (a % 2) (b % 2)
bit_or_digit zero b = omega (arith, bit_or-bitwise 0 b, bit_or-bitwise 0 (b / 2))
bit_or_digit (suc a) b = omega (
  arith,
  bit_or-bitwise (suc a) b,
  bit_or-bitwise (suc a / 2) (b / 2),
  digits_enough (λ y. y) max a (suc a / 2) (suc a / 2) (b / 2) (omega arith) (omega arith),
)

zero-bit_or : (b : ℕ) → bit_or 0 b ≡ b
zero-bit_or b = omega (arith, bit_or-bitwise 0 b)

-- A bit above all those of the mask is added to it.
pub bit_or-disjoint : (i mask : ℕ) → mask < 2 ^ i → bit_or mask (2 ^ i) ≡ mask + 2 ^ i
bit_or-disjoint zero zero h = omega (arith, zero-bit_or 1)
bit_or-disjoint zero (suc mask) h = absurd (omega arith)
bit_or-disjoint (suc i) mask h = omega (
  arith,
  bit_or_digit mask (2 ^ suc i),
  ap (bit_or (mask / 2)) halved,
  pow-suc 2 i,
  bit_or-disjoint i (mask / 2) (omega (arith, pow-suc 2 i)),
)
  where
    halved : 2 ^ suc i / 2 ≡ 2 ^ i
    halved = omega (arith, pow-suc 2 i)
