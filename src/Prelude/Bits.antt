-- ===== src/Prelude/Bits.antt =====
-- The bits of a word: what `x & (1 << i)`, `x ^ (1 << i)` and `x ^ y` mean bit by bit.
use Prim.Native.Nat.{ℕ, zero, suc, ◌+◌, ◌*◌, ◌/◌, ◌%◌, ◌^◌, ◌≤◌, ◌<◌, min}
use Prim.Native.Nat.{bit_and, bit_xor, digits, differ, bit_and-bitwise, bit_xor-bitwise}
use mathlib.Core.Path.{◌≡◌, refl, ap, ◌∙◌}
use mathlib.Core.Bool.{Bool, true, false, not}
use native.Mathlib.Nat.{pow-suc}
use native.Mathlib.Omega.{arith}
use nadrvlinux.Prelude.Tests.{◌==◌}

-- `if (x & mask)`
abbrev pub is_set : ℕ → ℕ → Bool
is_set x mask = not (bit_and x mask == 0)

-- Bit `i` of `x`.
unfoldable pub test_bit : ℕ → ℕ → Bool
test_bit x zero = x % 2 == 1
test_bit x (suc i) = test_bit (x / 2) i

-- The exclusive or of two truth values.
abbrev pub differs : Bool → Bool → Bool
differs true b = not b
differs false b = b

module _ (z : ℕ → ℕ) (f : ℕ → ℕ → ℕ) where
  -- More fuel than digits changes nothing.
  pub digits_enough :
      (fuel more a b : ℕ) → a ≤ fuel → a ≤ more → digits z f fuel a b ≡ digits z f more a b
  digits_enough zero zero a b p q = refl
  digits_enough zero (suc more) zero b p q = refl
  digits_enough zero (suc more) (suc a) b p q = absurd (omega arith)
  digits_enough (suc fuel) zero zero b p q = refl
  digits_enough (suc fuel) zero (suc a) b p q = absurd (omega arith)
  digits_enough (suc fuel) (suc more) zero b p q = refl
  digits_enough (suc fuel) (suc more) (suc a) b p q =
      ap (λ k. k * 2 + f (suc a % 2) (b % 2))
        (digits_enough fuel more (suc a / 2) (b / 2) (omega arith) (omega arith))

-- The lowest digit, and the rest.
pub bit_and_digit : (a b : ℕ) → bit_and a b ≡ bit_and (a / 2) (b / 2) * 2 + min (a % 2) (b % 2)
bit_and_digit zero b = omega (arith, bit_and-bitwise 0 b, bit_and-bitwise 0 (b / 2))
bit_and_digit (suc a) b = omega (
  arith,
  bit_and-bitwise (suc a) b,
  bit_and-bitwise (suc a / 2) (b / 2),
  digits_enough (λ y. 0) min a (suc a / 2) (suc a / 2) (b / 2) (omega arith) (omega arith),
)

pub bit_xor_digit : (a b : ℕ) → bit_xor a b ≡ bit_xor (a / 2) (b / 2) * 2 + differ (a % 2) (b % 2)
bit_xor_digit zero b = omega (arith, bit_xor-bitwise 0 b, bit_xor-bitwise 0 (b / 2))
bit_xor_digit (suc a) b = omega (
  arith,
  bit_xor-bitwise (suc a) b,
  bit_xor-bitwise (suc a / 2) (b / 2),
  digits_enough (λ y. y) differ a (suc a / 2) (suc a / 2) (b / 2) (omega arith) (omega arith),
)

differ_digits : (a b : ℕ) → a < 2 → b < 2 → differ a b ≡ (a + b) % 2
differ_digits zero b p q = omega arith
differ_digits (suc zero) zero p q = refl
differ_digits (suc zero) (suc zero) p q = refl
differ_digits (suc zero) (suc (suc b)) p q = absurd (omega arith)
differ_digits (suc (suc a)) b p q = absurd (omega arith)

pub bit_xor_step : (a b : ℕ) → bit_xor a b ≡ bit_xor (a / 2) (b / 2) * 2 + (a % 2 + b % 2) % 2
bit_xor_step a b =
    omega (arith, bit_xor_digit a b, differ_digits (a % 2) (b % 2) (omega arith) (omega arith))

-- With a bound on the first number, induction goes from `a / 2` to `a`.
bit_and-zero_below : (n a : ℕ) → a ≤ n → bit_and a 0 ≡ 0
bit_and-zero_below n zero h = refl
bit_and-zero_below zero (suc a) h = absurd (omega arith)
bit_and-zero_below (suc n) (suc a) h =
    omega (arith, bit_and_digit (suc a) 0, bit_and-zero_below n (suc a / 2) (omega arith))

pub bit_and-zero : (a : ℕ) → bit_and a 0 ≡ 0
bit_and-zero a = bit_and-zero_below a a (omega arith)

two_pow_half : (i : ℕ) → (2 ^ suc i / 2 ≡ 2 ^ i) × (2 ^ suc i % 2 ≡ 0)
two_pow_half i = omega (arith, pow-suc 2 i)

-- `x & (1 << i)` is bit `i` of `x`, in its place.
pub bit_and-two_pow : (x i : ℕ) → (bit_and x (2 ^ i) == 0) ≡ not (test_bit x i)
unfolding test_bit
bit_and-two_pow x zero = ground (arith, bit_and_digit x 1, bit_and-zero (x / 2))
bit_and-two_pow x (suc i) = ground (
  arith,
  bit_and_digit x (2 ^ suc i),
  ap (bit_and (x / 2)) (two_pow_half i).0,
  two_pow_half i,
  bit_and-two_pow (x / 2) i,
)

not-not : (b : Bool) → not (not b) ≡ b
not-not true = refl
not-not false = refl

pub is_set-two_pow : (x i : ℕ) → is_set x (2 ^ i) ≡ test_bit x i
is_set-two_pow x i = ap not (bit_and-two_pow x i) ∙ not-not (test_bit x i)

-- Bit `i` of `x ^ y`.
pub test_bit-bit_xor :
    (x y i : ℕ) → test_bit (bit_xor x y) i ≡ differs (test_bit x i) (test_bit y i)
unfolding test_bit
test_bit-bit_xor x y zero = ground (arith, bit_xor_step x y)
test_bit-bit_xor x y (suc i) =
    ap (λ n. test_bit n i) (omega (arith, bit_xor_step x y)) ∙ test_bit-bit_xor (x / 2) (y / 2) i

test_bit-zero : (i : ℕ) → test_bit 0 i ≡ false
unfolding test_bit
test_bit-zero zero = refl
test_bit-zero (suc i) = test_bit-zero i

-- `1 << i` has bit `i` alone.
pub test_bit-two_pow : (i j : ℕ) → test_bit (2 ^ i) j ≡ (i == j)
unfolding test_bit
test_bit-two_pow zero zero = refl
test_bit-two_pow zero (suc j) = test_bit-zero j ∙ ground arith
test_bit-two_pow (suc i) zero = ground (arith, two_pow_half i)
test_bit-two_pow (suc i) (suc j) =
    ap (λ n. test_bit n j) (two_pow_half i).0 ∙ test_bit-two_pow i j ∙ ground arith

pub zero-bit_xor : (b : ℕ) → bit_xor 0 b ≡ b
zero-bit_xor b = bit_xor-bitwise 0 b

bit_xor-undo_below : (n x y : ℕ) → x ≤ n → y ≤ n → bit_xor (bit_xor x y) y ≡ x
bit_xor-undo_below zero zero zero p q = refl
bit_xor-undo_below zero zero (suc y) p q = absurd (omega arith)
bit_xor-undo_below zero (suc x) y p q = absurd (omega arith)
bit_xor-undo_below (suc n) x y p q = omega (
  arith,
  bit_xor_step (bit_xor x y) y,
  bit_xor_step x y,
  ap (λ k. bit_xor k (y / 2)) halved,
  bit_xor-undo_below n (x / 2) (y / 2) (omega arith) (omega arith),
)
  where
    halved : bit_xor x y / 2 ≡ bit_xor (x / 2) (y / 2)
    halved = omega (arith, bit_xor_step x y)

-- `(x ^ y) ^ y` is `x`.
pub bit_xor_undo : (x y : ℕ) → bit_xor (bit_xor x y) y ≡ x
bit_xor_undo x y = bit_xor-undo_below (x + y) x y (omega arith) (omega arith)

-- A word stays a word.
pub bit_xor-lt_two_pow : (k x y : ℕ) → x < 2 ^ k → y < 2 ^ k → bit_xor x y < 2 ^ k
bit_xor-lt_two_pow zero zero y p q = omega (arith, zero-bit_xor y)
bit_xor-lt_two_pow zero (suc x) y p q = absurd (omega arith)
bit_xor-lt_two_pow (suc k) x y p q = omega (
  arith,
  bit_xor_step x y,
  pow-suc 2 k,
  bit_xor-lt_two_pow k (x / 2) (y / 2) (omega (arith, pow-suc 2 k)) (omega (arith, pow-suc 2 k)),
)

-- Words with the same bits are equal.
test_bit_ext_below : (n x y : ℕ) → x ≤ n → y ≤ n → ((i : ℕ) → test_bit x i ≡ test_bit y i) → x ≡ y
unfolding test_bit
test_bit_ext_below zero x y p q h = omega arith
test_bit_ext_below (suc n) x y p q h =
    let lowest : (x % 2 == 1) ≡ (y % 2 == 1) = h 0 in
    let halves : x / 2 ≡ y / 2 =
      test_bit_ext_below n (x / 2) (y / 2) (omega arith) (omega arith) (λ i. h (suc i)) in
    ground arith

pub test_bit_ext : (x y : ℕ) → ((i : ℕ) → test_bit x i ≡ test_bit y i) → x ≡ y
test_bit_ext x y h = test_bit_ext_below (x + y) x y (omega arith) (omega arith) h

differs_comm : (a b : Bool) → differs a b ≡ differs b a
differs_comm a b = ground arith

differs_assoc : (a b c : Bool) → differs (differs a b) c ≡ differs a (differs b c)
differs_assoc a b c = ground arith

pub bit_xor_comm : (x y : ℕ) → bit_xor x y ≡ bit_xor y x
bit_xor_comm x y = test_bit_ext _ _ λ i. ground (
  arith,
  test_bit-bit_xor x y i,
  test_bit-bit_xor y x i,
  differs_comm (test_bit x i) (test_bit y i),
)

pub bit_xor_assoc : (x y z : ℕ) → bit_xor (bit_xor x y) z ≡ bit_xor x (bit_xor y z)
bit_xor_assoc x y z =
    test_bit_ext _ _
      λ i. simp test_bit-bit_xor (differs_assoc (test_bit x i) (test_bit y i) (test_bit z i))

pub bit_xor-zero : (x : ℕ) → bit_xor x 0 ≡ x
bit_xor-zero x = bit_xor_comm x 0 ∙ zero-bit_xor x

pub bit_xor_interchange :
    (a b c d : ℕ) → bit_xor (bit_xor a b) (bit_xor c d) ≡ bit_xor (bit_xor a c) (bit_xor b d)
bit_xor_interchange a b c d = cc (
  bit_xor_assoc a b (bit_xor c d),
  bit_xor_assoc b c d,
  bit_xor_comm b c,
  bit_xor_assoc c b d,
  bit_xor_assoc a c (bit_xor b d),
)

-- A shift to the right goes through `^`.
pub bit_xor-half : (x y : ℕ) → bit_xor x y / 2 ≡ bit_xor (x / 2) (y / 2)
bit_xor-half x y = omega (arith, bit_xor_step x y)

-- `^` of a low field and the field above it is their sum.
pub bit_xor_fields :
    (k low high : ℕ) → low < 2 ^ k → bit_xor low (2 ^ k * high) ≡ low + 2 ^ k * high
bit_xor_fields zero zero high h = omega (arith, zero-bit_xor (1 * high))
bit_xor_fields zero (suc low) high h = absurd (omega arith)
bit_xor_fields (suc k) low high h = ground (
  arith,
  bit_xor_step low (2 ^ suc k * high),
  doubled,
  bit_xor_fields k (low / 2) high (omega (arith, pow-suc 2 k)),
)
  where
    doubled : 2 ^ suc k * high ≡ 2 * (2 ^ k * high)
    doubled = omega (arith, ap (λ (n : ℕ). n * high) (pow-suc 2 k))

pub bit_and_odd : (x m : ℕ) → bit_and x (2 * m + 1) ≡ bit_and (x / 2) m * 2 + x % 2
bit_and_odd x m = omega (arith, bit_and_digit x (2 * m + 1), ap (bit_and (x / 2)) halved)
  where
    halved : (2 * m + 1) / 2 ≡ m
    halved = omega arith

-- `x & 0xff` is the low byte.
pub bit_and-low_byte : (x : ℕ) → bit_and x 255 ≡ x % 256
bit_and-low_byte x = omega (
  arith,
  bit_and_odd x 127,
  bit_and_odd (x / 2) 63,
  bit_and_odd (x / 2 / 2) 31,
  bit_and_odd (x / 2 / 2 / 2) 15,
  bit_and_odd (x / 2 / 2 / 2 / 2) 7,
  bit_and_odd (x / 2 / 2 / 2 / 2 / 2) 3,
  bit_and_odd (x / 2 / 2 / 2 / 2 / 2 / 2) 1,
  bit_and_odd (x / 2 / 2 / 2 / 2 / 2 / 2 / 2) 0,
  bit_and-zero (x / 2 / 2 / 2 / 2 / 2 / 2 / 2 / 2),
)

-- A byte does not reach the digits above it.
pub bit_xor-above_byte : (x b : ℕ) → b < 256 → bit_xor x b / 256 ≡ x / 256
bit_xor-above_byte x b h = omega (
  arith,
  bit_xor-half x b,
  bit_xor-half (x / 2) (b / 2),
  bit_xor-half (x / 2 / 2) (b / 2 / 2),
  bit_xor-half (x / 2 / 2 / 2) (b / 2 / 2 / 2),
  bit_xor-half (x / 2 / 2 / 2 / 2) (b / 2 / 2 / 2 / 2),
  bit_xor-half (x / 2 / 2 / 2 / 2 / 2) (b / 2 / 2 / 2 / 2 / 2),
  bit_xor-half (x / 2 / 2 / 2 / 2 / 2 / 2) (b / 2 / 2 / 2 / 2 / 2 / 2),
  bit_xor-half (x / 2 / 2 / 2 / 2 / 2 / 2 / 2) (b / 2 / 2 / 2 / 2 / 2 / 2 / 2),
  ap (bit_xor (x / 2 / 2 / 2 / 2 / 2 / 2 / 2 / 2)) gone,
  bit_xor-zero (x / 2 / 2 / 2 / 2 / 2 / 2 / 2 / 2),
)
  where
    gone : b / 2 / 2 / 2 / 2 / 2 / 2 / 2 / 2 ≡ 0
    gone = omega arith
