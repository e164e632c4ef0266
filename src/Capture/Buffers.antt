-- ===== src/Capture/Buffers.antt =====
-- The bits of the buffer flags: a released buffer is marked once.
use native.Mathlib.Nat.{pow-suc}
use Prim.Native.Nat.{bit_and-bitwise}
use nadrvlinux.Prelude.{
  ℕ, zero, suc, ◌+◌, ◌/◌, ◌^◌, ◌≤◌, ◌<◌, bit_and, bit_xor, true, false, not, ◌&&◌, ◌==◌, ◌≡◌, ◌≢◌,
  refl, ap, ◌∙◌, if◌then◌else◌, arith,
}
use nadrvlinux.Prelude.Bits.{test_bit, bit_and_digit, test_bit-bit_xor, test_bit-two_pow}

-- Bit `i` of `x & y`.
pub test_bit-bit_and : (x y i : ℕ) → test_bit (bit_and x y) i ≡ (test_bit x i && test_bit y i)
unfolding test_bit
test_bit-bit_and x y zero = ground (arith, bit_and_digit x y)
test_bit-bit_and x y (suc i) =
    ap (λ n. test_bit n i) (omega (arith, bit_and_digit x y)) ∙ test_bit-bit_and (x / 2) (y / 2) i

bit_and_le_below : (n x y : ℕ) → x ≤ n → bit_and x y ≤ x
bit_and_le_below n zero y h = omega (arith, bit_and_digit 0 y, bit_and-bitwise 0 y)
bit_and_le_below zero (suc x) y h = absurd (omega arith)
bit_and_le_below (suc n) (suc x) y h =
    omega (arith, bit_and_digit (suc x) y, bit_and_le_below n (suc x / 2) (y / 2) (omega arith))

-- A conjunction that loses a bit is smaller.
pub bit_and-lt : (x y i : ℕ) → test_bit x i ≡ true → test_bit y i ≡ false → bit_and x y < x
bit_and-lt x y i h k = ground (arith, bit_and_le_below x x y (omega arith), differs_at)
  where
    differs_at : bit_and x y ≢ x
    differs_at e = ground (arith, test_bit-bit_and x y i, ap (λ n. test_bit n i) e)

-- The mask of `n` ones.
test_bit-ones : (n m i : ℕ) → m + 1 ≡ 2 ^ n → i < n → test_bit m i ≡ true
unfolding test_bit
test_bit-ones zero m i e h = absurd (omega arith)
test_bit-ones (suc n) m zero e h = ground (arith, pow-suc 2 n)
test_bit-ones (suc n) m (suc i) e h =
    test_bit-ones n (m / 2) i (omega (arith, pow-suc 2 n)) (omega arith)

-- `used & ~(1 << i)`
unfoldable pub cleared : ℕ → ℕ → ℕ
cleared used i = bit_and used (bit_xor 0xffff_ffff (2 ^ i))

test_bit-inverse :
    (i j : ℕ) → i < 32 → j < 32 → test_bit (bit_xor 0xffff_ffff (2 ^ i)) j ≡ not (i == j)
test_bit-inverse i j h k = ground (
  arith,
  test_bit-bit_xor 0xffff_ffff (2 ^ i) j,
  test_bit-two_pow i j,
  test_bit-ones 32 0xffff_ffff j refl k,
)

-- The number becomes smaller, so that the loop ends.
pub cleared-lt : (used i : ℕ) → i < 32 → test_bit used i ≡ true → cleared used i < used
unfolding cleared
cleared-lt used i h set =
    bit_and-lt used (bit_xor 0xffff_ffff (2 ^ i)) i set (ground (arith, test_bit-inverse i i h h))

-- Releasing a buffer that is in use is what the loop's copy of the flags shows.
pub test_bit-cleared :
    (used i j : ℕ)
    → i < 32
    → j < 32
    → test_bit (cleared used i) j ≡ (if i == j then false else test_bit used j)
unfolding cleared
test_bit-cleared used i j h k =
    ground (arith, test_bit-bit_and used (bit_xor 0xffff_ffff (2 ^ i)) j, test_bit-inverse i j h k)
