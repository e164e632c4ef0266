-- ===== src/Crc32/Reference.antt =====
-- CRC-32 as a shift register: the definition that the table stands for.
use nadrvlinux.Prelude.{ℕ, zero, suc, ◌/◌, ◌%◌, bit_xor, List, [], ◌∷◌, ◌==◌, if◌then◌else◌}

-- The reversed polynomial of IEEE 802.3.
abbrev pub polynomial : ℕ
polynomial = 0xedb8_8320

-- Shift one bit out; if it was a one, add the polynomial.
unfoldable pub shift_bit : ℕ → ℕ
shift_bit r = bit_xor (r / 2) (if r % 2 == 1 then polynomial else 0)

unfoldable pub shift_bits : ℕ → ℕ → ℕ
shift_bits zero r = r
shift_bits (suc n) r = shift_bits n (shift_bit r)

-- Feed each byte in at the low end and shift eight times.
unfoldable pub register : ℕ → List ℕ → ℕ
register r [] = r
register r (b ∷ bs) = register (shift_bits 8 (bit_xor r b)) bs
