-- ===== src/Crc32/Laws.antt =====
-- The table-driven checksum against the shift register, and checksums of a file sent in parts.
use native.Mathlib.Nat.{pow-suc}
use nadrvlinux.Prelude.{
  ℕ, zero, suc, ◌*◌, ◌/◌, ◌%◌, ◌^◌, ◌<◌, ◌≡◌, refl, sym, ap, ap₂, ◌∙◌, Bool, true, ◌&&◌, bit_and,
  bit_xor, some, List, [], ◌∷◌, ◌++◌, get_or, ◌==◌, ==_iff, if◌then◌else◌, arith,
}
use nadrvlinux.Prelude.Bits.{
  bit_xor_step, bit_xor_undo, bit_xor-zero, bit_xor_interchange, bit_xor-half, bit_xor_fields,
  bit_and-low_byte, bit_xor-above_byte,
}
use nadrvlinux.Crc32.{all_ones, crc_byte, crc_bytes, create_crc32}
use nadrvlinux.Crc32.Table.{crc32_table}
use nadrvlinux.Crc32.Reference.{polynomial, shift_bit, shift_bits, register}

abbrev pub IsBytes : List ℕ → Type 0
IsBytes [] = Unit {0}
IsBytes (b ∷ bs) = (b < 256) × IsBytes bs

feedback : ℕ → ℕ
feedback r = if r % 2 == 1 then polynomial else 0

feedback_linear : (x y : ℕ) → feedback (bit_xor x y) ≡ bit_xor (feedback x) (feedback y)
unfolding feedback
feedback_linear x y = ground (arith, bit_xor_step x y)

shift_bit_linear : (x y : ℕ) → shift_bit (bit_xor x y) ≡ bit_xor (shift_bit x) (shift_bit y)
unfolding shift_bit feedback
shift_bit_linear x y =
    ap₂ bit_xor (bit_xor-half x y) (feedback_linear x y)
    ∙ bit_xor_interchange (x / 2) (y / 2) (feedback x) (feedback y)

shift_bits_linear :
    (n x y : ℕ) → shift_bits n (bit_xor x y) ≡ bit_xor (shift_bits n x) (shift_bits n y)
unfolding shift_bits
shift_bits_linear zero x y = refl
shift_bits_linear (suc n) x y =
    ap (shift_bits n) (shift_bit_linear x y) ∙ shift_bits_linear n (shift_bit x) (shift_bit y)

shift_bit_even : (h : ℕ) → shift_bit (2 * h) ≡ h
unfolding shift_bit
shift_bit_even h = ground (arith, bit_xor-zero h)

-- Zeros below a field shift it down unchanged.
shift_bits_zeros : (n h : ℕ) → shift_bits n (2 ^ n * h) ≡ h
unfolding shift_bits
shift_bits_zeros zero h = omega arith
shift_bits_zeros (suc n) h =
    ap (λ k. shift_bits n (shift_bit k)) doubled
    ∙ ap (shift_bits n) (shift_bit_even (2 ^ n * h))
    ∙ shift_bits_zeros n h
  where
    doubled : 2 ^ suc n * h ≡ 2 * (2 ^ n * h)
    doubled = omega (arith, ap (λ (k : ℕ). k * h) (pow-suc 2 n))

all_below : ℕ → (ℕ → Bool) → Bool
all_below zero p = true
all_below (suc n) p = p n && all_below n p

all_below-at : (n : ℕ) (p : ℕ → Bool) (i : ℕ) → all_below n p ≡ true → i < n → p i ≡ true
unfolding all_below
all_below-at zero p i h lt = absurd (omega arith)
all_below-at (suc n) p i h lt = ground (arith, all_below-at n p i)

table_checked : all_below 256 (λ i. get_or crc32_table i 0 == shift_bits 8 i) ≡ true
unfolding all_below crc32_table shift_bits shift_bit
table_checked = refl

-- Each of the 256 entries of the table is its index shifted through eight bits of the register.
pub crc32_table-eq-shift_bits : (i : ℕ) → i < 256 → get_or crc32_table i 0 ≡ shift_bits 8 i
crc32_table-eq-shift_bits i h =
    (==_iff (get_or crc32_table i 0) (shift_bits 8 i)).0
      (all_below-at 256 (λ k. get_or crc32_table k 0 == shift_bits 8 k) i table_checked h)

shift_byte : (x : ℕ) → shift_bits 8 x ≡ bit_xor (get_or crc32_table (bit_and x 255) 0) (x / 256)
shift_byte x =
    ap (shift_bits 8) whole
    ∙ shift_bits_linear 8 (x % 256) (2 ^ 8 * (x / 256))
    ∙ ap₂ bit_xor looked_up (shift_bits_zeros 8 (x / 256))
  where
    whole : x ≡ bit_xor (x % 256) (2 ^ 8 * (x / 256))
    whole = omega (arith, bit_xor_fields 8 (x % 256) (x / 256) (omega arith))

    looked_up : shift_bits 8 (x % 256) ≡ get_or crc32_table (bit_and x 255) 0
    looked_up =
        sym (crc32_table-eq-shift_bits (x % 256) (omega arith))
        ∙ ap (λ k. get_or crc32_table k 0) (sym (bit_and-low_byte x))

crc_byte-eq-shift_bits : (r b : ℕ) → b < 256 → crc_byte r b ≡ shift_bits 8 (bit_xor r b)
unfolding crc_byte
crc_byte-eq-shift_bits r b h = sym (
    shift_byte (bit_xor r b)
    ∙ ap (bit_xor (get_or crc32_table (bit_and (bit_xor r b) 255) 0)) (bit_xor-above_byte r b h))

pub crc_bytes-eq-register : (r : ℕ) (bs : List ℕ) → IsBytes bs → crc_bytes r bs ≡ register r bs
unfolding crc_bytes register
crc_bytes-eq-register r [] h = refl
crc_bytes-eq-register r (b ∷ bs) h =
    ap (λ k. crc_bytes k bs) (crc_byte-eq-shift_bits r b h.0)
    ∙ crc_bytes-eq-register (shift_bits 8 (bit_xor r b)) bs h.1

-- An empty buffer is no exception: the two inversions cancel.
create_crc32-crc_bytes :
    (crc : ℕ) (bs : List ℕ)
    → create_crc32 crc (some bs) ≡ bit_xor (crc_bytes (bit_xor crc all_ones) bs) all_ones
unfolding create_crc32 crc_bytes
create_crc32-crc_bytes crc [] = sym (bit_xor_undo crc all_ones)
create_crc32-crc_bytes crc (b ∷ bs) = refl

-- On bytes, CreateCRC32 continued from any value is the bit-serial CRC-32 with the polynomial of
-- IEEE 802.3, inverted before and after.
pub create_crc32-eq-register :
    (crc : ℕ) (bs : List ℕ)
    → IsBytes bs
    → create_crc32 crc (some bs) ≡ bit_xor (register (bit_xor crc all_ones) bs) all_ones
create_crc32-eq-register crc bs h =
    create_crc32-crc_bytes crc bs
    ∙ ap (λ k. bit_xor k all_ones) (crc_bytes-eq-register (bit_xor crc all_ones) bs h)

crc_bytes-append : (r : ℕ) (xs ys : List ℕ) → crc_bytes r (xs ++ ys) ≡ crc_bytes (crc_bytes r xs) ys
unfolding crc_bytes
crc_bytes-append r [] ys = refl
crc_bytes-append r (x ∷ xs) ys = crc_bytes-append (crc_byte r x) xs ys

-- Continuing the checksum of one part over the next part gives the checksum of the whole.
pub create_crc32-append :
    (crc : ℕ) (xs ys : List ℕ)
    → create_crc32 (create_crc32 crc (some xs)) (some ys) ≡ create_crc32 crc (some (xs ++ ys))
create_crc32-append crc xs ys = simp (create_crc32-crc_bytes, crc_bytes-append, bit_xor_undo)

-- Nothing changes over an empty buffer.
pub create_crc32_empty : (crc : ℕ) → create_crc32 crc (some []) ≡ crc
unfolding create_crc32
create_crc32_empty crc = refl
