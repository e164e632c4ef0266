-- ===== src/Crc32.antt =====
-- The checksum of a firmware download: `Crc32Table` and `CreateCRC32` of
-- netanalyzer_kernel_mod/toolkit/netana_toolkit.c.
pub mod Reference
pub mod Laws
use Table.{crc32_table}
mod Table
mod Tests
use nadrvlinux.Prelude.{ℕ, ◌/◌, ◌^◌, bit_and, bit_xor, Option, none, some, List, [], ◌∷◌, get_or}

abbrev pub all_ones : ℕ
all_ones = 0xffff_ffff

-- The table is read at a masked index, which is always in range.
pub crc_byte : ℕ → ℕ → ℕ
crc_byte crc byte = bit_xor (get_or crc32_table (bit_and (bit_xor crc byte) 0xff) 0) (crc / 2 ^ 8)

-- The loop, over the bytes from `pabBuffer` on.
pub crc_bytes : ℕ → List ℕ → ℕ
crc_bytes crc [] = crc
crc_bytes crc (b ∷ bs) = crc_bytes (crc_byte crc b) bs

-- A null pointer is `none`; the length is that of the list.
pub create_crc32 : ℕ → Option (List ℕ) → ℕ
create_crc32 crc none = crc
create_crc32 crc (some []) = crc
create_crc32 crc (some (b ∷ bs)) = bit_xor (crc_bytes (bit_xor crc all_ones) (b ∷ bs)) all_ones
