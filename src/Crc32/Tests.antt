-- ===== src/Crc32/Tests.antt =====
-- Checksums of short inputs.
use nadrvlinux.Prelude.{bit_xor, some, [], ◌∷◌, ◌≡◌, refl, get_or, arith}
use nadrvlinux.Crc32.{create_crc32, crc_bytes, crc_byte, all_ones}
use nadrvlinux.Crc32.Table.{crc32_table}
use nadrvlinux.Crc32.Reference.{shift_bits, register}
use nadrvlinux.Crc32.Laws.{crc32_table-eq-shift_bits, create_crc32-eq-register, create_crc32-append}

-- The check value of CRC-32: the checksum of "123456789".
digits_test :
    create_crc32 0 (some (0x31 ∷ 0x32 ∷ 0x33 ∷ 0x34 ∷ 0x35 ∷ 0x36 ∷ 0x37 ∷ 0x38 ∷ 0x39 ∷ []))
    ≡ 0xcbf4_3926
unfolding create_crc32 crc_bytes crc_byte crc32_table
digits_test = refl

crc32_table-eq-shift_bits_example : get_or crc32_table 200 0 ≡ shift_bits 8 200
crc32_table-eq-shift_bits_example = crc32_table-eq-shift_bits 200 (omega arith)

create_crc32-eq-register_example :
    create_crc32 0 (some (0x31 ∷ 0x32 ∷ []))
    ≡ bit_xor (register (bit_xor 0 all_ones) (0x31 ∷ 0x32 ∷ [])) all_ones
create_crc32-eq-register_example =
    create_crc32-eq-register 0 (0x31 ∷ 0x32 ∷ []) (omega arith, (omega arith, tt))

create_crc32-append_example :
    create_crc32 (create_crc32 0 (some (1 ∷ 2 ∷ []))) (some (3 ∷ []))
    ≡ create_crc32 0 (some (1 ∷ 2 ∷ 3 ∷ []))
create_crc32-append_example = create_crc32-append 0 (1 ∷ 2 ∷ []) (3 ∷ [])
