-- ===== src/Text/Tests.antt =====
-- What the two sides of an attribute file print and read.
use nadrvlinux.Prelude.{[], ◌∷◌, ◌≡◌, refl}
use nadrvlinux.Text.{
  signed, unsigned, hex, numeral, print_one, sprintf, sscanf, scan_one, scan_digits, scan_signed,
  skip_spaces, digit_value,
}

-- "-1 42 0x8020000B\n"
sprintf_test :
    sprintf (signed ∷ unsigned ∷ hex ∷ []) (0xffff_ffff ∷ 42 ∷ 0x8020_000b ∷ []) (0x0a ∷ [])
    ≡ 0x2d ∷ 0x31 ∷ 0x20 ∷ 0x34 ∷ 0x32 ∷ 0x20 ∷ 0x30 ∷ 0x78 ∷ 0x38 ∷ 0x30 ∷ 0x32 ∷ 0x30 ∷ 0x30
      ∷ 0x30 ∷ 0x30 ∷ 0x42 ∷ 0x0a ∷ []
unfolding sprintf print_one numeral
sprintf_test = refl

-- "7 x"
sscanf_test : sscanf (signed ∷ signed ∷ []) (0x37 ∷ 0x20 ∷ 0x78 ∷ []) ≡ 7 ∷ []
unfolding sscanf scan_one scan_signed scan_digits skip_spaces digit_value
sscanf_test = refl
