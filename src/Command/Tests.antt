-- ===== src/Command/Tests.antt =====
-- Commands to a firmware that answers with the next wake.
use nadrvlinux.Prelude.{some, [], ◌∷◌, ◌≡◌, refl, bit_xor}
use nadrvlinux.System.{System}
use nadrvlinux.Sample.{sample_system}
use nadrvlinux.Handshake.{mdio_bit, wait_for_bit_state, wait_rounds, get_hsk_bit_state, toggle_bit}
use nadrvlinux.Command.{command, access_phy_reg, check_device_ident, fill_mdio, phy_direction_read}
use nadrvlinux.Command.Laws.{CommandResult, command-CommandResult}
use nadrvlinux.Command.Answers.{
  PhyAnswer, IdentAnswer, access_phy_reg-PhyAnswer, check_device_ident-IdentAnswer,
}

abbrev answering : System
answering = record sample_system {
  wakes =
      record {
        clock = 5;
        act = λ d. record d {
          netx_flags = bit_xor d.netx_flags 0x108;
          mdio = record d.mdio { value = 0x1_2345 };
          ident_block = 9 ∷ 8 ∷ [];
        };
      }
      ∷ record { clock = 2000; act = λ d. d }
      ∷ [];
}

-- The value of the register is cut to 16 bits.
read_test :
    (s' : System) × (access_phy_reg phy_direction_read 1 2 0 1000 answering
      ≡ some ((0, 0x2345), s'))
unfolding access_phy_reg command wait_for_bit_state wait_rounds get_hsk_bit_state toggle_bit
read_test = (_, refl)

command-CommandResult_example :
    CommandResult mdio_bit
      (fill_mdio 1 0 2 7)
      answering
      (command mdio_bit 1000 (fill_mdio 1 0 2 7) answering)
command-CommandResult_example = command-CommandResult mdio_bit 1000 (fill_mdio 1 0 2 7) answering

access_phy_reg-PhyAnswer_example :
    PhyAnswer phy_direction_read 1 2 0 answering
      (access_phy_reg phy_direction_read 1 2 0 1000 answering)
access_phy_reg-PhyAnswer_example = access_phy_reg-PhyAnswer phy_direction_read 1 2 0 1000 answering

check_device_ident-IdentAnswer_example :
    IdentAnswer 2
      (1 ∷ 2 ∷ 3 ∷ [])
      answering
      (check_device_ident 2 (some (1 ∷ 2 ∷ 3 ∷ [])) answering)
check_device_ident-IdentAnswer_example = check_device_ident-IdentAnswer 2 (1 ∷ 2 ∷ 3 ∷ []) answering
