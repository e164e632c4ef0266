-- ===== src/Command.antt =====
-- Commands to the firmware: netana_get_portstat, netana_access_phy_reg, netana_resync_time,
-- netana_config_pi_controller and netana_check_device_ident of
-- netanalyzer_kernel_mod/toolkit/netana_functions.c.
pub mod Laws
pub mod Answers
mod Tests
use nadrvlinux.Prelude.{
  ℕ, ◌+◌, ◌/◌, ◌%◌, ◌^◌, u16, Bool, true, false, not, Option, none, some, List, [], ◌∷◌, ◌++◌,
  get_or, take, drop, ltb, min, ◌==◌, if◌then◌else◌,
}
use nadrvlinux.Codes.{no_error, invalid_parameter, invalid_port, function_failed, invalid_pointer}
use nadrvlinux.Device.{Device}
use nadrvlinux.System.{System, M, pure, ◌>>=◌, ◌>>◌, the_device, modify}
use nadrvlinux.Handshake.{
  toggle_bit, wait_for_bit_state, bitstate_equal, default_timeout, update_bit, mdio_bit, resync_bit,
  license_check_bit,
}

-- Wait until the bit is free, write the parameters, toggle it, and wait until the firmware has
-- answered: the frame that each command of the toolkit writes out.
unfoldable pub command : (bit timeout : ℕ) → (Device → Device) → M Bool
command bit timeout fill = do
  free ← wait_for_bit_state bit bitstate_equal timeout
  if free
      then modify (λ d. toggle_bit bit (fill d)) >> wait_for_bit_state bit bitstate_equal timeout
      else pure false

-- `sizeof(NETANA_PORT_STATE_T)`
abbrev pub port_state_size : ℕ
port_state_size = 104

-- The bytes of the counter block that are copied to the caller.
unfoldable pub get_portstat : (port size : ℕ) → M (ℕ × List ℕ)
unfolding command
get_portstat port size = do
  d ← the_device
  if ltb port d.port_cnt
      then (command update_bit default_timeout (λ d. d) >>= λ ok. the_device >>= λ d. pure (
          if ok
          then (no_error, take (min size port_state_size) (get_or d.counters port []))
          else (function_failed, [])))
      else pure (invalid_port, [])

abbrev pub phy_direction_read : ℕ
phy_direction_read = 0

abbrev pub phy_direction_write : ℕ
phy_direction_write = 1

-- The block for a PHY access.
abbrev pub fill_mdio : (direction phy_num phy_reg value : ℕ) → Device → Device
fill_mdio direction phy_num phy_reg value d = record d {
  mdio = record {
    direction = direction;
    phy_num = phy_num;
    phy_reg = phy_reg;
    value = if direction == phy_direction_write then value else d.mdio.value;
  };
}

-- The code, and the value of the caller afterwards.
unfoldable pub access_phy_reg : (direction phy_num phy_reg value timeout : ℕ) → M (ℕ × ℕ)
unfolding command
access_phy_reg direction phy_num phy_reg value timeout = do
  d ← the_device
  if ltb phy_num d.port_cnt
      then (command mdio_bit timeout (fill_mdio direction phy_num phy_reg value) >>= λ ok.
          the_device >>= λ d. pure (
            if ok
            then (no_error, if direction == phy_direction_read then u16 d.mdio.value else value)
            else (function_failed, value)))
      else pure (invalid_parameter, value)

-- The two halves of a 64 bit reference time.
abbrev pub fill_time : ℕ → Device → Device
fill_time time d = record d {
  host = record d.host { ref_seconds = time / 2 ^ 32; ref_nanoseconds = time % 2 ^ 32 };
}

unfoldable pub resync_time : ℕ → M ℕ
unfolding command
resync_time time = do
  ok ← command resync_bit default_timeout (fill_time time)
  pure (if ok then no_error else function_failed)

unfoldable pub config_pi_controller : (p i : ℕ) → M ℕ
config_pi_controller p i =
    modify (λ d. record d { host = record d.host { resync_p = p; resync_i = i } }) >> pure no_error

-- IDENT_INFO_BLOCK_SIZE
abbrev pub ident_info_block_size : ℕ
ident_info_block_size = 30

abbrev pub fill_ident : List ℕ → ℕ → Device → Device
fill_ident info size d = record d { ident_block = take size info ++ drop size d.ident_block }

-- The code, and the caller's block afterwards.
unfoldable pub check_device_ident : ℕ → Option (List ℕ) → M (ℕ × Option (List ℕ))
unfolding command
check_device_ident size none = pure (invalid_pointer, none)
check_device_ident size (some info) =
    if ltb ident_info_block_size size
    then pure (function_failed, some info)
    else command license_check_bit default_timeout (fill_ident info size) >>= λ ok.
        the_device >>= λ d. pure (
          if ok
          then (no_error, some (take size d.ident_block ++ drop size info))
          else (function_failed, some info))
