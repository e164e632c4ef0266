-- ===== src/Handshake.antt =====
-- The handshake between host and firmware: `GetHskBitState`, `netana_tkit_WaitForBitState` and
-- `netana_tkit_ToggleBit` of netanalyzer_kernel_mod/toolkit/netana_functions.c.
pub mod Laws
pub mod Passing
mod Tests
use nadrvlinux.Prelude.{
  ℕ, zero, suc, ◌+◌, ◌^◌, bit_xor, u16, u32, sub32, Bool, true, false, Option, none, some, List, [],
  ◌∷◌, ltb, ◌||◌, ◌==◌, if◌then◌else◌,
}
use nadrvlinux.Prelude.Bits.{is_set}
use nadrvlinux.Device.{Device}
use nadrvlinux.System.{Wake, System, M}

-- The bits of NETANA_HSK_HOST_xxx and NETANA_HSK_NETX_xxx.
abbrev pub newdata_bit : ℕ
newdata_bit = 0

abbrev pub newstatus_bit : ℕ
newstatus_bit = 1

abbrev pub startstop_bit : ℕ
startstop_bit = 2

abbrev pub mdio_bit : ℕ
mdio_bit = 3

abbrev pub update_bit : ℕ
update_bit = 4

abbrev pub drv_error_bit : ℕ
drv_error_bit = 5

abbrev pub resync_bit : ℕ
resync_bit = 7

abbrev pub license_check_bit : ℕ
license_check_bit = 8

abbrev pub send_mbx_bit : ℕ
send_mbx_bit = 9

abbrev pub recv_mbx_bit : ℕ
recv_mbx_bit = 10

abbrev pub default_timeout : ℕ
default_timeout = 1000

-- NETANA_BITSTATE_xxx
abbrev pub bitstate_set : ℕ
bitstate_set = 0

abbrev pub bitstate_clear : ℕ
bitstate_clear = 1

abbrev pub bitstate_equal : ℕ
bitstate_equal = 2

abbrev pub bitstate_unequal : ℕ
bitstate_unequal = 3

unfoldable pub get_hsk_bit_state : Device → ℕ → ℕ → ℕ
get_hsk_bit_state d mask state =
    if (state == bitstate_set) || (state == bitstate_clear)
    then (if is_set d.netx_flags mask then bitstate_set else bitstate_clear)
    else if is_set (bit_xor d.host_flags d.netx_flags) mask
    then bitstate_unequal
    else bitstate_equal

-- The lock is not modelled: the two writes are one step.
unfoldable pub toggle_bit : ℕ → Device → Device
toggle_bit bit d =
    let flags = bit_xor d.host_flags (2 ^ bit) in
    record d { host_flags = flags; hsk_host_flags = u16 flags }

-- The `do … while (iRet == 0)`, a round for each wake. The event's own state decides only when the
-- wait returns, which the wakes say; `ulInternalTimeout` is an argument of that wait.
unfoldable pub wait_rounds :
    (bit state start timeout : ℕ) → Device → List Wake → Option (Bool × (Device × ℕ × List Wake))
wait_rounds bit state start timeout d [] = none
wait_rounds bit state start timeout d (w ∷ ws) =
    let d' = w.act d in
    let rest = wait_rounds bit state start timeout d' ws in
    if get_hsk_bit_state d' (2 ^ bit) state == state
    then some (true, (d', w.clock, ws))
    else if ltb timeout (sub32 w.clock start)
    then some (false, (d', w.clock, ws))
    else rest

unfoldable pub wait_for_bit_state : (bit state timeout : ℕ) → M Bool
wait_for_bit_state bit state timeout s =
    if get_hsk_bit_state s.device (2 ^ bit) state == state
    then some (true, s)
    else if timeout == 0
    then some (false, s)
    else elim (wait_rounds bit state s.clock timeout s.device s.wakes) [
      | none ↦ none
      | some (ok, (d, clock, ws)) ↦ some (ok, record s { device = d; clock = clock; wakes = ws })
    ]
