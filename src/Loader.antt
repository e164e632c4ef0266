-- ===== src/Loader.antt =====
-- A card is reset and gets its boot loader: netx_reset, RequestDeviceClass, netx100_start_bootloader and
-- netx_download_bootloader of netanalyzer_kernel_mod/toolkit/netana_toolkit.c.
pub mod Reset
use nadrvlinux.Prelude.{
  ℕ, zero, suc, ◌+◌, ◌-◌, ◌*◌, ◌^◌, bit_and, bit_or, u16, u32, sub32, Bool, true, false, not, ◌&&◌,
  ◌||◌, Option, none, some, List, [], ◌∷◌, ◌++◌, get_or, length, replicate, ltb, ◌==◌,
  if◌then◌else◌,
}
use nadrvlinux.Prelude.Bits.{is_set}
use nadrvlinux.Codes.{
  no_error, function_failed, hwreset_error, memory_mapping_failed, download_failed,
  chip_not_supported, file_open_error, file_read_failed, fw_start_failed, irqevent_creation_failed,
  irqlock_creation_failed,
}
use nadrvlinux.Device.{Device}
use nadrvlinux.Boot.{
  BootDpm, BootSystem, B, done, ◌>>=◌, ◌>>◌, the_dpm, change, milliseconds, packet_sta,
  transfer_packet, nsf_ready, system_mailbox_size,
}
use nadrvlinux.Download.{Request}
use nadrvlinux.Layout.{LayoutInfo, read_layout, read_handshake, setup_mailboxes}
use nadrvlinux.Boot.Wire.{max_packet_size, to_send_packet, download, plain_packet, le32}

abbrev pub sleep : B (Unit {0})
sleep = milliseconds >>= λ now. done tt

-- `eChip`
pub data Chip : Type 0 where
  unknown_chip netx50 netx100_500 : Chip

-- The fields of the instance that the bring-up uses.
pub record Card : Type 0 where
  pub chip : Chip
  pub flash_based : Bool
  pub class : ℕ
  pub ident_requested : Bool
  pub ident_error : ℕ

-- s_aulResetSequence
abbrev pub reset_sequence : List ℕ
reset_sequence = 0x00 ∷ 0x01 ∷ 0x03 ∷ 0x07 ∷ 0x0f ∷ 0x1f ∷ 0x3f ∷ 0x7f ∷ 0xff ∷ []

-- NET_BOOTLOADER_STARTUP_CYCLES
abbrev pub startup_cycles : ℕ
startup_cycles = 50

abbrev pub dpm_no_memory : ℕ
dpm_no_memory = 0x0bad_0bad

abbrev pub dpm_invalid : ℕ
dpm_invalid = 0xffff_ffff

-- NETX50_BOOTID_DPM
abbrev pub netx50_bootid : ℕ
netx50_bootid = 0x4c42_584e

abbrev pub boot_active : ℕ
boot_active = 0x08

abbrev pub boot_start : ℕ
boot_start = 0x80

-- The bits of a ROM loader that waits: boot active, and the READY LED.
abbrev pub boot_waiting : ℕ
boot_waiting = 0x09

-- The loop over the cycles. The code, and the chip if it is known by then.
unfoldable pub reset_cycles : (cycles : ℕ) → B (ℕ × Option Chip)
reset_cycles zero = done (hwreset_error, none)
reset_cycles (suc cycles) = sleep >> the_dpm >>= λ d.
    let again = reset_cycles cycles in
    if (d.system_state == dpm_invalid) || (d.system_state == dpm_no_memory)
    then done (memory_mapping_failed, none)
    else if d.cookie == netx50_bootid
    then done (no_error, some netx50)
    else if bit_and d.system_state boot_waiting == boot_waiting
    then done (no_error, some netx100_500)
    else again

abbrev pub with_chip : Card → Option Chip → Card
with_chip c none = c
with_chip c (some chip) = record c { chip = chip }

abbrev pub write_resets : B (Unit {0})
write_resets s = some (tt, record s { resets = s.resets ++ reset_sequence })

-- What the PCI configuration does is not part of the model.
unfoldable pub netx_reset : Card → B (ℕ × Card)
unfolding reset_cycles
netx_reset c = write_resets >> sleep >> reset_cycles startup_cycles >>= λ answer.
    done (answer.0, with_chip c answer.1)

-- RCX_HW_IDENTIFY_REQ and RCX_CHANNEL_INSTANTIATE_REQ
abbrev pub hw_identify_req : ℕ
hw_identify_req = 0x1eb8

abbrev pub channel_instantiate_req : ℕ
channel_instantiate_req = 0x1ec4

-- Memory for the packets is taken to be there.
unfoldable pub request_device_class : B ℕ
request_device_class =
    transfer_packet (plain_packet hw_identify_req []) (replicate max_packet_size 0) max_packet_size
      100
    >>= λ answer. done (
        if not (answer.0 == no_error)
        then 0
        else if not (packet_sta answer.1 == 0)
        then 0
        else get_or answer.1 56 0 + get_or answer.1 57 0 * 256)

-- A file that was opened: its length, and the bytes that a read of it gives.
pub record OpenedFile : Type 0 where
  pub file_length : ℕ
  pub file_bytes : List ℕ

abbrev pub bsl_cookie : ℕ
bsl_cookie = 0x544f_4f42

abbrev pub fw_cookie : ℕ
fw_cookie = 0x5874_656e

-- `tSysHskCell.ulValue`
abbrev pub cell_value : BootDpm → ℕ
cell_value d = d.hsk_data + d.netx_flags * 2 ^ 16 + d.host_flags * 2 ^ 24

abbrev pub is_booted : BootDpm → Bool
is_booted d =
    ((d.cookie == bsl_cookie) || (d.cookie == fw_cookie))
    && not (cell_value d == dpm_no_memory)
    && not (cell_value d == dpm_invalid)
    && is_set d.netx_flags nsf_ready

-- A loop that sleeps, looks at the memory, and goes on for a time, with fuel.
unfoldable pub boot_rounds : (fuel start : ℕ) → B ℕ
boot_rounds zero start s = none
boot_rounds (suc fuel) start s =
    (sleep >> the_dpm >>= λ d.
    if is_booted d
    then done no_error
    else (milliseconds >>= λ now.
        let again = boot_rounds fuel start in
        if ltb (sub32 now start) 2000 then again else done download_failed))
      s

-- Bit 7 is made equal to bit 3.
abbrev pub toggle_start : BootDpm → BootDpm
toggle_start d = record d {
  system_state =
      if is_set d.system_state boot_active
      then bit_or d.system_state boot_start
      else d.system_state - bit_and d.system_state boot_start;
}

unfoldable pub netx100_start_bootloader : OpenedFile → (len : ℕ) → B ℕ
unfolding boot_rounds
netx100_start_bootloader f len =
    change (λ d. record d { image = f.file_bytes })
    >> (if not (len == length f.file_bytes)
        then done download_failed
        else (change toggle_start >> milliseconds >>= λ start s.
            boot_rounds (suc (length s.polls)) start s))

unfoldable pub netx_download_bootloader : Option OpenedFile → Card → B ℕ
unfolding netx100_start_bootloader
netx_download_bootloader file c = for_chip c.chip file
  where
    for_chip : Chip → Option OpenedFile → B ℕ
    for_chip netx100_500 none = done file_open_error
    for_chip netx100_500 (some f) = netx100_start_bootloader f (u32 f.file_length)
    for_chip netx50 file = done chip_not_supported
    for_chip unknown_chip file = done chip_not_supported
