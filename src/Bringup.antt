-- ===== src/Bringup.antt =====
-- A card gets its firmware, and is added to the list of devices or removed from it:
-- netanalyzer_kernel_mod/toolkit/netana_toolkit.c, CreateIrqEvents, DeleteIrqEvents and from
-- netx_update_ident_info on.
pub mod Adding
pub mod Removal
mod Tests
use nadrvlinux.Prelude.{
  ℕ, zero, suc, ◌+◌, ◌-◌, ◌*◌, ◌^◌, bit_and, bit_or, u16, u32, sub32, Bool, true, false, not, ◌&&◌,
  ◌||◌, Option, none, some, List, [], ◌∷◌, ◌++◌, get_or, length, replicate, ltb, ◌==◌,
  if◌then◌else◌,
}
use nadrvlinux.Prelude.Bits.{is_set}
use nadrvlinux.Codes.{
  no_error, function_failed, hwreset_error, memory_mapping_failed, download_failed,
  chip_not_supported, file_open_error, file_read_failed, fw_start_failed, irqevent_creation_failed,
  irqlock_creation_failed,
}
use nadrvlinux.Device.{Device}
use nadrvlinux.Boot.{
  BootDpm, BootSystem, B, done, ◌>>=◌, ◌>>◌, the_dpm, change, milliseconds, packet_sta,
  transfer_packet, nsf_ready, system_mailbox_size,
}
use nadrvlinux.Download.{Request}
use nadrvlinux.Layout.{LayoutInfo, read_layout, read_handshake, setup_mailboxes}
use nadrvlinux.Boot.Wire.{max_packet_size, to_send_packet, download, plain_packet, le32}
use nadrvlinux.Loader.{
  sleep, Chip, Card, reset_sequence, startup_cycles, dpm_no_memory, dpm_invalid, netx50_bootid,
  boot_active, boot_start, boot_waiting, reset_cycles, with_chip, write_resets, netx_reset,
  hw_identify_req, channel_instantiate_req, request_device_class, OpenedFile, bsl_cookie, fw_cookie,
  cell_value, is_booted, boot_rounds, toggle_start, netx100_start_bootloader,
  netx_download_bootloader, unknown_chip, netx50, netx100_500,
}

-- `ahHandshakeBitEvents` and `hStopComplete`: whether each event exists.
pub record Events : Type 0 where
  pub stop_event : Bool
  pub bit_events : List Bool

abbrev pub no_events : Events
no_events = record { stop_event = false; bit_events = replicate 16 false }

-- The loop of CreateIrqEvents, which ends at the first event that is not created.
unfoldable pub create_bit_events : (creates : ℕ → Bool) → (idx : ℕ) → List Bool → Bool × List Bool
create_bit_events creates idx [] = (true, [])
create_bit_events creates idx (e ∷ es) =
    let (ok, rest) = create_bit_events creates (idx + 1) es in
    if creates idx then (ok, true ∷ rest) else (false, false ∷ es)

-- The events are created in this order: that of a stop first, which is number 16 here.
unfoldable pub create_irq_events : (creates : ℕ → Bool) → Events → ℕ × Events
unfolding create_bit_events
create_irq_events creates e =
    if creates 16
    then created (create_bit_events creates 0 e.bit_events)
    else (irqevent_creation_failed, record e { stop_event = false })
  where
    created : Bool × List Bool → ℕ × Events
    created (ok, es) = (
      if ok then no_error else irqevent_creation_failed,
      record { stop_event = true; bit_events = es },
    )

unfoldable pub delete_events : List Bool → List Bool
delete_events [] = []
delete_events (e ∷ es) = false ∷ delete_events es

unfoldable pub delete_irq_events : Events → Events
unfolding delete_events
delete_irq_events e = record { stop_event = false; bit_events = delete_events e.bit_events }

-- The files of the user: the boot loader, the identification and the firmware, with their short names,
-- and whether there is memory for the identification.
pub record Files : Type 0 where
  pub bootloader : Option OpenedFile
  pub ident : Option OpenedFile
  pub ident_name : List ℕ
  pub ident_memory : Bool
  pub firmware : Option OpenedFile
  pub firmware_name : List ℕ

-- RCX_FILE_XFER_MODULE and RCX_FILE_XFER_LICENSE_CODE
abbrev pub xfer_module : ℕ
xfer_module = 2

abbrev pub xfer_license_code : ℕ
xfer_license_code = 5

-- What is read of a file is downloaded, if it is all of it.
abbrev pub download_opened : (xfer_type : ℕ) → (name : List ℕ) → OpenedFile → B ℕ
download_opened xfer_type name f =
    if not (f.file_length == length f.file_bytes)
    then done file_read_failed
    else download (record {
      channel = 0;
      mailbox_size = system_mailbox_size;
      transfer_type = xfer_type;
      file_name = name;
      file = f.file_bytes;
    })

-- The code is kept in the instance and in `*plError`; what is returned is no error.
unfoldable pub netx_update_ident_info : Files → Card → B Card
unfolding download
netx_update_ident_info files c =
    if not c.ident_requested
    then done (record c { ident_error = no_error })
    else (fetched files.ident >>= λ code.
        done (record c { ident_requested = false; ident_error = code }))
  where
    fetched : Option OpenedFile → B ℕ
    fetched none = done file_open_error
    fetched (some f) =
        if files.ident_memory
        then download_opened xfer_license_code files.ident_name f
        else done download_failed

-- The loop that waits for the cookie of the firmware, which is there or not.
unfoldable pub firmware_rounds : (has_cookie : BootDpm → Bool) → (fuel start : ℕ) → B ℕ
firmware_rounds has_cookie zero start s = none
firmware_rounds has_cookie (suc fuel) start s =
    (the_dpm >>= λ d.
    if has_cookie d
    then done no_error
    else (sleep >> milliseconds >>= λ now.
        let again = firmware_rounds has_cookie fuel start in
        if ltb (sub32 now start) 100 then again else done fw_start_failed))
      s

unfoldable pub start_firmware : (has_cookie : BootDpm → Bool) → B ℕ
unfolding firmware_rounds
start_firmware has_cookie =
    transfer_packet (plain_packet channel_instantiate_req (le32 0)) (replicate max_packet_size 0)
      max_packet_size to_send_packet
    >>= λ answer.
        if not (answer.0 == no_error)
        then done answer.0
        else if not (packet_sta answer.1 == 0)
        then done (packet_sta answer.1)
        else (milliseconds >>= λ start s. firmware_rounds has_cookie (suc (length s.polls)) start s)

unfoldable pub download_and_start_firmware : (has_cookie : BootDpm → Bool) → Files → B ℕ
unfolding download start_firmware
download_and_start_firmware has_cookie files = started files.firmware
  where
    started : Option OpenedFile → B ℕ
    started none = done file_open_error
    started (some f) = download_opened xfer_module files.firmware_name f >>= λ code.
        if not (code == no_error) then done code else start_firmware has_cookie

-- The branches for a card with and without its firmware in flash.
unfoldable pub start_card : (has_cookie : BootDpm → Bool) → Files → Card → B (ℕ × Card)
unfolding netx_reset netx_download_bootloader request_device_class netx_update_ident_info
    download_and_start_firmware
start_card has_cookie files c =
    change (λ d. record d { irq_enable = 0 })
    >> (if c.flash_based
        then (the_dpm >>= λ d. done (if has_cookie d then no_error else fw_start_failed, c))
        else (netx_reset c >>= λ reset.
            if not (reset.0 == no_error)
            then done reset
            else (netx_download_bootloader files.bootloader reset.1 >>= λ code.
                if not (code == no_error)
                then done (code, reset.1)
                else (request_device_class >>= λ class.
                    if class == 0
                    then done (function_failed, record reset.1 { class = class })
                    else (netx_update_ident_info files (record reset.1 { class = class }) >>= λ c'.
                        download_and_start_firmware has_cookie files >>= λ code.
                        done (code, c'))))))

-- The lock of the handshake bits, and the events.
pub record Resources : Type 0 where
  pub lock : Bool
  pub events : Events

abbrev pub no_resources : Resources
no_resources = record { lock = false; events = no_events }

-- What the instance takes from the memory of a card whose firmware runs.
abbrev pub set_up : (dpm : ℕ → ℕ) → LayoutInfo → Card → Device → Device
set_up dpm l c d =
    setup_mailboxes (read_handshake dpm l (read_layout dpm l (record d { device_class = c.class })))

-- netana_tkit_deviceadd up to the insertion into the list. Which locks and events are created, the files,
-- and what the memory of the running card holds, are given.
unfoldable pub device_add :
    (creates_lock : Bool) (creates : ℕ → Bool) (has_cookie : BootDpm → Bool) (dpm : ℕ → ℕ)
    (l : LayoutInfo)
    → Files
    → Card
    → Device
    → List Device
    → B (ℕ × Resources × Card × List Device)
unfolding create_irq_events start_card delete_irq_events
device_add creates_lock creates has_cookie dpm l files c d cards =
    if not creates_lock
    then done (irqlock_creation_failed, no_resources, c, cards)
    else with_events (create_irq_events creates no_events)
  where
    released : Events → Resources
    released e = record { lock = false; events = delete_irq_events e }

    with_events : ℕ × Events → B (ℕ × Resources × Card × List Device)
    with_events (code, e) =
        if not (code == no_error)
        then done (code, released e, c, cards)
        else (start_card has_cookie files c >>= λ started. done (
            if started.0 == no_error
            then (
              no_error,
              record { lock = true; events = e },
              started.1,
              cards ++ set_up dpm l started.1 d ∷ [],
            )
            else (started.0, released e, started.1, cards)))
