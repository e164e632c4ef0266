-- ===== src/Codes.antt =====
-- The return codes of netanalyzer_kernel_mod/toolkit/Include/netana_errors.h that the modelled
-- functions return, as the bit patterns of their `int32_t`.
use nadrvlinux.Prelude.{ℕ}

abbrev pub no_error : ℕ
no_error = 0

abbrev pub invalid_parameter : ℕ
invalid_parameter = 0x8020_0001

abbrev pub invalid_port : ℕ
invalid_port = 0x8020_0002

abbrev pub function_failed : ℕ
function_failed = 0x8020_0004

abbrev pub invalid_pointer : ℕ
invalid_pointer = 0x8020_0005

abbrev pub invalid_buffersize : ℕ
invalid_buffersize = 0x8020_000a

abbrev pub access_denied : ℕ
access_denied = 0x8020_000b

abbrev pub download_failed : ℕ
download_failed = 0x8021_0005

abbrev pub dev_mailbox_full : ℕ
dev_mailbox_full = 0x8021_0007

abbrev pub dev_not_ready : ℕ
dev_not_ready = 0x8021_0008

abbrev pub dev_mailbox_too_short : ℕ
dev_mailbox_too_short = 0x8021_0009

abbrev pub dev_get_no_packet : ℕ
dev_get_no_packet = 0x8021_000a

abbrev pub buffer_too_short : ℕ
buffer_too_short = 0x8021_000b

abbrev pub transfer_timeout : ℕ
transfer_timeout = 0x8021_000c

abbrev pub device_not_found : ℕ
device_not_found = 0x8022_0003

abbrev pub device_still_open : ℕ
device_still_open = 0x8022_0004

abbrev pub device_not_open : ℕ
device_not_open = 0x8022_0005

abbrev pub file_creation_failed : ℕ
file_creation_failed = 0x8022_0009

abbrev pub file_write_failed : ℕ
file_write_failed = 0x8022_000a

abbrev pub capture_active : ℕ
capture_active = 0x8022_000b

abbrev pub capture_not_active : ℕ
capture_not_active = 0x8022_000c

abbrev pub filecapture_not_active : ℕ
filecapture_not_active = 0x8022_000d

abbrev pub configuration_error : ℕ
configuration_error = 0x8022_000e

abbrev pub drv_cmd_active : ℕ
drv_cmd_active = 0x8022_0013

abbrev pub function_not_available : ℕ
function_not_available = 0x8020_0009

abbrev pub out_of_memory : ℕ
out_of_memory = 0x8020_0003

abbrev pub invalid_handle : ℕ
invalid_handle = 0x8020_0006

abbrev pub hwreset_error : ℕ
hwreset_error = 0x8021_0003

abbrev pub chip_not_supported : ℕ
chip_not_supported = 0x8021_0004

abbrev pub fw_start_failed : ℕ
fw_start_failed = 0x8021_0006

abbrev pub irqevent_creation_failed : ℕ
irqevent_creation_failed = 0x8021_000d

abbrev pub irqlock_creation_failed : ℕ
irqlock_creation_failed = 0x8021_000e

abbrev pub memory_mapping_failed : ℕ
memory_mapping_failed = 0x8022_0006

abbrev pub file_open_error : ℕ
file_open_error = 0x8022_0007

abbrev pub file_read_failed : ℕ
file_read_failed = 0x8022_0008
