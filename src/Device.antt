-- ===== src/Device.antt =====
-- `struct NETANA_DEVINSTANCE_T` (netanalyzer_kernel_mod/toolkit/netana_toolkit.h) and the blocks of
-- the dual-port memory that it points to (netana_dpmlayout.h), without the pointers: a block that
-- is reached through a pointer of the instance is a field here.
use nadrvlinux.Prelude.{ℕ, Bool, not, Option, List, ◌==◌}

-- `NETANA_GPIO_BLOCK_T`. The union is three words: word 0 is ulCaptureTriggers, ulLevel,
-- ulHiPeriod or ulPeriod, and word 1 is ulEndDelay or ulLoPeriod.
pub record GpioBlock : Type 0 where
  pub mode : ℕ
  pub voltage : ℕ
  pub word0 : ℕ
  pub word1 : ℕ
  pub word2 : ℕ

-- `NETANA_DPM_FILTER_T`: the relation of the two filters, and mask and value of each.
pub record DpmFilter : Type 0 where
  pub relation_ship : ℕ
  pub mask_a : List ℕ
  pub value_a : List ℕ
  pub mask_b : List ℕ
  pub value_b : List ℕ

-- `NETANA_DMABUFFER_T`, with the bytes at its address.
pub record DmaBuffer : Type 0 where
  pub physical_address : ℕ
  pub buffer_size : ℕ
  pub bytes : List ℕ

-- `NETANA_FILE_DATA_T`. A null handle is `none`.
pub record FileData : Type 0 where
  pub file : Option ℕ
  pub offset : ℕ
  pub data_written : ℕ

-- `NETANA_FILE_HEADER_T`
pub record FileHeader : Type 0 where
  pub cookie : ℕ
  pub idx : ℕ
  pub data_size : ℕ
  pub capture_start : ℕ
  pub timezone_correction : ℕ
  pub reserved : ℕ

-- The fields of `NETANA_SYSTEM_INFO_BLOCK_T` that the modelled functions read.
pub record SystemInfo : Type 0 where
  pub device_class : ℕ
  pub gpio_voltage3v_support : ℕ
  pub gpio_voltage24v_support : ℕ
  pub phys_type : ℕ
  pub phys_tap_present : ℕ
  pub phys_forwarding_support : ℕ
  pub phys_port_speed_support : ℕ
  pub phys_transparent_mode_support : ℕ
  pub gpio_input_rising_support : ℕ
  pub gpio_input_falling_support : ℕ
  pub gpio_output_mode_support : ℕ
  pub gpio_output_pwm_support : ℕ
  pub gpio_sync_in_support : ℕ
  pub gpio_trigger_start_support : ℕ
  pub gpio_trigger_stop_support : ℕ
  pub sync_support : ℕ

-- `NETANA_HOST_DMA_BUFFER_T`
pub record HostDmaBuffer : Type 0 where
  pub address_high : ℕ
  pub address_low : ℕ
  pub size : ℕ

-- `NETANA_HOST_CONTROL_BLOCK_T`, written by the host
pub record HostControl : Type 0 where
  pub buffer_flags : ℕ
  pub buffer_count : ℕ
  pub host_error : ℕ
  pub dma_buffers : List HostDmaBuffer
  pub capture_mode : ℕ
  pub port_enable_mask : ℕ
  pub mac_mode : ℕ
  pub ref_seconds : ℕ
  pub ref_nanoseconds : ℕ
  pub resync_p : ℕ
  pub resync_i : ℕ
  pub host_buffer_timeout : ℕ

-- `NETANA_NETX_STATUS_BLOCK_T`, written by the firmware
pub record NetxStatus : Type 0 where
  pub buffer_flags : ℕ
  pub capture_state : ℕ
  pub capture_error : ℕ
  pub used_buffer_size : List ℕ

-- `NETANA_MDIO_BLOCK_T`
pub record MdioBlock : Type 0 where
  pub direction : ℕ
  pub phy_num : ℕ
  pub phy_reg : ℕ
  pub value : ℕ

-- `NETANA_TX_MAILBOX_T` or `NETANA_RX_MAILBOX_T`, with the block in the dual-port memory behind it: the
-- number of packets that it counts, and its bytes.
pub record Mailbox : Type 0 where
  pub mailbox_length : ℕ
  pub bitoffset : ℕ
  pub packet_cnt : ℕ
  pub packages : ℕ
  pub content : List ℕ

-- The device instance. A callback is here for whether it is set.
pub record Device : Type 0 where
  pub alias_name : List ℕ
  pub device_class : ℕ
  pub info : SystemInfo
  pub open_cnt : ℕ
  pub port_cnt : ℕ
  pub filter_size : ℕ
  pub filters : List DpmFilter
  pub default_filters : List DpmFilter
  pub counters : List (List ℕ)
  pub gpio_cnt : ℕ
  pub gpios : List GpioBlock
  pub default_gpios : List GpioBlock
  pub dma_buffer_count : ℕ
  pub dma_buffers : List DmaBuffer
  pub netx_flags : ℕ
  pub host_flags : ℕ
  pub hsk_host_flags : ℕ
  pub current_buffer : ℕ
  pub file_header : FileHeader
  pub ring_buffer : Bool
  pub write_to_file : Bool
  pub file_count : ℕ
  pub file_size : ℕ
  pub path : List ℕ
  pub base_filename : List ℕ
  pub current_file : ℕ
  pub files : List FileData
  pub has_status : Bool
  pub has_data : Bool
  pub stop_complete : Bool
  pub host : HostControl
  pub status : NetxStatus
  pub mdio : MdioBlock
  pub ident_block : List ℕ
  pub send_mbx : Mailbox
  pub recv_mbx : Mailbox

abbrev pub capture_state_off : ℕ
capture_state_off = 0

-- `IsCaptureRunning` of toolkit/netana_functions.c
unfoldable pub is_capture_running : Device → Bool
is_capture_running d = not (d.status.capture_state == capture_state_off)
