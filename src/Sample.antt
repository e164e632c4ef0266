-- ===== src/Sample.antt =====
-- A device at rest with two ports and two GPIOs, for the tests of the modules.
use nadrvlinux.Prelude.{false, [], ◌∷◌, replicate}
use nadrvlinux.Device.{Device, GpioBlock, DpmFilter}
use nadrvlinux.System.{System}

abbrev sample_gpio : GpioBlock
sample_gpio = record { mode = 0; voltage = 0; word0 = 0; word1 = 0; word2 = 0 }

abbrev sample_filter : DpmFilter
sample_filter = record {
  relation_ship = 0;
  mask_a = 0 ∷ 0 ∷ [];
  value_a = 0 ∷ 0 ∷ [];
  mask_b = 0 ∷ 0 ∷ [];
  value_b = 0 ∷ 0 ∷ [];
}

abbrev pub sample_device : Device
sample_device = record {
  alias_name = [];
  device_class = 0x31;
  info = record {
    device_class = 0x31;
    gpio_voltage3v_support = 1;
    gpio_voltage24v_support = 3;
    phys_type = 0;
    phys_tap_present = 1;
    phys_forwarding_support = 1;
    phys_port_speed_support = 2;
    phys_transparent_mode_support = 1;
    gpio_input_rising_support = 3;
    gpio_input_falling_support = 3;
    gpio_output_mode_support = 3;
    gpio_output_pwm_support = 1;
    gpio_sync_in_support = 1;
    gpio_trigger_start_support = 3;
    gpio_trigger_stop_support = 3;
    sync_support = 1;
  };
  open_cnt = 0;
  port_cnt = 2;
  filter_size = 2;
  filters = sample_filter ∷ sample_filter ∷ [];
  default_filters = sample_filter ∷ sample_filter ∷ [];
  counters = (7 ∷ []) ∷ (8 ∷ []) ∷ [];
  gpio_cnt = 2;
  gpios = sample_gpio ∷ sample_gpio ∷ [];
  default_gpios = sample_gpio ∷ sample_gpio ∷ [];
  dma_buffer_count = 2;
  dma_buffers =
      record { physical_address = 0x1000; buffer_size = 4; bytes = 1 ∷ 2 ∷ 3 ∷ 4 ∷ [] }
      ∷ record { physical_address = 0x2000; buffer_size = 4; bytes = 5 ∷ 6 ∷ 7 ∷ 8 ∷ [] }
      ∷ [];
  netx_flags = 0;
  host_flags = 0;
  hsk_host_flags = 0;
  current_buffer = 0;
  file_header = record {
    cookie = 0;
    idx = 0;
    data_size = 0;
    capture_start = 0;
    timezone_correction = 0;
    reserved = 0;
  };
  ring_buffer = false;
  write_to_file = false;
  file_count = 0;
  file_size = 0;
  path = [];
  base_filename = [];
  current_file = 0;
  files = [];
  has_status = false;
  has_data = false;
  stop_complete = false;
  host = record {
    buffer_flags = 0;
    buffer_count = 0;
    host_error = 0;
    dma_buffers = [];
    capture_mode = 0;
    port_enable_mask = 0;
    mac_mode = 0;
    ref_seconds = 0;
    ref_nanoseconds = 0;
    resync_p = 0;
    resync_i = 0;
    host_buffer_timeout = 0;
  };
  status = record { buffer_flags = 0; capture_state = 0; capture_error = 0; used_buffer_size = [] };
  mdio = record { direction = 0; phy_num = 0; phy_reg = 0; value = 0 };
  ident_block = [];
  send_mbx = record {
    mailbox_length = 44;
    bitoffset = 9;
    packet_cnt = 0;
    packages = 1;
    content = replicate 44 0;
  };
  recv_mbx = record {
    mailbox_length = 44;
    bitoffset = 10;
    packet_cnt = 0;
    packages = 0;
    content = replicate 44 0;
  };
}

abbrev pub sample_system : System
sample_system = record {
  device = sample_device;
  clock = 0;
  wakes = [];
  writes = 0;
  accepts = λ n len. len;
  trace = [];
}
