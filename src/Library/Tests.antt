-- ===== src/Library/Tests.antt =====
-- A client that sets the mode of a GPIO of the sample device.
use nadrvlinux.Prelude.{true, [], ◌∷◌, ◌≡◌, refl, arith}
use nadrvlinux.Sample.{sample_system}
use nadrvlinux.Gpio.{mode_output_pwm}
use nadrvlinux.Attributes.{Info}
use nadrvlinux.Library.{Client, check_device_handle}
use nadrvlinux.Library.Through.{forget}
use nadrvlinux.Library.Calls.{Call, set_mode, direct}
use nadrvlinux.Library.Reach.{through, Able}
use nadrvlinux.Library.EndToEnd.{through-direct}

abbrev client : Client
client = record {
  task = record { pid = 12; leader = 10; memory = true };
  handles = 7 ∷ 8 ∷ [];
  handle = 8;
  capture_state = 0;
  file_there = true;
  timeout_there = true;
}

abbrev node : Info
node = record {
  tasks = [];
  is_open = true;
  maska = [];
  vala = [];
  maskb = [];
  valb = [];
  identinfoblock = [];
}

client-Able : Able client node
unfolding check_device_handle nadrvlinux.Library.listed_handle
client-Able = record {
  opened = refl;
  no_capture = refl;
  has_file = refl;
  has_timeout = refl;
  has_memory = refl;
  node_open = refl;
}

abbrev pwm_call : Call
pwm_call = set_mode 1 (record { mode = mode_output_pwm; word0 = 100; word1 = 4294967295 })

through-direct_example :
    forget (through client pwm_call node sample_system) ≡ direct pwm_call sample_system
through-direct_example =
    through-direct pwm_call client node sample_system client-Able
      (omega arith, omega arith, omega arith)
