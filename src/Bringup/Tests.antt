-- ===== src/Bringup/Tests.antt =====
-- A card that comes up after its second sleep, one with its firmware in flash, and a removal.
use nadrvlinux.Prelude.{
  ℕ, zero, suc, ◌≤◌, bit_xor, true, false, [], ◌∷◌, some, none, replicate, length, ◌≡◌, refl, inl,
  inr, arith,
}
use nadrvlinux.Codes.{no_error}
use nadrvlinux.System.{System}
use nadrvlinux.System.Run.{Run}
use nadrvlinux.Sample.{sample_device, sample_system}
use nadrvlinux.Handshake.{toggle_bit}
use nadrvlinux.Handshake.Passing.{passes}
use nadrvlinux.Boot.{BootDpm, Poll, BootSystem}
use nadrvlinux.Layout.{LayoutInfo}
use nadrvlinux.Bringup.{Files, Resources, device_add}
use nadrvlinux.Loader.{Card, unknown_chip, netx100_500, netx_reset}
use nadrvlinux.Bringup.Adding.{Added, all_events, device_add-Added}
use nadrvlinux.Bringup.Removal.{Removed, device_remove, device_remove-Removed}
use nadrvlinux.Loader.Reset.{Reset, netx_reset-Reset}

abbrev cold : BootDpm
cold = record {
  cookie = 0;
  hsk_data = 0;
  netx_flags = 0;
  host_flags = 0;
  send_mbx = [];
  recv_mbx = [];
  system_state = 0;
  irq_enable = 1;
  image = [];
}

abbrev idle : Poll
idle = record { clock = 0; act = λ d. d }

abbrev waking : BootSystem
waking = record {
  dpm = cold;
  polls =
      idle
      ∷ idle
      ∷ record { clock = 0; act = λ d. record d { system_state = 9 } }
      ∷ replicate 48 idle;
  posted = [];
  resets = [];
}

abbrev card : Card
card = record {
  chip = unknown_chip;
  flash_based = true;
  class = 0x31;
  ident_requested = false;
  ident_error = 0;
}

reset_test :
    (s : BootSystem) × (netx_reset card waking
      ≡ some ((no_error, record card { chip = netx100_500 }), s))
unfolding netx_reset
reset_test = (_, refl)

netx_reset-Reset_example : Reset card waking (netx_reset card waking)
netx_reset-Reset_example = netx_reset-Reset card waking (omega arith)

abbrev no_opened : Files
no_opened = record {
  bootloader = none;
  ident = none;
  ident_name = [];
  ident_memory = true;
  firmware = none;
  firmware_name = [];
}

abbrev small : LayoutInfo
small = record {
  dpm_used_size = 0x2000;
  port_count = 2;
  gpio_count = 2;
  filter_block_size = 2;
  counter_size = 8;
}

device_add-Added_example :
    Added
      (λ i. 0)
      small
      sample_device
      []
      (device_add true
        (λ i. true)
        (λ d. true)
        (λ i. 0)
        small
        no_opened
        card
        sample_device
        []
        waking)
device_add-Added_example =
    device_add-Added true (λ i. true) (λ d. true) (λ i. 0) small no_opened card sample_device []
      waking

abbrev acknowledging : System
acknowledging = record sample_system {
  wakes =
      record { clock = 5; act = λ d. record d { netx_flags = bit_xor d.netx_flags 0x8000 } }
      ∷ record { clock = 2000; act = λ d. d }
      ∷ [];
}

abbrev held : Resources
held = record { lock = true; events = all_events }

acknowledging-ordered :
    (n : ℕ)
    → (passes n acknowledging.wakes (toggle_bit 15 sample_device)).file_count
      ≤ length (passes n acknowledging.wakes (toggle_bit 15 sample_device)).files
unfolding passes toggle_bit
acknowledging-ordered zero = omega arith
acknowledging-ordered (suc zero) = omega arith
acknowledging-ordered (suc (suc zero)) = omega arith
acknowledging-ordered (suc (suc (suc n))) = omega arith

device_remove-Removed_example :
    Run
      (device_remove false 0 held (sample_device ∷ []))
      acknowledging
      (Removed false 0 held (sample_device ∷ []) acknowledging)
device_remove-Removed_example =
    device_remove-Removed false 0 held (sample_device ∷ []) acknowledging (inr (inl (omega arith)))
      acknowledging-ordered
