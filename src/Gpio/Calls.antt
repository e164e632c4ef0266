-- ===== src/Gpio/Calls.antt =====
-- Sequences of calls that write the GPIOs of a device.
use nadrvlinux.Prelude.{ℕ, List, [], ◌∷◌}
use nadrvlinux.Device.{Device}
use nadrvlinux.Gpio.{GpioMode, set_gpio_mode, set_gpio_output, set_gpio_voltage}

pub data Call : Type 0 where
  mode_call : ℕ → GpioMode → Call
  output_call : (gpio level : ℕ) → Call
  voltage_call : (mask voltage : ℕ) → Call

unfoldable pub call : Call → Device → Device
call (mode_call gpio m) d = (set_gpio_mode d gpio m).1
call (output_call gpio level) d = (set_gpio_output d gpio level).1
call (voltage_call mask voltage) d = (set_gpio_voltage d mask voltage).1

unfoldable pub calls : List Call → Device → Device
calls [] d = d
calls (c ∷ cs) d = calls cs (call c d)
