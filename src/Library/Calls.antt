-- ===== src/Library/Calls.antt =====
-- What the user library is asked for, and the codes of the toolkit that come back.
use nadrvlinux.Prelude.{
  ℕ, ◌<◌, ◌^◌, Bool, true, false, ◌||◌, Option, none, some, ◌==◌, if◌then◌else◌, ◌≡◌, arith,
}
use nadrvlinux.Codes.{no_error, invalid_parameter, function_failed}
use nadrvlinux.Device.{Device}
use nadrvlinux.System.{System, M, pure, modify, ◌>>◌}
use nadrvlinux.Handshake.{
  bitstate_equal, default_timeout, drv_error_bit, resync_bit, toggle_bit, wait_for_bit_state,
}
use nadrvlinux.Gpio.{
  voltage_supported, GpioMode, set_gpio_mode, set_gpio_output, set_gpio_voltage, configured,
}
use nadrvlinux.Command.{fill_time, resync_time, config_pi_controller, command}
use nadrvlinux.Capture.{signal_driver_error}
use nadrvlinux.Attributes.{on_device}
use nadrvlinux.Library.Through.{Small}

-- What can be asked of either.
pub data Call : Type 0 where
  set_mode : (gpio : ℕ) → GpioMode → Call
  set_output : (gpio level : ℕ) → Call
  set_voltage : (mask voltage : ℕ) → Call
  config_pi : (p i : ℕ) → Call
  resync : (time : ℕ) → Call
  signal : (error : ℕ) → Call

abbrev pub direct : Call → M ℕ
direct (set_mode gpio m) = on_device (λ d. set_gpio_mode d gpio m)
direct (set_output gpio level) = on_device (λ d. set_gpio_output d gpio level)
direct (set_voltage mask voltage) = on_device (λ d. set_gpio_voltage d mask voltage)
direct (config_pi p i) = config_pi_controller p i
direct (resync time) = resync_time time
direct (signal error) = signal_driver_error error

-- Arguments of the widths that the library declares.
abbrev pub Fitting : Call → Type 0
Fitting (set_mode gpio m) = (m.mode < 2 ^ 32) × (m.word0 < 2 ^ 32) × (m.word1 < 2 ^ 32)
Fitting (set_output gpio level) = level < 2 ^ 32
Fitting (set_voltage mask voltage) = (mask < 2 ^ 32) × (voltage < 2 ^ 32)
Fitting (config_pi p i) = (p < 2 ^ 32) × (i < 2 ^ 32)
Fitting (resync time) = time < 2 ^ 64
Fitting (signal error) = error < 2 ^ 32

pub set_gpio_mode-small :
    (d : Device) (gpio : ℕ) (m : GpioMode) → (set_gpio_mode d gpio m).0 < 2 ^ 32
unfolding set_gpio_mode configured
set_gpio_mode-small d gpio m = ground arith

pub set_gpio_output-small :
    (d : Device) (gpio level : ℕ) → (set_gpio_output d gpio level).0 < 2 ^ 32
unfolding set_gpio_output
set_gpio_output-small d gpio level = ground arith

pub set_gpio_voltage-small : (d : Device) (mask v : ℕ) → (set_gpio_voltage d mask v).0 < 2 ^ 32
unfolding set_gpio_voltage
set_gpio_voltage-small d mask v = ground arith

pub resync_time-Small : (time : ℕ) (s : System) → Small (resync_time time s)
unfolding resync_time command
resync_time-Small time s = coded (command resync_bit default_timeout (fill_time time) s)
  where
    coded :
        (o : Option (Bool × System))
        → Small (elim o as (λ x. Option (ℕ × System)) [
          | none ↦ none
          | some x ↦ pure (if x.0 then no_error else function_failed) x.1
        ])
    coded none = tt
    coded (some (true, s')) = omega arith
    coded (some (false, s')) = omega arith

pub signal_driver_error-Small : (error : ℕ) (s : System) → Small (signal_driver_error error s)
unfolding signal_driver_error
signal_driver_error-Small error s =
    written (wait_for_bit_state drv_error_bit bitstate_equal default_timeout s)
  where
    written :
        (o : Option (Bool × System))
        → Small (elim o as (λ x. Option (ℕ × System)) [
          | none ↦ none
          | some x ↦
              (if x.0
                  then modify (λ d. record d { host = record d.host { host_error = error } })
                    >> modify (toggle_bit drv_error_bit)
                    >> pure no_error
                  else pure function_failed)
                x.1
        ])
    written none = tt
    written (some (true, s')) = omega arith
    written (some (false, s')) = omega arith

pub voltage-refused :
    (d : Device) (mask v : ℕ)
    → ((v == 0) || (v == 1)) ≡ false
    → set_gpio_voltage d mask v ≡ (invalid_parameter, d)
unfolding set_gpio_voltage voltage_supported
voltage-refused d mask v bad = ground (arith, bad)

pub config_pi-small : no_error < 2 ^ 32
config_pi-small = omega arith
