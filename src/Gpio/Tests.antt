-- ===== src/Gpio/Tests.antt =====
-- Calls on the two GPIOs of a device at rest.
use nadrvlinux.Prelude.{
  ℕ, zero, suc, ◌<◌, true, false, [], ◌∷◌, get_or, length, if◌then◌else◌, ◌≡◌, ◌≢◌, refl, arith,
}
use nadrvlinux.Prelude.Bits.{test_bit}
use nadrvlinux.Codes.{no_error, invalid_parameter}
use nadrvlinux.Sample.{sample_device}
use nadrvlinux.Gpio.{GpioMode, block_at, set_gpio_voltage, no_block, mode_output_pwm, voltage_24v}
use nadrvlinux.Gpio.Calls.{mode_call, voltage_call, calls}
use nadrvlinux.Gpio.Pwm.{PwmSafe, calls-PwmSafe}
use nadrvlinux.Gpio.Voltage.{accepted, set_gpio_voltage-selected}

abbrev pwm : GpioMode
pwm = record { mode = mode_output_pwm; word0 = 100; word1 = 200 }

sample_device-PwmSafe : PwmSafe sample_device
sample_device-PwmSafe = record {
  all_there = refl;
  single = λ i j hi hj pi pj. absurd (none_yet i pi);
  in_range = λ i hi pi. absurd (none_yet i pi);
}
  where
    none_yet : (i : ℕ) → (block_at sample_device i).mode ≢ mode_output_pwm
    none_yet zero e = omega arith
    none_yet (suc zero) e = omega arith
    none_yet (suc (suc i)) e = omega arith

calls-PwmSafe_example :
    PwmSafe
      (calls (mode_call 0 pwm ∷ mode_call 1 pwm ∷ voltage_call 3 voltage_24v ∷ []) sample_device)
calls-PwmSafe_example =
    calls-PwmSafe (mode_call 0 pwm ∷ mode_call 1 pwm ∷ voltage_call 3 voltage_24v ∷ [])
      sample_device sample_device-PwmSafe

set_gpio_voltage-selected_example :
    let (code, d') = set_gpio_voltage sample_device 2 voltage_24v in
    (code ≡ (if accepted sample_device 2 voltage_24v then no_error else invalid_parameter))
    × (accepted sample_device 2 voltage_24v ≡ false → d' ≡ sample_device)
    × (d' ≡ record sample_device { gpios = d'.gpios })
    × (length d'.gpios ≡ length sample_device.gpios)
    × ((i : ℕ)
        → accepted sample_device 2 voltage_24v ≡ true
        → i < length sample_device.gpios
        → get_or d'.gpios i no_block ≡ (
            if test_bit 2 i
            then record (get_or sample_device.gpios i no_block) { voltage = voltage_24v }
            else get_or sample_device.gpios i no_block))
set_gpio_voltage-selected_example = set_gpio_voltage-selected sample_device 2 voltage_24v
