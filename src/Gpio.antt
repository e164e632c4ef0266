-- ===== src/Gpio.antt =====
-- The GPIOs of a device: netana_get_gpio_mode, netana_set_gpio_mode, netana_set_gpio_output,
-- netana_set_gpio_voltage and netana_get_gpio_voltage of
-- netanalyzer_kernel_mod/toolkit/netana_functions.c.
pub mod Calls
pub mod Pwm
pub mod Mode
pub mod Voltage
mod Tests
use nadrvlinux.Prelude.{
  ℕ, zero, suc, ◌+◌, ◌^◌, bit_and, bit_or, Bool, true, false, ◌&&◌, ◌||◌, not, Option, none, some,
  List, [], ◌∷◌, get_or, set, length, ltb, leb, ◌==◌, if◌then◌else◌,
}
use nadrvlinux.Prelude.Bits.{is_set}
use nadrvlinux.Codes.{no_error, invalid_parameter, function_failed, capture_active}
use nadrvlinux.Device.{Device, GpioBlock, SystemInfo, is_capture_running}

-- NETANA_GPIO_MODE_xxx
abbrev pub mode_none : ℕ
mode_none = 0

abbrev pub mode_rising_edge : ℕ
mode_rising_edge = 1

abbrev pub mode_falling_edge : ℕ
mode_falling_edge = 2

abbrev pub mode_output : ℕ
mode_output = 3

abbrev pub mode_output_pwm : ℕ
mode_output_pwm = 4

abbrev pub mode_sync : ℕ
mode_sync = 5

abbrev pub voltage_24v : ℕ
voltage_24v = 0

abbrev pub voltage_3v : ℕ
voltage_3v = 1

abbrev pub nanl_dev_class : ℕ
nanl_dev_class = 0x10

-- `NETANA_GPIO_MODE_T`. The union is two words: word 0 is ulCaptureTriggers, ulHiPeriod or
-- ulPeriod, and word 1 is ulEndDelay or ulLoPeriod.
pub record GpioMode : Type 0 where
  pub mode : ℕ
  pub word0 : ℕ
  pub word1 : ℕ

abbrev pub no_block : GpioBlock
no_block = record { mode = 0; voltage = 0; word0 = 0; word1 = 0; word2 = 0 }

-- `aptGPIOs[ulGpio]`; the index is below `ulGpioCnt` wherever it is used.
abbrev pub block_at : Device → ℕ → GpioBlock
block_at d gpio = get_or d.gpios gpio no_block

-- The `default` label stands with the trigger modes.
unfoldable pub get_gpio_mode : Device → ℕ → ℕ × Option GpioMode
get_gpio_mode d gpio =
    if not (ltb gpio d.gpio_cnt)
    then (invalid_parameter, none)
    else if block.mode == mode_output
    then (no_error, some (record { mode = block.mode; word0 = 0; word1 = 0 }))
    else (no_error, some (record { mode = block.mode; word0 = block.word0; word1 = block.word1 }))
  where
    block : GpioBlock
    block = block_at d gpio

-- The search for another GPIO in the mode, from index `i` on.
unfoldable pub mode_in_use : ℕ → ℕ → List GpioBlock → ℕ → Bool
mode_in_use mode gpio [] i = false
mode_in_use mode gpio (b ∷ bs) i =
    ((b.mode == mode) && not (gpio == i)) || mode_in_use mode gpio bs (i + 1)

unfoldable pub period_ok : GpioMode → Bool
period_ok m = leb m.word0 100000000 && leb 10 m.word0 && leb m.word1 100000000 && leb 10 m.word1

-- The `switch` over the mode: the code returned, and the block written, if any.
unfoldable pub configured : Device → ℕ → GpioMode → ℕ × Option GpioBlock
unfolding period_ok
configured d gpio m =
    if (m.mode == mode_rising_edge) || (m.mode == mode_falling_edge)
    then (no_error, some (record block { mode = m.mode; word0 = m.word0; word1 = m.word1 }))
    else if m.mode == mode_output
    then (no_error, some (record block { mode = m.mode; word0 = 0 }))
    else if m.mode == mode_output_pwm
    then (if not (period_ok m)
        then (invalid_parameter, none)
        else if mode_in_use m.mode gpio d.gpios 0
        then (function_failed, none)
        else (no_error, some (record block { mode = m.mode; word0 = m.word0; word1 = m.word1 })))
    else if m.mode == mode_sync
    then (no_error, some (record block { mode = m.mode; word0 = m.word0 }))
    else (no_error, some (record block { mode = m.mode }))
  where
    block : GpioBlock
    block = block_at d gpio

abbrev pub written : Device → ℕ → ℕ × Option GpioBlock → ℕ × Device
written d gpio (code, none) = (code, d)
written d gpio (code, some b) = (code, record d { gpios = set d.gpios gpio b })

unfoldable pub set_gpio_mode : Device → ℕ → GpioMode → ℕ × Device
unfolding is_capture_running configured
set_gpio_mode d gpio m =
    if is_capture_running d
    then (capture_active, d)
    else if ltb gpio d.gpio_cnt
    then written d gpio (configured d gpio m)
    else (invalid_parameter, d)

-- A handle that is not null.
unfoldable pub set_gpio_output : Device → ℕ → ℕ → ℕ × Device
set_gpio_output d gpio level =
    if not (ltb gpio d.gpio_cnt) || (not (level == 0) && not (level == 1))
    then (invalid_parameter, d)
    else if (block_at d gpio).mode == mode_output
    then (
      no_error,
      record d { gpios = set d.gpios gpio (record (block_at d gpio) { word0 = level }) },
    )
    else (function_failed, d)

-- The loop that builds `ulSupportedMask`, from `ulGpio` on.
unfoldable pub supported_mask : ℕ → ℕ → ℕ → ℕ
supported_mask zero gpio mask = mask
supported_mask (suc left) gpio mask = supported_mask left (gpio + 1) (bit_or mask (2 ^ gpio))

-- The loop that writes the voltage of the selected GPIOs, from `ulGpio` on.
unfoldable pub select_voltage : ℕ → ℕ → List GpioBlock → ℕ → List GpioBlock
select_voltage mask voltage [] gpio = []
select_voltage mask voltage (b ∷ bs) gpio =
    (if is_set mask (2 ^ gpio) then record b { voltage = voltage } else b)
    ∷ select_voltage mask voltage bs (gpio + 1)

unfoldable pub voltage_supported : Device → ℕ → ℕ → Bool
voltage_supported d mask voltage =
    if voltage == voltage_3v
    then bit_and d.info.gpio_voltage3v_support mask == mask
    else if voltage == voltage_24v
    then bit_and d.info.gpio_voltage24v_support mask == mask
    else false

unfoldable pub set_gpio_voltage : Device → ℕ → ℕ → ℕ × Device
unfolding supported_mask select_voltage voltage_supported
set_gpio_voltage d mask voltage =
    if ltb (supported_mask d.gpio_cnt 0 0) mask
    then (invalid_parameter, d)
    else if (d.device_class == nanl_dev_class) && not (mask == 0x0f)
    then (invalid_parameter, d)
    else if voltage_supported d mask voltage
    then (no_error, record d { gpios = select_voltage mask voltage d.gpios 0 })
    else (invalid_parameter, d)

-- The pointer for the answer is not null.
unfoldable pub get_gpio_voltage : Device → ℕ → ℕ × Option ℕ
get_gpio_voltage d gpio =
    if not (ltb gpio d.gpio_cnt)
    then (invalid_parameter, none)
    else (no_error, some (block_at d gpio).voltage)
