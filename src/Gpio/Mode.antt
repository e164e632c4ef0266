-- ===== src/Gpio/Mode.antt =====
-- A mode written to a GPIO against what is read back.
use nadrvlinux.Prelude.{
  ℕ, ◌||◌, ◌&&◌, set, Bool, true, false, not, none, some, ltb, leb, ◌==◌, if◌then◌else◌, ◌≡◌, ◌≢◌,
  ◌⊎◌, arith,
}
use nadrvlinux.Codes.{no_error, invalid_parameter, function_failed}
use nadrvlinux.Device.{Device, GpioBlock, is_capture_running}
use nadrvlinux.Gpio.{
  GpioMode, configured, period_ok, mode_in_use, block_at, set_gpio_mode, mode_rising_edge,
  mode_falling_edge, mode_output, mode_output_pwm, mode_sync,
}

-- What is read back of a mode that was written over the block `old`: an output has no words, the
-- synchronisation has only its period, and a mode without parameters shows those of before.
unfoldable pub read_back : GpioBlock → GpioMode → GpioMode
read_back old m =
    if m.mode == mode_output
    then record { mode = m.mode; word0 = 0; word1 = 0 }
    else if m.mode == mode_sync
    then record { mode = m.mode; word0 = m.word0; word1 = old.word1 }
    else if (m.mode == mode_rising_edge)
        || (m.mode == mode_falling_edge)
        || (m.mode == mode_output_pwm)
    then m
    else record { mode = m.mode; word0 = old.word0; word1 = old.word1 }

-- Both periods of a pulse width modulation are from 100 ns to 1 s, in units of 10 ns.
abbrev pub in_range : ℕ → Bool
in_range period = leb 10 period && leb period 100000000

-- Whether a call takes effect: no capture runs, the GPIO is there, and a pulse width modulation has
-- periods in range and no other GPIO that uses it. The period of a synchronisation is not tested.
unfoldable pub takes : Device → ℕ → GpioMode → Bool
takes d gpio m =
    not (is_capture_running d)
    && ltb gpio d.gpio_cnt
    && (if m.mode == mode_output_pwm
        then in_range m.word0
          && in_range m.word1
          && not (mode_in_use mode_output_pwm gpio d.gpios 0)
        else true)

-- The block that it writes.
unfoldable pub new_block : GpioBlock → GpioMode → GpioBlock
new_block old m =
    if (m.mode == mode_rising_edge) || (m.mode == mode_falling_edge) || (m.mode == mode_output_pwm)
    then record old { mode = m.mode; word0 = m.word0; word1 = m.word1 }
    else if m.mode == mode_output
    then record old { mode = m.mode; word0 = 0 }
    else if m.mode == mode_sync
    then record old { mode = m.mode; word0 = m.word0 }
    else record old { mode = m.mode }

pub configured-new_block :
    (d : Device) (gpio : ℕ) (m : GpioMode)
    → ((m.mode == mode_output_pwm) ≡ true
        → period_ok m ≡ true × (mode_in_use mode_output_pwm gpio d.gpios 0 ≡ false))
    → configured d gpio m ≡ (no_error, some (new_block (block_at d gpio) m))
unfolding configured new_block
configured-new_block d gpio m h = ground arith

pub configured-refused :
    (d : Device) (gpio : ℕ) (m : GpioMode)
    → m.mode ≡ mode_output_pwm
    → (period_ok m ≡ false) ⊎ (mode_in_use mode_output_pwm gpio d.gpios 0 ≡ true)
    → (configured d gpio m ≡ (invalid_parameter, none))
      ⊎ (configured d gpio m ≡ (function_failed, none))
unfolding configured
configured-refused d gpio m pwm h = ground arith

pub set_gpio_mode-takes :
    (d : Device) (gpio : ℕ) (m : GpioMode)
    → takes d gpio m ≡ true
    → set_gpio_mode d gpio m
      ≡ (no_error, record d { gpios = set d.gpios gpio (new_block (block_at d gpio) m) })
unfolding set_gpio_mode takes period_ok
set_gpio_mode-takes d gpio m h = ground (arith, configured-new_block d gpio m)

pub set_gpio_mode-refuses :
    (d : Device) (gpio : ℕ) (m : GpioMode)
    → takes d gpio m ≡ false
    → ((set_gpio_mode d gpio m).0 ≢ no_error) × ((set_gpio_mode d gpio m).1 ≡ d)
unfolding set_gpio_mode takes period_ok
set_gpio_mode-refuses d gpio m h = (ground arith, ground arith)
