-- ===== src/Gpio/Voltage.antt =====
-- Which GPIOs a voltage call selects, and what it writes to them.
use nadrvlinux.Prelude.{
  ℕ, zero, suc, ◌+◌, ◌^◌, ◌<◌, bit_and, bit_or, Bool, true, false, ◌&&◌, ◌||◌, List, [], ◌∷◌,
  get_or, length, ltb, ◌==◌, if◌then◌else◌, ◌≡◌, refl, ap, arith,
}
use nadrvlinux.Prelude.Bits.{is_set-two_pow, test_bit}
use native.Mathlib.Nat.{pow-suc}
use nadrvlinux.Prelude.Masks.{bit_or-disjoint}
use nadrvlinux.Codes.{no_error, invalid_parameter}
use nadrvlinux.Device.{Device, GpioBlock}
use nadrvlinux.Gpio.{
  select_voltage, supported_mask, set_gpio_voltage, voltage_supported, nanl_dev_class, no_block,
}

pub length-select_voltage :
    (mask voltage : ℕ) (bs : List GpioBlock) (gpio : ℕ)
    → length (select_voltage mask voltage bs gpio) ≡ length bs
unfolding select_voltage
length-select_voltage mask voltage [] gpio = refl
length-select_voltage mask voltage (b ∷ bs) gpio =
    ap suc (length-select_voltage mask voltage bs (gpio + 1))

-- Each block in turn, from the first one's number on.
pub get_or-select_voltage :
    (mask voltage : ℕ) (bs : List GpioBlock) (gpio i : ℕ)
    → i < length bs
    → get_or (select_voltage mask voltage bs gpio) i no_block ≡ (
        if test_bit mask (gpio + i)
        then record (get_or bs i no_block) { voltage = voltage }
        else get_or bs i no_block)
unfolding select_voltage
get_or-select_voltage mask voltage [] gpio i h = absurd (omega arith)
get_or-select_voltage mask voltage (b ∷ bs) gpio zero h = ground (arith, is_set-two_pow mask gpio)
get_or-select_voltage mask voltage (b ∷ bs) gpio (suc i) h =
    ground (arith, get_or-select_voltage mask voltage bs (gpio + 1) i)

supported_mask_lem :
    (n gpio mask : ℕ) → mask + 1 ≡ 2 ^ gpio → supported_mask n gpio mask + 1 ≡ 2 ^ (gpio + n)
unfolding supported_mask
supported_mask_lem zero gpio mask h = grind arith
supported_mask_lem (suc n) gpio mask h = grind (
  arith,
  supported_mask_lem n (gpio + 1) (bit_or mask (2 ^ gpio))
      (grind (arith, bit_or-disjoint gpio mask (omega arith), pow-suc 2 gpio)),
)

-- The voltages are 3.3 V, which is 1, and 24 V, which is 0. A selection is refused when it names a GPIO
-- that the device does not have, on a netANALYZER card when it is not all four, for any other voltage,
-- and for one that some selected GPIO does not support.
unfoldable pub accepted : Device → ℕ → ℕ → Bool
accepted d mask voltage =
    ltb mask (2 ^ d.gpio_cnt)
    && (if d.device_class == nanl_dev_class then mask == 0x0f else true)
    && (((voltage == 1) && (bit_and d.info.gpio_voltage3v_support mask == mask))
        || ((voltage == 0) && (bit_and d.info.gpio_voltage24v_support mask == mask)))

pub set_gpio_voltage-accepted :
    (d : Device) (mask voltage : ℕ)
    → set_gpio_voltage d mask voltage ≡ (
        if accepted d mask voltage
        then (no_error, record d { gpios = select_voltage mask voltage d.gpios 0 })
        else (invalid_parameter, d))
unfolding set_gpio_voltage accepted voltage_supported
set_gpio_voltage-accepted d mask voltage = ground (arith, supported_mask_lem d.gpio_cnt 0 0 refl)

-- The voltage call has an effect exactly when the selection is accepted. Then each selected GPIO
-- has the voltage, every other GPIO keeps its own, nothing else in any block changes, and nothing but
-- the blocks in the device; a refused call leaves the device as it was.
pub set_gpio_voltage-selected :
    (d : Device) (mask voltage : ℕ)
    → let (code, d') = set_gpio_voltage d mask voltage in
      (code ≡ (if accepted d mask voltage then no_error else invalid_parameter))
      × (accepted d mask voltage ≡ false → d' ≡ d)
      × (d' ≡ record d { gpios = d'.gpios })
      × (length d'.gpios ≡ length d.gpios)
      × ((i : ℕ)
          → accepted d mask voltage ≡ true
          → i < length d.gpios
          → get_or d'.gpios i no_block ≡ (
              if test_bit mask i
              then record (get_or d.gpios i no_block) { voltage = voltage }
              else get_or d.gpios i no_block))
set_gpio_voltage-selected d mask voltage = (
  ground (arith, set_gpio_voltage-accepted d mask voltage),
  λ refused. ground (arith, set_gpio_voltage-accepted d mask voltage),
  kept.0,
  kept.1,
  λ i taken h. ground (
    arith,
    set_gpio_voltage-accepted d mask voltage,
    get_or-select_voltage mask voltage d.gpios 0 i h,
  ),
)
  where
    -- Whether or not the blocks are replaced by others of the same number.
    either :
        (b : Bool)
        → let answer : ℕ × Device =
            if b
            then (no_error, record d { gpios = select_voltage mask voltage d.gpios 0 })
            else (invalid_parameter, d) in
          (answer.1 ≡ record d { gpios = answer.1.gpios })
          × (length answer.1.gpios ≡ length d.gpios)
    either true = (refl, length-select_voltage mask voltage d.gpios 0)
    either false = (refl, refl)

    kept :
        let d' = (set_gpio_voltage d mask voltage).1 in
        (d' ≡ record d { gpios = d'.gpios }) × (length d'.gpios ≡ length d.gpios)
    kept = rw (set_gpio_voltage-accepted d mask voltage) (either (accepted d mask voltage))
