-- ===== src/Gpio/Pwm.antt =====
-- At most one pulse width modulation, whatever calls are made.
use nadrvlinux.Prelude.{
  ℕ, zero, suc, ◌+◌, ◌≤◌, ◌<◌, ltb, ◌&&◌, ◌||◌, true, false, not, List, [], ◌∷◌, get_or, set,
  get_or-set, if◌then◌else◌, length, length-set, ◌==◌, ◌≡◌, ◌≢◌, sym, ◌∙◌, inl, inr, Bool-cases,
  arith,
}
use nadrvlinux.Prelude.Bits.{test_bit}
use nadrvlinux.Device.{Device, GpioBlock}
use nadrvlinux.Gpio.{
  GpioMode, block_at, mode_in_use, period_ok, set_gpio_mode, set_gpio_output, set_gpio_voltage,
  no_block, select_voltage, mode_output_pwm, mode_output,
}
use nadrvlinux.Gpio.Calls.{Call, mode_call, output_call, voltage_call, call, calls}
use nadrvlinux.Gpio.Mode.{takes, new_block, set_gpio_mode-takes, set_gpio_mode-refuses}
use nadrvlinux.Gpio.Voltage.{
  accepted, set_gpio_voltage-accepted, length-select_voltage, get_or-select_voltage,
}

abbrev pub InRange : ℕ → Type 0
InRange period = (10 ≤ period) × (period ≤ 100000000)

-- The GPIOs are all there, at most one of them modulates, and its periods are in range.
pub record PwmSafe (d : Device) : Type 0 where
  pub all_there : length d.gpios ≡ d.gpio_cnt
  pub single :
      (i j : ℕ)
      → i < d.gpio_cnt
      → j < d.gpio_cnt
      → (block_at d i).mode ≡ mode_output_pwm
      → (block_at d j).mode ≡ mode_output_pwm
      → i ≡ j
  pub in_range :
      (i : ℕ)
      → i < d.gpio_cnt
      → (block_at d i).mode ≡ mode_output_pwm
      → InRange (block_at d i).word0 × InRange (block_at d i).word1

-- A search that finds nothing has passed every other GPIO.
mode_in_use-none :
    (mode gpio : ℕ) (bs : List GpioBlock) (i k : ℕ)
    → mode_in_use mode gpio bs i ≡ false
    → k < length bs
    → gpio ≢ i + k
    → (get_or bs k no_block).mode ≢ mode
unfolding mode_in_use
mode_in_use-none mode gpio [] i k e h ne = absurd (omega arith)
mode_in_use-none mode gpio (b ∷ bs) i zero e h ne = ground arith
mode_in_use-none mode gpio (b ∷ bs) i (suc k) e h ne =
    mode_in_use-none mode gpio bs (i + 1) k (ground arith) (omega arith) (λ q. ne (omega arith))

-- The only block that differs is one that modulates alone and in range, or not at all.
written-PwmSafe :
    (d : Device) (gpio : ℕ) (b : GpioBlock)
    → PwmSafe d
    → gpio < d.gpio_cnt
    → (b.mode ≡ mode_output_pwm
        → InRange b.word0
          × InRange b.word1
          × ((other : ℕ)
              → other < d.gpio_cnt
              → gpio ≢ other
              → (block_at d other).mode ≢ mode_output_pwm))
    → PwmSafe (record d { gpios = set d.gpios gpio b })
written-PwmSafe d gpio b s there pwm = record {
  all_there = length-set d.gpios gpio b ∙ s.all_there;
  single = λ i j hi hj pi pj. grind (arith, at i, at j, s.single i j hi hj, alone i hi, alone j hj);
  in_range = λ i hi pi. ground (arith, at i, s.in_range i hi);
}
  where
    at : (i : ℕ) → get_or (set d.gpios gpio b) i no_block ≡ (if gpio == i then b else block_at d i)
    at i = get_or-set d.gpios gpio i b no_block (omega (arith, s.all_there))

    alone :
        (other : ℕ)
        → other < d.gpio_cnt
        → b.mode ≡ mode_output_pwm
        → gpio ≢ other
        → (block_at d other).mode ≢ mode_output_pwm
    alone other h m ne = (pwm m).2 other h ne

new_block-mode : (old : GpioBlock) (m : GpioMode) → (new_block old m).mode ≡ m.mode
unfolding new_block
new_block-mode old m = ground arith

new_block-InRange :
    (old : GpioBlock) (m : GpioMode)
    → period_ok m ≡ true
    → m.mode ≡ mode_output_pwm
    → InRange (new_block old m).word0 × InRange (new_block old m).word1
unfolding new_block period_ok
new_block-InRange old m ok pwm = ground arith

takes-pwm :
    (d : Device) (gpio : ℕ) (m : GpioMode)
    → takes d gpio m ≡ true
    → (gpio < d.gpio_cnt)
      × (m.mode ≡ mode_output_pwm
          → (period_ok m ≡ true) × (mode_in_use mode_output_pwm gpio d.gpios 0 ≡ false))
unfolding takes period_ok
takes-pwm d gpio m t = (ground arith, λ pwm. (ground arith, ground arith))

pub set_gpio_mode-PwmSafe :
    (d : Device) (gpio : ℕ) (m : GpioMode) → PwmSafe d → PwmSafe (set_gpio_mode d gpio m).1
set_gpio_mode-PwmSafe d gpio m s = elim (Bool-cases (takes d gpio m)) [
  | inr refused ↦ rw (set_gpio_mode-refuses d gpio m refused).1 s
  | inl taken ↦
      let (there, unique) = takes-pwm d gpio m taken in
      rw (set_gpio_mode-takes d gpio m taken) (
        written-PwmSafe d gpio (new_block (block_at d gpio) m) s there (λ pwm.
          let (ok, free) = unique (sym (new_block-mode (block_at d gpio) m) ∙ pwm) in
          let (hi, lo) =
            new_block-InRange (block_at d gpio) m ok
              (sym (new_block-mode (block_at d gpio) m) ∙ pwm) in
          (
            hi,
            lo,
            λ other h ne.
                mode_in_use-none mode_output_pwm gpio d.gpios 0 other free
                  (omega (arith, s.all_there)) (λ e. ne (omega arith)),
          )))
]

pub set_gpio_output-PwmSafe :
    (d : Device) (gpio level : ℕ) → PwmSafe d → PwmSafe (set_gpio_output d gpio level).1
unfolding set_gpio_output
set_gpio_output-PwmSafe d gpio level s =
    elim (Bool-cases (not (ltb gpio d.gpio_cnt) || (not (level == 0) && not (level == 1)))) [
      | inl bad ↦ rw bad s
      | inr good ↦ elim (Bool-cases ((block_at d gpio).mode == mode_output)) [
        | inr other ↦ rw (good, other) s
        | inl out ↦
            rw (good, out)
              (written-PwmSafe d gpio (record (block_at d gpio) { word0 = level }) s (ground arith)
                (λ pwm. absurd (ground arith)))
      ]
    ]

pub set_gpio_voltage-PwmSafe :
    (d : Device) (mask voltage : ℕ) → PwmSafe d → PwmSafe (set_gpio_voltage d mask voltage).1
set_gpio_voltage-PwmSafe d mask voltage s =
    rw (set_gpio_voltage-accepted d mask voltage) (elim (Bool-cases (accepted d mask voltage)) [
      | inr refused ↦ rw refused s
      | inl taken ↦ rw taken (record {
        all_there = length-select_voltage mask voltage d.gpios 0 ∙ s.all_there;
        single = λ i j hi hj pi pj. ground (arith, at i hi, at j hj, s.single i j hi hj);
        in_range = λ i hi pi. ground (arith, at i hi, s.in_range i hi);
      })
    ])
  where
    at :
        (i : ℕ)
        → i < d.gpio_cnt
        → get_or (select_voltage mask voltage d.gpios 0) i no_block
          ≡ (if test_bit mask i then record (block_at d i) { voltage = voltage } else block_at d i)
    at i h =
        grind (arith, get_or-select_voltage mask voltage d.gpios 0 i (omega (arith, s.all_there)))

call-PwmSafe : (c : Call) (d : Device) → PwmSafe d → PwmSafe (call c d)
unfolding call
call-PwmSafe (mode_call gpio m) d s = set_gpio_mode-PwmSafe d gpio m s
call-PwmSafe (output_call gpio level) d s = set_gpio_output-PwmSafe d gpio level s
call-PwmSafe (voltage_call mask voltage) d s = set_gpio_voltage-PwmSafe d mask voltage s

-- Whatever sequence of mode, output and voltage calls is made on a device whose GPIOs are all there,
-- at most one of them modulates at the end and its periods are in range, if it was so before.
pub calls-PwmSafe : (cs : List Call) (d : Device) → PwmSafe d → PwmSafe (calls cs d)
unfolding calls
calls-PwmSafe [] d s = s
calls-PwmSafe (c ∷ cs) d s = calls-PwmSafe cs (call c d) (call-PwmSafe c d s)
