-- ===== src/Library/Reach.antt =====
-- Calls of the user library that reach the toolkit: modes, levels and voltages of GPIOs.
use nadrvlinux.Prelude.{
  ℕ, zero, suc, ◌<◌, ◌^◌, Bool, true, false, ◌||◌, some, List, [], ◌∷◌, length, ◌==◌, if◌then◌else◌,
  if_true, Bool-cases, ◌≡◌, refl, sym, ap, ◌∙◌, inl, inr, arith,
}
use nadrvlinux.Codes.{no_error, invalid_handle, invalid_parameter, capture_active}
use nadrvlinux.Device.{Device}
use nadrvlinux.System.{System, M, pure, ◌>>=◌}
use nadrvlinux.Text.{digit_value, numeral, print_one, signed, sprintf, sscanf}
use nadrvlinux.Text.RoundTrip.{sscanf-sprintf}
use nadrvlinux.Tasks.{Status, count}
use nadrvlinux.Gpio.{GpioMode, set_gpio_mode, set_gpio_output, set_gpio_voltage}
use nadrvlinux.Attributes.{
  with_one, with_two, with_three, Info, on_device, finish, failed, store_gpio_mode,
  store_gpio_level, set_gpiovoltage,
}
use nadrvlinux.Library.{
  Client, check_device_handle, lib_capture_running, checked, one_written, write_file,
  lib_set_gpio_mode, lib_set_gpio_output, lib_set_gpio_voltage, lib_config_pi_controller,
  lib_resync_time, signal_drv_error,
}
use nadrvlinux.Library.Through.{forget, Small, finish-forget, one_written-reported}
use nadrvlinux.Library.Calls.{
  Call, set_mode, set_output, set_voltage, config_pi, resync, signal, direct, Fitting,
  set_gpio_mode-small, set_gpio_output-small, set_gpio_voltage-small, voltage-refused,
}

abbrev pub through : Client → Call → Info → M (ℕ × Info)
through c (set_mode gpio m) t = lib_set_gpio_mode c gpio m t
through c (set_output gpio level) t = lib_set_gpio_output c gpio level t
through c (set_voltage mask voltage) t = lib_set_gpio_voltage c mask voltage t
through c (config_pi p i) t = lib_config_pi_controller c p i t
through c (resync time) t = lib_resync_time c time t
through c (signal error) t = signal_drv_error c error t

-- A client that has the device open, with no capture of its own, and a kernel that has it too.
pub record Able (c : Client) (t : Info) : Type 0 where
  pub opened : check_device_handle c ≡ no_error
  pub no_capture : lib_capture_running c ≡ false
  pub has_file : c.file_there ≡ true
  pub has_timeout : c.timeout_there ≡ true
  pub has_memory : c.task.memory ≡ true
  pub node_open : t.is_open ≡ true

-- The guards of the library let the call of such a client through.
pub granted : (c : Client) (t : Info) (x : M (ℕ × Info)) → Able c t → checked c t x ≡ x
granted c t x a =
    if_true (check_device_handle c == no_error) x (pure (check_device_handle c, t))
      (ap (λ (v : ℕ). v == no_error) a.opened)

pub idle :
    (c : Client) (t : Info) (busy x : M (ℕ × Info))
    → Able c t
    → (if lib_capture_running c then busy else x) ≡ x
idle c t busy x a = ap (λ (b : Bool). if b then busy else x) a.no_capture

-- A handler that is sent what it scans finishes the call of the toolkit.
pub answered :
    (c : Client) (t : Info) (buf : List ℕ) (handler : M (Status × Info)) (call : M ℕ) (s : System)
    → Able c t
    → handler ≡ finish c.task buf t call
    → Small (call s)
    → forget (write_file c invalid_parameter t handler s) ≡ call s
answered c t buf handler call s a e small =
    ap (λ (h : M (Status × Info)). forget (write_file c invalid_parameter t h s)) e
    ∙ finish-forget c invalid_parameter buf t call s a.has_memory a.has_file small

pub opened_node :
    {A : Type 0} (c : Client) (t : Info) (refused x : A)
    → Able c t
    → (if t.is_open then x else refused) ≡ x
opened_node c t refused x a = if_true t.is_open x refused a.node_open

pub set_mode-through :
    (c : Client) (t : Info) (gpio : ℕ) (m : GpioMode) (s : System)
    → Able c t
    → Fitting (set_mode gpio m)
    → forget (through c (set_mode gpio m) t s) ≡ direct (set_mode gpio m) s
unfolding lib_set_gpio_mode store_gpio_mode
set_mode-through c t gpio m s a (f0, f1, f2) =
    let cs = signed ∷ signed ∷ signed ∷ [] in
    let vs = m.mode ∷ m.word0 ∷ m.word1 ∷ [] in
    let buf = sprintf cs vs [] in
    let other = pure (count (length buf), t) in
    let act : ℕ → ℕ → ℕ → M (Status × Info) = λ x y z.
      finish c.task buf t
        (on_device λ d. set_gpio_mode d gpio (record { mode = x; word0 = y; word1 = z })) in
    let handler = store_gpio_mode c.task gpio buf t in
    let busy = pure (capture_active, t) in
    ap (λ (x : M (ℕ × Info)). forget (x s))
      (granted c t
          (if lib_capture_running c then busy else write_file c invalid_parameter t handler) a
        ∙ idle c t busy (write_file c invalid_parameter t handler) a)
    ∙ answered c t buf handler (direct (set_mode gpio m)) s a
        (opened_node c t (pure (failed c.task invalid_handle t))
            (with_three (sscanf cs buf) other act) a
          ∙ ap (λ (xs : List ℕ). with_three xs other act)
              (sscanf-sprintf cs vs [] (f0, (f1, (f2, tt))) tt))
        (set_gpio_mode-small s.device gpio m)

-- A level that the toolkit takes is printed as one character.
level-printed :
    (d : Device) (gpio level : ℕ)
    → (set_gpio_output d gpio level).0 ≡ no_error
    → length (sprintf (signed ∷ []) (level ∷ []) []) ≡ 1
unfolding set_gpio_output sprintf print_one numeral
level-printed d gpio zero e = refl
level-printed d gpio (suc zero) e = refl
level-printed d gpio (suc (suc level)) e = absurd (ground (arith, e))

pub set_output-through :
    (c : Client) (t : Info) (gpio level : ℕ) (s : System)
    → Able c t
    → level < 2 ^ 32
    → forget (lib_set_gpio_output c gpio level t s) ≡ direct (set_output gpio level) s
unfolding lib_set_gpio_output store_gpio_level
set_output-through c t gpio level s a f =
    let buf = sprintf (signed ∷ []) (level ∷ []) [] in
    let other = pure (count (length buf), t) in
    let act : ℕ → M (Status × Info) =
      λ l. finish c.task buf t (on_device λ d. set_gpio_output d gpio l) in
    let handler = store_gpio_level c.task gpio buf t in
    let sent : M (Status × Info) → M (ℕ × Info) =
      λ h. (h >>= λ answer. pure (one_written c buf answer)) in
    let missing = pure (invalid_parameter, t) in
    ap (λ (x : M (ℕ × Info)). forget (x s))
      (granted c t (if c.file_there then sent handler else missing) a
        ∙ if_true c.file_there (sent handler) missing a.has_file)
    ∙ ap (λ (h : M (Status × Info)). forget (sent h s))
        (opened_node c t (pure (failed c.task invalid_handle t))
            (with_one (sscanf (signed ∷ []) buf) other act) a
          ∙ ap (λ (xs : List ℕ). with_one xs other act)
              (sscanf-sprintf (signed ∷ []) (level ∷ []) [] (f, tt) tt))
    ∙ ap (λ (v : ℕ). some (v, record s { device = (set_gpio_output s.device gpio level).1 }))
        (one_written-reported c (set_gpio_output s.device gpio level).0 buf t a.has_memory
          (set_gpio_output-small s.device gpio level) (level-printed s.device gpio level))

-- The handler refuses the voltages that the toolkit refuses.
pub voltage-agrees :
    (c : Client) (t : Info) (buf : List ℕ) (mask v : ℕ) (s : System)
    → c.task.memory ≡ true
    → c.file_there ≡ true
    → forget (
        write_file c invalid_parameter t
          (if (v == 0) || (v == 1)
            then finish c.task buf t (direct (set_voltage mask v))
            else pure (failed c.task invalid_parameter t))
          s)
      ≡ direct (set_voltage mask v) s
unfolding set_gpio_voltage
voltage-agrees c t buf mask v s memory there = elim (Bool-cases ((v == 0) || (v == 1))) [
  | inl fine ↦ rw fine (
      finish-forget c invalid_parameter buf t (direct (set_voltage mask v)) s memory there
        (set_gpio_voltage-small s.device mask v))
  | inr bad ↦ rw bad (
      finish-forget c invalid_parameter buf t (pure invalid_parameter) s memory there (omega arith)
      ∙ ap (λ (x : ℕ × Device). some (x.0, record s { device = x.1 }))
          (sym (voltage-refused s.device mask v bad)))
]

pub set_voltage-through :
    (c : Client) (t : Info) (mask v : ℕ) (s : System)
    → Able c t
    → (mask < 2 ^ 32) × (v < 2 ^ 32)
    → forget (lib_set_gpio_voltage c mask v t s) ≡ direct (set_voltage mask v) s
unfolding lib_set_gpio_voltage set_gpiovoltage digit_value
set_voltage-through c t mask v s a (f0, f1) =
    let cs = signed ∷ signed ∷ [] in
    let vs = mask ∷ v ∷ [] in
    let buf = sprintf cs vs (0x0a ∷ []) in
    let other = pure (failed c.task invalid_parameter t) in
    let act : ℕ → ℕ → M (Status × Info) = λ mask v.
      if (v == 0) || (v == 1)
      then finish c.task buf t (direct (set_voltage mask v))
      else pure (failed c.task invalid_parameter t) in
    let handler = set_gpiovoltage c.task buf t in
    ap (λ (x : M (ℕ × Info)). forget (x s))
      (granted c t (write_file c invalid_parameter t handler) a)
    ∙ ap (λ (h : M (Status × Info)). forget (write_file c invalid_parameter t h s))
        (opened_node c t (pure (failed c.task invalid_handle t))
            (with_two (sscanf cs buf) other act) a
          ∙ ap (λ (xs : List ℕ). with_two xs other act)
              (sscanf-sprintf cs vs (0x0a ∷ []) (f0, (f1, tt)) refl))
    ∙ voltage-agrees c t buf mask v s a.has_memory a.has_file
