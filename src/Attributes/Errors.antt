-- ===== src/Attributes/Errors.antt =====
-- The errors of twelve handlers of netanalyzer_kernel_mod/netana_tk_interface.c that are written.
use nadrvlinux.Prelude.{
  ℕ, u16, Bool, true, false, ◌||◌, ltb, Option, none, some, List, [], ◌∷◌, length, ◌++◌, drop, ◌==◌,
  if◌then◌else◌, ◌≡◌, refl, inl, arith,
}
use nadrvlinux.Codes.{no_error, invalid_handle, invalid_parameter, invalid_buffersize}
use nadrvlinux.System.{System, M, pure, ◌>>=◌, the_device}
use nadrvlinux.Text.{signed, unsigned, long_unsigned, sscanf}
use nadrvlinux.Tasks.{Caller, Status, count, get_timeout, store_timeout}
use nadrvlinux.Tasks.Refinement.{find_err-store_timeout}
use nadrvlinux.Command.{
  check_device_ident, config_pi_controller, resync_time, access_phy_reg, phy_direction_write,
}
use nadrvlinux.Gpio.{set_gpio_mode, set_gpio_output, set_gpio_voltage}
use nadrvlinux.Filter.{set_filter}
use nadrvlinux.Capture.{signal_driver_error}
use nadrvlinux.Mailbox.{netana_put_packet}
use nadrvlinux.Attributes.{
  mask_a, value_a, mask_b, value_b, staged, on_device, Info, FilterPart, with_part, filled, failed,
  reported, if_open, with_one, with_two, with_three, finish, store_gpio_mode, store_gpio_level,
  set_gpiovoltage, phy_set_reg_val, pi_config, time_config, timeout_config, fwerror_store,
  store_relation, store_filter, write_ident, write_mbx_packet,
}
use nadrvlinux.Attributes.Reports.{
  Told, Answered, reported-Told, finish-Answered, either-Answered, one-Answered, two-Answered,
  three-Answered, open-Answered, refused-Answered, ignored-Answered,
}

-- The files that are written here.
pub data File : Type 0 where
  gpio_mode gpio_level : (gpio : ℕ) → File
  voltage pi time timeout fw_error ident : File
  phy_value : (phy reg : ℕ) → File
  relation : (port : ℕ) → File
  filter_part : FilterPart → File
  mailbox : (mutex : Bool) → File

abbrev pub written : File → Caller → List ℕ → Info → M (Status × Info)
written (gpio_mode gpio) c buf t = store_gpio_mode c gpio buf t
written (gpio_level gpio) c buf t = store_gpio_level c gpio buf t
written voltage c buf t = set_gpiovoltage c buf t
written pi c buf t = pi_config c buf t
written time c buf t = time_config c buf t
written timeout c buf t = pure (timeout_config c buf t)
written fw_error c buf t = fwerror_store c buf t
written ident c buf t = write_ident c buf t
written (phy_value phy reg) c buf t = phy_set_reg_val c phy reg buf t
written (relation port) c buf t = store_relation c port buf t
written (filter_part part) c buf t = store_filter c part buf t
written (mailbox mutex) c buf t = write_mbx_packet c mutex buf t

-- The code of what a write asks for: the call of the toolkit with the values in the text, if the device is
-- open. Where the text lacks a value, nothing is done, or the parameter is invalid.
abbrev pub asked : File → Caller → List ℕ → Info → M ℕ
asked (gpio_mode gpio) c buf t = if_open t (pure invalid_handle) (
    with_three (sscanf (signed ∷ signed ∷ signed ∷ []) buf) (pure no_error)
      λ x y z. on_device λ d. set_gpio_mode d gpio (record { mode = x; word0 = y; word1 = z }))
asked (gpio_level gpio) c buf t = if_open t (pure invalid_handle) (
    with_one (sscanf (signed ∷ []) buf) (pure no_error)
      λ x. on_device λ d. set_gpio_output d gpio x)
asked voltage c buf t = if_open t (pure invalid_handle) (
    with_two (sscanf (signed ∷ signed ∷ []) buf) (pure invalid_parameter) λ mask v.
      if (v == 0) || (v == 1)
      then (on_device λ d. set_gpio_voltage d mask v)
      else pure invalid_parameter)
asked pi c buf t = if_open t (pure invalid_handle) (
    with_two (sscanf (signed ∷ signed ∷ []) buf) (pure invalid_parameter)
      λ p i. config_pi_controller p i)
asked time c buf t =
    if_open t (pure invalid_handle)
      (with_one (sscanf (long_unsigned ∷ []) buf) (pure invalid_parameter) λ x. resync_time x)
asked timeout c buf t =
    if_open t (pure invalid_handle)
      (with_one (sscanf (signed ∷ []) buf) (pure invalid_parameter) λ x. pure no_error)
asked fw_error c buf t =
    if_open t (pure invalid_handle)
      (with_one (sscanf (signed ∷ []) buf) (pure no_error) λ x. signal_driver_error x)
asked ident c buf t = if_open t (pure invalid_handle) (
    check_device_ident (length buf) (some (buf ++ drop (length buf) t.identinfoblock)) >>= λ answer.
    pure answer.0)
asked (phy_value phy reg) c buf t = if_open t (pure invalid_handle) (
    with_one (sscanf (unsigned ∷ []) buf) (pure no_error) λ x.
      access_phy_reg phy_direction_write phy reg (u16 x) (get_timeout c t.tasks) >>= λ answer.
      pure answer.0)
asked (relation port) c buf t = if_open t (pure invalid_handle) (
    with_three (sscanf (signed ∷ signed ∷ signed ∷ []) buf) (pure no_error) λ r a b.
      on_device λ d. set_filter d port (staged a t.maska t.vala) (staged b t.maskb t.valb) r)
asked (filter_part part) c buf t = if_open t (pure invalid_handle) (
    the_device >>= λ d.
    if (length buf == 0) || ltb d.filter_size (length buf)
    then pure invalid_buffersize
    else pure no_error)
asked (mailbox mutex) c buf t =
    if_open t (pure invalid_handle) (netana_put_packet mutex buf (get_timeout c t.tasks))

module _ (c : Caller) (memory : c.memory ≡ true) (buf : List ℕ) (t : Info) (s : System) where
  abbrev Holds : M ℕ → M (Status × Info) → Type 0
  Holds x' x = Answered c t.tasks (length buf) (x' s) (x s)

  opened :
      (x' : M ℕ) (x : M (Status × Info))
      → Holds x' x
      → Holds (if_open t (pure invalid_handle) x') (if_open t (pure (failed c invalid_handle t)) x)
  opened x' x h = open-Answered c memory t (length buf) x' x s h

  called : (call : M ℕ) → Holds call (finish c buf t call)
  called call = finish-Answered c memory t buf call s

  ignored : Holds (pure no_error) (pure (count (length buf), t))
  ignored = ignored-Answered c memory t (length buf) s

  invalid : Holds (pure invalid_parameter) (pure (failed c invalid_parameter t))
  invalid = refused-Answered c memory t (length buf) invalid_parameter s (omega arith)

  gpio_mode-Answered :
      (gpio : ℕ) → Holds (asked (gpio_mode gpio) c buf t) (store_gpio_mode c gpio buf t)
  unfolding store_gpio_mode
  gpio_mode-Answered gpio = opened _ _ (
      three-Answered c memory t (length buf) (sscanf (signed ∷ signed ∷ signed ∷ []) buf) _ _ _ _ s
        ignored
        (λ x y z.
          called (on_device λ d. set_gpio_mode d gpio (record { mode = x; word0 = y; word1 = z }))))

  gpio_level-Answered :
      (gpio : ℕ) → Holds (asked (gpio_level gpio) c buf t) (store_gpio_level c gpio buf t)
  unfolding store_gpio_level
  gpio_level-Answered gpio = opened _ _ (
      one-Answered c memory t (length buf) (sscanf (signed ∷ []) buf) _ _ _ _ s ignored
        (λ x. called (on_device λ d. set_gpio_output d gpio x)))

  voltage-Answered : Holds (asked voltage c buf t) (set_gpiovoltage c buf t)
  unfolding set_gpiovoltage
  voltage-Answered = opened _ _ (
      two-Answered c memory t (length buf) (sscanf (signed ∷ signed ∷ []) buf) _ _ _ _ s invalid
        (λ mask v.
          either-Answered c memory t (length buf) ((v == 0) || (v == 1)) _ _ _ _ s
            (called (on_device λ d. set_gpio_voltage d mask v)) invalid))

  pi-Answered : Holds (asked pi c buf t) (pi_config c buf t)
  unfolding pi_config
  pi-Answered = opened _ _ (
      two-Answered c memory t (length buf) (sscanf (signed ∷ signed ∷ []) buf) _ _ _ _ s invalid
        (λ p i. called (config_pi_controller p i)))

  time-Answered : Holds (asked time c buf t) (time_config c buf t)
  unfolding time_config
  time-Answered = opened _ _ (
      one-Answered c memory t (length buf) (sscanf (long_unsigned ∷ []) buf) _ _ _ _ s invalid
        (λ x. called (resync_time x)))

  fw_error-Answered : Holds (asked fw_error c buf t) (fwerror_store c buf t)
  unfolding fwerror_store
  fw_error-Answered = opened _ _ (
      one-Answered c memory t (length buf) (sscanf (signed ∷ []) buf) _ _ _ _ s ignored
        (λ x. called (signal_driver_error x)))

  phy-Answered :
      (phy reg : ℕ) → Holds (asked (phy_value phy reg) c buf t) (phy_set_reg_val c phy reg buf t)
  unfolding phy_set_reg_val
  phy-Answered phy reg = opened _ _ (
      one-Answered c memory t (length buf) (sscanf (unsigned ∷ []) buf) _ _ _ _ s ignored (λ x.
        called (
          access_phy_reg phy_direction_write phy reg (u16 x) (get_timeout c t.tasks) >>= λ answer.
          pure answer.0)))

  relation-Answered :
      (port : ℕ) → Holds (asked (relation port) c buf t) (store_relation c port buf t)
  unfolding store_relation
  relation-Answered port = opened _ _ (
      three-Answered c memory t (length buf) (sscanf (signed ∷ signed ∷ signed ∷ []) buf) _ _ _ _ s
        ignored
        (λ r a b.
          called (
            on_device
              λ d. set_filter d port (staged a t.maska t.vala) (staged b t.maskb t.valb) r)))

  mailbox-Answered :
      (mutex : Bool) → Holds (asked (mailbox mutex) c buf t) (write_mbx_packet c mutex buf t)
  unfolding write_mbx_packet
  mailbox-Answered mutex = opened _ _ (called (netana_put_packet mutex buf (get_timeout c t.tasks)))

  with_part-Told :
      (part : FilterPart) (f : List ℕ → List ℕ)
      → Told c t.tasks (length buf) no_error (count (length buf), with_part part f t)
  with_part-Told mask_a f = inl (refl, refl, λ pid. refl)
  with_part-Told value_a f = inl (refl, refl, λ pid. refl)
  with_part-Told mask_b f = inl (refl, refl, λ pid. refl)
  with_part-Told value_b f = inl (refl, refl, λ pid. refl)

  filter-Answered :
      (part : FilterPart) → Holds (asked (filter_part part) c buf t) (store_filter c part buf t)
  unfolding store_filter
  filter-Answered part = opened _ _ (
      either-Answered c memory t (length buf)
        ((length buf == 0) || ltb s.device.filter_size (length buf)) _ _ _ _ s
        (refused-Answered c memory t (length buf) invalid_buffersize s (omega arith))
        (refl, with_part-Told part (filled s.device.filter_size buf)))

  timeout-Answered : Holds (asked timeout c buf t) (pure (timeout_config c buf t))
  unfolding timeout_config
  timeout-Answered = either t.is_open
    where
      answer : Status × Info
      answer =
          with_one (sscanf (signed ∷ []) buf) (failed c invalid_parameter t)
            (λ timeout. (count (length buf), record t { tasks = store_timeout c timeout t.tasks }))

      scanned :
          (xs : List ℕ)
          → Holds (with_one xs (pure invalid_parameter) (λ x. pure no_error)) (
              pure (
                with_one xs (failed c invalid_parameter t) (λ timeout.
                  (count (length buf), record t { tasks = store_timeout c timeout t.tasks }))))
      scanned [] = invalid
      scanned (x ∷ xs) = (refl, inl (refl, refl, λ pid. find_err-store_timeout pid c x t.tasks))

      either :
          (b : Bool)
          → Holds
              (if b
                then with_one
                    (sscanf (signed ∷ []) buf)
                    (pure invalid_parameter)
                    (λ x. pure no_error)
                else pure invalid_handle)
              (pure (if b then answer else failed c invalid_handle t))
      either true = scanned (sscanf (signed ∷ []) buf)
      either false = refused-Answered c memory t (length buf) invalid_handle s (omega arith)

  ident-Answered : Holds (asked ident c buf t) (write_ident c buf t)
  unfolding write_ident
  ident-Answered =
      opened _ _ (
        ended
          (check_device_ident (length buf) (some (buf ++ drop (length buf) t.identinfoblock)) s))
    where
      block : Option (List ℕ) → List ℕ
      block none = t.identinfoblock
      block (some bytes) = bytes

      ended :
          (o : Option ((ℕ × Option (List ℕ)) × System))
          → Answered c t.tasks
              (length buf)
              (elim o as (λ x. Option (ℕ × System)) [ none ↦ none | some x ↦ pure x.0.0 x.1 ])
              (elim o as (λ x. Option ((Status × Info) × System)) [
                | none ↦ none
                | some x ↦
                    pure
                      (reported c x.0.0
                        (count (length buf))
                        (record t { identinfoblock = block x.0.1 }))
                      x.1
              ])
      ended none = tt
      ended (some ((code, b), s')) =
          (refl, reported-Told c memory (record t { identinfoblock = block b }) (length buf) code)

-- To the file of the mode or level of a GPIO, the voltages, the PI controller, the time, the timeout, a
-- driver error, an identification, a PHY register, the relation or a part of a filter, or a packet: what is
-- written, by a task for whose entry there is memory, is answered with the code of what the text asks
-- for, and leaves the system as that does, or waits for ever where that does. Without error, the handler
-- returns the count of the bytes and every task reads the error that it read before; with one, it
-- returns -EPERM, the task reads this error, and every other task the one that it read before.
pub written-Answered :
    (f : File) (c : Caller) (buf : List ℕ) (t : Info) (s : System)
    → c.memory ≡ true
    → Answered c t.tasks (length buf) (asked f c buf t s) (written f c buf t s)
written-Answered (gpio_mode gpio) c buf t s m = gpio_mode-Answered c m buf t s gpio
written-Answered (gpio_level gpio) c buf t s m = gpio_level-Answered c m buf t s gpio
written-Answered voltage c buf t s m = voltage-Answered c m buf t s
written-Answered pi c buf t s m = pi-Answered c m buf t s
written-Answered time c buf t s m = time-Answered c m buf t s
written-Answered timeout c buf t s m = timeout-Answered c m buf t s
written-Answered fw_error c buf t s m = fw_error-Answered c m buf t s
written-Answered ident c buf t s m = ident-Answered c m buf t s
written-Answered (phy_value phy reg) c buf t s m = phy-Answered c m buf t s phy reg
written-Answered (relation port) c buf t s m = relation-Answered c m buf t s port
written-Answered (filter_part part) c buf t s m = filter-Answered c m buf t s part
written-Answered (mailbox mutex) c buf t s m = mailbox-Answered c m buf t s mutex
