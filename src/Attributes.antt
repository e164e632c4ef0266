-- ===== src/Attributes.antt =====
-- The attribute files of a device: what netanalyzer_kernel_mod/netana_tk_interface.c does when one is
-- written or read. The text of a write is a list of bytes, and `sscanf` stands in Text.
pub mod Reports
pub mod Errors
pub mod DeviceClass
mod Tests
use nadrvlinux.Prelude.{
  ℕ, ◌+◌, ◌-◌, ◌^◌, u16, Bool, true, false, not, ◌||◌, Option, none, some, List, [], ◌∷◌, ◌++◌,
  length, take, drop, get_or, replicate, ltb, ◌==◌, if◌then◌else◌,
}
use nadrvlinux.Codes.{no_error, invalid_parameter, invalid_handle, invalid_buffersize}
use nadrvlinux.Device.{Device}
use nadrvlinux.System.{System, M, pure, ◌>>=◌, the_device}
use nadrvlinux.Text.{Conversion, signed, unsigned, long_unsigned, hex, sprintf, sscanf}
use nadrvlinux.Tasks.{
  TaskInfo, Caller, Status, count, eperm, einval, eio, get_err, store_err, get_timeout,
  store_timeout,
}
use nadrvlinux.Gpio.{
  GpioMode, get_gpio_mode, set_gpio_mode, set_gpio_output, set_gpio_voltage, get_gpio_voltage,
}
use nadrvlinux.Filter.{Filter, FilterAnswer, get_filter, set_filter}
use nadrvlinux.Command.{
  access_phy_reg, phy_direction_read, phy_direction_write, resync_time, config_pi_controller,
  check_device_ident,
}
use nadrvlinux.Mailbox.{netana_put_packet, netana_get_packet, get_mbx_state}
use nadrvlinux.Session.{get_state}
use nadrvlinux.Capture.{signal_driver_error}

-- `struct netana_info`, with the filter arrays of `tkdevice`; `is_open` is whether `hdevice` is set.
pub record Info : Type 0 where
  pub tasks : List TaskInfo
  pub is_open : Bool
  pub maska : List ℕ
  pub vala : List ℕ
  pub maskb : List ℕ
  pub valb : List ℕ
  pub identinfoblock : List ℕ

-- `return store_err(ptdeviceinfo, …)`
abbrev pub failed : Caller → ℕ → Info → Status × Info
failed c code t =
    let (status, tasks) = store_err c code t.tasks in (status, record t { tasks = tasks })

-- The error of a call is stored; else `ret` is returned.
abbrev pub reported : Caller → (code : ℕ) → Status → Info → Status × Info
reported c code ret t = if code == no_error then (ret, t) else failed c code t

-- A call of a function of the toolkit that only works on the device.
abbrev pub on_device : (Device → ℕ × Device) → M ℕ
on_device f s = some ((f s.device).0, record s { device = (f s.device).1 })

-- The handlers of a write begin so.
abbrev pub if_open : {A : Type 0} → Info → A → A → A
if_open t refused a = if t.is_open then a else refused

-- `if (n == sscanf(…))`: what is done with the values, and what without all of them.
abbrev pub with_one : {A : Type 0} → List ℕ → A → (ℕ → A) → A
with_one [] other f = other
with_one (x ∷ xs) other f = f x

abbrev pub with_two : {A : Type 0} → List ℕ → A → (ℕ → ℕ → A) → A
with_two [] other f = other
with_two (x ∷ []) other f = other
with_two (x ∷ y ∷ xs) other f = f x y

abbrev pub with_three : {A : Type 0} → List ℕ → A → (ℕ → ℕ → ℕ → A) → A
with_three [] other f = other
with_three (x ∷ []) other f = other
with_three (x ∷ y ∷ []) other f = other
with_three (x ∷ y ∷ z ∷ xs) other f = f x y z

-- What follows a call of the toolkit in a write.
abbrev pub finish : Caller → List ℕ → Info → M ℕ → M (Status × Info)
finish c buf t call = call >>= λ code. pure (reported c code (count (length buf)) t)

unfoldable pub store_gpio_mode : Caller → (gpio : ℕ) → List ℕ → Info → M (Status × Info)
store_gpio_mode c gpio buf t = if_open t (pure (failed c invalid_handle t)) (
    with_three (sscanf (signed ∷ signed ∷ signed ∷ []) buf) (pure (count (length buf), t))
      λ mode triggers delay. finish c buf t (
        on_device
          λ d. set_gpio_mode d gpio (record { mode = mode; word0 = triggers; word1 = delay })))

unfoldable pub store_gpio_level : Caller → (gpio : ℕ) → List ℕ → Info → M (Status × Info)
store_gpio_level c gpio buf t = if_open t (pure (failed c invalid_handle t)) (
    with_one (sscanf (signed ∷ []) buf) (pure (count (length buf), t))
      λ level. finish c buf t (on_device λ d. set_gpio_output d gpio level))

unfoldable pub set_gpiovoltage : Caller → List ℕ → Info → M (Status × Info)
set_gpiovoltage c buf t = if_open t (pure (failed c invalid_handle t)) (
    with_two (sscanf (signed ∷ signed ∷ []) buf) (pure (failed c invalid_parameter t))
      λ mask voltage.
        if (voltage == 0) || (voltage == 1)
        then finish c buf t (on_device λ d. set_gpio_voltage d mask voltage)
        else pure (failed c invalid_parameter t))

unfoldable pub phy_set_reg_val : Caller → (phy reg : ℕ) → List ℕ → Info → M (Status × Info)
phy_set_reg_val c phy reg buf t = if_open t (pure (failed c invalid_handle t)) (
    with_one (sscanf (unsigned ∷ []) buf) (pure (count (length buf), t)) λ value. finish c buf t (
      access_phy_reg phy_direction_write phy reg (u16 value) (get_timeout c t.tasks) >>= λ answer.
      pure answer.0))

unfoldable pub pi_config : Caller → List ℕ → Info → M (Status × Info)
pi_config c buf t = if_open t (pure (failed c invalid_handle t)) (
    with_two (sscanf (signed ∷ signed ∷ []) buf) (pure (failed c invalid_parameter t))
      λ p i. finish c buf t (config_pi_controller p i))

unfoldable pub time_config : Caller → List ℕ → Info → M (Status × Info)
time_config c buf t = if_open t (pure (failed c invalid_handle t)) (
    with_one (sscanf (long_unsigned ∷ []) buf) (pure (failed c invalid_parameter t))
      λ time. finish c buf t (resync_time time))

unfoldable pub timeout_config : Caller → List ℕ → Info → Status × Info
timeout_config c buf t = if_open t (failed c invalid_handle t) (
    with_one (sscanf (signed ∷ []) buf) (failed c invalid_parameter t)
      λ timeout. (count (length buf), record t { tasks = store_timeout c timeout t.tasks }))

unfoldable pub fwerror_store : Caller → List ℕ → Info → M (Status × Info)
fwerror_store c buf t = if_open t (pure (failed c invalid_handle t)) (
    with_one (sscanf (signed ∷ []) buf) (pure (count (length buf), t))
      λ error. finish c buf t (signal_driver_error error))

-- The filter that the arrays make, with a size that the text gives.
abbrev pub staged : ℕ → List ℕ → List ℕ → Option Filter
staged size mask value = some (record { filter_size = size; mask = some mask; value = some value })

unfoldable pub store_relation : Caller → (port : ℕ) → List ℕ → Info → M (Status × Info)
store_relation c port buf t = if_open t (pure (failed c invalid_handle t)) (
    with_three (sscanf (signed ∷ signed ∷ signed ∷ []) buf) (pure (count (length buf), t))
      λ relation size_a size_b. finish c buf t (
        on_device λ d.
          set_filter d port (staged size_a t.maska t.vala) (staged size_b t.maskb t.valb) relation))

-- The four binary attributes of a filter. Other names are not created.
pub data FilterPart : Type 0 where
  mask_a value_a mask_b value_b : FilterPart

abbrev pub with_part : FilterPart → (List ℕ → List ℕ) → Info → Info
with_part mask_a f t = record t { maska = f t.maska }
with_part value_a f t = record t { vala = f t.vala }
with_part mask_b f t = record t { maskb = f t.maskb }
with_part value_b f t = record t { valb = f t.valb }

-- `memset` over the size of a filter, and `memcpy` of the bytes.
abbrev pub filled : (size : ℕ) → List ℕ → List ℕ → List ℕ
filled size buf old = buf ++ drop (length buf) (replicate size 0 ++ drop size old)

unfoldable pub store_filter : Caller → FilterPart → List ℕ → Info → M (Status × Info)
store_filter c part buf t = if_open t (pure (failed c invalid_handle t)) (
    the_device >>= λ d.
    if (length buf == 0) || ltb d.filter_size (length buf)
    then pure (failed c invalid_buffersize t)
    else pure (count (length buf), with_part part (filled d.filter_size buf) t))

unfoldable pub write_ident : Caller → List ℕ → Info → M (Status × Info)
write_ident c buf t = if_open t (pure (failed c invalid_handle t)) (
    check_device_ident (length buf) (some (buf ++ drop (length buf) t.identinfoblock)) >>= λ answer.
    pure (reported c answer.0 (count (length buf)) (record t { identinfoblock = block answer.1 })))
  where
    block : Option (List ℕ) → List ℕ
    block none = t.identinfoblock
    block (some bytes) = bytes

-- `mutex` is whether the send mailbox is free for this task in time.
unfoldable pub write_mbx_packet : Caller → (mutex : Bool) → List ℕ → Info → M (Status × Info)
write_mbx_packet c mutex buf t =
    if_open t (pure (failed c invalid_handle t))
      (finish c buf t (netana_put_packet mutex buf (get_timeout c t.tasks)))

-- What a read gives: the status and the text, and the node afterwards. On an error there is no text.
abbrev pub Shown : Type 0
Shown = Status × List ℕ × Info

abbrev pub refused : Caller → ℕ → Info → Shown
refused c code t = let (status, t') = failed c code t in (status, [], t')

abbrev pub text : List ℕ → Info → Shown
text s t = (count (length s), s, t)

unfoldable pub get_last_error : Caller → Info → Shown
get_last_error c t = text (sprintf (hex ∷ []) (get_err c t.tasks ∷ []) (0x0a ∷ [])) t

unfoldable pub gpio_get_reg_val : Caller → (gpio : ℕ) → Info → Device → Shown
gpio_get_reg_val c gpio t d = if_open t (refused c invalid_handle t) (shown (get_gpio_mode d gpio))
  where
    shown : ℕ × Option GpioMode → Shown
    shown (code, none) = refused c code t
    shown (code, some m) =
        text (sprintf (signed ∷ signed ∷ signed ∷ []) (m.mode ∷ m.word0 ∷ m.word1 ∷ []) (0x0a ∷ []))
          t

unfoldable pub get_gpiovoltage : Caller → (gpio : ℕ) → Info → Device → Shown
get_gpiovoltage c gpio t d =
    if_open t (refused c invalid_handle t) (shown (get_gpio_voltage d gpio))
  where
    shown : ℕ × Option ℕ → Shown
    shown (code, none) = refused c code t
    shown (code, some voltage) = text (sprintf (signed ∷ []) (voltage ∷ []) (0x0a ∷ [])) t

unfoldable pub phy_get_reg_val : Caller → (phy reg : ℕ) → Info → M Shown
phy_get_reg_val c phy reg t = if_open t (pure (refused c invalid_handle t)) (
    access_phy_reg phy_direction_read phy reg 0 (get_timeout c t.tasks) >>= λ answer. pure (
      if answer.0 == no_error
      then text (sprintf (unsigned ∷ []) (answer.1 ∷ []) (0x0a ∷ [])) t
      else refused c answer.0 t))

unfoldable pub devstate_show : Caller → Info → Device → Shown
devstate_show c t d =
    if_open t (refused c invalid_handle t)
      (text (sprintf (hex ∷ hex ∷ []) ((get_state d).1 ∷ (get_state d).2 ∷ []) (0x0a ∷ [])) t)

unfoldable pub read_mbx_status : Caller → Info → Device → Shown
read_mbx_status c t d = if_open t (refused c invalid_handle t) (shown (get_mbx_state d))
  where
    shown : ℕ × Option (ℕ × ℕ) → Shown
    shown (code, none) = refused c code t
    shown (code, some (received, sent)) =
        text (sprintf (unsigned ∷ unsigned ∷ []) (received ∷ sent ∷ []) (0x0a ∷ [])) t

unfoldable pub read_mbx_packet : Caller → (mutex : Bool) → (size : ℕ) → Info → M Shown
read_mbx_packet c mutex size t = if_open t (pure (refused c invalid_handle t)) (
    netana_get_packet mutex size (get_timeout c t.tasks) >>= λ answer.
    pure (if answer.0 == no_error then (count size, answer.1, t) else refused c answer.0 t))

-- The block is cleared from its beginning, wherever the read began.
unfoldable pub read_ident : Caller → (off size : ℕ) → Info → Shown
read_ident c off size t = if_open t (refused c invalid_handle t) (
  count size,
  take size (drop off t.identinfoblock),
  record t { identinfoblock = replicate size 0 ++ drop size t.identinfoblock },
)
