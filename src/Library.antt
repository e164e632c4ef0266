-- ===== src/Library.antt =====
-- The user library, libnetana/netana_functions.c: calls on a device that go through its attribute files.
-- Each of them is the call of the library, the file of the kernel and the handler behind it.
pub mod Through
pub mod Calls
pub mod Reach
pub mod EndToEnd
mod Tests
use nadrvlinux.Prelude.{
  ℕ, ◌+◌, ◌<◌, ◌%◌, bit_and, u16, Bool, true, false, not, ◌&&◌, Option, none, some, List, [], ◌∷◌,
  ◌++◌, length, ltb, leb, ◌==◌, if◌then◌else◌,
}
use nadrvlinux.Codes.{
  no_error, invalid_parameter, invalid_handle, function_failed, capture_active, buffer_too_short,
  transfer_timeout,
}
use nadrvlinux.Device.{Device}
use nadrvlinux.System.{System, M, pure, ◌>>=◌, the_device}
use nadrvlinux.Text.{Conversion, signed, unsigned, long_unsigned, hex, sprintf, sscanf}
use nadrvlinux.Tasks.{Caller, Status, count, eperm, einval, eio}
use nadrvlinux.Gpio.{GpioMode}
use nadrvlinux.Command.{phy_direction_read, phy_direction_write}
use nadrvlinux.Attributes.{
  Info, Shown, store_gpio_mode, store_gpio_level, set_gpiovoltage, phy_set_reg_val, phy_get_reg_val,
  pi_config, time_config, timeout_config, gpio_get_reg_val, get_gpiovoltage, get_last_error,
  fwerror_store,
}

-- A task, the handles that it has opened, the state of the capture on this one, and whether the
-- attribute file that a call needs and the one for the timeout can be opened.
pub record Client : Type 0 where
  pub task : Caller
  pub handles : List ℕ
  pub handle : ℕ
  pub capture_state : ℕ
  pub file_there : Bool
  pub timeout_there : Bool

-- The search of the list; a null handle is 0.
unfoldable pub listed_handle : ℕ → List ℕ → Bool
listed_handle h [] = false
listed_handle h (x ∷ xs) = let rest = listed_handle h xs in if x == h then true else rest

unfoldable pub check_device_handle : Client → ℕ
unfolding listed_handle
check_device_handle c =
    if c.handle == 0
    then invalid_parameter
    else if listed_handle c.handle c.handles
    then no_error
    else invalid_handle

abbrev pub lib_capture_running : Client → Bool
lib_capture_running c = not (c.capture_state == 0)

-- `CHECK_HANDLE`
abbrev pub checked : Client → Info → M (ℕ × Info) → M (ℕ × Info)
checked c t call =
    if check_device_handle c == no_error then call else pure (check_device_handle c, t)

abbrev pub first_or : ℕ → List ℕ → ℕ
first_or other [] = other
first_or other (v ∷ vs) = v

-- The error that the kernel keeps for this task.
unfoldable pub get_error : Client → Info → ℕ
unfolding get_last_error
get_error c t = first_or function_failed (sscanf (hex ∷ []) (get_last_error c.task t).1)

-- An unbuffered write fails when the handler returns the negative of an error number.
abbrev pub written_code : Client → Status × Info → ℕ × Info
written_code c (count n, t) = (no_error, t)
written_code c (eperm, t) = (get_error c t, t)
written_code c (einval, t) = (get_error c t, t)
written_code c (eio, t) = (get_error c t, t)

-- The level of a GPIO is tested to have been written as one character.
abbrev pub one_written : Client → List ℕ → Status × Info → ℕ × Info
one_written c buf (count n, t) = if length buf == 1 then (no_error, t) else (get_error c t, t)
one_written c buf (eperm, t) = (get_error c t, t)
one_written c buf (einval, t) = (get_error c t, t)
one_written c buf (eio, t) = (get_error c t, t)

-- `get_attribute_handle` and the write; a file that cannot be opened leaves `lRet` as it was.
abbrev pub write_file : Client → (ret : ℕ) → Info → M (Status × Info) → M (ℕ × Info)
write_file c ret t handler =
    if c.file_there then (handler >>= λ answer. pure (written_code c answer)) else pure (ret, t)

unfoldable pub lib_set_gpio_mode : Client → (gpio : ℕ) → GpioMode → Info → M (ℕ × Info)
lib_set_gpio_mode c gpio m t = checked c t (
    if lib_capture_running c
    then pure (capture_active, t)
    else write_file c invalid_parameter t (
        store_gpio_mode c.task gpio
          (sprintf (signed ∷ signed ∷ signed ∷ []) (m.mode ∷ m.word0 ∷ m.word1 ∷ []) []) t))

unfoldable pub lib_set_gpio_output : Client → (gpio level : ℕ) → Info → M (ℕ × Info)
lib_set_gpio_output c gpio level t =
    let buf = sprintf (signed ∷ []) (level ∷ []) [] in
    checked c t (
      if c.file_there
      then (store_gpio_level c.task gpio buf t >>= λ answer. pure (one_written c buf answer))
      else pure (invalid_parameter, t))

unfoldable pub lib_set_gpio_voltage : Client → (mask voltage : ℕ) → Info → M (ℕ × Info)
lib_set_gpio_voltage c mask voltage t = checked c t (
    write_file c invalid_parameter t
      (set_gpiovoltage c.task (sprintf (signed ∷ signed ∷ []) (mask ∷ voltage ∷ []) (0x0a ∷ [])) t))

unfoldable pub lib_config_pi_controller : Client → (p i : ℕ) → Info → M (ℕ × Info)
lib_config_pi_controller c p i t = checked c t (
    if lib_capture_running c
    then pure (capture_active, t)
    else write_file c invalid_parameter t
        (pi_config c.task (sprintf (signed ∷ signed ∷ []) (p ∷ i ∷ []) []) t))

unfoldable pub lib_resync_time : Client → (time : ℕ) → Info → M (ℕ × Info)
lib_resync_time c time t = checked c t (
    write_file c invalid_parameter t
      (time_config c.task (sprintf (long_unsigned ∷ []) (time ∷ []) []) t))

unfoldable pub signal_drv_error : Client → (error : ℕ) → Info → M (ℕ × Info)
signal_drv_error c error t = checked c t (
    write_file c invalid_parameter t
      (fwerror_store c.task (sprintf (signed ∷ []) (error ∷ []) []) t))

unfoldable pub update_timeout : Client → (timeout : ℕ) → Info → ℕ × Info
update_timeout c timeout t =
    if c.timeout_there
    then written_code c (timeout_config c.task (sprintf (unsigned ∷ []) (timeout ∷ []) []) t)
    else (invalid_handle, t)

-- A read that gives a text is scanned; a failed one gives none.
abbrev pub read_values : List Conversion → Shown → List ℕ
read_values cs (count n, s, t) = sscanf cs s
read_values cs (eperm, s, t) = []
read_values cs (einval, s, t) = []
read_values cs (eio, s, t) = []

-- The code, the caller's value, and the node. `value` is 16 bits.
unfoldable pub lib_access_phy_reg :
    Client → (direction phy reg value timeout : ℕ) → Info → M ((ℕ × ℕ) × Info)
unfolding update_timeout
lib_access_phy_reg c direction phy reg value timeout t =
    if not (check_device_handle c == no_error)
    then pure ((check_device_handle c, value), t)
    else access (update_timeout c timeout t)
  where
    access : ℕ × Info → M ((ℕ × ℕ) × Info)
    access (code, t') =
        if not (code == no_error)
        then pure ((code, value), t')
        else if not c.file_there
        then pure ((code, value), t')
        else if direction == phy_direction_read
        then (phy_get_reg_val c.task phy reg t' >>= λ shown.
            pure (elim (read_values (unsigned ∷ []) shown) [
              | [] ↦ ((get_error c shown.2, value), shown.2)
              | v ∷ vs ↦ ((no_error, u16 v), shown.2)
            ]))
        else if direction == phy_direction_write
        then (phy_set_reg_val c.task phy reg (sprintf (unsigned ∷ []) (value ∷ []) []) t'
            >>= λ answer. pure (let (ret, t2) = written_code c answer in ((ret, value), t2)))
        else pure ((code, value), t')

-- The code and the mode.
unfoldable pub lib_get_gpio_mode : Client → (gpio : ℕ) → Info → Device → ℕ × Option GpioMode × Info
lib_get_gpio_mode c gpio t d =
    if not (check_device_handle c == no_error)
    then (check_device_handle c, none, t)
    else if lib_capture_running c
    then (capture_active, none, t)
    else if not c.file_there
    then (invalid_parameter, none, t)
    else scanned (read_values (signed ∷ signed ∷ signed ∷ []) shown)
  where
    shown : Shown
    shown = gpio_get_reg_val c.task gpio t d

    scanned : List ℕ → ℕ × Option GpioMode × Info
    scanned (a ∷ b ∷ e ∷ vs) = (no_error, some (record { mode = a; word0 = b; word1 = e }), shown.2)
    scanned [] = (get_error c shown.2, none, shown.2)
    scanned (a ∷ []) = (get_error c shown.2, none, shown.2)
    scanned (a ∷ b ∷ []) = (get_error c shown.2, none, shown.2)
