-- ===== src/Registry.antt =====
-- The list of the devices: netana_enum_device, netana_open_device and netana_close_device of
-- netanalyzer_kernel_mod/toolkit/netana_functions.c.
pub mod Exclusive
pub mod Defaults
mod Tests
use nadrvlinux.Prelude.{
  ℕ, zero, suc, ◌+◌, ◌-◌, bit_and, u32, Bool, true, false, not, Option, none, some, List, [], ◌∷◌,
  get_or, get_elem?, set, length, ltb, ◌==◌, if◌then◌else◌,
}
use nadrvlinux.Codes.{
  no_error, invalid_parameter, access_denied, device_not_found, device_still_open, device_not_open,
}
use nadrvlinux.Device.{Device, DpmFilter}
use nadrvlinux.Filter.{Filter, no_filter, set_filter}
use nadrvlinux.Gpio.{nanl_dev_class, no_block}

abbrev pub nscp_dev_class : ℕ
nscp_dev_class = 0x31

abbrev pub cifx_dev_class : ℕ
cifx_dev_class = 0x03

-- NETANA_DEV_CLASS_xxx
abbrev pub class_nanl_500 : ℕ
class_nanl_500 = 1

abbrev pub class_nscp_100 : ℕ
class_nscp_100 = 2

abbrev pub class_cifx : ℕ
class_cifx = 4

-- `g_tCardList`, and the filter that USER_SetDevClassFilter keeps.
pub record Registry : Type 0 where
  pub cards : List Device
  pub dev_class_filter : ℕ

-- The filter in use, which is set to its default when there is none.
unfoldable pub with_class_filter : Registry → Registry
with_class_filter g =
    if g.dev_class_filter == 0 then record g { dev_class_filter = class_nanl_500 } else g

-- `fSkip` is 0.
unfoldable pub class_allowed : ℕ → ℕ → Bool
class_allowed filter class =
    if class == nanl_dev_class
    then bit_and class_nanl_500 filter == class_nanl_500
    else if class == nscp_dev_class
    then bit_and class_nscp_100 filter == class_nscp_100
    else if class == cifx_dev_class
    then bit_and class_cifx filter == class_cifx
    else false

-- The code, and the device that the information is about.
unfoldable pub enum_device : ℕ → Registry → ℕ × Option Device × Registry
unfolding with_class_filter class_allowed
enum_device card g =
    if ltb (length g.cards) card
    then (device_not_found, none, g)
    else found (get_elem? g.cards card)
  where
    found : Option Device → ℕ × Option Device × Registry
    found none = (device_not_found, none, g)
    found (some d) =
        if class_allowed (with_class_filter g).dev_class_filter d.info.device_class
        then (no_error, some d, with_class_filter g)
        else (access_denied, none, with_class_filter g)

-- The structures that the reset of a port passes.
abbrev pub default_a : Device → ℕ → Filter
default_a d port = record {
  filter_size = d.filter_size;
  mask = some (get_or d.default_filters port no_filter).mask_a;
  value = some (get_or d.default_filters port no_filter).value_a;
}

abbrev pub default_b : Device → ℕ → Filter
default_b d port = record {
  filter_size = d.filter_size;
  mask = some (get_or d.default_filters port no_filter).mask_b;
  value = some (get_or d.default_filters port no_filter).value_b;
}

-- The loop over the ports, with `left` to go from `port` on.
unfoldable pub reset_filters : (left port : ℕ) → Device → Device
reset_filters zero port d = d
reset_filters (suc left) port d =
    reset_filters left (port + 1)
      (set_filter d port (some (default_a d port)) (some (default_b d port)) 0).1

-- The loop over the GPIOs.
unfoldable pub reset_gpios : (left gpio : ℕ) → Device → Device
reset_gpios zero gpio d = d
reset_gpios (suc left) gpio d =
    reset_gpios left (gpio + 1)
      (record d { gpios = set d.gpios gpio (get_or d.default_gpios gpio no_block) })

-- A device that is opened.
unfoldable pub open_card : Device → Device
unfolding reset_filters reset_gpios
open_card d =
    let d1 = record d { open_cnt = u32 (d.open_cnt + 1) } in
    let d2 = reset_filters d1.port_cnt 0 d1 in reset_gpios d2.gpio_cnt 0 d2

module _ (same_name : List ℕ → List ℕ → Bool) where
  -- The search, from card `i` on. The comparison of names is the operating system's.
  unfoldable pub find_card : List ℕ → List Device → ℕ → Option (ℕ × Device)
  find_card name [] i = none
  find_card name (d ∷ ds) i =
      if same_name name d.alias_name then some (i, d) else find_card name ds (i + 1)

  -- The code, the number of the device whose handle is given, and the list.
  unfoldable pub open_device : List ℕ → Registry → ℕ × Option ℕ × Registry
  unfolding find_card open_card with_class_filter class_allowed
  open_device name g = elim (find_card name g.cards 0) [
    | none ↦ (device_not_found, none, g)
    | some (i, d) ↦
        let g' = with_class_filter g in
        if not (class_allowed g'.dev_class_filter d.info.device_class)
        then (access_denied, none, g')
        else if ltb 0 d.open_cnt
        then (device_still_open, none, g')
        else (no_error, some i, record g' { cards = set g'.cards i (open_card d) })
  ]

-- A handle is the number of a card; any other number stands for a null handle.
unfoldable pub close_device : ℕ → Registry → ℕ × Registry
close_device i g = elim (get_elem? g.cards i) [
  | none ↦ (invalid_parameter, g)
  | some d ↦
      if ltb 0 d.open_cnt
      then (no_error, record g { cards = set g.cards i (record d { open_cnt = d.open_cnt - 1 }) })
      else (device_not_open, g)
]
