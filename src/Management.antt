-- ===== src/Management.antt =====
-- The management commands: netana_mngmt_exec_cmd of
-- netanalyzer_kernel_mod/toolkit/netana_functions.c.
pub mod Shown
mod Tests
use nadrvlinux.Prelude.{
  ℕ, zero, ◌%◌, ◌/◌, Bool, not, ◌||◌, Option, none, some, List, [], ◌∷◌, ◌++◌, get_elem?, take,
  drop, length, min, bit_and, ◌==◌, if◌then◌else◌,
}
use nadrvlinux.Codes.{no_error, invalid_parameter, device_not_found}
use nadrvlinux.Device.{Device}
use nadrvlinux.Handshake.{toggle_bit}
use nadrvlinux.Classes.{Process, is_refused, set_dev_class_filter}

-- NETANA_MNGMT_CMD_xxx
abbrev pub cmd_blink : ℕ
cmd_blink = 1

abbrev pub cmd_dev_scan : ℕ
cmd_dev_scan = 2

abbrev pub cmd_set_dev_class_filter : ℕ
cmd_set_dev_class_filter = 3

abbrev pub cmd_get_dev_feature : ℕ
cmd_get_dev_feature = 4

-- NETANA_HSK_HOST_BLINK_CMD
abbrev pub blink_bit : ℕ
blink_bit = 6

-- What the input parameter points to, read as the structure of each command. A handle is the number of
-- a card; any other number stands for a null handle.
pub record Input : Type 0 where
  pub device : List ℕ
  pub handle : ℕ
  pub class : ℕ

-- `g_tCardList`, whose length is `g_ulCardCnt`, and `g_tAppProcessList`
pub record Managed : Type 0 where
  pub cards : List Device
  pub processes : List Process

abbrev pub word_bytes : ℕ → List ℕ
word_bytes n = n % 256 ∷ n / 256 % 256 ∷ n / 65536 % 256 ∷ n / 16777216 % 256 ∷ []

abbrev pub words_bytes : List ℕ → List ℕ
words_bytes [] = []
words_bytes (n ∷ ns) = word_bytes n ++ words_bytes ns

-- `NETANA_MNGMT_GET_DEV_FEATURE_OUT_T` of a device, in the order of its fields
unfoldable pub features : Device → List ℕ
features d =
    0 ∷ d.info.phys_type ∷ d.port_cnt ∷ d.info.phys_tap_present ∷ d.info.phys_forwarding_support
    ∷ d.info.phys_port_speed_support ∷ d.info.phys_transparent_mode_support ∷ d.gpio_cnt
    ∷ d.info.gpio_input_rising_support ∷ d.info.gpio_input_falling_support
    ∷ d.info.gpio_output_mode_support ∷ d.info.gpio_output_pwm_support ∷ d.info.gpio_sync_in_support
    ∷ d.info.gpio_trigger_start_support ∷ d.info.gpio_trigger_stop_support
    ∷ d.info.gpio_voltage3v_support ∷ d.info.gpio_voltage24v_support ∷ d.info.sync_support ∷ []

-- `OS_Memcpy` to the start of a buffer
abbrev pub put_bytes : List ℕ → List ℕ → List ℕ
put_bytes bytes buffer = bytes ++ drop (length bytes) buffer

-- A command gives its code, the output buffer, and the lists.
abbrev pub Outcome : Type 0
Outcome = ℕ × List ℕ × Managed

module _ (same_name : List ℕ → List ℕ → Bool) where
  -- The loop of the blink command, from the first device on. The comparison of names is the operating
  -- system's.
  unfoldable pub blink : List ℕ → List Device → ℕ × List Device
  blink name [] = (device_not_found, [])
  blink name (d ∷ ds) =
      let rest = blink name ds in
      if same_name name d.alias_name
      then (no_error, toggle_bit blink_bit d ∷ ds)
      else (rest.0, d ∷ rest.1)

  -- The command by its number, its input if the pointer is not null, and its output buffer; `has_output`
  -- says whether that pointer is not null. `memory` and `pid` belong to the caller.
  unfoldable pub exec_cmd :
      (memory : Bool) (pid command : ℕ)
      → Option Input
      → (input_size : ℕ) → (has_output : Bool) → (output : List ℕ) → (output_size : ℕ) → Managed
      → Outcome
  unfolding blink features set_dev_class_filter is_refused
  exec_cmd memory pid command input input_size has_output output output_size g =
      if command == cmd_blink
      then elim input as (λ i. Outcome) [
        | none ↦ refused
        | some i ↦ if input_size == 0 then refused else blinked (blink i.device g.cards)
      ]
      else if command == cmd_dev_scan
      then elim input as (λ i. Outcome) [
        | none ↦ refused
        | some i ↦
            if not (input_size == 16) || (not has_output || (output_size == 0))
            then refused
            else (no_error, put_bytes (word_bytes (length g.cards)) output, g)
      ]
      else if command == cmd_get_dev_feature
      then elim input as (λ i. Outcome) [
        | none ↦ refused
        | some i ↦ if not (input_size == 8) then refused else featured (get_elem? g.cards i.handle)
      ]
      else if command == cmd_set_dev_class_filter
      then elim input as (λ i. Outcome) [
        | none ↦ refused
        | some i ↦
            if not (input_size == 4)
            then refused
            else if is_refused i.class
            then refused
            else filtered (set_dev_class_filter memory pid i.class g.processes)
      ]
      else refused
    where
      refused : Outcome
      refused = (invalid_parameter, output, g)

      blinked : ℕ × List Device → Outcome
      blinked (code, cards) = (code, output, record g { cards = cards })

      featured : Option Device → Outcome
      featured none = refused
      featured (some d) =
          (no_error, put_bytes (take (min output_size 72) (words_bytes (features d))) output, g)

      filtered : ℕ × List Process → Outcome
      filtered (code, processes) = (code, output, record g { processes = processes })
