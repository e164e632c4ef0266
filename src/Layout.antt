-- ===== src/Layout.antt =====
-- Where the blocks of the dual-port memory lie, and what the device instance takes from them when a
-- device is added: netana_tkit_deviceadd of netanalyzer_kernel_mod/toolkit/netana_toolkit.c, from the
-- comment "Read out DPM Layout" on.
pub mod Bounds
pub mod Added
mod Tests
use nadrvlinux.Prelude.{
  ℕ, zero, suc, ◌+◌, ◌-◌, ◌*◌, ◌^◌, bit_xor, u16, u32, Bool, true, false, Option, none, some, List,
  [], ◌∷◌, get_or, ltb, ◌==◌, if◌then◌else◌,
}
use nadrvlinux.Prelude.Bits.{is_set}
use nadrvlinux.Device.{Device, DpmFilter, GpioBlock, SystemInfo, Mailbox}
use nadrvlinux.Handshake.{toggle_bit, newstatus_bit, send_mbx_bit, recv_mbx_bit}
use nadrvlinux.Command.{ident_info_block_size}

-- `sizeof` of NETANA_BASE_DPM_T, NETANA_GPIO_BLOCK_T, NETANA_FILTER_BASE_T and
-- NETANA_HANDSHAKE_BLOCK_T, all of them packed.
abbrev pub sizeof_base_dpm : ℕ
sizeof_base_dpm = 0x600

abbrev pub sizeof_gpio_block : ℕ
sizeof_gpio_block = 20

abbrev pub sizeof_filter_base : ℕ
sizeof_filter_base = 4

abbrev pub sizeof_handshake_block : ℕ
sizeof_handshake_block = 256

-- The fields of NETANA_SYSTEM_INFO_BLOCK_T that give the layout.
pub record LayoutInfo : Type 0 where
  pub dpm_used_size : ℕ
  pub port_count : ℕ
  pub gpio_count : ℕ
  pub filter_block_size : ℕ
  pub counter_size : ℕ

-- The offsets of a port's filter.
pub record FilterPlace : Type 0 where
  pub base : ℕ
  pub mask_a_place : ℕ
  pub value_a_place : ℕ
  pub mask_b_place : ℕ
  pub value_b_place : ℕ

-- The loops over the blocks, which advance `pbCurrentBlock`: the offset of each block, and where the
-- next one begins.
unfoldable pub gpio_places : (left current : ℕ) → List ℕ × ℕ
gpio_places zero current = ([], current)
gpio_places (suc left) current =
    let (places, next) = gpio_places left (current + sizeof_gpio_block) in (current ∷ places, next)

abbrev pub filter_place : (size current : ℕ) → FilterPlace
filter_place size current = record {
  base = current;
  mask_a_place = current + sizeof_filter_base;
  value_a_place = current + sizeof_filter_base + size;
  mask_b_place = current + sizeof_filter_base + size + size;
  value_b_place = current + sizeof_filter_base + size + size + size;
}

unfoldable pub filter_places : (size left current : ℕ) → List FilterPlace × ℕ
filter_places size zero current = ([], current)
filter_places size (suc left) current =
    let (places, next) =
      filter_places size left (current + sizeof_filter_base + size + size + size + size) in
    (filter_place size current ∷ places, next)

unfoldable pub counter_places : (size left current : ℕ) → List ℕ × ℕ
counter_places size zero current = ([], current)
counter_places size (suc left) current =
    let (places, next) = counter_places size left (current + size) in (current ∷ places, next)

-- The pointers of the instance, as offsets from `pvDPM`.
pub record Places : Type 0 where
  pub gpios_at : List ℕ
  pub filters_at : List FilterPlace
  pub counters_at : List ℕ
  pub ident_at : ℕ
  pub blocks_end : ℕ
  pub handshake_at : ℕ

unfoldable pub places : LayoutInfo → Places
unfolding gpio_places filter_places counter_places
places l =
    let (gs, filters_from) = gpio_places l.gpio_count sizeof_base_dpm in
    let (fs, counters_from) = filter_places l.filter_block_size l.port_count filters_from in
    let (cs, ident) = counter_places l.counter_size l.port_count counters_from in
    record {
      gpios_at = gs;
      filters_at = fs;
      counters_at = cs;
      ident_at = ident;
      blocks_end = ident + ident_info_block_size;
      handshake_at = l.dpm_used_size - sizeof_handshake_block;
    }

-- The bytes from an offset on, and a word of them.
unfoldable pub bytes_at : (dpm : ℕ → ℕ) → (offset size : ℕ) → List ℕ
bytes_at dpm offset zero = []
bytes_at dpm offset (suc size) = dpm offset ∷ bytes_at dpm (offset + 1) size

abbrev pub dpm_word : (dpm : ℕ → ℕ) → ℕ → ℕ
dpm_word dpm offset =
    dpm offset + dpm (offset + 1) * 2 ^ 8 + dpm (offset + 2) * 2 ^ 16 + dpm (offset + 3) * 2 ^ 24

abbrev pub gpio_block_at : (dpm : ℕ → ℕ) → ℕ → GpioBlock
gpio_block_at dpm offset = record {
  mode = dpm_word dpm offset;
  voltage = dpm_word dpm (offset + 4);
  word0 = dpm_word dpm (offset + 8);
  word1 = dpm_word dpm (offset + 12);
  word2 = dpm_word dpm (offset + 16);
}

abbrev pub dpm_filter_at : (dpm : ℕ → ℕ) → (size : ℕ) → FilterPlace → DpmFilter
dpm_filter_at dpm size p = record {
  relation_ship = dpm_word dpm p.base;
  mask_a = bytes_at dpm p.mask_a_place size;
  value_a = bytes_at dpm p.value_a_place size;
  mask_b = bytes_at dpm p.mask_b_place size;
  value_b = bytes_at dpm p.value_b_place size;
}

abbrev pub each {ℓ} : {A C : Type ℓ} → (A → C) → List A → List C
each f [] = []
each f (x ∷ xs) = f x ∷ each f xs

abbrev pub default_of : DpmFilter → DpmFilter
default_of f = record f { relation_ship = 0 }

-- The blocks that the instance points to, and the defaults that are copied from them. The copies are
-- made with memory at hand; the relation of a default filter is never written.
unfoldable pub read_layout : (dpm : ℕ → ℕ) → LayoutInfo → Device → Device
unfolding places bytes_at
read_layout dpm l d =
    let p = places l in
    let filters = each (dpm_filter_at dpm l.filter_block_size) p.filters_at in
    let gpios = each (gpio_block_at dpm) p.gpios_at in
    record d {
      gpio_cnt = l.gpio_count;
      gpios = gpios;
      default_gpios = gpios;
      port_cnt = l.port_count;
      filter_size = l.filter_block_size;
      filters = filters;
      default_filters = each default_of filters;
      counters = each (λ c. bytes_at dpm c l.counter_size) p.counters_at;
      ident_block = bytes_at dpm p.ident_at ident_info_block_size;
    }

-- The handshake flags are taken from their cell, and a status that was signalled before is answered.
unfoldable pub read_handshake : (dpm : ℕ → ℕ) → LayoutInfo → Device → Device
unfolding places
read_handshake dpm l d =
    let cell = (places l).handshake_at in
    let d' = record d {
      netx_flags = dpm cell + dpm (cell + 1) * 2 ^ 8;
      host_flags = dpm (cell + 2) + dpm (cell + 3) * 2 ^ 8;
      hsk_host_flags = dpm (cell + 2) + dpm (cell + 3) * 2 ^ 8;
    } in
    if is_set (bit_xor d'.netx_flags d'.host_flags) (2 ^ newstatus_bit)
    then toggle_bit newstatus_bit d'
    else d'

-- NETANA_CHANNEL_MAILBOX_SIZE
abbrev pub channel_mailbox_size : ℕ
channel_mailbox_size = 1596

abbrev pub setup_mailboxes : Device → Device
setup_mailboxes d = record d {
  send_mbx = record d.send_mbx {
    mailbox_length = channel_mailbox_size;
    bitoffset = send_mbx_bit;
    packet_cnt = 0;
    packages = 0;
  };
  recv_mbx = record d.recv_mbx {
    mailbox_length = channel_mailbox_size;
    bitoffset = recv_mbx_bit;
    packet_cnt = 0;
    packages = 0;
  };
}
