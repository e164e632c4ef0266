-- ===== src/Layout/Tests.antt =====
-- A card with two ports and two GPIOs whose memory holds its own offsets.
use nadrvlinux.Prelude.{ℕ, zero, suc, ◌+◌, ◌<◌, ◌%◌, [], ◌∷◌, get_or, ◌≡◌, refl, arith}
use nadrvlinux.Device.{Device, DpmFilter, is_capture_running}
use nadrvlinux.Sample.{sample_device}
use nadrvlinux.Filter.{filter_at}
use nadrvlinux.Filter.Layout.{HasSize}
use nadrvlinux.Gpio.{no_block}
use nadrvlinux.Registry.{open_card}
use nadrvlinux.Layout.{LayoutInfo, places, read_layout, sizeof_base_dpm, sizeof_handshake_block}
use nadrvlinux.Layout.Bounds.{Begins, Apart, extents, blocks_size, places-Apart}
use nadrvlinux.Layout.Added.{Kept, found_filter, found_gpio, opened-AsFound}

abbrev small : LayoutInfo
small = record {
  dpm_used_size = 0x2000;
  port_count = 2;
  gpio_count = 2;
  filter_block_size = 2;
  counter_size = 8;
}

abbrev own_offsets : ℕ → ℕ
own_offsets i = i % 256

second_filter :
    get_or (places small).filters_at 1 (record {
      base = 0;
      mask_a_place = 0;
      value_a_place = 0;
      mask_b_place = 0;
      value_b_place = 0;
    })
    ≡ record {
      base = 1588;
      mask_a_place = 1592;
      value_a_place = 1594;
      mask_b_place = 1596;
      value_b_place = 1598;
    }
unfolding places
second_filter = refl

places-Apart_example :
    Begins sizeof_base_dpm (extents small (places small))
    × Apart (places small).handshake_at (extents small (places small))
    × ((places small).blocks_end ≡ blocks_size small)
    × ((places small).handshake_at + sizeof_handshake_block ≡ small.dpm_used_size)
places-Apart_example = places-Apart small (omega arith)

abbrev used_filter : DpmFilter
used_filter = record {
  relation_ship = 1;
  mask_a = 9 ∷ 9 ∷ [];
  value_a = 8 ∷ 8 ∷ [];
  mask_b = 7 ∷ 7 ∷ [];
  value_b = 6 ∷ 6 ∷ [];
}

abbrev used : Device
used = record (read_layout own_offsets small sample_device) {
  filters = used_filter ∷ used_filter ∷ [];
  gpios =
      record { mode = 4; voltage = 1; word0 = 10; word1 = 10; word2 = 0 }
      ∷ record { mode = 1; voltage = 1; word0 = 3; word1 = 0; word2 = 0 }
      ∷ [];
}

used-Kept : Kept (read_layout own_offsets small sample_device) used
unfolding read_layout is_capture_running
used-Kept = record {
  ports_kept = refl;
  gpios_kept = refl;
  size_kept = refl;
  filters_kept = refl;
  blocks_kept = refl;
  filters_there = record { ports = refl; sizes = sizes };
  gpios_there = refl;
  stopped = refl;
}
  where
    sizes :
        (port : ℕ)
        → port < 2
        → HasSize 2 (get_or (used_filter ∷ used_filter ∷ []) port nadrvlinux.Filter.no_filter)
    sizes zero h = record {
      mask_a_size = refl;
      value_a_size = refl;
      mask_b_size = refl;
      value_b_size = refl;
    }
    sizes (suc zero) h = record {
      mask_a_size = refl;
      value_a_size = refl;
      mask_b_size = refl;
      value_b_size = refl;
    }
    sizes (suc (suc port)) h = absurd (omega arith)

opened-AsFound_example :
    ((port : ℕ) → port < 2 → filter_at (open_card used) port ≡ found_filter own_offsets small port)
    × ((i : ℕ) → i < 2 → get_or (open_card used).gpios i no_block ≡ found_gpio own_offsets i)
opened-AsFound_example = opened-AsFound own_offsets small sample_device used used-Kept
