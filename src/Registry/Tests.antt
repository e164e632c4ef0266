-- ===== src/Registry/Tests.antt =====
-- Users that open the same device, one after the other.
use nadrvlinux.Prelude.{ℕ, zero, suc, ◌<◌, true, [], ◌∷◌, get_or, ◌≡◌, refl, arith}
use nadrvlinux.Codes.{no_error}
use nadrvlinux.Device.{Device, DpmFilter, is_capture_running}
use nadrvlinux.Filter.{filter_at, no_filter}
use nadrvlinux.Filter.Layout.{HasSize}
use nadrvlinux.Sample.{sample_device}
use nadrvlinux.Registry.{
  open_card, Registry, with_class_filter, class_allowed, find_card, open_device,
}
use nadrvlinux.Registry.Exclusive.{AllOnce, used, opening, closing, used-AllOnce}
use nadrvlinux.Registry.Defaults.{Resettable, Restored, open_card-Restored}

abbrev one_card : Registry
one_card = record { cards = sample_device ∷ []; dev_class_filter = 2 }

open_test : (open_device (λ a b. true) [] one_card).0 ≡ no_error
unfolding open_device find_card with_class_filter class_allowed
open_test = refl

used-AllOnce_example :
    AllOnce
      (used (λ a b. true) (opening [] ∷ opening [] ∷ closing 0 ∷ opening [] ∷ []) one_card).cards
used-AllOnce_example =
    used-AllOnce (λ a b. true) (opening [] ∷ opening [] ∷ closing 0 ∷ opening [] ∷ []) one_card
      (omega arith, tt)

abbrev old_filter : DpmFilter
old_filter = record {
  relation_ship = 3;
  mask_a = 255 ∷ 0 ∷ [];
  value_a = 8 ∷ 0 ∷ [];
  mask_b = 255 ∷ 255 ∷ [];
  value_b = 8 ∷ 6 ∷ [];
}

-- A card that was used before.
abbrev used_card : Device
used_card = record sample_device {
  filters = old_filter ∷ old_filter ∷ [];
  gpios =
      record { mode = 4; voltage = 1; word0 = 10; word1 = 10; word2 = 0 }
      ∷ record { mode = 1; voltage = 1; word0 = 3; word1 = 0; word2 = 0 }
      ∷ [];
}

old_filter-HasSize : HasSize 2 old_filter
old_filter-HasSize = record {
  mask_a_size = refl;
  value_a_size = refl;
  mask_b_size = refl;
  value_b_size = refl;
}

used_card-Resettable : Resettable used_card
unfolding is_capture_running
used_card-Resettable = record {
  filters_wf = record { ports = refl; sizes = sizes };
  not_running = refl;
  default_sizes = defaults;
  all_gpios = refl;
}
  where
    sizes : (port : ℕ) → port < 2 → HasSize 2 (filter_at used_card port)
    sizes zero h = old_filter-HasSize
    sizes (suc zero) h = old_filter-HasSize
    sizes (suc (suc port)) h = absurd (omega arith)

    defaults : (port : ℕ) → port < 2 → HasSize 2 (get_or used_card.default_filters port no_filter)
    defaults zero h = record {
      mask_a_size = refl;
      value_a_size = refl;
      mask_b_size = refl;
      value_b_size = refl;
    }
    defaults (suc zero) h = record {
      mask_a_size = refl;
      value_a_size = refl;
      mask_b_size = refl;
      value_b_size = refl;
    }
    defaults (suc (suc port)) h = absurd (omega arith)

open_card-Restored_example : Restored used_card (open_card used_card)
open_card-Restored_example = open_card-Restored used_card used_card-Resettable
