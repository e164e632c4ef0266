-- ===== src/Filter/Tests.antt =====
-- Filters of a device at rest, stored and read back.
use nadrvlinux.Prelude.{
  ℕ, zero, suc, ◌<◌, true, false, Option, none, some, [], ◌∷◌, ◌==◌, if◌then◌else◌, ◌≡◌, ◌≢◌, refl,
  arith,
}
use nadrvlinux.Codes.{no_error}
use nadrvlinux.Device.{is_capture_running}
use nadrvlinux.Sample.{sample_device}
use nadrvlinux.Filter.{Filter, filter_at, get_filter, set_filter}
use nadrvlinux.Filter.Layout.{HasSize, FiltersWf, padded}
use nadrvlinux.Filter.Laws.{allowed, stored, room, set_filter-stored, get_filter-set_filter}

abbrev one_byte : Option Filter
one_byte = some (record { filter_size = 1; mask = some (255 ∷ []); value = some (8 ∷ []) })

sample_device-FiltersWf : FiltersWf sample_device
sample_device-FiltersWf = record { ports = refl; sizes = sizes }
  where
    sizes : (port : ℕ) → port < 2 → HasSize 2 (filter_at sample_device port)
    sizes zero h = record {
      mask_a_size = refl;
      value_a_size = refl;
      mask_b_size = refl;
      value_b_size = refl;
    }
    sizes (suc zero) h = record {
      mask_a_size = refl;
      value_a_size = refl;
      mask_b_size = refl;
      value_b_size = refl;
    }
    sizes (suc (suc port)) h = absurd (omega arith)

set_filter-stored_example :
    let (code, d') = set_filter sample_device 1 one_byte none 3 in
    (allowed sample_device 1 one_byte none ≡ true
      → (code ≡ no_error)
        × ((other : ℕ)
            → other < 2
            → filter_at d' other
              ≡ (if 1 == other then stored 2 one_byte none 3 else filter_at sample_device other))
        × FiltersWf d')
    × (allowed sample_device 1 one_byte none ≡ false → (code ≢ no_error) × (d' ≡ sample_device))
set_filter-stored_example =
    set_filter-stored sample_device 1 one_byte none 3 sample_device-FiltersWf
      (omega arith, omega arith) tt

get_filter-set_filter_example :
    get_filter
      (set_filter sample_device 1 one_byte none 3).1
      1
      true
      (room 2 (9 ∷ 9 ∷ []) (9 ∷ 9 ∷ []))
      (room 2 (9 ∷ 9 ∷ []) (9 ∷ 9 ∷ []))
    ≡ record {
      code = no_error;
      relation_ship = some 3;
      filter_a = room 2 (padded 2 (λ f. f.mask) one_byte) (padded 2 (λ f. f.value) one_byte);
      filter_b = room 2 (padded 2 (λ f. f.mask) none) (padded 2 (λ f. f.value) none);
    }
unfolding allowed is_capture_running
get_filter-set_filter_example =
    get_filter-set_filter sample_device 1 one_byte none 3 (9 ∷ 9 ∷ []) (9 ∷ 9 ∷ []) (9 ∷ 9 ∷ [])
      (9 ∷ 9 ∷ []) sample_device-FiltersWf (omega arith, omega arith) tt refl refl refl refl refl
