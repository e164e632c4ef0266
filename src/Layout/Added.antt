-- ===== src/Layout/Added.antt =====
-- A device that was added is opened with what its memory held then.
use nadrvlinux.Prelude.{
  ℕ, zero, suc, ◌+◌, ◌*◌, ◌<◌, false, List, [], ◌∷◌, get_or, length, ◌≡◌, refl, sym, ap, subst, ◌∙◌,
  arith,
}
use nadrvlinux.Device.{Device, DpmFilter, GpioBlock, is_capture_running}
use nadrvlinux.Filter.{filter_at, no_filter}
use nadrvlinux.Filter.Layout.{HasSize, FiltersWf}
use nadrvlinux.Gpio.{no_block}
use nadrvlinux.Registry.{open_card}
use nadrvlinux.Registry.Defaults.{Resettable, open_card-Restored}
use nadrvlinux.Layout.{
  LayoutInfo, FilterPlace, sizeof_base_dpm, sizeof_gpio_block, sizeof_filter_base, gpio_places,
  filter_place, filter_places, places, bytes_at, gpio_block_at, dpm_filter_at, each, default_of,
  read_layout,
}
use nadrvlinux.Layout.Bounds.{gpio_places-end}

get_or-each {ℓ} :
    {A C : Type ℓ} (f : A → C) (xs : List A) (i : ℕ) (x : A) (y : C)
    → i < length xs
    → get_or (each f xs) i y ≡ f (get_or xs i x)
get_or-each f [] i x y h = absurd (omega (arith, h))
get_or-each f (v ∷ xs) zero x y h = refl
get_or-each f (v ∷ xs) (suc i) x y h = get_or-each f xs i x y (omega (arith, h))

length-each {ℓ} : {A C : Type ℓ} (f : A → C) (xs : List A) → length (each f xs) ≡ length xs
length-each f [] = refl
length-each f (x ∷ xs) = omega (arith, length-each f xs)

length-bytes_at : (dpm : ℕ → ℕ) (offset size : ℕ) → length (bytes_at dpm offset size) ≡ size
unfolding bytes_at
length-bytes_at dpm offset zero = refl
length-bytes_at dpm offset (suc size) = omega (arith, length-bytes_at dpm (offset + 1) size)

length-gpio_places : (left from : ℕ) → length (gpio_places left from).0 ≡ left
unfolding gpio_places
length-gpio_places zero from = refl
length-gpio_places (suc left) from =
    omega (arith, length-gpio_places left (from + sizeof_gpio_block))

length-filter_places : (size left from : ℕ) → length (filter_places size left from).0 ≡ left
unfolding filter_places
length-filter_places size zero from = refl
length-filter_places size (suc left) from =
    omega (
      arith,
      length-filter_places size left (from + sizeof_filter_base + size + size + size + size),
    )

get_or-gpio_places :
    (left from i : ℕ)
    → i < left
    → get_or (gpio_places left from).0 i 0 ≡ from + i * sizeof_gpio_block
unfolding gpio_places
get_or-gpio_places zero from i h = absurd (omega (arith, h))
get_or-gpio_places (suc left) from zero h = omega arith
get_or-gpio_places (suc left) from (suc i) h =
    get_or-gpio_places left (from + sizeof_gpio_block) i (omega (arith, h)) ∙ omega arith

get_or-filter_places :
    (size left from port : ℕ) (x : FilterPlace)
    → port < left
    → get_or (filter_places size left from).0 port x
      ≡ filter_place size (from + port * (sizeof_filter_base + 4 * size))
unfolding filter_places
get_or-filter_places size zero from port x h = absurd (omega (arith, h))
get_or-filter_places size (suc left) from zero x h = ap (filter_place size) (omega arith)
get_or-filter_places size (suc left) from (suc port) x h =
    get_or-filter_places size left (from + sizeof_filter_base + size + size + size + size) port x
      (omega (arith, h))
    ∙ ap (filter_place size) (grind arith)

-- The offset of a port's filter.
abbrev pub filter_offset : LayoutInfo → ℕ → ℕ
filter_offset l port =
    sizeof_base_dpm
    + l.gpio_count * sizeof_gpio_block
    + port * (sizeof_filter_base + 4 * l.filter_block_size)

abbrev pub found_filter : (dpm : ℕ → ℕ) → LayoutInfo → ℕ → DpmFilter
found_filter dpm l port = default_of (
    dpm_filter_at dpm l.filter_block_size (filter_place l.filter_block_size (filter_offset l port)))

abbrev pub found_gpio : (dpm : ℕ → ℕ) → ℕ → GpioBlock
found_gpio dpm i = gpio_block_at dpm (sizeof_base_dpm + i * sizeof_gpio_block)

read_layout-default_filter :
    (dpm : ℕ → ℕ) (l : LayoutInfo) (d : Device) (port : ℕ)
    → port < l.port_count
    → get_or (read_layout dpm l d).default_filters port no_filter ≡ found_filter dpm l port
unfolding read_layout places
read_layout-default_filter dpm l d port h =
    let gs = gpio_places l.gpio_count sizeof_base_dpm in
    let fs = (filter_places l.filter_block_size l.port_count gs.1).0 in
    let many = length-filter_places l.filter_block_size l.port_count gs.1 in
    let from_dpm = dpm_filter_at dpm l.filter_block_size in
    get_or-each default_of (each from_dpm fs) port no_filter no_filter
      (omega (arith, length-each from_dpm fs, many, h))
    ∙ ap default_of (
        get_or-each from_dpm fs port (filter_place 0 0) no_filter (omega (arith, many, h))
        ∙ ap from_dpm (
            get_or-filter_places l.filter_block_size l.port_count gs.1 port (filter_place 0 0) h
            ∙ ap
                (λ (v : ℕ).
                  filter_place l.filter_block_size
                    (v + port * (sizeof_filter_base + 4 * l.filter_block_size)))
                (gpio_places-end l.gpio_count sizeof_base_dpm)))

read_layout-default_gpio :
    (dpm : ℕ → ℕ) (l : LayoutInfo) (d : Device) (i : ℕ)
    → i < l.gpio_count
    → get_or (read_layout dpm l d).default_gpios i no_block ≡ found_gpio dpm i
unfolding read_layout places
read_layout-default_gpio dpm l d i h =
    get_or-each (gpio_block_at dpm) (gpio_places l.gpio_count sizeof_base_dpm).0 i 0 no_block
      (omega (arith, length-gpio_places l.gpio_count sizeof_base_dpm, h))
    ∙ ap (gpio_block_at dpm) (get_or-gpio_places l.gpio_count sizeof_base_dpm i h)

-- A device that was added, and then used: it has its counts and defaults still, and all of its blocks.
pub record Kept (added used : Device) : Type 0 where
  pub ports_kept : used.port_cnt ≡ added.port_cnt
  pub gpios_kept : used.gpio_cnt ≡ added.gpio_cnt
  pub size_kept : used.filter_size ≡ added.filter_size
  pub filters_kept : used.default_filters ≡ added.default_filters
  pub blocks_kept : used.default_gpios ≡ added.default_gpios
  pub filters_there : FiltersWf used
  pub gpios_there : length used.gpios ≡ used.gpio_cnt
  pub stopped : is_capture_running used ≡ false

found_filter-HasSize :
    (dpm : ℕ → ℕ) (l : LayoutInfo) (port : ℕ)
    → HasSize l.filter_block_size (found_filter dpm l port)
found_filter-HasSize dpm l port =
    let p = filter_place l.filter_block_size (filter_offset l port) in
    record {
      mask_a_size = length-bytes_at dpm p.mask_a_place l.filter_block_size;
      value_a_size = length-bytes_at dpm p.value_a_place l.filter_block_size;
      mask_b_size = length-bytes_at dpm p.mask_b_place l.filter_block_size;
      value_b_size = length-bytes_at dpm p.value_b_place l.filter_block_size;
    }

module _ (dpm : ℕ → ℕ) (l : LayoutInfo) (d used : Device)
    (k : Kept (read_layout dpm l d) used) where
  kept_filter :
      (port : ℕ)
      → port < used.port_cnt
      → get_or used.default_filters port no_filter ≡ found_filter dpm l port
  unfolding read_layout
  kept_filter port h =
      ap (λ (fs : List DpmFilter). get_or fs port no_filter) k.filters_kept
      ∙ read_layout-default_filter dpm l d port (omega (arith, k.ports_kept, h))

  Kept-Resettable : Resettable used
  unfolding read_layout
  Kept-Resettable = record {
    filters_wf = k.filters_there;
    not_running = k.stopped;
    default_sizes = λ port h.
        subst (λ (n : ℕ). HasSize n (get_or used.default_filters port no_filter)) (sym k.size_kept)
          (subst (HasSize l.filter_block_size) (sym (kept_filter port h))
            (found_filter-HasSize dpm l port));
    all_gpios = k.gpios_there;
  }

-- However a device was used since it was added, if no capture runs and it has kept its defaults and all
-- of its blocks: once it is opened, every port has the filters, with relation 0, and every GPIO the
-- block that stood in the memory of the card when the device was added, at the offsets of the layout.
pub opened-AsFound :
    (dpm : ℕ → ℕ) (l : LayoutInfo) (d used : Device)
    → Kept (read_layout dpm l d) used
    → ((port : ℕ) → port < l.port_count → filter_at (open_card used) port ≡ found_filter dpm l port)
      × ((i : ℕ) → i < l.gpio_count → get_or (open_card used).gpios i no_block ≡ found_gpio dpm i)
unfolding read_layout
opened-AsFound dpm l d used k =
    let r = open_card-Restored used (Kept-Resettable dpm l d used k) in
    (
      λ port h.
          let there : port < used.port_cnt = omega (arith, k.ports_kept, h) in
          r.default_filters_set port there ∙ ap default_of (kept_filter dpm l d used k port there),
      λ i h.
          r.default_gpios_set i (omega (arith, k.gpios_kept, h))
          ∙ ap (λ (bs : List GpioBlock). get_or bs i no_block) k.blocks_kept
          ∙ read_layout-default_gpio dpm l d i h,
    )
