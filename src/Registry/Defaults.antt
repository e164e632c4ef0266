-- ===== src/Registry/Defaults.antt =====
-- A device that is opened starts with its default filters and GPIOs.
use mathlib.Core.List.{append-nil}
use nadrvlinux.Prelude.{
  ℕ, zero, suc, ◌+◌, ◌≤◌, ◌<◌, u32, true, false, ◌&&◌, some, List, ◌++◌, get_or, set, length,
  length-set, take_all, get_or-set, ltb, leb, ◌==◌, ==_iff, if◌then◌else◌, ◌≡◌, refl, sym, ap, ap₂,
  subst, ◌∙◌, inl, inr, Bool-cases, arith,
}
use nadrvlinux.Device.{Device, DpmFilter, is_capture_running}
use nadrvlinux.Filter.{filter_at, no_filter, set_filter}
use nadrvlinux.Filter.Layout.{HasSize, FiltersWf, padded, padded_bytes}
use nadrvlinux.Filter.Laws.{allowed, stored, set_filter-allowed}
use nadrvlinux.Gpio.{no_block}
use nadrvlinux.Registry.{default_a, default_b, reset_filters, reset_gpios, open_card}

-- A list with `left` of its elements, from `i` on, given by a function.
unfoldable refilled {ℓ} : {A : Type ℓ} → (left i : ℕ) → (ℕ → A) → List A → List A
refilled zero i g xs = xs
refilled (suc left) i g xs = refilled left (i + 1) g (set xs i (g i))

length-refilled {ℓ} :
    {A : Type ℓ} (left i : ℕ) (g : ℕ → A) (xs : List A) → length (refilled left i g xs) ≡ length xs
unfolding refilled
length-refilled zero i g xs = refl
length-refilled (suc left) i g xs =
    length-refilled left (i + 1) g (set xs i (g i)) ∙ length-set xs i (g i)

get_or-refilled {ℓ} :
    {A : Type ℓ} (left i p : ℕ) (g : ℕ → A) (xs : List A) (default : A)
    → i + left ≤ length xs
    → get_or (refilled left i g xs) p default
      ≡ (if leb i p && ltb p (i + left) then g p else get_or xs p default)
unfolding refilled
get_or-refilled zero i p g xs default h = ground arith
get_or-refilled (suc left) i p g xs default h =
    let rest =
      get_or-refilled left (i + 1) p g (set xs i (g i)) default
        (omega (arith, length-set xs i (g i), h)) in
    let here = get_or-set xs i p (g i) default (omega (arith, h)) in
    elim (Bool-cases (i == p)) [
      | inl same ↦ ground (arith, rest, here, (==_iff i p).0 same)
      | inr other ↦ ground (arith, rest, here)
    ]

-- The default of a port, with the relation that the reset gives.
abbrev pub fresh_filter : Device → ℕ → DpmFilter
fresh_filter d port = record (get_or d.default_filters port no_filter) { relation_ship = 0 }

padded_all : (size : ℕ) (xs : List ℕ) → length xs ≡ size → padded_bytes size size (some xs) ≡ xs
padded_all size xs e = ap₂ ◌++◌ (take_all size xs (omega (arith, e))) (grind arith) ∙ append-nil xs

stored-default :
    (d : Device) (port : ℕ)
    → HasSize d.filter_size (get_or d.default_filters port no_filter)
    → stored d.filter_size (some (default_a d port)) (some (default_b d port)) 0
      ≡ fresh_filter d port
unfolding stored padded
stored-default d port h =
    let p = get_or d.default_filters port no_filter in
    cc (
      padded_all d.filter_size p.mask_a h.mask_a_size,
      padded_all d.filter_size p.value_a h.value_a_size,
      padded_all d.filter_size p.mask_b h.mask_b_size,
      padded_all d.filter_size p.value_b h.value_b_size,
    )

-- A device that is not capturing, with its filters, GPIOs and default filters of the right size.
pub record Resettable (d : Device) : Type 0 where
  pub filters_wf : FiltersWf d
  pub not_running : is_capture_running d ≡ false
  pub default_sizes :
      (port : ℕ)
      → port < d.port_cnt
      → HasSize d.filter_size (get_or d.default_filters port no_filter)
  pub all_gpios : length d.gpios ≡ d.gpio_cnt

allowed-default :
    (d : Device) (port : ℕ)
    → is_capture_running d ≡ false
    → port < d.port_cnt
    → allowed d port (some (default_a d port)) (some (default_b d port)) ≡ true
unfolding allowed
allowed-default d port off there = ground arith

abbrev with_fresh : ℕ → Device → Device
with_fresh port d = record d { filters = set d.filters port (fresh_filter d port) }

reset_one :
    (d : Device) (port : ℕ)
    → Resettable d
    → port < d.port_cnt
    → (set_filter d port (some (default_a d port)) (some (default_b d port)) 0).1
      ≡ with_fresh port d
reset_one d port r there =
    let a = some (default_a d port) in
    let b = some (default_b d port) in
    let (sa, sb, h, e) =
      set_filter-allowed d port a b 0 r.filters_wf (allowed-default d port r.not_running there) in
    ap (λ (q : ℕ × Device). q.1) e
    ∙ ap (λ (v : DpmFilter). record d { filters = set d.filters port v })
        (stored-default d port (r.default_sizes port there))

with_fresh-Resettable :
    (d : Device) (port : ℕ) → Resettable d → port < d.port_cnt → Resettable (with_fresh port d)
unfolding is_capture_running
with_fresh-Resettable d port r there = record {
  filters_wf = record {
    ports = length-set d.filters port now ∙ r.filters_wf.ports;
    sizes = λ other h. elim (Bool-cases (port == other)) [
      | inl same ↦ rw (at other, same) fresh_size
      | inr differ ↦ rw (at other, differ) (r.filters_wf.sizes other h)
    ];
  };
  not_running = r.not_running;
  default_sizes = r.default_sizes;
  all_gpios = r.all_gpios;
}
  where
    now : DpmFilter
    now = fresh_filter d port

    at :
        (other : ℕ)
        → get_or (set d.filters port now) other no_filter
          ≡ (if port == other then now else filter_at d other)
    at other = get_or-set d.filters port other now no_filter (omega (arith, r.filters_wf.ports))

    fresh_size : HasSize d.filter_size now
    fresh_size =
        let h = r.default_sizes port there in
        record {
          mask_a_size = h.mask_a_size;
          value_a_size = h.value_a_size;
          mask_b_size = h.mask_b_size;
          value_b_size = h.value_b_size;
        }

reset_filters-refilled :
    (left port : ℕ) (d : Device)
    → Resettable d
    → port + left ≤ d.port_cnt
    → reset_filters left port d
      ≡ record d { filters = refilled left port (fresh_filter d) d.filters }
unfolding reset_filters refilled
reset_filters-refilled zero port d r h = refl
reset_filters-refilled (suc left) port d r h =
    ap (reset_filters left (port + 1)) (reset_one d port r (omega (arith, h)))
    ∙ reset_filters-refilled left (port + 1) (with_fresh port d)
        (with_fresh-Resettable d port r (omega (arith, h))) (omega (arith, h))

reset_gpios-refilled :
    (left gpio : ℕ) (d : Device)
    → reset_gpios left gpio d
      ≡ record d { gpios = refilled left gpio (λ i. get_or d.default_gpios i no_block) d.gpios }
unfolding reset_gpios refilled
reset_gpios-refilled zero gpio d = refl
reset_gpios-refilled (suc left) gpio d =
    reset_gpios-refilled left (gpio + 1)
      (record d { gpios = set d.gpios gpio (get_or d.default_gpios gpio no_block) })

-- A device as it is opened.
pub record Restored (d d' : Device) : Type 0 where
  pub default_filters_set : (port : ℕ) → port < d.port_cnt → filter_at d' port ≡ fresh_filter d port
  pub default_gpios_set :
      (i : ℕ) → i < d.gpio_cnt → get_or d'.gpios i no_block ≡ get_or d.default_gpios i no_block
  pub same_else :
      d' ≡ record d { open_cnt = u32 (d.open_cnt + 1); filters = d'.filters; gpios = d'.gpios }

-- Opening a device that is not capturing, and whose filters and default filters have the size that it
-- reports, gives every port its default filters with relation 0 and every GPIO its default mode, counts
-- the device as opened once more, and changes nothing else.
pub open_card-Restored : (d : Device) → Resettable d → Restored d (open_card d)
unfolding open_card is_capture_running
open_card-Restored d r = subst (Restored d) (sym opened) record {
  default_filters_set = λ port h.
      get_or-refilled d.port_cnt 0 port (fresh_filter d) d.filters no_filter
        (omega (arith, r.filters_wf.ports))
      ∙ ground (arith, h);
  default_gpios_set = λ i h.
      get_or-refilled d.gpio_cnt 0 i (λ i. get_or d.default_gpios i no_block) d.gpios no_block
        (omega (arith, r.all_gpios))
      ∙ ground (arith, h);
  same_else = refl;
}
  where
    d1 : Device
    d1 = record d { open_cnt = u32 (d.open_cnt + 1) }

    ready : Resettable d1
    ready = record {
      filters_wf = record { ports = r.filters_wf.ports; sizes = r.filters_wf.sizes };
      not_running = r.not_running;
      default_sizes = r.default_sizes;
      all_gpios = r.all_gpios;
    }

    now : Device
    now = record d1 {
      filters = refilled d.port_cnt 0 (fresh_filter d) d.filters;
      gpios = refilled d.gpio_cnt 0 (λ i. get_or d.default_gpios i no_block) d.gpios;
    }

    opened : open_card d ≡ now
    opened =
        ap (λ (x : Device). reset_gpios x.gpio_cnt 0 x)
          (reset_filters-refilled d.port_cnt 0 d1 ready (omega arith))
        ∙ reset_gpios-refilled d.gpio_cnt 0
            (record d1 { filters = refilled d.port_cnt 0 (fresh_filter d) d.filters })
