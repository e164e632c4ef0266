-- ===== src/Filter/Laws.antt =====
-- What a filter call leaves in the device, and what is read back of it.
use nadrvlinux.Prelude.{
  ℕ, zero, suc, ◌<◌, not, ◌&&◌, ◌||◌, Bool, true, false, Option, none, some, List, get_or, set,
  length, length_zero, length-replicate, subst, length-set, get_or-set, get_or-set_self, ltb,
  lt→ltb, leb, ◌==◌, if◌then◌else◌, ◌≡◌, ◌≢◌, refl, sym, ap, ◌∙◌, inl, inr, Bool-cases, arith,
}
use nadrvlinux.Codes.{no_error}
use nadrvlinux.Device.{Device, DpmFilter, is_capture_running}
use nadrvlinux.Filter.{
  Filter, filter_at, no_filter, validate, fetch, new_filter, set_filter, get_filter,
}
use nadrvlinux.Filter.Layout.{
  HasSize, FiltersWf, Backed, padded, store-padded, length-padded, memcpy_all,
}

abbrev both : Option (List ℕ) → Option (List ℕ) → Bool
both (some m) (some v) = true
both none v = false
both (some m) none = false

-- A structure that may be stored: none, an empty one, or one with both arrays, not above the size.
abbrev pub storable : ℕ → Option Filter → Bool
storable size none = true
storable size (some f) = (f.filter_size == 0) || (both f.mask f.value && leb f.filter_size size)

validate-storable : (size : ℕ) (f : Option Filter) → (validate size f == no_error) ≡ storable size f
unfolding validate
validate-storable size none = refl
validate-storable size (some f) = validated f.mask f.value
  where
    validated :
        (m v : Option (List ℕ))
        → (validate size (some (record f { mask = m; value = v })) == no_error)
          ≡ ((f.filter_size == 0) || (both m v && leb f.filter_size size))
    validated none v = ground arith
    validated (some m) none = ground arith
    validated (some m) (some v) = ground arith

unfoldable pub allowed : Device → ℕ → Option Filter → Option Filter → Bool
allowed d port a b =
    not (is_capture_running d)
    && storable d.filter_size a
    && storable d.filter_size b
    && ltb port d.port_cnt

-- What the port then holds.
unfoldable pub stored : ℕ → Option Filter → Option Filter → ℕ → DpmFilter
stored size a b relation_ship = record {
  relation_ship = relation_ship;
  mask_a = padded size (λ f. f.mask) a;
  value_a = padded size (λ f. f.value) a;
  mask_b = padded size (λ f. f.mask) b;
  value_b = padded size (λ f. f.value) b;
}

new_filter-stored :
    (size : ℕ) (p : DpmFilter) (a b : Option Filter) (relation_ship : ℕ)
    → HasSize size p
    → new_filter size p a b relation_ship ≡ stored size a b relation_ship
unfolding new_filter stored
new_filter-stored size p a b relation_ship h = cc (
  store-padded size (λ f. f.mask) a p.mask_a h.mask_a_size,
  store-padded size (λ f. f.value) a p.value_a h.value_a_size,
  store-padded size (λ f. f.mask) b p.mask_b h.mask_b_size,
  store-padded size (λ f. f.value) b p.value_b h.value_b_size,
)

padded-size :
    (size : ℕ) (f : Option Filter)
    → storable size f ≡ true
    → Backed f
    → (length (padded size (λ f. f.mask) f) ≡ size) × (length (padded size (λ f. f.value) f) ≡ size)
unfolding padded
padded-size size none s h = (length-replicate size 0, length-replicate size 0)
padded-size size (some f) s (m, v) = (
  length-padded size f.filter_size f.mask (ground arith) m,
  length-padded size f.filter_size f.value (ground arith) v,
)

stored-HasSize :
    (size : ℕ) (a b : Option Filter) (relation_ship : ℕ)
    → storable size a ≡ true
    → storable size b ≡ true
    → Backed a
    → Backed b
    → HasSize size (stored size a b relation_ship)
unfolding stored
stored-HasSize size a b relation_ship sa sb ha hb = record {
  mask_a_size = (padded-size size a sa ha).0;
  value_a_size = (padded-size size a sa ha).1;
  mask_b_size = (padded-size size b sb hb).0;
  value_b_size = (padded-size size b sb hb).1;
}

pub set_filter-allowed :
    (d : Device) (port : ℕ) (a b : Option Filter) (relation_ship : ℕ)
    → FiltersWf d
    → allowed d port a b ≡ true
    → (storable d.filter_size a ≡ true)
      × (storable d.filter_size b ≡ true)
      × (port < d.port_cnt)
      × (set_filter d port a b relation_ship ≡ (
        no_error,
        record d { filters = set d.filters port (stored d.filter_size a b relation_ship) },
      ))
unfolding set_filter allowed
set_filter-allowed d port a b relation_ship w h = (
  ground arith,
  ground arith,
  ground arith,
  ground (
    arith,
    validate-storable d.filter_size a,
    validate-storable d.filter_size b,
    new_filter-stored d.filter_size (filter_at d port) a b relation_ship
        (w.sizes port (ground arith)),
  ),
)

set_filter-refused :
    (d : Device) (port : ℕ) (a b : Option Filter) (relation_ship : ℕ)
    → allowed d port a b ≡ false
    → ((set_filter d port a b relation_ship).0 ≢ no_error)
      × ((set_filter d port a b relation_ship).1 ≡ d)
unfolding set_filter allowed
set_filter-refused d port a b relation_ship h = (
  ground (arith, validate-storable d.filter_size a, validate-storable d.filter_size b),
  ground (arith, validate-storable d.filter_size a, validate-storable d.filter_size b),
)

-- On a device whose filter arrays all have the size that it reports, a call with two structures that
-- are backed by memory takes effect exactly when no capture runs, each structure is absent, empty or
-- complete and not too large, and the port exists. Then the port holds the relation and the bytes
-- given, filled up with zeros, no other port has changed, and the arrays have their size again. A
-- refused call returns an error and leaves the device as it was.
pub set_filter-stored :
    (d : Device) (port : ℕ) (a b : Option Filter) (relation_ship : ℕ)
    → FiltersWf d
    → Backed a
    → Backed b
    → let (code, d') = set_filter d port a b relation_ship in
      (allowed d port a b ≡ true
        → (code ≡ no_error)
          × ((other : ℕ)
              → other < d.port_cnt
              → filter_at d' other ≡ (
                  if port == other
                  then stored d.filter_size a b relation_ship
                  else filter_at d other))
          × FiltersWf d')
      × (allowed d port a b ≡ false → (code ≢ no_error) × (d' ≡ d))
set_filter-stored d port a b relation_ship w ha hb = (
  λ ok.
      let (sa, sb, there, e) = set_filter-allowed d port a b relation_ship w ok in
      rw e (
        refl,
        λ other h. at there other,
        record {
          ports = length-set d.filters port now ∙ w.ports;
          sizes = λ other h. elim (Bool-cases (port == other)) [
            | inl same ↦
                rw (at there other, same)
                  (stored-HasSize d.filter_size a b relation_ship sa sb ha hb)
            | inr differ ↦ rw (at there other, differ) (w.sizes other h)
          ];
        },
      ),
  set_filter-refused d port a b relation_ship,
)
  where
    now : DpmFilter
    now = stored d.filter_size a b relation_ship

    at :
        port < d.port_cnt
        → (other : ℕ)
        → get_or (set d.filters port now) other no_filter
          ≡ (if port == other then now else filter_at d other)
    at there other = get_or-set d.filters port other now no_filter (omega (arith, w.ports))

-- A structure with room for a whole filter.
abbrev pub room : ℕ → List ℕ → List ℕ → Option Filter
room size m v = some (record { filter_size = size; mask = some m; value = some v })

fetch-room :
    (size : ℕ) (mask value m v : List ℕ)
    → length mask ≡ size
    → length value ≡ size
    → length m ≡ size
    → length v ≡ size
    → fetch size mask value (room size m v) ≡ some (room size mask value)
unfolding fetch
fetch-room zero mask value m v h k i j =
    cc (length_zero mask h, length_zero value k, length_zero m i, length_zero v j)
fetch-room (suc size) mask value m v h k i j =
    ground (arith, memcpy_all m mask (suc size) h i, memcpy_all v value (suc size) k j)

get_filter-room :
    (d : Device) (port : ℕ) (ma va mb vb : List ℕ)
    → port < d.port_cnt
    → HasSize d.filter_size (filter_at d port)
    → length ma ≡ d.filter_size
    → length va ≡ d.filter_size
    → length mb ≡ d.filter_size
    → length vb ≡ d.filter_size
    → let p = filter_at d port in
      get_filter d port true (room d.filter_size ma va) (room d.filter_size mb vb) ≡ record {
        code = no_error;
        relation_ship = some p.relation_ship;
        filter_a = room d.filter_size p.mask_a p.value_a;
        filter_b = room d.filter_size p.mask_b p.value_b;
      }
unfolding get_filter
get_filter-room d port ma va mb vb h s hma hva hmb hvb =
    let p = filter_at d port in
    rw
      (
        lt→ltb port d.port_cnt h,
        fetch-room d.filter_size p.mask_a p.value_a ma va s.mask_a_size s.value_a_size hma hva,
        fetch-room d.filter_size p.mask_b p.value_b mb vb s.mask_b_size s.value_b_size hmb hvb,
      )
      refl

-- Filters that were stored are read back with the relation, through structures with room for a whole
-- filter: the bytes given, filled up with zeros.
pub get_filter-set_filter :
    (d : Device) (port : ℕ) (a b : Option Filter) (relation_ship : ℕ) (ma va mb vb : List ℕ)
    → FiltersWf d
    → Backed a
    → Backed b
    → allowed d port a b ≡ true
    → length ma ≡ d.filter_size
    → length va ≡ d.filter_size
    → length mb ≡ d.filter_size
    → length vb ≡ d.filter_size
    → get_filter
        (set_filter d port a b relation_ship).1
        port
        true
        (room d.filter_size ma va)
        (room d.filter_size mb vb)
      ≡ record {
        code = no_error;
        relation_ship = some relation_ship;
        filter_a =
            room d.filter_size
              (padded d.filter_size (λ f. f.mask) a)
              (padded d.filter_size (λ f. f.value) a);
        filter_b =
            room d.filter_size
              (padded d.filter_size (λ f. f.mask) b)
              (padded d.filter_size (λ f. f.value) b);
      }
unfolding stored
get_filter-set_filter d port a b relation_ship ma va mb vb w ha hb ok hma hva hmb hvb =
    let (sa, sb, there, e) = set_filter-allowed d port a b relation_ship w ok in
    let now = stored d.filter_size a b relation_ship in
    let d' = record d { filters = set d.filters port now } in
    let at = get_or-set_self d.filters port now no_filter (omega (arith, w.ports)) in
    rw e (
      get_filter-room d' port ma va mb vb there
        (subst (HasSize d.filter_size) (sym at)
          (stored-HasSize d.filter_size a b relation_ship sa sb ha hb))
        hma hva hmb hvb
      ∙ ap
          (λ (p : DpmFilter). record {
            code = no_error;
            relation_ship = some p.relation_ship;
            filter_a = room d.filter_size p.mask_a p.value_a;
            filter_b = room d.filter_size p.mask_b p.value_b;
          })
          at)
