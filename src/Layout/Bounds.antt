-- ===== src/Layout/Bounds.antt =====
-- The blocks of the dual-port memory follow each other without overlap.
use nadrvlinux.Prelude.{
  ℕ, zero, suc, ◌+◌, ◌-◌, ◌*◌, ◌≤◌, List, [], ◌∷◌, ◌++◌, ◌≡◌, refl, sym, subst, arith,
}
use nadrvlinux.Command.{ident_info_block_size}
use nadrvlinux.Layout.{
  LayoutInfo, FilterPlace, Places, sizeof_base_dpm, sizeof_gpio_block, sizeof_filter_base,
  sizeof_handshake_block, gpio_places, filter_places, counter_places, places,
}

-- A block: where it begins, and its size.
abbrev pub Extent : Type 0
Extent = ℕ × ℕ

abbrev pub even_extents : ℕ → List ℕ → List Extent
even_extents size [] = []
even_extents size (p ∷ ps) = (p, size) ∷ even_extents size ps

abbrev pub filter_extents : ℕ → List FilterPlace → List Extent
filter_extents size [] = []
filter_extents size (p ∷ ps) =
    (p.base, sizeof_filter_base)
    ∷ (p.mask_a_place, size)
    ∷ (p.value_a_place, size)
    ∷ (p.mask_b_place, size)
    ∷ (p.value_b_place, size)
    ∷ filter_extents size ps

-- All the blocks that the instance points to, in the order of the memory.
abbrev pub extents : LayoutInfo → Places → List Extent
extents l p =
    even_extents sizeof_gpio_block p.gpios_at
    ++ (filter_extents l.filter_block_size p.filters_at
        ++ (even_extents l.counter_size p.counters_at ++ (p.ident_at, ident_info_block_size) ∷ []))

-- Each block begins where the one before it ends.
abbrev pub Consecutive : (from : ℕ) → List Extent → (to : ℕ) → Type 0
Consecutive from [] to = from ≡ to
Consecutive from (x ∷ xs) to = (x.0 ≡ from) × Consecutive (from + x.1) xs to

Consecutive-append :
    (from middle to : ℕ) (xs ys : List Extent)
    → Consecutive from xs middle
    → Consecutive middle ys to
    → Consecutive from (xs ++ ys) to
Consecutive-append from middle to [] ys c e = subst (λ (v : ℕ). Consecutive v ys to) (sym c) e
Consecutive-append from middle to (x ∷ xs) ys c e =
    (c.0, Consecutive-append (from + x.1) middle to xs ys c.1 e)

gpio_places-Consecutive :
    (left from : ℕ)
    → Consecutive from
        (even_extents sizeof_gpio_block (gpio_places left from).0)
        (gpio_places left from).1
unfolding gpio_places
gpio_places-Consecutive zero from = refl
gpio_places-Consecutive (suc left) from =
    (refl, gpio_places-Consecutive left (from + sizeof_gpio_block))

filter_places-Consecutive :
    (size left from : ℕ)
    → Consecutive from
        (filter_extents size (filter_places size left from).0)
        (filter_places size left from).1
unfolding filter_places
filter_places-Consecutive size zero from = refl
filter_places-Consecutive size (suc left) from = (
  refl,
  (
    refl,
    (
      refl,
      (
        refl,
        (
          refl,
          filter_places-Consecutive size left
              (from + sizeof_filter_base + size + size + size + size),
        ),
      ),
    ),
  ),
)

counter_places-Consecutive :
    (size left from : ℕ)
    → Consecutive from
        (even_extents size (counter_places size left from).0)
        (counter_places size left from).1
unfolding counter_places
counter_places-Consecutive size zero from = refl
counter_places-Consecutive size (suc left) from =
    (refl, counter_places-Consecutive size left (from + size))

pub gpio_places-end : (left from : ℕ) → (gpio_places left from).1 ≡ from + left * sizeof_gpio_block
unfolding gpio_places
gpio_places-end zero from = omega arith
gpio_places-end (suc left) from = omega (arith, gpio_places-end left (from + sizeof_gpio_block))

filter_places-end :
    (size left from : ℕ)
    → (filter_places size left from).1 ≡ from + left * (sizeof_filter_base + 4 * size)
unfolding filter_places
filter_places-end size zero from = omega arith
filter_places-end size (suc left) from =
    grind
      (arith, filter_places-end size left (from + sizeof_filter_base + size + size + size + size))

counter_places-end : (size left from : ℕ) → (counter_places size left from).1 ≡ from + left * size
unfolding counter_places
counter_places-end size zero from = omega arith
counter_places-end size (suc left) from = grind (arith, counter_places-end size left (from + size))

-- What the blocks take, by the counts and sizes that the firmware reports.
abbrev pub blocks_size : LayoutInfo → ℕ
blocks_size l =
    sizeof_base_dpm
    + l.gpio_count * sizeof_gpio_block
    + l.port_count * (sizeof_filter_base + 4 * l.filter_block_size)
    + l.port_count * l.counter_size
    + ident_info_block_size

-- Each block begins where all those before it have ended, and ends up to the limit.
abbrev pub Begins : ℕ → List Extent → Type 0
Begins end [] = Unit {0}
Begins end (x ∷ xs) = (end ≤ x.0) × Begins end xs

abbrev pub Apart : (limit : ℕ) → List Extent → Type 0
Apart limit [] = Unit {0}
Apart limit (x ∷ xs) = (x.0 + x.1 ≤ limit) × Begins (x.0 + x.1) xs × Apart limit xs

Consecutive-Begins :
    (end from to : ℕ) (xs : List Extent) → end ≤ from → Consecutive from xs to → Begins end xs
Consecutive-Begins end from to [] h c = tt
Consecutive-Begins end from to (x ∷ xs) h c =
    (omega (arith, h, c.0), Consecutive-Begins end (from + x.1) to xs (omega (arith, h)) c.1)

Consecutive-le : (from to : ℕ) (xs : List Extent) → Consecutive from xs to → from ≤ to
Consecutive-le from to [] c = omega (arith, c)
Consecutive-le from to (x ∷ xs) c = omega (arith, Consecutive-le (from + x.1) to xs c.1)

Consecutive-Apart :
    (from to limit : ℕ) (xs : List Extent) → Consecutive from xs to → to ≤ limit → Apart limit xs
Consecutive-Apart from to limit [] c h = tt
Consecutive-Apart from to limit (x ∷ xs) c h = (
  omega (arith, c.0, h, Consecutive-le (from + x.1) to xs c.1),
  Consecutive-Begins (x.0 + x.1) (from + x.1) to xs (omega (arith, c.0)) c.1,
  Consecutive-Apart (from + x.1) to limit xs c.1 h,
)

extents-Consecutive :
    (l : LayoutInfo) → Consecutive sizeof_base_dpm (extents l (places l)) (places l).blocks_end
unfolding places
extents-Consecutive l =
    let gs = gpio_places l.gpio_count sizeof_base_dpm in
    let fs = filter_places l.filter_block_size l.port_count gs.1 in
    let cs = counter_places l.counter_size l.port_count fs.1 in
    let last : List Extent = (cs.1, ident_info_block_size) ∷ [] in
    let end = cs.1 + ident_info_block_size in
    Consecutive-append sizeof_base_dpm gs.1 end (even_extents sizeof_gpio_block gs.0) _
      (gpio_places-Consecutive l.gpio_count sizeof_base_dpm)
      (Consecutive-append gs.1 fs.1 end (filter_extents l.filter_block_size fs.0) _
        (filter_places-Consecutive l.filter_block_size l.port_count gs.1)
        (Consecutive-append fs.1 cs.1 end (even_extents l.counter_size cs.0) last
          (counter_places-Consecutive l.counter_size l.port_count fs.1) (refl, refl)))

blocks_end-eq-blocks_size : (l : LayoutInfo) → (places l).blocks_end ≡ blocks_size l
unfolding places
blocks_end-eq-blocks_size l =
    let gs = gpio_places l.gpio_count sizeof_base_dpm in
    let fs = filter_places l.filter_block_size l.port_count gs.1 in
    omega (
      arith,
      gpio_places-end l.gpio_count sizeof_base_dpm,
      filter_places-end l.filter_block_size l.port_count gs.1,
      counter_places-end l.counter_size l.port_count fs.1,
    )

-- If the memory that the firmware says it uses has room for the blocks that it reports and for the
-- handshake block: no two blocks of GPIOs, filters, counters and identification that the instance points
-- to overlap, none of them reaches into the base structure or the handshake block, which is the end of
-- the memory in use, and together they take exactly what the counts and sizes say.
pub places-Apart :
    (l : LayoutInfo)
    → blocks_size l + sizeof_handshake_block ≤ l.dpm_used_size
    → Begins sizeof_base_dpm (extents l (places l))
      × Apart (places l).handshake_at (extents l (places l))
      × ((places l).blocks_end ≡ blocks_size l)
      × ((places l).handshake_at + sizeof_handshake_block ≡ l.dpm_used_size)
places-Apart l room =
    let c = extents-Consecutive l in
    let e = blocks_end-eq-blocks_size l in
    let top : (places l).handshake_at ≡ l.dpm_used_size - sizeof_handshake_block =
      unfold places in refl in
    (
      Consecutive-Begins sizeof_base_dpm sizeof_base_dpm (places l).blocks_end
          (extents l (places l)) (omega arith) c,
      Consecutive-Apart sizeof_base_dpm (places l).blocks_end (places l).handshake_at
          (extents l (places l)) c (omega (arith, e, top, room)),
      e,
      omega (arith, top, room),
    )
