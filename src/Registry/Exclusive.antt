-- ===== src/Registry/Exclusive.antt =====
-- A device is never opened twice.
use nadrvlinux.Prelude.{
  ℕ, zero, suc, ◌+◌, ◌-◌, ◌≤◌, u32, Bool, Option, some, List, [], ◌∷◌, get_elem?, set, ltb, ◌≡◌,
  refl, sym, subst, ◌∙◌, inl, inr, Bool-cases, Option-cases, arith,
}
use nadrvlinux.Device.{Device}
use nadrvlinux.Filter.{Filter, set_filter}
use nadrvlinux.Registry.{
  Registry, default_a, default_b, reset_filters, reset_gpios, open_card, find_card, open_device,
  close_device, with_class_filter, class_allowed,
}

-- No device of the list is open more than once.
abbrev pub AllOnce : List Device → Type 0
AllOnce [] = Unit {0}
AllOnce (d ∷ ds) = (d.open_cnt ≤ 1) × AllOnce ds

AllOnce-set :
    (ds : List Device) (i : ℕ) (d : Device) → d.open_cnt ≤ 1 → AllOnce ds → AllOnce (set ds i d)
AllOnce-set [] i d h a = tt
AllOnce-set (x ∷ ds) zero d h a = (h, a.1)
AllOnce-set (x ∷ ds) (suc i) d h a = (a.0, AllOnce-set ds i d h a.1)

AllOnce-get_elem? :
    (ds : List Device) (i : ℕ) (d : Device) → get_elem? ds i ≡ some d → AllOnce ds → d.open_cnt ≤ 1
AllOnce-get_elem? [] i d e a = absurd cc
AllOnce-get_elem? (x ∷ ds) zero d e a = ground (arith, e)
AllOnce-get_elem? (x ∷ ds) (suc i) d e a = AllOnce-get_elem? ds i d e a.1

set_filter-open_cnt :
    (d : Device) (port : ℕ) (a b : Option Filter) (r : ℕ)
    → (set_filter d port a b r).1.open_cnt ≡ d.open_cnt
unfolding set_filter
set_filter-open_cnt d port a b r = ground arith

reset_filters-open_cnt :
    (left port : ℕ) (d : Device) → (reset_filters left port d).open_cnt ≡ d.open_cnt
unfolding reset_filters
reset_filters-open_cnt zero port d = refl
reset_filters-open_cnt (suc left) port d =
    reset_filters-open_cnt left (port + 1)
      (set_filter d port (some (default_a d port)) (some (default_b d port)) 0).1
    ∙ set_filter-open_cnt d port (some (default_a d port)) (some (default_b d port)) 0

reset_gpios-open_cnt :
    (left gpio : ℕ) (d : Device) → (reset_gpios left gpio d).open_cnt ≡ d.open_cnt
unfolding reset_gpios
reset_gpios-open_cnt zero gpio d = refl
reset_gpios-open_cnt (suc left) gpio d = reset_gpios-open_cnt left (gpio + 1) _

open_card-open_cnt : (d : Device) → (open_card d).open_cnt ≡ u32 (d.open_cnt + 1)
unfolding open_card
open_card-open_cnt d =
    let d1 = record d { open_cnt = u32 (d.open_cnt + 1) } in
    let d2 = reset_filters d1.port_cnt 0 d1 in
    reset_gpios-open_cnt d2.gpio_cnt 0 d2 ∙ reset_filters-open_cnt d1.port_cnt 0 d1

with_class_filter-cards : (g : Registry) → (with_class_filter g).cards ≡ g.cards
unfolding with_class_filter
with_class_filter-cards g = ground arith

-- What users do with the list.
pub data Use : Type 0 where
  opening : List ℕ → Use
  closing : ℕ → Use

module _ (same_name : List ℕ → List ℕ → Bool) where
  pub open_device-AllOnce :
      (name : List ℕ) (g : Registry)
      → AllOnce g.cards
      → AllOnce (open_device same_name name g).2.cards
  unfolding open_device
  open_device-AllOnce name g a = elim (Option-cases (find_card same_name name g.cards 0)) [
    | inl e ↦ rw (e, AllOnce) a
    | inr ((i, d), e) ↦
        rw (e, AllOnce)
          (elim (Bool-cases
            (class_allowed (with_class_filter g).dev_class_filter d.info.device_class)) [
              | inr skipped ↦ rw (skipped, AllOnce) kept
              | inl wanted ↦ elim (Bool-cases (ltb 0 d.open_cnt)) [
                | inl busy ↦ rw (wanted, busy, AllOnce) kept
                | inr shut ↦
                    rw (wanted, shut, AllOnce)
                      (AllOnce-set (with_class_filter g).cards i (open_card d)
                        (ground (arith, open_card-open_cnt d)) kept)
              ]
            ])
  ]
    where
      kept : AllOnce (with_class_filter g).cards
      kept = subst AllOnce (sym (with_class_filter-cards g)) a

pub close_device-AllOnce :
    (i : ℕ) (g : Registry) → AllOnce g.cards → AllOnce (close_device i g).1.cards
unfolding close_device
close_device-AllOnce i g a = elim (Option-cases (get_elem? g.cards i)) [
  | inl e ↦ rw (e, AllOnce) a
  | inr (d, e) ↦
      rw (e, AllOnce)
        (elim (Bool-cases (ltb 0 d.open_cnt)) [
          | inr shut ↦ rw (shut, AllOnce) a
          | inl busy ↦
              rw (busy, AllOnce)
                (AllOnce-set g.cards i (record d { open_cnt = d.open_cnt - 1 })
                  (omega (arith, AllOnce-get_elem? g.cards i d e a)) a)
        ])
]

module _ (same_name : List ℕ → List ℕ → Bool) where
  unfoldable pub used : List Use → Registry → Registry
  used [] g = g
  used (opening name ∷ us) g = used us (open_device same_name name g).2
  used (closing i ∷ us) g = used us (close_device i g).1

  -- Whatever devices are opened and closed, in any order and however names are compared, no device is
  -- ever open more than once, if it was so before.
  pub used-AllOnce : (us : List Use) (g : Registry) → AllOnce g.cards → AllOnce (used us g).cards
  unfolding used
  used-AllOnce [] g a = a
  used-AllOnce (opening name ∷ us) g a =
      used-AllOnce us (open_device same_name name g).2 (open_device-AllOnce same_name name g a)
  used-AllOnce (closing i ∷ us) g a =
      used-AllOnce us (close_device i g).1 (close_device-AllOnce i g a)
