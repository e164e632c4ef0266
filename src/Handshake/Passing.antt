-- ===== src/Handshake/Passing.antt =====
-- A wait itself changes nothing: the device is what others have made of it meanwhile, in the wakes that
-- it has taken.
use nadrvlinux.Prelude.{
  ℕ, zero, suc, ◌^◌, sub32, Bool, true, false, not, Option, none, some, List, [], ◌∷◌, drop, ltb,
  ◌==◌, ◌≡◌, refl, inl, inr, Bool-cases, arith,
}
use nadrvlinux.Device.{Device}
use nadrvlinux.System.{Wake, System}
use nadrvlinux.Handshake.{
  get_hsk_bit_state, wait_rounds, wait_for_bit_state, bitstate_equal, bitstate_unequal,
}
use nadrvlinux.Handshake.Laws.{
  agrees, get_hsk_bit_state-agrees, get_hsk_bit_state-disagrees, WaitResult,
  wait_for_bit_state-WaitResult,
}

-- What the first `n` wakes make of a device.
unfoldable pub passes : ℕ → List Wake → Device → Device
passes zero ws d = d
passes (suc n) [] d = d
passes (suc n) (w ∷ ws) d = passes n ws (w.act d)

abbrev PassedBy : List Wake → Device → Option (Bool × (Device × ℕ × List Wake)) → Type 0
PassedBy ws d none = Unit {0}
PassedBy ws d (some (ok, (d', clock, ws'))) = (n : ℕ) × (d' ≡ passes n ws d) × (ws' ≡ drop n ws)

wait_rounds-PassedBy :
    (bit state start timeout : ℕ) (d : Device) (ws : List Wake)
    → PassedBy ws d (wait_rounds bit state start timeout d ws)
unfolding wait_rounds passes
wait_rounds-PassedBy bit state start timeout d [] = tt
wait_rounds-PassedBy bit state start timeout d (w ∷ ws) =
    elim (Bool-cases (get_hsk_bit_state (w.act d) (2 ^ bit) state == state)) [
      | inl hit ↦ rw hit (1, refl, refl)
      | inr miss ↦ elim (Bool-cases (ltb timeout (sub32 w.clock start))) [
        | inl late ↦ rw (miss, late) (1, refl, refl)
        | inr early ↦
            rw (miss, early)
              (later (wait_rounds bit state start timeout (w.act d) ws)
                (wait_rounds-PassedBy bit state start timeout (w.act d) ws))
      ]
    ]
  where
    later :
        (o : Option (Bool × (Device × ℕ × List Wake)))
        → PassedBy ws (w.act d) o
        → PassedBy (w ∷ ws) d o
    later none h = tt
    later (some (ok, (d', clock, ws'))) (n, e, f) = (suc n, e, f)

abbrev Passed : System → Option (Bool × System) → Type 0
Passed s none = Unit {0}
Passed s (some (ok, s')) =
    (n : ℕ) × (s'.device ≡ passes n s.wakes s.device) × (s'.wakes ≡ drop n s.wakes)

wait_for_bit_state-Passed :
    (bit state timeout : ℕ) (s : System) → Passed s (wait_for_bit_state bit state timeout s)
unfolding wait_for_bit_state passes
wait_for_bit_state-Passed bit state timeout s =
    elim (Bool-cases (get_hsk_bit_state s.device (2 ^ bit) state == state)) [
      | inl hit ↦ rw hit (0, refl, refl)
      | inr miss ↦ elim (Bool-cases (timeout == 0)) [
        | inl at_once ↦ rw (miss, at_once) (0, refl, refl)
        | inr patient ↦
            rw (miss, patient)
              (settled (wait_rounds bit state s.clock timeout s.device s.wakes)
                (wait_rounds-PassedBy bit state s.clock timeout s.device s.wakes))
      ]
    ]
  where
    settled :
        (o : Option (Bool × (Device × ℕ × List Wake)))
        → PassedBy s.wakes s.device o
        → Passed s (elim o [
          | none ↦ none
          | some (ok, (d, clock, ws)) ↦
              some (ok, record s { device = d; clock = clock; wakes = ws })
        ])
    settled none h = tt
    settled (some (ok, (d, clock, ws))) h = h

-- A wait for the two sides to agree.
abbrev pub Agreed : ℕ → System → Option (Bool × System) → Type 0
Agreed bit s none = Unit {0}
Agreed bit s (some (ok, s')) =
    (agrees s'.device bit ≡ ok)
    × ((n : ℕ) × (s'.device ≡ passes n s.wakes s.device) × (s'.wakes ≡ drop n s.wakes))

pub wait_for_bit_state-Agreed :
    (bit timeout : ℕ) (s : System) → Agreed bit s (wait_for_bit_state bit bitstate_equal timeout s)
wait_for_bit_state-Agreed bit timeout s =
    joined (wait_for_bit_state bit bitstate_equal timeout s)
      (wait_for_bit_state-WaitResult bit bitstate_equal timeout s).0
      (wait_for_bit_state-Passed bit bitstate_equal timeout s)
  where
    joined :
        (o : Option (Bool × System))
        → WaitResult bit bitstate_equal timeout s o
        → Passed s o
        → Agreed bit s o
    joined none w p = tt
    joined (some (true, s')) w p = (ground (arith, get_hsk_bit_state-agrees s'.device bit), p)
    joined (some (false, s')) w p = (ground (arith, get_hsk_bit_state-agrees s'.device bit), p)

-- A wait for the two sides to disagree.
abbrev pub Disagreed : ℕ → System → Option (Bool × System) → Type 0
Disagreed bit s none = Unit {0}
Disagreed bit s (some (ok, s')) =
    (agrees s'.device bit ≡ not ok)
    × ((n : ℕ) × (s'.device ≡ passes n s.wakes s.device) × (s'.wakes ≡ drop n s.wakes))

pub wait_for_bit_state-Disagreed :
    (bit timeout : ℕ) (s : System)
    → Disagreed bit s (wait_for_bit_state bit bitstate_unequal timeout s)
wait_for_bit_state-Disagreed bit timeout s =
    joined (wait_for_bit_state bit bitstate_unequal timeout s)
      (wait_for_bit_state-WaitResult bit bitstate_unequal timeout s).0
      (wait_for_bit_state-Passed bit bitstate_unequal timeout s)
  where
    joined :
        (o : Option (Bool × System))
        → WaitResult bit bitstate_unequal timeout s o
        → Passed s o
        → Disagreed bit s o
    joined none w p = tt
    joined (some (true, s')) w p = (ground (arith, get_hsk_bit_state-disagrees s'.device bit), p)
    joined (some (false, s')) w p = (ground (arith, get_hsk_bit_state-disagrees s'.device bit), p)
