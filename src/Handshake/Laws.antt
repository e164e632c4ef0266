-- ===== src/Handshake/Laws.antt =====
-- What a toggle does to the handshake bits, and what a wait for one ends in.
use nadrvlinux.Prelude.{
  ℕ, ◌^◌, ◌<◌, bit_xor, u16, sub32, Bool, true, false, not, Option, none, some, List, [], ◌∷◌, ltb,
  ltb→lt, ◌==◌, ==_iff, if◌then◌else◌, ◌≡◌, ◌≢◌, refl, ◌⊎◌, inl, inr, Bool-cases, arith,
}
use nadrvlinux.Prelude.Bits.{
  is_set-two_pow, test_bit, test_bit-bit_xor, test_bit-two_pow, bit_xor_undo, differs,
}
use nadrvlinux.Device.{Device}
use nadrvlinux.System.{Wake, System}
use nadrvlinux.Handshake.{
  get_hsk_bit_state, toggle_bit, wait_rounds, wait_for_bit_state, bitstate_equal, bitstate_unequal,
}

-- Whether host and firmware agree on a bit.
unfoldable pub agrees : Device → ℕ → Bool
agrees d bit = not (differs (test_bit d.host_flags bit) (test_bit d.netx_flags bit))

pub get_hsk_bit_state-agrees :
    (d : Device) (bit : ℕ)
    → get_hsk_bit_state d (2 ^ bit) bitstate_equal
      ≡ (if agrees d bit then bitstate_equal else bitstate_unequal)
unfolding get_hsk_bit_state agrees
get_hsk_bit_state-agrees d bit = ground (
  arith,
  is_set-two_pow (bit_xor d.host_flags d.netx_flags) bit,
  test_bit-bit_xor d.host_flags d.netx_flags bit,
)

pub get_hsk_bit_state-disagrees :
    (d : Device) (bit : ℕ)
    → get_hsk_bit_state d (2 ^ bit) bitstate_unequal
      ≡ (if agrees d bit then bitstate_equal else bitstate_unequal)
unfolding get_hsk_bit_state agrees
get_hsk_bit_state-disagrees d bit = ground (
  arith,
  is_set-two_pow (bit_xor d.host_flags d.netx_flags) bit,
  test_bit-bit_xor d.host_flags d.netx_flags bit,
)

-- Toggling a bit makes host and firmware disagree on it where they agreed, and agree where they
-- disagreed. It changes no other bit, and the cell in the dual-port memory follows the low 16 bits.
pub agrees-toggle_bit :
    (d : Device) (bit other : ℕ)
    → (agrees (toggle_bit bit d) other
        ≡ (if bit == other then not (agrees d other) else agrees d other))
      × ((toggle_bit bit d).hsk_host_flags ≡ u16 (toggle_bit bit d).host_flags)
      × ((toggle_bit bit d).netx_flags ≡ d.netx_flags)
unfolding agrees toggle_bit
agrees-toggle_bit d bit other = (
  ground (arith, test_bit-bit_xor d.host_flags (2 ^ bit) other, test_bit-two_pow bit other),
  refl,
  refl,
)

-- Two toggles of the same bit give the host's flags back.
pub toggle_bit-toggle_bit :
    (d : Device) (bit : ℕ) → (toggle_bit bit (toggle_bit bit d)).host_flags ≡ d.host_flags
unfolding toggle_bit
toggle_bit-toggle_bit d bit = bit_xor_undo d.host_flags (2 ^ bit)

-- What a wait may return, started on `d` at counter `start`.
abbrev pub Waited :
    (bit state start timeout : ℕ) → Option (Bool × (Device × ℕ × List Wake)) → Type 0
Waited bit state start timeout none = Unit {0}
Waited bit state start timeout (some (true, (d, clock, ws))) =
    get_hsk_bit_state d (2 ^ bit) state ≡ state
Waited bit state start timeout (some (false, (d, clock, ws))) =
    (get_hsk_bit_state d (2 ^ bit) state ≢ state) × (timeout < sub32 clock start)

wait_rounds-Waited :
    (bit state start timeout : ℕ) (d : Device) (ws : List Wake)
    → Waited bit state start timeout (wait_rounds bit state start timeout d ws)
unfolding wait_rounds
wait_rounds-Waited bit state start timeout d [] = tt
wait_rounds-Waited bit state start timeout d (w ∷ ws) =
    elim (Bool-cases (get_hsk_bit_state (w.act d) (2 ^ bit) state == state)) [
      | inl hit ↦ rw hit ((==_iff (get_hsk_bit_state (w.act d) (2 ^ bit) state) state).0 hit)
      | inr miss ↦ elim (Bool-cases (ltb timeout (sub32 w.clock start))) [
        | inl late ↦ rw (miss, late) (ground arith, ltb→lt timeout (sub32 w.clock start) late)
        | inr early ↦ rw (miss, early) (wait_rounds-Waited bit state start timeout (w.act d) ws)
      ]
    ]

-- Some wake comes after the timeout.
abbrev pub HasLate : (start timeout : ℕ) → List Wake → Type 0
HasLate start timeout [] = ⊥
HasLate start timeout (w ∷ ws) = (timeout < sub32 w.clock start) ⊎ HasLate start timeout ws

wait_rounds-ne-none :
    (bit state start timeout : ℕ) (d : Device) (ws : List Wake)
    → HasLate start timeout ws
    → wait_rounds bit state start timeout d ws ≢ none
unfolding wait_rounds
wait_rounds-ne-none bit state start timeout d [] h = absurd h
wait_rounds-ne-none bit state start timeout d (w ∷ ws) (inl late) = ground arith
wait_rounds-ne-none bit state start timeout d (w ∷ ws) (inr later) =
    ground (arith, wait_rounds-ne-none bit state start timeout (w.act d) ws later)

-- What netana_tkit_WaitForBitState returns to a thread in `s`.
abbrev pub WaitResult : (bit state timeout : ℕ) → System → Option (Bool × System) → Type 0
WaitResult bit state timeout s none = Unit {0}
WaitResult bit state timeout s (some (true, s')) =
    get_hsk_bit_state s'.device (2 ^ bit) state ≡ state
WaitResult bit state timeout s (some (false, s')) =
    (get_hsk_bit_state s'.device (2 ^ bit) state ≢ state)
    × ((timeout ≡ 0) ⊎ (timeout < sub32 s'.clock s.clock))

-- How the function passes on what its loop ended in.
abbrev settle : System → Option (Bool × (Device × ℕ × List Wake)) → Option (Bool × System)
settle s o = elim o [
  | none ↦ none
  | some (ok, (d, clock, ws)) ↦ some (ok, record s { device = d; clock = clock; wakes = ws })
]

settled :
    (bit state timeout : ℕ) (s : System) (o : Option (Bool × (Device × ℕ × List Wake)))
    → Waited bit state s.clock timeout o
    → WaitResult bit state timeout s (settle s o)
settled bit state timeout s none h = tt
settled bit state timeout s (some (true, (d, clock, ws))) h = h
settled bit state timeout s (some (false, (d, clock, ws))) h = (h.0, inr h.1)

settled-ne-none :
    (s : System) (o : Option (Bool × (Device × ℕ × List Wake))) → o ≢ none → settle s o ≢ none
settled-ne-none s none h e = h refl
settled-ne-none s (some (ok, (d, clock, ws))) h e = cc

-- Whatever happens to the device while the thread waits, a wait that reports success leaves the bit
-- in the state asked for, and one that reports failure leaves it in another, after the timeout (or
-- at once, if that is 0). It returns as soon as some wake comes after the timeout.
pub wait_for_bit_state-WaitResult :
    (bit state timeout : ℕ) (s : System)
    → WaitResult bit state timeout s (wait_for_bit_state bit state timeout s)
      × (HasLate s.clock timeout s.wakes → wait_for_bit_state bit state timeout s ≢ none)
unfolding wait_for_bit_state
wait_for_bit_state-WaitResult bit state timeout s =
    elim (Bool-cases (get_hsk_bit_state s.device (2 ^ bit) state == state)) [
      | inl hit ↦
          rw hit ((==_iff (get_hsk_bit_state s.device (2 ^ bit) state) state).0 hit, λ late e. cc)
      | inr miss ↦ elim (Bool-cases (timeout == 0)) [
        | inl none_given ↦ rw (miss, none_given) ((ground arith, ground arith), λ late e. cc)
        | inr some_given ↦
            rw (miss, some_given)
              (
                settled bit state timeout s (wait_rounds bit state s.clock timeout s.device s.wakes)
                    (wait_rounds-Waited bit state s.clock timeout s.device s.wakes),
                λ late.
                    settled-ne-none s (wait_rounds bit state s.clock timeout s.device s.wakes)
                      (wait_rounds-ne-none bit state s.clock timeout s.device s.wakes late),
              )
      ]
    ]
