-- ===== src/Loader/Reset.antt =====
-- A reset of the card ends.
use nadrvlinux.Prelude.{
  ℕ, zero, suc, ◌+◌, ◌≤◌, ◌<◌, bit_and, Bool, true, false, ◌||◌, Option, none, some, List, [], ◌∷◌,
  ◌++◌, length, ◌==◌, ==_iff, Bool-cases, ◌≡◌, ◌≢◌, refl, sym, ap, subst, ◌∙◌, ◌⊎◌, inl, inr, arith,
}
use nadrvlinux.Codes.{no_error, hwreset_error, memory_mapping_failed}
use nadrvlinux.Boot.{BootDpm, BootSystem, Poll, done}
use nadrvlinux.Loader.{
  Chip, unknown_chip, netx50, netx100_500, Card, with_chip, reset_sequence, startup_cycles,
  dpm_no_memory, dpm_invalid, netx50_bootid, boot_waiting, reset_cycles, netx_reset,
}

-- Registers that can be read.
abbrev pub Readable : BootDpm → Type 0
Readable d = (d.system_state ≢ dpm_invalid) × (d.system_state ≢ dpm_no_memory)

-- What the first `n` sleeps make of the memory of the card.
abbrev pub polled : ℕ → List Poll → BootDpm → BootDpm
polled zero ps d = d
polled (suc n) [] d = d
polled (suc n) (p ∷ ps) d = polled n ps (p.act d)

-- Registers that can be read, and show no loader.
abbrev pub Pending : BootDpm → Type 0
Pending d =
    Readable d × (d.cookie ≢ netx50_bootid) × (bit_and d.system_state boot_waiting ≢ boot_waiting)

-- Why the loop ended, after `used` cycles.
abbrev pub Cycled : (cycles used : ℕ) → ℕ → Option Chip → BootDpm → Type 0
Cycled cycles used code (some netx50) d =
    (code ≡ no_error) × Readable d × (d.cookie ≡ netx50_bootid)
Cycled cycles used code (some netx100_500) d =
    (code ≡ no_error)
    × Readable d
    × (d.cookie ≢ netx50_bootid)
    × (bit_and d.system_state boot_waiting ≡ boot_waiting)
Cycled cycles used code (some unknown_chip) d = ⊥
Cycled cycles used code none d =
    ((code ≡ memory_mapping_failed)
      × ((d.system_state ≡ dpm_invalid) ⊎ (d.system_state ≡ dpm_no_memory)))
    ⊎ ((code ≡ hwreset_error) × (used ≡ cycles) × (0 < cycles → Pending d))

abbrev Ended : (cycles : ℕ) → BootSystem → Option ((ℕ × Option Chip) × BootSystem) → Type 0
Ended cycles s none = ⊥
Ended cycles s (some ((code, chip), s')) =
    (s'.resets ≡ s.resets)
    × (used : ℕ) × (length s.polls ≡ used + length s'.polls)
    × (used ≤ cycles)
    × (s'.dpm ≡ polled used s.polls s.dpm)
    × ((i : ℕ) → 0 < i → i < used → Pending (polled i s.polls s.dpm))
    × Cycled cycles used code chip s'.dpm

abbrev Ends : ℕ → Type 0
Ends cycles = (s : BootSystem) → cycles ≤ length s.polls → Ended cycles s (reset_cycles cycles s)

abbrev unreadable : BootDpm → Bool
unreadable d = (d.system_state == dpm_invalid) || (d.system_state == dpm_no_memory)

unreadable-cause :
    (d : BootDpm)
    → unreadable d ≡ true
    → (d.system_state ≡ dpm_invalid) ⊎ (d.system_state ≡ dpm_no_memory)
unreadable-cause d e = elim (Bool-cases (d.system_state == dpm_invalid)) [
  | inl hit ↦ inl ((==_iff d.system_state dpm_invalid).0 hit)
  | inr miss ↦ inr (ground (arith, e, miss, ==_iff d.system_state dpm_no_memory))
]

readable : (d : BootDpm) → unreadable d ≡ false → Readable d
readable d e = (λ x. absurd (ground (arith, e, x)), λ x. absurd (ground (arith, e, x)))

-- One more cycle before others.
Pending-before :
    (d0 : BootDpm) (p : Poll) (ps : List Poll) (used : ℕ)
    → Pending (p.act d0)
    → ((i : ℕ) → 0 < i → i < used → Pending (polled i ps (p.act d0)))
    → (i : ℕ) → 0 < i
    → i < suc used
    → Pending (polled i (p ∷ ps) d0)
Pending-before d0 p ps used first later zero h k = absurd (omega (arith, h))
Pending-before d0 p ps used first later (suc zero) h k = first
Pending-before d0 p ps used first later (suc (suc i)) h k =
    later (suc i) (omega arith) (omega (arith, k))

Pending-last :
    (d d' : BootDpm) (ps : List Poll) (used cycles : ℕ)
    → Pending d
    → d' ≡ polled used ps d
    → used ≡ cycles
    → (0 < cycles → Pending d')
    → Pending d'
Pending-last d d' ps used zero first e u h =
    subst Pending (sym (e ∙ ap (λ (n : ℕ). polled n ps d) u)) first
Pending-last d d' ps used (suc cycles) first e u h = h (omega arith)

module _ (cycles : ℕ) (s : BootSystem) (p : Poll) (ps : List Poll) where
  later-Ended :
      (o : Option ((ℕ × Option Chip) × BootSystem))
      → Pending (p.act s.dpm)
      → Ended cycles (record s { dpm = p.act s.dpm; polls = ps }) o
      → Ended (suc cycles) (record s { polls = p ∷ ps }) o
  later-Ended none first e = e
  later-Ended (some ((code, some netx50), s')) first (r, used, n, few, e, before, c) = (
    r,
    suc used,
    omega (arith, n),
    omega (arith, few),
    e,
    Pending-before s.dpm p ps used first before,
    c,
  )
  later-Ended (some ((code, some netx100_500), s')) first (r, used, n, few, e, before, c) = (
    r,
    suc used,
    omega (arith, n),
    omega (arith, few),
    e,
    Pending-before s.dpm p ps used first before,
    c,
  )
  later-Ended (some ((code, some unknown_chip), s')) first (r, used, n, few, e, before, c) =
      absurd c
  later-Ended (some ((code, none), s')) first (r, used, n, few, e, before, inl c) = (
    r,
    suc used,
    omega (arith, n),
    omega (arith, few),
    e,
    Pending-before s.dpm p ps used first before,
    inl c,
  )
  later-Ended (some ((code, none), s')) first (r, used, n, few, e, before, inr (bad, u, last)) = (
    r,
    suc used,
    omega (arith, n),
    omega (arith, few),
    e,
    Pending-before s.dpm p ps used first before,
    inr (
      bad,
      omega (arith, u),
      λ h. Pending-last (p.act s.dpm) s'.dpm ps used cycles first e u last,
    ),
  )

-- Nothing lies before the first cycle.
none_before : (s : BootSystem) (i : ℕ) → 0 < i → i < 1 → Pending (polled i s.polls s.dpm)
none_before s i h k = absurd (omega (arith, h, k))

-- One cycle, when those that follow it end.
cycle-Ends : (cycles : ℕ) → Ends cycles → Ends (suc cycles)
unfolding reset_cycles
cycle-Ends cycles rest s h = slept s.polls h
  where
    slept :
        (ps : List Poll)
        → suc cycles ≤ length ps
        → Ended
            (suc cycles)
            (record s { polls = ps })
            (reset_cycles (suc cycles) (record s { polls = ps }))
    slept [] h = absurd (omega (arith, h))
    slept (p ∷ ps) h =
        let d = p.act s.dpm in
        let nothing = none_before (record s { polls = p ∷ ps }) in
        elim (Bool-cases (unreadable d)) [
          | inl lost ↦ rw lost (
            refl,
            1,
            omega arith,
            omega arith,
            refl,
            nothing,
            inl (refl, unreadable-cause d lost),
          )
          | inr there ↦ elim (Bool-cases (d.cookie == netx50_bootid)) [
            | inl old ↦
                rw (there, old)
                  (
                    refl,
                    1,
                    omega arith,
                    omega arith,
                    refl,
                    nothing,
                    (refl, readable d there, (==_iff d.cookie netx50_bootid).0 old),
                  )
            | inr other ↦ elim (Bool-cases (bit_and d.system_state boot_waiting == boot_waiting)) [
              | inl waiting ↦
                  rw (there, other, waiting)
                    (
                      refl,
                      1,
                      omega arith,
                      omega arith,
                      refl,
                      nothing,
                      (
                        refl,
                        readable d there,
                        ground (arith, other),
                        (==_iff (bit_and d.system_state boot_waiting) boot_waiting).0 waiting,
                      ),
                    )
              | inr not_yet ↦
                  rw (there, other, not_yet)
                    (later-Ended cycles s p ps
                      (reset_cycles cycles (record s { dpm = d; polls = ps }))
                      (
                        readable d there,
                        ground (arith, other),
                        λ e. cc (
                          (==_iff (bit_and d.system_state boot_waiting) boot_waiting).1 e,
                          not_yet,
                        ),
                      )
                      (rest (record s { dpm = d; polls = ps }) (omega (arith, h))))
            ]
          ]
        ]

reset_cycles-Ends : (cycles : ℕ) → Ends cycles
unfolding reset_cycles
reset_cycles-Ends zero s h = (
  refl,
  0,
  omega arith,
  omega arith,
  refl,
  λ i h k. absurd (omega (arith, k)),
  inr (refl, refl, λ h. absurd (omega (arith, h))),
)
reset_cycles-Ends (suc cycles) s h = cycle-Ends cycles (reset_cycles-Ends cycles) s h

-- What a reset may leave.
abbrev pub Reset : Card → BootSystem → Option ((ℕ × Card) × BootSystem) → Type 0
Reset c s none = ⊥
Reset c s (some ((code, c'), s')) =
    (s'.resets ≡ s.resets ++ reset_sequence)
    × (chip : Option Chip) × (used : ℕ) × (c' ≡ with_chip c chip)
    × (length s.polls ≡ suc (used + length s'.polls))
    × (used ≤ startup_cycles)
    × (s'.dpm ≡ polled (suc used) s.polls s.dpm)
    × ((i : ℕ) → 0 < i → i < used → Pending (polled (suc i) s.polls s.dpm))
    × Cycled startup_cycles used code chip s'.dpm

-- If the card goes on for 51 sleeps, a reset returns: the sequence was written in order and once, and
-- the loop ended after at most 50 cycles, in none of which but the last the registers were unreadable or
-- showed a loader. In the last one, either a loader shows, there is no error and the chip is the one that
-- the registers show, or the registers cannot be read, or it was the 50th cycle and no loader shows
-- there either, and the chip is not changed.
pub netx_reset-Reset :
    (c : Card) (s : BootSystem) → 51 ≤ length s.polls → Reset c s (netx_reset c s)
unfolding netx_reset
netx_reset-Reset c s h = slept s.polls h
  where
    ended :
        (p : Poll) (ps : List Poll) (o : Option ((ℕ × Option Chip) × BootSystem))
        → Ended startup_cycles
            (record s { dpm = p.act s.dpm; polls = ps; resets = s.resets ++ reset_sequence })
            o
        → Reset c
            (record s { polls = p ∷ ps })
            (elim o as (λ x. Option ((ℕ × Card) × BootSystem)) [
              | none ↦ none
              | some x ↦ done (x.0.0, with_chip c x.0.1) x.1
            ])
    ended p ps none e = e
    ended p ps (some ((code, chip), s')) (r, used, n, few, e, before, why) =
        (r, chip, used, refl, omega (arith, n), few, e, before, why)

    slept :
        (ps : List Poll)
        → 51 ≤ length ps
        → Reset c (record s { polls = ps }) (netx_reset c (record s { polls = ps }))
    slept [] h = absurd (omega (arith, h))
    slept (p ∷ ps) h =
        let s1 = record s { dpm = p.act s.dpm; polls = ps; resets = s.resets ++ reset_sequence } in
        ended p ps (reset_cycles startup_cycles s1)
          (reset_cycles-Ends startup_cycles s1 (omega (arith, h)))
