-- ===== src/Bringup/Adding.antt =====
-- A card that was added has all of its resources, and one that was not has none.
use nadrvlinux.Prelude.{
  ℕ, ◌+◌, Bool, true, false, not, Option, none, some, List, [], ◌∷◌, ◌++◌, length, replicate, ◌==◌,
  ==_iff, if◌then◌else◌, Bool-cases, ◌≡◌, ◌≢◌, refl, ap, ◌∙◌, ◌⊎◌, inl, inr, arith,
}
use nadrvlinux.Codes.{no_error, irqlock_creation_failed, irqevent_creation_failed}
use nadrvlinux.Device.{Device}
use nadrvlinux.Boot.{BootDpm, BootSystem, B, done, ◌>>=◌}
use nadrvlinux.Layout.{LayoutInfo}
use nadrvlinux.Bringup.{
  Events, Resources, no_events, no_resources, create_bit_events, create_irq_events, delete_events,
  delete_irq_events, Files, start_card, set_up, device_add,
}
use nadrvlinux.Loader.{Card}

abbrev pub all_events : Events
all_events = record { stop_event = true; bit_events = replicate 16 true }

abbrev Created : List Bool → Bool × List Bool → Type 0
Created es (ok, es') = (length es' ≡ length es) × (ok ≡ true → es' ≡ replicate (length es) true)

create_bit_events-Created :
    (creates : ℕ → Bool) (idx : ℕ) (es : List Bool) → Created es (create_bit_events creates idx es)
unfolding create_bit_events
create_bit_events-Created creates idx [] = (refl, λ _. refl)
create_bit_events-Created creates idx (e ∷ es) =
    let (n, all) = create_bit_events-Created creates (idx + 1) es in
    elim (Bool-cases (creates idx)) [
      | inl made ↦ rw made (omega (arith, n), λ ok. ap (λ (xs : List Bool). true ∷ xs) (all ok))
      | inr failed ↦ rw failed (refl, λ e. absurd cc)
    ]

pub delete_events-none : (es : List Bool) → delete_events es ≡ replicate (length es) false
unfolding delete_events
delete_events-none [] = refl
delete_events-none (e ∷ es) = ap (λ (xs : List Bool). false ∷ xs) (delete_events-none es)

-- What creating the events gives: all of them, or an error and some that are still to be deleted.
abbrev EventsMade : ℕ × Events → Type 0
EventsMade (code, e) =
    (delete_irq_events e ≡ no_events) × (((code ≡ no_error) × (e ≡ all_events)) ⊎ (code ≢ no_error))

create_irq_events-EventsMade :
    (creates : ℕ → Bool) → EventsMade (create_irq_events creates no_events)
unfolding create_irq_events delete_irq_events delete_events
create_irq_events-EventsMade creates =
    decided (creates 16) (create_bit_events creates 0 no_events.bit_events)
      (create_bit_events-Created creates 0 no_events.bit_events)
  where
    gone :
        (es : List Bool)
        → length es ≡ 16
        → delete_irq_events (record { stop_event = true; bit_events = es }) ≡ no_events
    gone es n =
        ap (λ (xs : List Bool). record { stop_event = false; bit_events = xs })
          (delete_events-none es ∙ ap (λ (k : ℕ). replicate k false) n)

    result :
        (ok : Bool) (es : List Bool)
        → (ok ≡ true → es ≡ replicate 16 true)
        → (((if ok then no_error else irqevent_creation_failed) ≡ no_error)
            × (record { stop_event = true; bit_events = es } ≡ all_events))
          ⊎ ((if ok then no_error else irqevent_creation_failed) ≢ no_error)
    result true es all =
        inl
          (refl, ap (λ (xs : List Bool). record { stop_event = true; bit_events = xs }) (all refl))
    result false es all = inr (ground arith)

    decided :
        (stop : Bool) (made : Bool × List Bool)
        → Created no_events.bit_events made
        → EventsMade (
            if stop
            then (
              (if made.0 then no_error else irqevent_creation_failed),
              record { stop_event = true; bit_events = made.1 },
            )
            else (irqevent_creation_failed, no_events))
    decided false made c = (refl, inr (ground arith))
    decided true (ok, es) (n, all) = (gone es n, result ok es all)

-- How an addition may end.
abbrev pub Added :
    (dpm : ℕ → ℕ)
    → LayoutInfo
    → Device
    → List Device
    → Option ((ℕ × Resources × Card × List Device) × BootSystem)
    → Type 0
Added dpm l d cards none = Unit {0}
Added dpm l d cards (some ((code, r, c, cards'), s)) =
    ((code ≡ no_error)
      × (r ≡ record { lock = true; events = all_events })
      × (cards' ≡ cards ++ set_up dpm l c d ∷ []))
    ⊎ ((code ≢ no_error) × (r ≡ no_resources) × (cards' ≡ cards))

-- However the creation of the lock and of the events, the files and the card itself behave: when the
-- addition of a card ends, it ends without error, with the lock and all 17 events there and the
-- device, set up from the memory of the card, at the end of the list of devices, or with an error, no
-- lock and no event left and the list as it was.
pub device_add-Added :
    (creates_lock : Bool) (creates : ℕ → Bool) (has_cookie : BootDpm → Bool) (dpm : ℕ → ℕ)
    (l : LayoutInfo) (files : Files) (c : Card) (d : Device) (cards : List Device) (s : BootSystem)
    → Added dpm l d cards (device_add creates_lock creates has_cookie dpm l files c d cards s)
unfolding device_add
device_add-Added creates_lock creates has_cookie dpm l files c d cards s = lock creates_lock
  where
    answer : Events → ℕ × Card → ℕ × Resources × Card × List Device
    answer e started =
        if started.0 == no_error
        then (
          no_error,
          record { lock = true; events = e },
          started.1,
          cards ++ set_up dpm l started.1 d ∷ [],
        )
        else (started.0, record { lock = false; events = delete_irq_events e }, started.1, cards)

    told :
        (e : Events) (o : Option ((ℕ × Card) × BootSystem))
        → delete_irq_events e ≡ no_events
        → e ≡ all_events
        → Added dpm l d cards
            (elim o as (λ x. Option ((ℕ × Resources × Card × List Device) × BootSystem)) [
              | none ↦ none
              | some x ↦ done (answer e x.0) x.1
            ])
    told e none gone all = tt
    told e (some ((code, c'), s')) gone all = elim (Bool-cases (code == no_error)) [
      | inl fine ↦
          rw fine (inl (refl, ap (λ (x : Events). record { lock = true; events = x }) all, refl))
      | inr bad ↦ rw bad (
          inr (
            ground (arith, bad),
            ap (λ (x : Events). record { lock = false; events = x }) gone,
            refl,
          ))
    ]

    not_fine : (code : ℕ) → code ≢ no_error → (code == no_error) ≡ false
    not_fine code bad = ground (arith, bad)

    with_events : ℕ × Events → B (ℕ × Resources × Card × List Device)
    with_events (code, e) =
        if not (code == no_error)
        then done (code, record { lock = false; events = delete_irq_events e }, c, cards)
        else (start_card has_cookie files c >>= λ started. done (answer e started))

    events : (made : ℕ × Events) → EventsMade made → Added dpm l d cards (with_events made s)
    events (code, e) (gone, inr bad) =
        rw (not_fine code bad)
          (inr (bad, ap (λ (x : Events). record { lock = false; events = x }) gone, refl))
    events (code, e) (gone, inl (fine, all)) =
        rw ((==_iff code no_error).1 fine) (told e (start_card has_cookie files c s) gone all)

    lock :
        (b : Bool)
        → Added dpm l d cards (
            (if not b
                then done (irqlock_creation_failed, no_resources, c, cards)
                else with_events (create_irq_events creates no_events))
              s)
    lock false = inr (ground arith, refl, refl)
    lock true = events (create_irq_events creates no_events) (create_irq_events-EventsMade creates)
