-- ===== src/Management/Shown.antt =====
-- The devices that a process sees after it has chosen device classes.
use nadrvlinux.Prelude.{
  ℕ, zero, suc, ◌+◌, ◌<◌, ◌^◌, ltb, Bool, true, false, ◌||◌, ◌&&◌, none, some, List, [], ◌∷◌,
  get_elem?, length, ◌==◌, ==_iff, if◌then◌else◌, Bool-cases, ◌≡◌, ◌≢◌, refl, sym, ap, ◌∙◌, inl,
  inr, arith,
}
use nadrvlinux.Codes.{no_error, access_denied}
use nadrvlinux.Device.{Device}
use nadrvlinux.Gpio.{nanl_dev_class}
use nadrvlinux.Registry.{
  Registry, nscp_dev_class, cifx_dev_class, with_class_filter, class_allowed, enum_device,
}
use nadrvlinux.Classes.{Process, is_refused, set_dev_class_filter, get_dev_class_filter}
use nadrvlinux.Classes.Latest.{set-Truth, set-given}
use nadrvlinux.Management.{Input, Managed, cmd_set_dev_class_filter, exec_cmd}

-- The word for a choice of classes, and the devices that belong to one of them.
abbrev pub class_word : (nanl nscp cifx : Bool) → ℕ
class_word nanl nscp cifx =
    (if nanl then 1 else 0) + (if nscp then 2 else 0) + (if cifx then 4 else 0)

abbrev pub belongs : (nanl nscp cifx : Bool) → Device → Bool
belongs nanl nscp cifx d =
    ((d.info.device_class == nanl_dev_class) && nanl)
    || (((d.info.device_class == nscp_dev_class) && nscp)
        || ((d.info.device_class == cifx_dev_class) && cifx))

class_allowed-belongs :
    (nanl nscp cifx : Bool) (d : Device)
    → class_allowed (class_word nanl nscp cifx) d.info.device_class ≡ belongs nanl nscp cifx d
unfolding class_allowed
class_allowed-belongs true true true d = ground arith
class_allowed-belongs true true false d = ground arith
class_allowed-belongs true false true d = ground arith
class_allowed-belongs true false false d = ground arith
class_allowed-belongs false true true d = ground arith
class_allowed-belongs false true false d = ground arith
class_allowed-belongs false false true d = ground arith
class_allowed-belongs false false false d = ground arith

class_word-taken :
    (nanl nscp cifx : Bool)
    → (nanl || (nscp || cifx)) ≡ true
    → (is_refused (class_word nanl nscp cifx) ≡ false)
      × (class_word nanl nscp cifx ≢ 0)
      × (class_word nanl nscp cifx < 2 ^ 32)
unfolding is_refused
class_word-taken true true true h = (refl, omega arith, omega arith)
class_word-taken true true false h = (refl, omega arith, omega arith)
class_word-taken true false true h = (refl, omega arith, omega arith)
class_word-taken true false false h = (refl, omega arith, omega arith)
class_word-taken false true true h = (refl, omega arith, omega arith)
class_word-taken false true false h = (refl, omega arith, omega arith)
class_word-taken false false true h = (refl, omega arith, omega arith)
class_word-taken false false false h = absurd cc

get_elem?-below :
    {A : Type 0}
    → (xs : List A) (i : ℕ) (x : A) → get_elem? xs i ≡ some x
    → ltb (length xs) i ≡ false
get_elem?-below [] i x e = absurd cc
get_elem?-below (y ∷ xs) zero x e = ground arith
get_elem?-below (y ∷ xs) (suc i) x e = ground (arith, get_elem?-below xs i x e)

-- What a process sees of the list.
abbrev pub seen_by : ℕ → Managed → Registry
seen_by pid g = record { cards = g.cards; dev_class_filter = get_dev_class_filter pid g.processes }

kept_filter : (g : Registry) → g.dev_class_filter ≢ 0 → with_class_filter g ≡ g
unfolding with_class_filter
kept_filter g filtered = elim (Bool-cases (g.dev_class_filter == 0)) [
  | inl none_chosen ↦ absurd (filtered ((==_iff g.dev_class_filter 0).0 none_chosen))
  | inr chosen ↦ rw chosen refl
]

enum_device-class :
    (card : ℕ) (d : Device) (g : Registry)
    → get_elem? g.cards card ≡ some d
    → g.dev_class_filter ≢ 0
    → let (code, shown, g') = enum_device card g in
      (code ≡ (
        if class_allowed g.dev_class_filter d.info.device_class then no_error else access_denied))
      × (shown ≡ (if class_allowed g.dev_class_filter d.info.device_class then some d else none))
unfolding enum_device
enum_device-class card d g there filtered =
    rw (get_elem?-below g.cards card d there, there, kept_filter g filtered)
      (elim (Bool-cases (class_allowed g.dev_class_filter d.info.device_class)) [
        | inl allowed ↦ rw allowed (refl, refl)
        | inr hidden ↦ rw hidden (refl, refl)
      ])

module _ (same_name : List ℕ → List ℕ → Bool) (pid : ℕ) (input : Input) (output : List ℕ)
    (g : Managed) where
  exec_filtered :
      is_refused input.class ≡ false
      → exec_cmd same_name true pid cmd_set_dev_class_filter (some input) 4 false output 0 g ≡ (
          let (code, ps) = set_dev_class_filter true pid input.class g.processes in
          (code, output, record g { processes = ps }))
  unfolding exec_cmd
  exec_filtered taken = rw taken refl

-- If memory is there, a process that chooses one or more of the three classes, by a management command of
-- the right size, gets no error, and its enumeration of any device that is there then shows the device if
-- it belongs to one of these classes and denies access to it otherwise.
pub exec_cmd-Shown :
    (same_name : List ℕ → List ℕ → Bool) (pid card : ℕ) (input : Input) (output : List ℕ)
    (g : Managed) (d : Device) (nanl nscp cifx : Bool)
    → input.class ≡ class_word nanl nscp cifx
    → (nanl || (nscp || cifx)) ≡ true
    → get_elem? g.cards card ≡ some d
    → let (code, output', g') =
        exec_cmd same_name true pid cmd_set_dev_class_filter (some input) 4 false output 0 g in
      let (found, shown, after) = enum_device card (seen_by pid g') in
      (code ≡ no_error)
      × (found ≡ (if belongs nanl nscp cifx d then no_error else access_denied))
      × (shown ≡ (if belongs nanl nscp cifx d then some d else none))
exec_cmd-Shown same_name pid card input output g d nanl nscp cifx chosen some_class there =
    let (taken, nonzero, small) = class_word-taken nanl nscp cifx some_class in
    let good = set-given pid (class_word nanl nscp cifx) g.processes taken in
    let (reads, valid) = set-Truth pid true (class_word nanl nscp cifx) g.processes small in
    let filter_is : get_dev_class_filter pid
          (set_dev_class_filter true pid (class_word nanl nscp cifx) g.processes).1
        ≡ class_word nanl nscp cifx =
      ground (
        arith,
        reads,
        good,
        ==_iff (set_dev_class_filter true pid (class_word nanl nscp cifx) g.processes).0 no_error,
      ) in
    let (found, shown) =
      seen (set_dev_class_filter true pid (class_word nanl nscp cifx) g.processes).1 filter_is
        nonzero in
    rw (exec_filtered same_name pid input output g (ap is_refused chosen ∙ taken), chosen)
      (good, found, shown)
  where
    seen :
        (ps : List Process)
        → get_dev_class_filter pid ps ≡ class_word nanl nscp cifx
        → class_word nanl nscp cifx ≢ 0
        → let (found, shown, after) =
            enum_device card (seen_by pid (record g { processes = ps })) in
          (found ≡ (if belongs nanl nscp cifx d then no_error else access_denied))
          × (shown ≡ (if belongs nanl nscp cifx d then some d else none))
    seen ps e nonzero =
        let (code, shown) =
          enum_device-class card d (seen_by pid (record g { processes = ps })) there
            (λ z. nonzero (sym e ∙ z)) in
        let allowed =
          ap (λ (f : ℕ). class_allowed f d.info.device_class) e
          ∙ class_allowed-belongs nanl nscp cifx d in
        (
          code ∙ ap (λ (b : Bool). if b then no_error else access_denied) allowed,
          shown ∙ ap (λ (b : Bool). if b then some d else none) allowed,
        )
