-- ===== src/Classes/Latest.antt =====
-- Every process reads back the classes that it has chosen last.
use nadrvlinux.Prelude.{
  ℕ, ◌≤◌, ◌<◌, ◌^◌, Bool, true, false, not, ◌||◌, ◌&&◌, List, [], ◌∷◌, ◌==◌, ==_iff, if◌then◌else◌,
  Bool-cases, ◌≡◌, ◌≢◌, refl, ap, ◌∙◌, inl, inr, arith,
}
use nadrvlinux.Codes.{no_error}
use nadrvlinux.Classes.{
  Process, has_process, is_refused, set_dev_class_filter, get_dev_class_filter,
  clear_dev_class_filter,
}
use nadrvlinux.Classes.Table.{
  ProcessesWf, mark_class-Wf, append-Wf, clear-Wf, get-mark_class, get-append, get-clear,
  has_process-get, is_refused-not, is_class,
}

-- What a process does to its classes.
pub data Choice : Type 0 where
  chosen : (memory : Bool) → (pid filter : ℕ) → Choice
  cleared : (pid : ℕ) → Choice

abbrev pub make : Choice → List Process → List Process
make (chosen memory pid filter) ps = (set_dev_class_filter memory pid filter ps).1
make (cleared pid) ps = clear_dev_class_filter pid ps

unfoldable pub made : List Choice → List Process → List Process
made [] ps = ps
made (x ∷ xs) ps = made xs (make x ps)

-- The specification: what a process with the classes `old` has after it. A word stands for classes
-- when it is from 1 to 7, and memory matters only to a process without classes.
abbrev pub takes : (memory : Bool) (old filter : ℕ) → Bool
takes memory old filter = is_class filter && (memory || not (old == 0))

abbrev pub class_after : (pid old : ℕ) → Choice → ℕ
class_after n old (chosen memory pid filter) =
    if (pid == n) && takes memory old filter then filter else old
class_after n old (cleared pid) = if pid == n then 0 else old

unfoldable pub latest_class : (pid old : ℕ) → List Choice → ℕ
latest_class n old [] = old
latest_class n old (x ∷ xs) = latest_class n (class_after n old x) xs

refused-zero : (filter : ℕ) → is_refused filter ≡ false → filter ≢ 0
unfolding is_refused
refused-zero filter h = ground (arith, h, ==_iff filter 0)

pub set-Latest :
    (n : ℕ) (memory : Bool) (pid filter : ℕ) (ps : List Process)
    → filter < 2 ^ 32
    → ProcessesWf ps
    → ProcessesWf (set_dev_class_filter memory pid filter ps).1
      × (get_dev_class_filter n (set_dev_class_filter memory pid filter ps).1
          ≡ class_after n (get_dev_class_filter n ps) (chosen memory pid filter))
unfolding set_dev_class_filter
set-Latest n memory pid filter ps small w = elim (Bool-cases (is_refused filter)) [
  | inl bad ↦ rw bad (w, ground (arith, bad, is_refused-not filter small))
  | inr fine ↦ elim (Bool-cases (has_process pid ps)) [
    | inl known ↦
        rw (fine, known)
          (
            mark_class-Wf pid filter ps (refused-zero filter fine) w,
            ground (
              arith,
              fine,
              is_refused-not filter small,
              known,
              get-mark_class n pid filter ps,
              has_process-get pid ps w,
              ==_iff pid n,
              ap (λ (k : ℕ). get_dev_class_filter k ps),
            ),
          )
    | inr fresh ↦ elim (Bool-cases memory) [
      | inl given ↦
          rw (fine, fresh, given)
            (
              append-Wf ps (record { pid = pid; device_class = filter }) (refused-zero filter fine)
                  fresh w,
              ground (
                arith,
                fine,
                is_refused-not filter small,
                get-append n ps (record { pid = pid; device_class = filter }) fresh,
              ),
            )
      | inr full ↦
          rw (fine, fresh, full)
            (
              w,
              ground (
                arith,
                fine,
                is_refused-not filter small,
                fresh,
                has_process-get pid ps w,
                ==_iff pid n,
                ap (λ (k : ℕ). get_dev_class_filter k ps),
              ),
            )
    ]
  ]
]

-- The filters are words of 32 bits.
abbrev pub Words : List Choice → Type 0
Words [] = Unit {0}
Words (chosen memory pid filter ∷ xs) = (filter < 2 ^ 32) × Words xs
Words (cleared pid ∷ xs) = Words xs

pub made-Latest :
    (n : ℕ) (xs : List Choice) (ps : List Process)
    → Words xs
    → ProcessesWf ps
    → ProcessesWf (made xs ps)
      × (get_dev_class_filter n (made xs ps) ≡ latest_class n (get_dev_class_filter n ps) xs)
unfolding made latest_class
made-Latest n [] ps small w = (w, refl)
made-Latest n (chosen memory pid filter ∷ xs) ps (small, rest) w =
    let (good, e) = set-Latest n memory pid filter ps small w in
    let (wf, f) = made-Latest n xs (make (chosen memory pid filter) ps) rest good in
    (wf, f ∙ ap (λ (old : ℕ). latest_class n old xs) e)
made-Latest n (cleared pid ∷ xs) ps rest w =
    let (wf, f) = made-Latest n xs (make (cleared pid) ps) rest (clear-Wf pid ps w) in
    (wf, f ∙ ap (λ (old : ℕ). latest_class n old xs) (get-clear n pid ps w))

-- One choice tells the truth.
pub set-Truth :
    (n : ℕ) (memory : Bool) (filter : ℕ) (ps : List Process)
    → filter < 2 ^ 32
    → let (code, ps') = set_dev_class_filter memory n filter ps in
      (get_dev_class_filter n ps'
        ≡ (if code == no_error then filter else get_dev_class_filter n ps))
      × (code ≡ no_error → (1 ≤ filter) × (filter ≤ 7))
unfolding set_dev_class_filter
set-Truth n memory filter ps small = elim (Bool-cases (is_refused filter)) [
  | inl bad ↦ rw bad (refl, λ e. absurd (omega (arith, e)))
  | inr fine ↦ elim (Bool-cases (has_process n ps)) [
    | inl known ↦
        rw (fine, known)
          (
            ground (arith, known, get-mark_class n n filter ps, ==_iff n n),
            λ e. ground (arith, fine, is_refused-not filter small),
          )
    | inr fresh ↦ elim (Bool-cases memory) [
      | inl given ↦
          rw (fine, fresh, given)
            (
              ground (
                arith,
                get-append n ps (record { pid = n; device_class = filter }) fresh,
                ==_iff n n,
              ),
              λ e. ground (arith, fine, is_refused-not filter small),
            )
      | inr full ↦ rw (fine, fresh, full) (refl, λ e. absurd (omega (arith, e)))
    ]
  ]
]

-- A choice succeeds exactly when it is taken.
pub set-code :
    (memory : Bool) (n filter : ℕ) (ps : List Process)
    → filter < 2 ^ 32
    → ProcessesWf ps
    → ((set_dev_class_filter memory n filter ps).0 == no_error)
      ≡ takes memory (get_dev_class_filter n ps) filter
unfolding set_dev_class_filter
set-code memory n filter ps small w =
    ground (arith, is_refused-not filter small, has_process-get n ps w)

-- With memory, a choice that is not refused succeeds.
pub set-given :
    (n filter : ℕ) (ps : List Process)
    → is_refused filter ≡ false
    → (set_dev_class_filter true n filter ps).0 ≡ no_error
unfolding set_dev_class_filter
set-given n filter ps fine =
    rw fine (elim (Bool-cases (has_process n ps)) [
      | inl known ↦ rw known refl
      | inr fresh ↦ rw fresh refl
    ])

-- From an empty list on, whatever processes choose and clear, and whether or not there is memory: every
-- process reads back the last word from 1 to 7 that it has chosen since it was last cleared, or 0 if
-- there is none; a word that it chooses when it has none is kept only if there is memory. A further
-- choice tells the truth: without error the process reads it back, and with one what it read before.
pub made-Chosen :
    (n : ℕ) (xs : List Choice) (memory : Bool) (filter : ℕ)
    → Words xs
    → filter < 2 ^ 32
    → let ps = made xs [] in
      let (code, ps') = set_dev_class_filter memory n filter ps in
      (get_dev_class_filter n ps ≡ latest_class n 0 xs)
      × (get_dev_class_filter n ps' ≡ (if code == no_error then filter else latest_class n 0 xs))
      × (code ≡ no_error → (1 ≤ filter) × (filter ≤ 7))
unfolding get_dev_class_filter
made-Chosen n xs memory filter words small =
    let (wf, latest) = made-Latest n xs [] words tt in
    let (truth, valid) = set-Truth n memory filter (made xs []) small in
    (
      latest,
      truth
          ∙ ap
              (λ (old : ℕ).
                if (set_dev_class_filter memory n filter (made xs [])).0 == no_error
                then filter
                else old)
              latest,
      valid,
    )
