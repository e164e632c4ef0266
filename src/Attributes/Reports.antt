-- ===== src/Attributes/Reports.antt =====
-- What a handler of netanalyzer_kernel_mod/netana_tk_interface.c that is written tells of an error, in
-- the status that it returns and in the table of the tasks.
use nadrvlinux.Prelude.{
  ℕ, Bool, true, false, Option, none, some, List, [], ◌∷◌, length, ◌==◌, if◌then◌else◌, Bool-cases,
  ◌≡◌, ◌≢◌, ◌⊎◌, ◌∙◌, ==_iff, refl, inl, inr, arith,
}
use nadrvlinux.Codes.{no_error, invalid_handle}
use nadrvlinux.System.{System, M, pure}
use nadrvlinux.Tasks.{TaskInfo, Caller, Status, count, eperm, find_err}
use nadrvlinux.Tasks.Refinement.{find_err-store_err, store_err-eperm}
use nadrvlinux.Attributes.{Info, failed, reported, finish, if_open, with_one, with_two, with_three}

-- How the code of a call is told: without error, by a count, and the errors of all tasks are as they were;
-- an error by -EPERM, the task reads it, and the errors of the other tasks are as they were.
abbrev pub Told : Caller → List TaskInfo → (n code : ℕ) → Status × Info → Type 0
Told c ts n code (status, t) =
    ((code ≡ no_error) × (status ≡ count n) × ((pid : ℕ) → find_err pid t.tasks ≡ find_err pid ts))
    ⊎ ((code ≢ no_error)
        × (status ≡ eperm)
        × (find_err c.pid t.tasks ≡ code)
        × ((pid : ℕ) → pid ≢ c.pid → find_err pid t.tasks ≡ find_err pid ts))

-- A handler against the call that it makes: it waits for ever where the call does, or tells its code, and
-- leaves the system as the call does.
abbrev pub Answered :
    Caller
    → List TaskInfo
    → (n : ℕ) → Option (ℕ × System)
    → Option ((Status × Info) × System)
    → Type 0
Answered c ts n none none = Unit {0}
Answered c ts n none (some x) = ⊥
Answered c ts n (some x) none = ⊥
Answered c ts n (some (code, s)) (some (answer, s')) = (s' ≡ s) × Told c ts n code answer

module _ (c : Caller) (memory : c.memory ≡ true) (t : Info) (n : ℕ) where
  pub failed-Told : (code : ℕ) → code ≢ 0 → Told c t.tasks n code (failed c code t)
  failed-Told code bad = inr (
    bad,
    store_err-eperm c code t.tasks bad,
    ground (arith, ==_iff c.pid c.pid, find_err-store_err c.pid c code t.tasks memory, bad),
    λ pid other.
        find_err-store_err pid c code t.tasks memory ∙ ground (arith, ==_iff c.pid pid, other),
  )

  pub reported-Told : (code : ℕ) → Told c t.tasks n code (reported c code (count n) t)
  reported-Told code = elim (Bool-cases (code == no_error)) [
    | inl fine ↦ rw fine (inl ((==_iff code no_error).0 fine, refl, λ pid. refl))
    | inr bad ↦ rw bad (failed-Told code (ground (arith, bad)))
  ]

  -- A test, and the values that were scanned, lead to one of two answers.
  pub either-Answered :
      (b : Bool) (x' y' : M ℕ) (x y : M (Status × Info)) (s : System)
      → Answered c t.tasks n (x' s) (x s)
      → Answered c t.tasks n (y' s) (y s)
      → Answered c t.tasks n ((if b then x' else y') s) ((if b then x else y) s)
  either-Answered true x' y' x y s h k = h
  either-Answered false x' y' x y s h k = k

  pub one-Answered :
      (xs : List ℕ) (other' : M ℕ) (f' : ℕ → M ℕ) (other : M (Status × Info))
      (f : ℕ → M (Status × Info)) (s : System)
      → Answered c t.tasks n (other' s) (other s)
      → ((x : ℕ) → Answered c t.tasks n (f' x s) (f x s))
      → Answered c t.tasks n (with_one xs other' f' s) (with_one xs other f s)
  one-Answered [] other' f' other f s h k = h
  one-Answered (x ∷ xs) other' f' other f s h k = k x

  pub two-Answered :
      (xs : List ℕ) (other' : M ℕ) (f' : ℕ → ℕ → M ℕ) (other : M (Status × Info))
      (f : ℕ → ℕ → M (Status × Info)) (s : System)
      → Answered c t.tasks n (other' s) (other s)
      → ((x y : ℕ) → Answered c t.tasks n (f' x y s) (f x y s))
      → Answered c t.tasks n (with_two xs other' f' s) (with_two xs other f s)
  two-Answered [] other' f' other f s h k = h
  two-Answered (x ∷ []) other' f' other f s h k = h
  two-Answered (x ∷ y ∷ xs) other' f' other f s h k = k x y

  pub three-Answered :
      (xs : List ℕ) (other' : M ℕ) (f' : ℕ → ℕ → ℕ → M ℕ) (other : M (Status × Info))
      (f : ℕ → ℕ → ℕ → M (Status × Info)) (s : System)
      → Answered c t.tasks n (other' s) (other s)
      → ((x y z : ℕ) → Answered c t.tasks n (f' x y z s) (f x y z s))
      → Answered c t.tasks n (with_three xs other' f' s) (with_three xs other f s)
  three-Answered [] other' f' other f s h k = h
  three-Answered (x ∷ []) other' f' other f s h k = h
  three-Answered (x ∷ y ∷ []) other' f' other f s h k = h
  three-Answered (x ∷ y ∷ z ∷ xs) other' f' other f s h k = k x y z

  pub refused-Answered :
      (code : ℕ) (s : System)
      → code ≢ 0
      → Answered c t.tasks n (pure code s) (pure (failed c code t) s)
  refused-Answered code s bad = (refl, failed-Told code bad)

  pub ignored-Answered : (s : System) → Answered c t.tasks n (pure no_error s) (pure (count n, t) s)
  ignored-Answered s = (refl, inl (refl, refl, λ pid. refl))

  pub open-Answered :
      (x' : M ℕ) (x : M (Status × Info)) (s : System)
      → Answered c t.tasks n (x' s) (x s)
      → Answered c t.tasks n
          (if_open t (pure invalid_handle) x' s)
          (if_open t (pure (failed c invalid_handle t)) x s)
  open-Answered x' x s h =
      either-Answered t.is_open x' (pure invalid_handle) x (pure (failed c invalid_handle t)) s h
        (refused-Answered invalid_handle s (omega arith))

module _ (c : Caller) (memory : c.memory ≡ true) (t : Info) where
  pub finish-Answered :
      (buf : List ℕ) (call : M ℕ) (s : System)
      → Answered c t.tasks (length buf) (call s) (finish c buf t call s)
  finish-Answered buf call s = ended (call s)
    where
      ended :
          (o : Option (ℕ × System))
          → Answered c t.tasks (length buf) o (elim o as (λ x. Option ((Status × Info) × System)) [
            | none ↦ none
            | some (code, s') ↦ some (reported c code (count (length buf)) t, s')
          ])
      ended none = tt
      ended (some (code, s')) = (refl, reported-Told c memory t (length buf) code)
