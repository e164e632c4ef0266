-- ===== src/Tasks/Table.antt =====
-- No task has two entries, so that the loops that end at the first entry and those that do not agree.
use nadrvlinux.Prelude.{
  ℕ, false, ◌||◌, ◌&&◌, List, [], ◌∷◌, ◌++◌, ◌==◌, ==_iff, if◌then◌else◌, Bool-cases, ◌≡◌, refl,
  inl, inr, arith,
}
use nadrvlinux.Codes.{no_error}
use nadrvlinux.Tasks.{
  TaskInfo, Caller, find_err, mark_err, has_task, store_err, last_timeout, mark_timeout,
  store_timeout,
}

-- Every task has one entry at most.
abbrev pub Single : List TaskInfo → Type 0
Single [] = Unit {0}
Single (t ∷ ts) = (has_task t.pid ts ≡ false) × Single ts

has_task-append :
    (pid : ℕ) (ts us : List TaskInfo)
    → has_task pid (ts ++ us) ≡ (has_task pid ts || has_task pid us)
unfolding has_task
has_task-append pid [] us = refl
has_task-append pid (t ∷ ts) us = ground (arith, has_task-append pid ts us)

has_task-mark_err :
    (p pid e : ℕ) (ts : List TaskInfo) → has_task p (mark_err pid e ts) ≡ has_task p ts
unfolding has_task mark_err
has_task-mark_err p pid e [] = refl
has_task-mark_err p pid e (t ∷ ts) = ground (arith, has_task-mark_err p pid e ts)

has_task-mark_timeout :
    (p pid n : ℕ) (ts : List TaskInfo) → has_task p (mark_timeout pid n ts) ≡ has_task p ts
unfolding has_task mark_timeout
has_task-mark_timeout p pid n [] = refl
has_task-mark_timeout p pid n (t ∷ ts) = ground (arith, has_task-mark_timeout p pid n ts)

mark_err-Single : (pid e : ℕ) (ts : List TaskInfo) → Single ts → Single (mark_err pid e ts)
unfolding mark_err
mark_err-Single pid e [] s = tt
mark_err-Single pid e (t ∷ ts) s =
    (ground (arith, has_task-mark_err t.pid pid e ts), mark_err-Single pid e ts s.1)

mark_timeout-Single : (pid n : ℕ) (ts : List TaskInfo) → Single ts → Single (mark_timeout pid n ts)
unfolding mark_timeout
mark_timeout-Single pid n [] s = tt
mark_timeout-Single pid n (t ∷ ts) s =
    (ground (arith, has_task-mark_timeout t.pid pid n ts), mark_timeout-Single pid n ts s.1)

append-Single :
    (ts : List TaskInfo) (u : TaskInfo)
    → Single ts
    → has_task u.pid ts ≡ false
    → Single (ts ++ u ∷ [])
unfolding has_task
append-Single [] u s h = (refl, tt)
append-Single (t ∷ ts) u s h = (
  ground (arith, has_task-append t.pid ts (u ∷ []), ==_iff t.pid u.pid, ==_iff u.pid t.pid),
  append-Single ts u s.1 (ground arith),
)

pub store_err-Single :
    (c : Caller) (e : ℕ) (ts : List TaskInfo) → Single ts → Single (store_err c e ts).1
unfolding store_err
store_err-Single c e ts s = elim (Bool-cases (e == 0)) [
  | inl fine ↦ rw fine s
  | inr bad ↦ elim (Bool-cases (has_task c.pid ts)) [
    | inl known ↦ rw (bad, known) (mark_err-Single c.pid e ts s)
    | inr fresh ↦ elim (Bool-cases c.memory) [
      | inl given ↦
          rw (bad, fresh, given)
            (append-Single ts (record { pid = c.pid; lasterror = e; timeout = 0 }) s fresh)
      | inr full ↦ rw (bad, fresh, full) s
    ]
  ]
]

pub store_timeout-Single :
    (c : Caller) (n : ℕ) (ts : List TaskInfo) → Single ts → Single (store_timeout c n ts)
unfolding store_timeout
store_timeout-Single c n ts s = elim (Bool-cases (has_task c.leader ts)) [
  | inl known ↦ rw known (mark_timeout-Single c.leader n ts s)
  | inr fresh ↦ elim (Bool-cases c.memory) [
    | inl given ↦
        rw (fresh, given)
          (append-Single ts (record { pid = c.leader; lasterror = 0; timeout = n }) s fresh)
    | inr full ↦ rw (fresh, full) s
  ]
]

-- What the loops find after an entry was written or added.
pub find_err-mark_err :
    (p pid e : ℕ) (ts : List TaskInfo)
    → find_err p (mark_err pid e ts) ≡ (if (p == pid) && has_task pid ts then e else find_err p ts)
unfolding find_err mark_err has_task
find_err-mark_err p pid e [] = ground arith
find_err-mark_err p pid e (t ∷ ts) =
    ground (arith, find_err-mark_err p pid e ts, ==_iff p pid, ==_iff t.pid pid, ==_iff t.pid p)

pub find_err-append :
    (p : ℕ) (ts : List TaskInfo) (u : TaskInfo)
    → find_err p (ts ++ u ∷ [])
      ≡ (if has_task p ts then find_err p ts else if u.pid == p then u.lasterror else no_error)
unfolding find_err has_task
find_err-append p [] u = ground arith
find_err-append p (t ∷ ts) u = ground (arith, find_err-append p ts u)

pub find_err-mark_timeout :
    (p pid n : ℕ) (ts : List TaskInfo) → find_err p (mark_timeout pid n ts) ≡ find_err p ts
unfolding find_err mark_timeout
find_err-mark_timeout p pid n [] = refl
find_err-mark_timeout p pid n (t ∷ ts) = ground (arith, find_err-mark_timeout p pid n ts)

pub last_timeout-mark_err :
    (p r pid e : ℕ) (ts : List TaskInfo)
    → last_timeout p r (mark_err pid e ts) ≡ last_timeout p r ts
unfolding last_timeout mark_err
last_timeout-mark_err p r pid e [] = refl
last_timeout-mark_err p r pid e (t ∷ ts) =
    ground (arith, last_timeout-mark_err p r pid e ts, last_timeout-mark_err p t.timeout pid e ts)

pub last_timeout-append :
    (p r : ℕ) (ts : List TaskInfo) (u : TaskInfo)
    → last_timeout p r (ts ++ u ∷ []) ≡ (if u.pid == p then u.timeout else last_timeout p r ts)
unfolding last_timeout
last_timeout-append p r [] u = refl
last_timeout-append p r (t ∷ ts) u =
    last_timeout-append p (if t.pid == p then t.timeout else r) ts u

pub last_timeout-absent :
    (p r : ℕ) (ts : List TaskInfo) → has_task p ts ≡ false → last_timeout p r ts ≡ r
unfolding last_timeout has_task
last_timeout-absent p r [] h = refl
last_timeout-absent p r (t ∷ ts) h = ground (arith, last_timeout-absent p r ts)

pub find_err-absent :
    (p : ℕ) (ts : List TaskInfo) → has_task p ts ≡ false → find_err p ts ≡ no_error
unfolding find_err has_task
find_err-absent p [] h = refl
find_err-absent p (t ∷ ts) h = ground (arith, find_err-absent p ts)

pub last_timeout-mark_timeout :
    (p r pid n : ℕ) (ts : List TaskInfo)
    → last_timeout p r (mark_timeout pid n ts)
      ≡ (if (p == pid) && has_task pid ts then n else last_timeout p r ts)
unfolding last_timeout mark_timeout has_task
last_timeout-mark_timeout p r pid n [] = ground arith
last_timeout-mark_timeout p r pid n (t ∷ ts) = ground (
  arith,
  ==_iff p pid,
  last_timeout-mark_timeout p r pid n ts,
  last_timeout-mark_timeout p n pid n ts,
  last_timeout-mark_timeout p t.timeout pid n ts,
  last_timeout-absent p n ts,
)
