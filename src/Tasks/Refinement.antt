-- ===== src/Tasks/Refinement.antt =====
-- The table keeps for every task the last error stored for it, and for every process its last timeout.
use nadrvlinux.Prelude.{
  ℕ, true, not, ◌&&◌, List, [], ◌∷◌, ◌==◌, ==_iff, if◌then◌else◌, ◌≡◌, ◌≢◌, refl, sym, ap, subst,
  ◌∙◌, arith,
}
use nadrvlinux.Codes.{no_error}
use nadrvlinux.Tasks.{
  TaskInfo, Caller, eperm, initlist, cleanlist, find_err, get_err, store_err, last_timeout,
  get_timeout, store_timeout,
}
use nadrvlinux.Tasks.Table.{
  Single, store_err-Single, store_timeout-Single, find_err-mark_err, find_err-append,
  find_err-absent, find_err-mark_timeout, last_timeout-mark_err, last_timeout-append,
  last_timeout-mark_timeout, last_timeout-absent,
}

-- What happens to the table.
pub data Entry : Type 0 where
  err : Caller → ℕ → Entry
  timeout : Caller → ℕ → Entry
  cleaned : Entry

abbrev pub enter : Entry → List TaskInfo → List TaskInfo
enter (err c e) ts = (store_err c e ts).1
enter (timeout c n) ts = store_timeout c n ts
enter cleaned ts = cleanlist ts

unfoldable pub entered : List Entry → List TaskInfo → List TaskInfo
entered [] ts = ts
entered (x ∷ xs) ts = entered xs (enter x ts)

-- The specification: a value for each task, which the latest entry of the task gives.
abbrev pub err_of : (pid old : ℕ) → Entry → ℕ
err_of pid old (err c e) = if (c.pid == pid) && not (e == 0) then e else old
err_of pid old (timeout c n) = old
err_of pid old cleaned = no_error

abbrev pub timeout_of : (pid old : ℕ) → Entry → ℕ
timeout_of pid old (err c e) = old
timeout_of pid old (timeout c n) = if c.leader == pid then n else old
timeout_of pid old cleaned = 0

unfoldable pub last_err : (pid old : ℕ) → List Entry → ℕ
last_err pid old [] = old
last_err pid old (x ∷ xs) = last_err pid (err_of pid old x) xs

unfoldable pub latest_timeout : (pid old : ℕ) → List Entry → ℕ
latest_timeout pid old [] = old
latest_timeout pid old (x ∷ xs) = latest_timeout pid (timeout_of pid old x) xs

-- Memory is there for whatever is entered.
abbrev pub Allocated : List Entry → Type 0
Allocated [] = Unit {0}
Allocated (err c e ∷ xs) = (c.memory ≡ true) × Allocated xs
Allocated (timeout c n ∷ xs) = (c.memory ≡ true) × Allocated xs
Allocated (cleaned ∷ xs) = Allocated xs

-- The status of an error that is stored, whether or not there is memory for it.
pub store_err-eperm :
    (c : Caller) (code : ℕ) (ts : List TaskInfo) → code ≢ 0 → (store_err c code ts).0 ≡ eperm
unfolding store_err
store_err-eperm c code ts h = ground (arith, h)

pub find_err-store_err :
    (pid : ℕ) (c : Caller) (e : ℕ) (ts : List TaskInfo)
    → c.memory ≡ true
    → find_err pid (store_err c e ts).1 ≡ err_of pid (find_err pid ts) (err c e)
unfolding store_err
find_err-store_err pid c e ts m = ground (
  arith,
  ==_iff c.pid pid,
  ==_iff pid c.pid,
  find_err-mark_err pid c.pid e ts,
  find_err-append pid ts (record { pid = c.pid; lasterror = e; timeout = 0 }),
  find_err-absent pid ts,
)

pub find_err-store_timeout :
    (pid : ℕ) (c : Caller) (n : ℕ) (ts : List TaskInfo)
    → find_err pid (store_timeout c n ts) ≡ find_err pid ts
unfolding store_timeout
find_err-store_timeout pid c n ts = ground (
  arith,
  find_err-mark_timeout pid c.leader n ts,
  find_err-append pid ts (record { pid = c.leader; lasterror = 0; timeout = n }),
  find_err-absent pid ts,
)

last_timeout-store_err :
    (pid : ℕ) (c : Caller) (e : ℕ) (ts : List TaskInfo)
    → last_timeout pid 0 (store_err c e ts).1 ≡ last_timeout pid 0 ts
unfolding store_err
last_timeout-store_err pid c e ts = ground (
  arith,
  last_timeout-mark_err pid 0 c.pid e ts,
  last_timeout-append pid 0 ts (record { pid = c.pid; lasterror = e; timeout = 0 }),
  last_timeout-absent pid 0 ts,
  ==_iff c.pid pid,
)

pub last_timeout-store_timeout :
    (pid : ℕ) (c : Caller) (n : ℕ) (ts : List TaskInfo)
    → c.memory ≡ true
    → last_timeout pid 0 (store_timeout c n ts)
      ≡ timeout_of pid (last_timeout pid 0 ts) (timeout c n)
unfolding store_timeout
last_timeout-store_timeout pid c n ts m = ground (
  arith,
  ==_iff c.leader pid,
  ==_iff pid c.leader,
  last_timeout-mark_timeout pid 0 c.leader n ts,
  last_timeout-append pid 0 ts (record { pid = c.leader; lasterror = 0; timeout = n }),
)

cleanlist-nil : (ts : List TaskInfo) → cleanlist ts ≡ []
unfolding cleanlist
cleanlist-nil [] = refl
cleanlist-nil (t ∷ ts) = cleanlist-nil ts

enter-Recalled :
    (x : Entry) (ts : List TaskInfo) (pid : ℕ)
    → Allocated (x ∷ [])
    → (find_err pid (enter x ts) ≡ err_of pid (find_err pid ts) x)
      × (last_timeout pid 0 (enter x ts) ≡ timeout_of pid (last_timeout pid 0 ts) x)
enter-Recalled (err c e) ts pid a =
    (find_err-store_err pid c e ts a.0, last_timeout-store_err pid c e ts)
enter-Recalled (timeout c n) ts pid a =
    (find_err-store_timeout pid c n ts, last_timeout-store_timeout pid c n ts a.0)
enter-Recalled cleaned ts pid a = (
  ap (find_err pid) (cleanlist-nil ts) ∙ unfold find_err in refl,
  ap (last_timeout pid 0) (cleanlist-nil ts) ∙ unfold last_timeout in refl,
)

Allocated-split :
    (x : Entry) (xs : List Entry) → Allocated (x ∷ xs) → Allocated (x ∷ []) × Allocated xs
Allocated-split (err c e) xs a = ((a.0, tt), a.1)
Allocated-split (timeout c n) xs a = ((a.0, tt), a.1)
Allocated-split cleaned xs a = (tt, a)

entered-Recalled :
    (xs : List Entry) (ts : List TaskInfo) (pid : ℕ)
    → Allocated xs
    → (find_err pid (entered xs ts) ≡ last_err pid (find_err pid ts) xs)
      × (last_timeout pid 0 (entered xs ts) ≡ latest_timeout pid (last_timeout pid 0 ts) xs)
unfolding entered last_err latest_timeout
entered-Recalled [] ts pid a = (refl, refl)
entered-Recalled (x ∷ xs) ts pid a =
    let (now, later) = Allocated-split x xs a in
    let (f, g) = enter-Recalled x ts pid now in
    let (h, k) = entered-Recalled xs (enter x ts) pid later in
    (h ∙ ap (λ (o : ℕ). last_err pid o xs) f, k ∙ ap (λ (o : ℕ). latest_timeout pid o xs) g)

enter-Single : (x : Entry) (ts : List TaskInfo) → Single ts → Single (enter x ts)
enter-Single (err c e) ts s = store_err-Single c e ts s
enter-Single (timeout c n) ts s = store_timeout-Single c n ts s
enter-Single cleaned ts s = subst Single (sym (cleanlist-nil ts)) tt

-- Whatever errors and timeouts are stored, by whatever tasks and whether or not memory is there, no
-- task ever has two entries.
pub entered-Single : (xs : List Entry) (ts : List TaskInfo) → Single ts → Single (entered xs ts)
unfolding entered
entered-Single [] ts s = s
entered-Single (x ∷ xs) ts s = entered-Single xs (enter x ts) (enter-Single x ts s)

-- From the first use on, if memory is there, every task reads back the last error other than 0 that was
-- stored for it, and every process the last timeout stored for it, since the table was last cleaned; one
-- for which there is none reads 0.
pub entered-Refines :
    (xs : List Entry) (c : Caller)
    → Allocated xs
    → (get_err c (entered xs initlist) ≡ last_err c.pid no_error xs)
      × (get_timeout c (entered xs initlist) ≡ latest_timeout c.leader 0 xs)
unfolding get_err get_timeout initlist find_err last_timeout
entered-Refines xs c a = ((entered-Recalled xs [] c.pid a).0, (entered-Recalled xs [] c.leader a).1)
