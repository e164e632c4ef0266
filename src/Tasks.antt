-- ===== src/Tasks.antt =====
-- The errors and timeouts that the kernel module keeps for the tasks that use a device: the table of
-- netanalyzer_kernel_mod/netana_tk_interface.c.
pub mod Table
pub mod Refinement
mod Tests
use nadrvlinux.Prelude.{ℕ, Bool, true, false, ◌||◌, List, [], ◌∷◌, ◌++◌, ◌==◌, if◌then◌else◌}
use nadrvlinux.Codes.{no_error}

-- `struct task_info`
pub record TaskInfo : Type 0 where
  pub pid : ℕ
  pub lasterror : ℕ
  pub timeout : ℕ

-- The task that calls: its own id, the id of its process, and whether an allocation for it succeeds.
pub record Caller : Type 0 where
  pub pid : ℕ
  pub leader : ℕ
  pub memory : Bool

-- The values that a handler returns: a number of bytes, or the negative of an error number.
pub data Status : Type 0 where
  count : ℕ → Status
  eperm einval eio : Status

unfoldable pub initlist : List TaskInfo
initlist = []

-- Every entry is taken out and freed.
unfoldable pub cleanlist : List TaskInfo → List TaskInfo
cleanlist [] = []
cleanlist (t ∷ ts) = cleanlist ts

-- The loop of `get_err`, which ends at the first entry of the task.
unfoldable pub find_err : ℕ → List TaskInfo → ℕ
find_err pid [] = no_error
find_err pid (t ∷ ts) = if t.pid == pid then t.lasterror else find_err pid ts

unfoldable pub get_err : Caller → List TaskInfo → ℕ
unfolding find_err
get_err c ts = find_err c.pid ts

-- The loop of `store_err`, over all entries; `found` is computed beside it.
unfoldable pub mark_err : (pid lerror : ℕ) → List TaskInfo → List TaskInfo
mark_err pid lerror [] = []
mark_err pid lerror (t ∷ ts) =
    (if t.pid == pid then record t { lasterror = lerror } else t) ∷ mark_err pid lerror ts

unfoldable pub has_task : ℕ → List TaskInfo → Bool
has_task pid [] = false
has_task pid (t ∷ ts) = (t.pid == pid) || has_task pid ts

unfoldable pub store_err : Caller → ℕ → List TaskInfo → Status × List TaskInfo
unfolding mark_err has_task
store_err c lerror ts =
    if lerror == 0
    then (count 0, ts)
    else if has_task c.pid ts
    then (eperm, mark_err c.pid lerror ts)
    else if c.memory
    then (eperm, ts ++ record { pid = c.pid; lasterror = lerror; timeout = 0 } ∷ [])
    else (eperm, ts)

-- The loop of `get_timeout`, which does not end at an entry; `ret` is what the entries before gave.
unfoldable pub last_timeout : (pid ret : ℕ) → List TaskInfo → ℕ
last_timeout pid ret [] = ret
last_timeout pid ret (t ∷ ts) = last_timeout pid (if t.pid == pid then t.timeout else ret) ts

-- The timeout belongs to the process.
unfoldable pub get_timeout : Caller → List TaskInfo → ℕ
unfolding last_timeout
get_timeout c ts = last_timeout c.leader 0 ts

unfoldable pub mark_timeout : (pid timeout : ℕ) → List TaskInfo → List TaskInfo
mark_timeout pid timeout [] = []
mark_timeout pid timeout (t ∷ ts) =
    (if t.pid == pid then record t { timeout = timeout } else t) ∷ mark_timeout pid timeout ts

unfoldable pub store_timeout : Caller → ℕ → List TaskInfo → List TaskInfo
unfolding mark_timeout has_task
store_timeout c timeout ts =
    if has_task c.leader ts
    then mark_timeout c.leader timeout ts
    else if c.memory
    then ts ++ record { pid = c.leader; lasterror = 0; timeout = timeout } ∷ []
    else ts
