-- ===== src/Classes.antt =====
-- The device classes that each process wants to see: USER_SetDevClassFilter, USER_GetDevClassFilter
-- and USER_ClearDevClassFilter of netanalyzer_kernel_mod/USER_Linux.c.
pub mod Table
pub mod Latest
mod Tests
use nadrvlinux.Prelude.{
  ℕ, bit_and, Bool, true, false, not, ◌||◌, List, [], ◌∷◌, ◌++◌, ◌==◌, if◌then◌else◌,
}
use nadrvlinux.Codes.{no_error, invalid_parameter, function_failed}

-- `APP_PROCESS_T`, an entry of `g_tAppProcessList`
pub record Process : Type 0 where
  pub pid : ℕ
  pub device_class : ℕ

-- `ulInvMask`, the complement of the three classes
abbrev pub inv_mask : ℕ
inv_mask = 0xffff_fff8

unfoldable pub has_process : ℕ → List Process → Bool
has_process pid [] = false
has_process pid (p ∷ ps) = if p.pid == pid then true else has_process pid ps

-- The first entry of the process is written.
unfoldable pub mark_class : (pid filter : ℕ) → List Process → List Process
mark_class pid filter [] = []
mark_class pid filter (p ∷ ps) =
    if p.pid == pid then record p { device_class = filter } ∷ ps else p ∷ mark_class pid filter ps

unfoldable pub is_refused : ℕ → Bool
is_refused filter = not (bit_and filter inv_mask == 0) || (filter == 0)

-- `memory` says whether there is memory for a new entry.
unfoldable pub set_dev_class_filter :
    (memory : Bool) (pid filter : ℕ) → List Process → ℕ × List Process
unfolding has_process mark_class is_refused
set_dev_class_filter memory pid filter ps =
    if is_refused filter
    then (invalid_parameter, ps)
    else if has_process pid ps
    then (no_error, mark_class pid filter ps)
    else if memory
    then (no_error, ps ++ record { pid = pid; device_class = filter } ∷ [])
    else (function_failed, ps)

unfoldable pub get_dev_class_filter : ℕ → List Process → ℕ
get_dev_class_filter pid [] = 0
get_dev_class_filter pid (p ∷ ps) =
    if p.pid == pid then p.device_class else get_dev_class_filter pid ps

unfoldable pub clear_dev_class_filter : ℕ → List Process → List Process
clear_dev_class_filter pid [] = []
clear_dev_class_filter pid (p ∷ ps) = if p.pid == pid then ps else p ∷ clear_dev_class_filter pid ps
