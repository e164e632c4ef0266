-- ===== src/Tasks/Tests.antt =====
-- Two threads of a process, and another process.
use nadrvlinux.Prelude.{true, List, [], ◌∷◌, ◌≡◌, refl}
use nadrvlinux.Codes.{no_error, invalid_parameter, function_failed}
use nadrvlinux.Tasks.{Caller, get_err, get_timeout, initlist}
use nadrvlinux.Tasks.Table.{Single}
use nadrvlinux.Tasks.Refinement.{
  Entry, err, timeout, entered, last_err, latest_timeout, entered-Single, entered-Refines,
}

abbrev thread : Caller
thread = record { pid = 12; leader = 10; memory = true }

abbrev other : Caller
other = record { pid = 20; leader = 20; memory = true }

abbrev entries : List Entry
entries =
    err thread function_failed
    ∷ timeout thread 500
    ∷ err other invalid_parameter
    ∷ err thread no_error
    ∷ timeout other 7
    ∷ []

spec_test : last_err 12 no_error entries ≡ function_failed
unfolding last_err
spec_test = refl

timeout_test : latest_timeout 10 0 entries ≡ 500
unfolding latest_timeout
timeout_test = refl

entered-Refines_example :
    (get_err thread (entered entries initlist) ≡ last_err 12 no_error entries)
    × (get_timeout thread (entered entries initlist) ≡ latest_timeout 10 0 entries)
entered-Refines_example = entered-Refines entries thread (refl, (refl, (refl, (refl, (refl, tt)))))

entered-Single_example : Single (entered entries [])
entered-Single_example = entered-Single entries [] tt
