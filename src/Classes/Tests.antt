-- ===== src/Classes/Tests.antt =====
-- Processes that choose device classes, one of them without memory for a new entry.
use nadrvlinux.Prelude.{◌≤◌, true, false, List, [], ◌∷◌, ◌==◌, if◌then◌else◌, ◌≡◌, refl, arith}
use nadrvlinux.Codes.{no_error}
use nadrvlinux.Classes.{
  set_dev_class_filter, get_dev_class_filter, has_process, mark_class, is_refused,
  clear_dev_class_filter,
}
use nadrvlinux.Classes.Latest.{Choice, chosen, cleared, made, latest_class, made-Chosen}

abbrev choices : List Choice
choices = chosen true 1 2 ∷ chosen false 7 4 ∷ cleared 1 ∷ chosen true 1 5 ∷ chosen true 3 9 ∷ []

choices_test : get_dev_class_filter 1 (made choices []) ≡ 5
unfolding get_dev_class_filter made set_dev_class_filter has_process mark_class is_refused
    clear_dev_class_filter
choices_test = refl

made-Chosen_example :
    let ps = made choices [] in
    let (code, ps') = set_dev_class_filter false 1 4 ps in
    (get_dev_class_filter 1 ps ≡ latest_class 1 0 choices)
    × (get_dev_class_filter 1 ps' ≡ (if code == no_error then 4 else latest_class 1 0 choices))
    × (code ≡ no_error → (1 ≤ 4) × (4 ≤ 7))
made-Chosen_example =
    made-Chosen 1 choices false 4 (omega arith, (omega arith, (omega arith, (omega arith, tt))))
      (omega arith)
