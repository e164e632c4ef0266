-- ===== src/Management/Tests.antt =====
-- A process that wants to see the netSCOPE devices.
use nadrvlinux.Prelude.{true, false, some, none, [], ◌∷◌, if◌then◌else◌, ◌≡◌, refl}
use nadrvlinux.Codes.{no_error, access_denied}
use nadrvlinux.Sample.{sample_device}
use nadrvlinux.Registry.{enum_device}
use nadrvlinux.Management.{
  Input, Managed, cmd_set_dev_class_filter, cmd_get_dev_feature, exec_cmd, features,
}
use nadrvlinux.Management.Shown.{belongs, seen_by, exec_cmd-Shown}

abbrev wanted : Input
wanted = record { device = []; handle = 0; class = 6 }

abbrev managed : Managed
managed = record {
  cards = sample_device ∷ [];
  processes = record { pid = 7; device_class = 1 } ∷ [];
}

features_test :
    exec_cmd
      (λ a b. true)
      true
      7
      cmd_get_dev_feature
      (some wanted)
      8
      true
      (9 ∷ 9 ∷ 9 ∷ 9 ∷ 9 ∷ 9 ∷ [])
      5
      managed
    ≡ (no_error, 0 ∷ 0 ∷ 0 ∷ 0 ∷ 0 ∷ 9 ∷ [], managed)
unfolding exec_cmd features
features_test = refl

exec_cmd-Shown_example :
    let (code, output', g') =
      exec_cmd (λ a b. true) true 7 cmd_set_dev_class_filter (some wanted) 4 false [] 0 managed in
    let (found, shown, after) = enum_device 0 (seen_by 7 g') in
    (code ≡ no_error)
    × (found ≡ (if belongs false true true sample_device then no_error else access_denied))
    × (shown ≡ (if belongs false true true sample_device then some sample_device else none))
exec_cmd-Shown_example =
    exec_cmd-Shown (λ a b. true) 7 0 wanted [] managed sample_device false true true refl refl refl
