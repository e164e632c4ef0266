-- ===== src/Attributes/Tests.antt =====
-- Writes to the files of a node that is open, and of one that is not.
use nadrvlinux.Prelude.{ℕ, true, if◌then◌else◌, length, arith, List, [], ◌∷◌, some, ◌≡◌, refl}
use nadrvlinux.Codes.{invalid_parameter}
use nadrvlinux.Sample.{sample_system}
use nadrvlinux.Tasks.{TaskInfo, Caller, count, eperm, get_err}
use nadrvlinux.Attributes.{Info}
use nadrvlinux.Attributes.Errors.{voltage, asked, written, written-Answered}
use nadrvlinux.Attributes.Reports.{Answered}
use nadrvlinux.Attributes.DeviceClass.{
  set_device_class, get_device_class, line_of, device_class-written,
}
use nadrvlinux.Text.{
  signed, sprintf, sscanf, scan_one, scan_signed, skip_spaces, scan_digits, digit_value,
}
use nadrvlinux.Classes.{set_dev_class_filter}
use nadrvlinux.Classes.Latest.{Choice, chosen, made, takes, latest_class}

abbrev caller : Caller
caller = record { pid = 12; leader = 10; memory = true }

abbrev node : Info
node = record {
  tasks = [];
  is_open = true;
  maska = [];
  vala = [];
  maskb = [];
  valb = [];
  identinfoblock = [];
}

-- "1 2": no such voltage.
abbrev no_voltage : List ℕ
no_voltage = 0x31 ∷ 0x20 ∷ 0x32 ∷ []

refused_test :
    written voltage caller no_voltage node sample_system
    ≡ some (
      (
        eperm,
        record node {
          tasks = record { pid = 12; lasterror = invalid_parameter; timeout = 0 } ∷ [];
        },
      ),
      sample_system,
    )
unfolding nadrvlinux.Attributes.set_gpiovoltage nadrvlinux.Text.sscanf nadrvlinux.Text.scan_one
    nadrvlinux.Text.scan_signed nadrvlinux.Text.skip_spaces nadrvlinux.Text.scan_digits
    nadrvlinux.Text.digit_value nadrvlinux.Tasks.store_err nadrvlinux.Tasks.has_task
refused_test = refl

written-Answered_example :
    Answered caller []
      (length no_voltage)
      (asked voltage caller no_voltage node sample_system)
      (written voltage caller no_voltage node sample_system)
written-Answered_example = written-Answered voltage caller no_voltage node sample_system refl

-- "3", after the process had chosen 2 and another one 4.
abbrev earlier : List Choice
earlier = chosen true 10 2 ∷ chosen true 11 4 ∷ []

device_class_test :
    (set_device_class caller (0x33 ∷ 0x0a ∷ []) node (made earlier [])).0 ≡ (count 2, node)
unfolding set_device_class made sscanf scan_one scan_signed skip_spaces scan_digits
    set_dev_class_filter
device_class_test = refl

device_class-written_example :
    let old = latest_class 10 0 earlier in
    let buf = sprintf (signed ∷ []) (3 ∷ []) (0x0a ∷ []) in
    let ((status, t'), ps') = set_device_class caller buf node (made earlier []) in
    (status ≡ (if takes true old 3 then count (length buf) else eperm))
    × (get_device_class caller ps' ≡ line_of (if takes true old 3 then 3 else old))
unfolding digit_value
device_class-written_example =
    device_class-written caller earlier 3 (0x0a ∷ []) node (omega arith, (omega arith, tt))
      (omega arith) refl
